-- ===== src/Slcan/Hex.antt =====
-- Numbers in hexadecimal, as `AppendHex` writes and `ParseHex` reads them.
use native.Mathlib.Nat.{
  pow-suc, one-le-pow, div-add-mod, mul-add-mod_self_left, mod-eq_of_lt, mod-lt, mul-le-mul_right,
}
use can_lite.Base.{
  ℕ, zero, suc, ◌+◌, ◌*◌, ◌/◌, ◌%◌, ◌^◌, ◌≤◌, ◌<◌, ◌≡◌, refl, sym, ap, ◌∙◌, subst, false, some,
  List, [], ◌∷◌, ◌++◌, arith, length, get_or, take, drop, length-append, take-append, drop-append,
  bit_and, bit_or, ltb,
}
use mathlib.Core.List.{append_assoc, append-nil}
use can_lite.Base.Bits.{shl, shr, u32, bit_and_mask, bit_or_disjoint}
use can_lite.Slcan.{hex_digit, hex_digits, parse_digits, parse_hex, append_hex}

-- The text of the last digits of a number.
unfoldable pub hex_text : ℕ → ℕ → List ℕ
hex_text value zero = []
hex_text value (suc index) =
    get_or hex_digits (bit_and (shr value (4 * index)) 0xF) 0 ∷ hex_text value index

pub append_hex_lem :
    (out : List ℕ) (value digits : ℕ) → append_hex out value digits ≡ out ++ hex_text value digits
unfolding append_hex hex_text
append_hex_lem out value zero = sym (append-nil out)
append_hex_lem out value (suc index) =
    append_hex_lem (out ++ get_or hex_digits (bit_and (shr value (4 * index)) 0xF) 0 ∷ []) value
      index
    ∙ append_assoc out _ _

pub length-hex_text : (value digits : ℕ) → length (hex_text value digits) ≡ digits
unfolding hex_text
length-hex_text value zero = refl
length-hex_text value (suc index) = ap suc (length-hex_text value index)

pub hex_digit-digits : (d : ℕ) → d < 16 → hex_digit (get_or hex_digits d 0) ≡ some d
unfolding hex_digit
hex_digit-digits zero h = refl
hex_digit-digits (suc zero) h = refl
hex_digit-digits (suc (suc zero)) h = refl
hex_digit-digits (suc (suc (suc zero))) h = refl
hex_digit-digits (suc (suc (suc (suc zero)))) h = refl
hex_digit-digits (suc (suc (suc (suc (suc zero))))) h = refl
hex_digit-digits (suc (suc (suc (suc (suc (suc zero)))))) h = refl
hex_digit-digits (suc (suc (suc (suc (suc (suc (suc zero))))))) h = refl
hex_digit-digits (suc (suc (suc (suc (suc (suc (suc (suc zero)))))))) h = refl
hex_digit-digits (suc (suc (suc (suc (suc (suc (suc (suc (suc zero))))))))) h = refl
hex_digit-digits (suc (suc (suc (suc (suc (suc (suc (suc (suc (suc zero)))))))))) h = refl
hex_digit-digits (suc (suc (suc (suc (suc (suc (suc (suc (suc (suc (suc zero))))))))))) h = refl
hex_digit-digits (suc (suc (suc (suc (suc (suc (suc (suc (suc (suc (suc (suc zero)))))))))))) h =
    refl
hex_digit-digits (suc (suc (suc (suc (suc (suc (suc (suc (suc (suc (suc (suc (suc zero)))))))))))))
      h =
    refl
hex_digit-digits
      (suc (suc (suc (suc (suc (suc (suc (suc (suc (suc (suc (suc (suc (suc zero)))))))))))))) h =
    refl
hex_digit-digits
      (suc (suc (suc (suc (suc (suc (suc (suc (suc (suc (suc (suc (suc (suc (suc zero)))))))))))))))
      h =
    refl
hex_digit-digits
      (suc
        (suc (suc (suc (suc (suc (suc (suc (suc (suc (suc (suc (suc (suc (suc (suc d))))))))))))))))
      h =
    absurd (omega arith)

regroup : (p q k d r : ℕ) → q ≡ 16 * k + d → p * q + r ≡ p * 16 * k + (p * d + r)
regroup p q k d r e = rw e (grind arith)

-- The last digit but `i`, and the last `i`.
split_mod : (p v : ℕ) → 0 < p → v % (p * 16) ≡ v / p % 16 * p + v % p
split_mod p v pos =
    let k = v / p / 16 in
    let rest = p * (v / p % 16) + v % p in
    let whole : v ≡ p * 16 * k + rest =
      sym (div-add-mod v p) ∙ regroup p (v / p) k (v / p % 16) (v % p) (omega arith) in
    let small : rest < p * 16 = grind (arith, mod-lt v pos, mod-lt (v / p) {m = 16}) in
    ap (λ (n : ℕ). n % (p * 16)) whole
    ∙ mul-add-mod_self_left (p * 16) k rest
    ∙ mod-eq_of_lt small
    ∙ omega arith

pow16 : (i : ℕ) → 2 ^ (4 * suc i) ≡ 2 ^ (4 * i) * 16
pow16 i =
    let up : 4 * suc i ≡ suc (suc (suc (suc (4 * i)))) = omega arith in
    ap (λ (n : ℕ). 2 ^ n) up
    ∙ omega (
      arith,
      pow-suc 2 (4 * i),
      pow-suc 2 (suc (4 * i)),
      pow-suc 2 (suc (suc (4 * i))),
      pow-suc 2 (suc (suc (suc (4 * i)))),
    )

merge : (acc d p x : ℕ) → (acc * 16 + d) * p + x ≡ acc * (p * 16) + (d * p + x)
merge acc d p x = grind arith

room_left : (acc d p n : ℕ) → d < 16 → (acc + 1) * (p * 16) ≤ n → (acc * 16 + d + 1) * p ≤ n
room_left acc d p n small room =
    let more : (acc * 16 + d + 1) * p ≤ (acc * 16 + 16) * p = mul-le-mul_right p (omega arith) in
    let expanded : (acc + 1) * (p * 16) ≡ acc * (p * 16) + p * 16 = grind arith in
    omega (arith, merge acc 16 p 0)

acc_small : (acc p n : ℕ) → 0 < p → (acc + 1) * (p * 16) ≤ n → acc * 16 < n
acc_small acc p n pos room = grind arith

pub parse_digits_cons :
    (acc character digit : ℕ) (text : List ℕ)
    → hex_digit character ≡ some digit
    → parse_digits acc (character ∷ text) ≡ parse_digits (bit_or (u32 (shl acc 4)) digit) text
unfolding parse_digits
parse_digits_cons acc character digit text e = ground (arith, e)

-- The digits read behind `value` make the number go on.
parse_digits-hex_text :
    (acc value digits : ℕ)
    → (acc + 1) * 2 ^ (4 * digits) ≤ 4294967296
    → (rest : List ℕ)
    → parse_digits acc (hex_text value digits ++ rest)
      ≡ parse_digits (acc * 2 ^ (4 * digits) + value % 2 ^ (4 * digits)) rest
unfolding hex_text parse_digits
parse_digits-hex_text acc value zero bound rest = ap (λ (n : ℕ). parse_digits n rest) (omega arith)
parse_digits-hex_text acc value (suc index) bound rest =
    let p = 2 ^ (4 * index) in
    let d = value / p % 16 in
    let pos : 0 < p = omega (arith, one-le-pow (4 * index) 2) in
    let digit : bit_and (shr value (4 * index)) 0xF ≡ d = bit_and_mask 4 (shr value (4 * index)) in
    let room : (acc + 1) * (p * 16) ≤ 4294967296 =
      subst (λ (n : ℕ). (acc + 1) * n ≤ 4294967296) (pow16 index) bound in
    let small : acc * 16 < 4294967296 = acc_small acc p 4294967296 pos room in
    let next : bit_or (u32 (shl acc 4)) d ≡ acc * 16 + d =
      ap (λ (n : ℕ). bit_or n d) {x = u32 (shl acc 4)} {y = shl acc 4} (omega arith)
      ∙ bit_or_disjoint 4 acc d (omega arith) in
    let found : hex_digit (get_or hex_digits (bit_and (shr value (4 * index)) 0xF) 0) ≡ some d =
      ap (λ (n : ℕ). hex_digit (get_or hex_digits n 0)) digit ∙ hex_digit-digits d (omega arith) in
    parse_digits_cons acc _ d (hex_text value index ++ rest) found
    ∙ ap (λ (n : ℕ). parse_digits n (hex_text value index ++ rest)) next
    ∙ parse_digits-hex_text (acc * 16 + d) value index
        (room_left acc d p 4294967296 (omega arith) room) rest
    ∙ ap (λ (n : ℕ). parse_digits n rest)
        (merge acc d p (value % p)
          ∙ ap (λ (n : ℕ). acc * (p * 16) + n) (sym (split_mod p value pos))
          ∙ ap (λ (n : ℕ). acc * n + value % n) (sym (pow16 index)))

-- Text in front is skipped, text behind is left alone.
pub parse_hex-hex_text :
    (before after : List ℕ) (value digits : ℕ)
    → 2 ^ (4 * digits) ≤ 4294967296
    → parse_hex (before ++ (hex_text value digits ++ after)) (length before) digits
      ≡ some (value % 2 ^ (4 * digits))
unfolding parse_hex
parse_hex-hex_text before after value digits bound =
    let text = hex_text value digits in
    let long : ltb (length (before ++ (text ++ after))) (length before + digits) ≡ false = ground (
      arith,
      length-append before (text ++ after),
      length-append text after,
      length-hex_text value digits,
    ) in
    let cut : take digits (drop (length before) (before ++ (text ++ after))) ≡ text ++ [] =
      ap (take digits) (drop-append before (text ++ after))
      ∙ ap (λ (n : ℕ). take n (text ++ after)) (sym (length-hex_text value digits))
      ∙ take-append text after
      ∙ sym (append-nil text) in
    rw long (
      ap (parse_digits 0) cut
      ∙ parse_digits-hex_text 0 value digits (omega arith) []
      ∙ unfold parse_digits in ap some (omega arith))
