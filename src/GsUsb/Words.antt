-- ===== src/GsUsb/Words.antt =====
-- Little-endian words within an array.
use can_lite.Base.{
  ℕ, zero, suc, ◌+◌, ◌*◌, ◌≤◌, ◌<◌, ◌≡◌, ◌≢◌, ◌⊎◌, refl, ap, ◌∙◌, List, [], ◌∷◌, arith, length,
  length-set, get_or, set, take, drop, bit_or,
}
use can_lite.Base.Bits.{shl, shr, u8, u32, bit_or_low}
use can_lite.GsUsb.{read_little_endian, write_little_endian, copy}

pub get_or-set_self : (bytes : List ℕ) (i v : ℕ) → i < length bytes → get_or (set bytes i v) i 0 ≡ v
get_or-set_self [] i v h = absurd (omega arith)
get_or-set_self (b ∷ bytes) zero v h = refl
get_or-set_self (b ∷ bytes) (suc i) v h = get_or-set_self bytes i v (omega arith)

pub get_or-set_ne :
    (bytes : List ℕ) (i j v : ℕ) → i ≢ j → get_or (set bytes i v) j 0 ≡ get_or bytes j 0
get_or-set_ne [] i j v h = refl
get_or-set_ne (b ∷ bytes) zero zero v h = absurd (h refl)
get_or-set_ne (b ∷ bytes) zero (suc j) v h = refl
get_or-set_ne (b ∷ bytes) (suc i) zero v h = refl
get_or-set_ne (b ∷ bytes) (suc i) (suc j) v h = get_or-set_ne bytes i j v (λ e. h (ap suc e))

pub length-write_little_endian :
    (bytes : List ℕ) (offset value : ℕ)
    → length (write_little_endian bytes offset value) ≡ length bytes
unfolding write_little_endian
length-write_little_endian bytes offset value =
    length-set _ (offset + 3) _
    ∙ length-set _ (offset + 2) _
    ∙ length-set _ (offset + 1) _
    ∙ length-set bytes (offset + 0) _

-- Bytes outside the word are left alone.
pub get_or-write_little_endian :
    (bytes : List ℕ) (offset value j : ℕ)
    → (offset + 4 ≤ j) ⊎ (j < offset)
    → get_or (write_little_endian bytes offset value) j 0 ≡ get_or bytes j 0
unfolding write_little_endian
get_or-write_little_endian bytes offset value j h =
    get_or-set_ne _ (offset + 3) j _ (λ e. grind arith)
    ∙ get_or-set_ne _ (offset + 2) j _ (λ e. grind arith)
    ∙ get_or-set_ne _ (offset + 1) j _ (λ e. grind arith)
    ∙ get_or-set_ne bytes (offset + 0) j _ (λ e. grind arith)

-- The number that four bytes make.
read_bytes :
    (bytes : List ℕ) (offset a b c d : ℕ)
    → get_or bytes offset 0 ≡ a
    → get_or bytes (offset + 1) 0 ≡ b
    → get_or bytes (offset + 2) 0 ≡ c
    → get_or bytes (offset + 3) 0 ≡ d
    → a < 256
    → b < 256
    → c < 256
    → d < 256
    → read_little_endian bytes offset ≡ a + 256 * b + 65536 * c + 16777216 * d
unfolding read_little_endian
read_bytes bytes offset a b c d ea eb ec ed sa sb sc sd =
    rw (ea, eb, ec, ed)
      (bit_or_low 24 (u32 (shl d 24)) (bit_or (bit_or a (u32 (shl b 8))) (u32 (shl c 16)))
          (omega arith) (omega (arith, lower))
        ∙ omega (arith, lower))
  where
    lowest : bit_or a (u32 (shl b 8)) ≡ a + 256 * b
    lowest = bit_or_low 8 (u32 (shl b 8)) a (omega arith) (omega arith) ∙ omega arith

    lower : bit_or (bit_or a (u32 (shl b 8))) (u32 (shl c 16)) ≡ a + 256 * b + 65536 * c
    lower =
        bit_or_low 16 (u32 (shl c 16)) (bit_or a (u32 (shl b 8))) (omega arith)
          (omega (arith, lowest))
        ∙ omega (arith, lowest)

-- A word that was written is read back.
pub read-write_little_endian :
    (bytes : List ℕ) (offset value : ℕ)
    → offset + 4 ≤ length bytes
    → value < 4294967296
    → read_little_endian (write_little_endian bytes offset value) offset ≡ value
unfolding write_little_endian
read-write_little_endian bytes offset value room small =
    let b0 = set bytes (offset + 0) (u8 (shr value 0)) in
    let b1 = set b0 (offset + 1) (u8 (shr value 8)) in
    let b2 = set b1 (offset + 2) (u8 (shr value 16)) in
    let l0 = length-set bytes (offset + 0) (u8 (shr value 0)) in
    let l1 = length-set b0 (offset + 1) (u8 (shr value 8)) in
    let l2 = length-set b1 (offset + 2) (u8 (shr value 16)) in
    read_bytes (write_little_endian bytes offset value) offset (u8 (shr value 0)) (u8 (shr value 8))
      (u8 (shr value 16)) (u8 (shr value 24))
      (get_or-set_ne b2 (offset + 3) offset _ (λ e. omega arith)
        ∙ get_or-set_ne b1 (offset + 2) offset _ (λ e. omega arith)
        ∙ get_or-set_ne b0 (offset + 1) offset _ (λ e. omega arith)
        ∙ ap (λ (n : ℕ). get_or b0 n 0) {x = offset} {y = offset + 0} (omega arith)
        ∙ get_or-set_self bytes (offset + 0) _ (omega arith))
      (get_or-set_ne b2 (offset + 3) (offset + 1) _ (λ e. omega arith)
        ∙ get_or-set_ne b1 (offset + 2) (offset + 1) _ (λ e. omega arith)
        ∙ get_or-set_self b0 (offset + 1) _ (omega (arith, l0)))
      (get_or-set_ne b2 (offset + 3) (offset + 2) _ (λ e. omega arith)
        ∙ get_or-set_self b1 (offset + 2) _ (omega (arith, l0, l1)))
      (get_or-set_self b2 (offset + 3) _ (omega (arith, l0, l1, l2))) (omega arith) (omega arith)
      (omega arith) (omega arith)
    ∙ omega arith

drop_next : (xs : List ℕ) (i : ℕ) → i < length xs → drop i xs ≡ get_or xs i 0 ∷ drop (suc i) xs
drop_next [] i h = absurd (omega arith)
drop_next (x ∷ xs) zero h = refl
drop_next (x ∷ xs) (suc i) h = drop_next xs i (omega arith)

pub get_or-copy :
    (bytes : List ℕ) (offset : ℕ) (content : List ℕ) (j : ℕ)
    → j < offset
    → get_or (copy bytes offset content) j 0 ≡ get_or bytes j 0
unfolding copy
get_or-copy bytes offset [] j h = refl
get_or-copy bytes offset (byte ∷ content) j h =
    get_or-copy (set bytes offset byte) (offset + 1) content j (omega arith)
    ∙ get_or-set_ne bytes offset j byte (λ e. omega arith)

pub length-copy :
    (bytes : List ℕ) (offset : ℕ) (content : List ℕ)
    → length (copy bytes offset content) ≡ length bytes
unfolding copy
length-copy bytes offset [] = refl
length-copy bytes offset (byte ∷ content) =
    length-copy (set bytes offset byte) (offset + 1) content ∙ length-set bytes offset byte

-- What is copied to the end of an array is there, and what is before it stays.
pub drop-copy :
    (bytes : List ℕ) (offset : ℕ) (content : List ℕ)
    → offset + length content ≤ length bytes
    → take (length content) (drop offset (copy bytes offset content)) ≡ content
unfolding copy
drop-copy bytes offset [] room = refl
drop-copy bytes offset (byte ∷ content) room =
    let xs = copy (set bytes offset byte) (offset + 1) content in
    let at : get_or xs offset 0 ≡ byte =
      get_or-copy (set bytes offset byte) (offset + 1) content offset (omega arith)
      ∙ get_or-set_self bytes offset byte (omega arith) in
    let short : offset < length xs = omega (
      arith,
      length-copy (set bytes offset byte) (offset + 1) content,
      length-set bytes offset byte,
    ) in
    ap (take (suc (length content))) (drop_next xs offset short)
    ∙ ap (λ (b : ℕ). b ∷ take (length content) (drop (suc offset) xs)) at
    ∙ ap (λ (l : List ℕ). byte ∷ l)
        (ap (λ (n : ℕ). take (length content) (drop n xs)) {x = suc offset} {y = offset + 1}
            (omega arith)
          ∙ drop-copy (set bytes offset byte) (offset + 1) content
              (omega (arith, length-set bytes offset byte)))

-- Only four bytes are read.
pub read_same :
    (bytes other : List ℕ) (offset : ℕ)
    → ((j : ℕ) → offset ≤ j → j < offset + 4 → get_or bytes j 0 ≡ get_or other j 0)
    → read_little_endian bytes offset ≡ read_little_endian other offset
unfolding read_little_endian
read_same bytes other offset same =
    rw
      (
        same offset (omega arith) (omega arith),
        same (offset + 1) (omega arith) (omega arith),
        same (offset + 2) (omega arith) (omega arith),
        same (offset + 3) (omega arith) (omega arith),
      )
      refl
