-- ===== src/Codec/Append.antt =====
-- Writing at the end of a message, as `CanPayloadWriter` does.
use can_lite.Base.{
  ℕ, zero, suc, ◌+◌, ◌/◌, ◌%◌, ◌≤◌, ◌^◌, ◌≡◌, refl, ap, ◌∙◌, true, List, [], ◌∷◌, ◌++◌, arith,
  length, get_or, set, replicate, bit_and,
}
use can_lite.Base.Bits.{u8, bit_and_mask}
use can_lite.Codec.{Message, pad, store16, store32, write_uint16, write_uint32}
use can_lite.Codec.Bytes.{pad_lem, grow_fits}

set-append :
    (xs ys : List ℕ) (i k v : ℕ) → i ≡ length xs + k → set (xs ++ ys) i v ≡ xs ++ set ys k v
set-append [] ys i k v e = ap (λ (n : ℕ). set ys n v) (omega arith)
set-append (x ∷ xs) ys zero k v e = absurd (omega arith)
set-append (x ∷ xs) ys (suc i) k v e = ap (◌∷◌ x) (set-append xs ys i k v (omega arith))

pub get_or-append :
    (xs ys : List ℕ) (i k : ℕ) → i ≡ length xs + k → get_or (xs ++ ys) i 0 ≡ get_or ys k 0
get_or-append [] ys i k e = ap (λ (n : ℕ). get_or ys n 0) (omega arith)
get_or-append (x ∷ xs) ys zero k e = absurd (omega arith)
get_or-append (x ∷ xs) ys (suc i) k e = get_or-append xs ys i k (omega arith)

pad_end :
    (msg : Message) (width : ℕ)
    → pad (length msg + width) (length msg + width) msg ≡ msg ++ replicate width 0
pad_end msg width =
    pad_lem (length msg + width) (length msg + width) msg (omega arith)
    ∙ ap (λ (k : ℕ). msg ++ replicate k 0) (omega arith)

-- The big-endian bytes.
abbrev pub bytes16 : ℕ → List ℕ
bytes16 value = (value / 256 % 256) ∷ (value % 256) ∷ []

abbrev pub bytes32 : ℕ → List ℕ
bytes32 value =
    (value / 16777216 % 256) ∷ (value / 65536 % 256) ∷ (value / 256 % 256) ∷ (value % 256) ∷ []

store16_end :
    (msg : Message) (value : ℕ)
    → store16 (msg ++ replicate 2 0) (length msg) value ≡ msg ++ bytes16 value
unfolding store16
store16_end msg value =
    rw
      (
        set-append msg (0 ∷ 0 ∷ []) (length msg) 0 (u8 (value / 2 ^ 8)) (omega arith),
        set-append msg (u8 (value / 2 ^ 8) ∷ 0 ∷ []) (length msg + 1) 1 (u8 (bit_and value 0xFF))
            refl,
        bit_and_mask 8 value,
      )
      (ap (λ (b : ℕ). msg ++ (value / 256 % 256) ∷ b ∷ []) (omega arith))

store32_end :
    (msg : Message) (value : ℕ)
    → store32 (msg ++ replicate 4 0) (length msg) value ≡ msg ++ bytes32 value
unfolding store32
store32_end msg value =
    let b0 = u8 (bit_and (value / 2 ^ 24) 0xFF) in
    let b1 = u8 (bit_and (value / 2 ^ 16) 0xFF) in
    let b2 = u8 (bit_and (value / 2 ^ 8) 0xFF) in
    let b3 = u8 (bit_and value 0xFF) in
    rw
      (
        set-append msg (0 ∷ 0 ∷ 0 ∷ 0 ∷ []) (length msg) 0 b0 (omega arith),
        set-append msg (b0 ∷ 0 ∷ 0 ∷ 0 ∷ []) (length msg + 1) 1 b1 refl,
        set-append msg (b0 ∷ b1 ∷ 0 ∷ 0 ∷ []) (length msg + 2) 2 b2 refl,
        set-append msg (b0 ∷ b1 ∷ b2 ∷ 0 ∷ []) (length msg + 3) 3 b3 refl,
      )
      (ap (◌++◌ msg) (
        same (omega (arith, bit_and_mask 8 (value / 2 ^ 24)))
          (omega (arith, bit_and_mask 8 (value / 2 ^ 16)))
          (omega (arith, bit_and_mask 8 (value / 2 ^ 8))) (omega (arith, bit_and_mask 8 value))))
  where
    same :
        {a b c d a' b' c' d' : ℕ}
        → a ≡ a'
        → b ≡ b'
        → c ≡ c'
        → d ≡ d'
        → a ∷ b ∷ c ∷ d ∷ [] ≡ a' ∷ b' ∷ c' ∷ d' ∷ []
    same p q r s = cc

pub write_uint16_end :
    (max_size : ℕ) (msg : Message) (value : ℕ)
    → length msg + 2 ≤ max_size
    → write_uint16 max_size msg (length msg) value ≡ (msg ++ bytes16 value, true)
unfolding write_uint16
write_uint16_end max_size msg value h = rw (grow_fits max_size msg (length msg) 2 h) (
    ap (λ (m : Message). (store16 m (length msg) value, true)) (pad_end msg 2)
    ∙ ap (λ (m : Message). (m, true)) (store16_end msg value))

pub write_uint32_end :
    (max_size : ℕ) (msg : Message) (value : ℕ)
    → length msg + 4 ≤ max_size
    → write_uint32 max_size msg (length msg) value ≡ (msg ++ bytes32 value, true)
unfolding write_uint32
write_uint32_end max_size msg value h = rw (grow_fits max_size msg (length msg) 4 h) (
    ap (λ (m : Message). (store32 m (length msg) value, true)) (pad_end msg 4)
    ∙ ap (λ (m : Message). (m, true)) (store32_end msg value))
