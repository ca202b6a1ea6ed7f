-- ===== src/Codec/Bytes.antt =====
-- can-lite/core/CanFrameCodec.cpp: the single bytes of a message that grows and of a number.
use can_lite.Base.{
  ℕ, zero, suc, ◌+◌, ◌-◌, ◌*◌, ◌/◌, ◌%◌, ◌≤◌, ◌<◌, ◌≡◌, refl, sym, ap, ◌∙◌, true, false, inl, inr,
  List, [], ◌∷◌, ◌++◌, arith, length, get_or, set, replicate, length-append, length-replicate, ltb,
  if◌then◌else◌, Bool-cases, tests, ltb→lt, le→leb, bit_or, ◌==◌,
}
use mathlib.Core.List.{append_assoc, append-nil}
use can_lite.Base.Bits.{shl, bit_or_add}
use can_lite.Codec.{Message, pad, grow, readable, read_uint16, read_uint32}

-- The loop ends by its test, with as many zeros as are missing.
pub pad_lem :
    (rounds target : ℕ) (msg : Message)
    → target - length msg ≤ rounds
    → pad rounds target msg ≡ msg ++ replicate (target - length msg) 0
unfolding pad
pad_lem zero target msg h =
    sym (ap (λ (k : ℕ). msg ++ replicate {A = ℕ} k 0) {y = 0} (omega arith) ∙ append-nil msg)
pad_lem (suc rounds) target msg h = elim (Bool-cases (ltb (length msg) target)) [
  | inl short ↦ rw short (
      pad_lem rounds target (msg ++ 0 ∷ [])
        (omega (tests, length-append msg (0 ∷ []), ltb→lt _ _ short))
      ∙ regroup (omega (tests, length-append msg (0 ∷ []), ltb→lt _ _ short)))
  | inr long ↦
      rw long
        (sym (ap (λ (k : ℕ). msg ++ replicate {A = ℕ} k 0) {y = 0} (omega tests) ∙ append-nil msg))
]
  where
    regroup :
        target - length msg ≡ suc (target - length (msg ++ 0 ∷ []))
        → (msg ++ 0 ∷ []) ++ replicate {A = ℕ} (target - length (msg ++ 0 ∷ [])) 0
          ≡ msg ++ replicate {A = ℕ} (target - length msg) 0
    regroup e = rw e (append_assoc msg (0 ∷ []) _)

pub length-pad :
    (rounds target : ℕ) (msg : Message)
    → target - length msg ≤ rounds
    → length (pad rounds target msg) ≡ length msg + (target - length msg)
length-pad rounds target msg h = rw (pad_lem rounds target msg h) (
    length-append msg (replicate (target - length msg) 0)
    ∙ ap (λ (k : ℕ). length msg + k) (length-replicate (target - length msg) 0))

get_or-replicate : (k i : ℕ) → get_or (replicate {A = ℕ} k 0) i 0 ≡ 0
get_or-replicate zero i = refl
get_or-replicate (suc k) zero = refl
get_or-replicate (suc k) (suc i) = get_or-replicate k i

get_or-append_zeros :
    (k : ℕ) (xs : List ℕ) (i : ℕ) → get_or (xs ++ replicate k 0) i 0 ≡ get_or xs i 0
get_or-append_zeros k [] i = get_or-replicate k i
get_or-append_zeros k (x ∷ xs) zero = refl
get_or-append_zeros k (x ∷ xs) (suc i) = get_or-append_zeros k xs i

-- The bytes that the loop adds are those that a read beyond the end gives.
pub get_or-pad :
    (rounds target i : ℕ) (msg : Message)
    → target - length msg ≤ rounds
    → get_or (pad rounds target msg) i 0 ≡ get_or msg i 0
get_or-pad rounds target i msg h =
    rw (pad_lem rounds target msg h) (get_or-append_zeros (target - length msg) msg i)

pub get_or-set :
    (xs : List ℕ) (i v j : ℕ)
    → i < length xs
    → get_or (set xs i v) j 0 ≡ (if i == j then v else get_or xs j 0)
get_or-set [] i v j h = absurd (omega arith)
get_or-set (x ∷ xs) zero v zero h = refl
get_or-set (x ∷ xs) zero v (suc j) h = ground arith
get_or-set (x ∷ xs) (suc i) v zero h = ground arith
get_or-set (x ∷ xs) (suc i) v (suc j) h = ground (arith, get_or-set xs i v j (omega arith))

readable_lem :
    (msg : Message) (offset width : ℕ)
    → offset + width ≤ length msg
    → readable msg offset width ≡ true
unfolding readable
readable_lem msg offset width h =
    rw (le→leb offset (length msg) (omega arith)) (le→leb _ _ (omega arith))

join16 : (b0 b1 : ℕ) → b0 < 256 → b1 < 256 → bit_or (shl b0 8) b1 ≡ b0 * 256 + b1
join16 b0 b1 h0 h1 = bit_or_add 8 (b0 * 256) b1 (omega arith) h1

join32 :
    (b0 b1 b2 b3 : ℕ)
    → b1 < 256
    → b2 < 256
    → b3 < 256
    → bit_or (bit_or (bit_or (shl b0 24) (shl b1 16)) (shl b2 8)) b3
      ≡ b0 * 16777216 + b1 * 65536 + b2 * 256 + b3
join32 b0 b1 b2 b3 h1 h2 h3 =
    rw
      (
        bit_or_add 24 (b0 * 16777216) (b1 * 65536) (omega arith) (omega arith),
        bit_or_add 16 (b0 * 16777216 + b1 * 65536) (b2 * 256) (omega arith) (omega arith),
        bit_or_add 8 (b0 * 16777216 + b1 * 65536 + b2 * 256) b3 (omega arith) h3,
      )
      refl

-- Two bytes read back as the number they were split from.
pub read_uint16_lem :
    (msg : Message) (offset value : ℕ)
    → offset + 2 ≤ length msg
    → value < 65536
    → get_or msg offset 0 ≡ value / 256
    → get_or msg (offset + 1) 0 ≡ value % 256
    → read_uint16 msg offset ≡ value
unfolding read_uint16
read_uint16_lem msg offset value h v hi lo =
    rw
      (
        hi,
        lo,
        readable_lem msg offset 2 h,
        join16 (value / 256) (value % 256) (omega arith) (omega arith),
      )
      (omega arith)

-- Four bytes read back as the number they were split from.
pub read_uint32_lem :
    (msg : Message) (offset value : ℕ)
    → offset + 4 ≤ length msg
    → get_or msg offset 0 ≡ value / 16777216
    → get_or msg (offset + 1) 0 ≡ value / 65536 % 256
    → get_or msg (offset + 2) 0 ≡ value / 256 % 256
    → get_or msg (offset + 3) 0 ≡ value % 256
    → read_uint32 msg offset ≡ value
unfolding read_uint32
read_uint32_lem msg offset value h b0 b1 b2 b3 =
    rw
      (
        b0,
        b1,
        b2,
        b3,
        readable_lem msg offset 4 h,
        join32 (value / 16777216) (value / 65536 % 256) (value / 256 % 256) (value % 256)
            (omega arith) (omega arith) (omega arith),
      )
      (omega arith)

pub grow_fits :
    (max_size : ℕ) (msg : Message) (offset width : ℕ)
    → offset + width ≤ max_size
    → grow max_size msg offset width ≡ (pad (offset + width) (offset + width) msg, true)
unfolding grow
grow_fits max_size msg offset width h = ground arith

pub grow_refuses :
    (max_size : ℕ) (msg : Message) (offset width : ℕ)
    → max_size < offset + width
    → grow max_size msg offset width ≡ (msg, false)
unfolding grow
grow_refuses max_size msg offset width h = ground arith
