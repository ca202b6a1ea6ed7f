-- ===== src/Payload/Fields.antt =====
-- Sequences of fields: what a writer puts into a message, and that a reader gets it out again.
use mathlib.Core.List.{append_assoc, append-nil}
use can_lite.Base.{
  ℕ, ◌+◌, ◌/◌, ◌%◌, ◌≤◌, ◌<◌, ◌≡◌, refl, ap, ◌∙◌, true, false, List, [], ◌∷◌, ◌++◌, arith, length,
  length-append, get_or,
}
use can_lite.Base.Int.{
  ℤ, InRange, to_u16, to_u32, from_u16, from_u32, from_u16-to_u16, from_u32-to_u32, to_u16-lt,
  to_u32-lt,
}
use can_lite.Codec
use can_lite.Codec.{Message}
use can_lite.Codec.Bytes.{read_uint16_lem, read_uint32_lem}
use can_lite.Codec.Append.{bytes16, bytes32, write_uint16_end, write_uint32_end, get_or-append}
use can_lite.Payload.{
  Writer, Reader, write_uint8, write_uint16, write_int16, write_uint32, write_int32, read_uint8,
  read_uint16, read_int16, read_uint32, read_int32,
}

pub data Field : Type 0 where
  uint8 uint16 uint32 : ℕ → Field
  int16 int32 : ℤ → Field

-- The value is one of the field's type.
abbrev pub Fits : Field → Type 0
Fits (uint8 n) = n < 256
Fits (uint16 n) = n < 65536
Fits (uint32 n) = n < 4294967296
Fits (int16 z) = InRange 32768 z
Fits (int32 z) = InRange 2147483648 z

abbrev pub encode : Field → List ℕ
encode (uint8 n) = n ∷ []
encode (uint16 n) = bytes16 n
encode (uint32 n) = bytes32 n
encode (int16 z) = bytes16 (to_u16 z)
encode (int32 z) = bytes32 (to_u32 z)

abbrev pub encode_all : List Field → List ℕ
encode_all [] = []
encode_all (f ∷ fs) = encode f ++ encode_all fs

unfoldable pub write : ℕ → Writer → Field → Writer
unfolding write_uint8 write_uint16 write_int16 write_uint32 write_int32
write max_size w (uint8 n) = write_uint8 max_size w n
write max_size w (uint16 n) = write_uint16 max_size w n
write max_size w (uint32 n) = write_uint32 max_size w n
write max_size w (int16 z) = write_int16 max_size w z
write max_size w (int32 z) = write_int32 max_size w z

unfoldable pub write_all : ℕ → Writer → List Field → Writer
write_all max_size w [] = w
write_all max_size w (f ∷ fs) = write_all max_size (write max_size w f) fs

-- Reads a field of the same type; the value given does not matter.
unfoldable pub read_like : Reader → Field → Reader × Field
unfolding read_uint8 read_uint16 read_int16 read_uint32 read_int32
read_like r (uint8 _) = let (r', v) = read_uint8 r in (r', uint8 v)
read_like r (uint16 _) = let (r', v) = read_uint16 r in (r', uint16 v)
read_like r (uint32 _) = let (r', v) = read_uint32 r in (r', uint32 v)
read_like r (int16 _) = let (r', v) = read_int16 r in (r', int16 v)
read_like r (int32 _) = let (r', v) = read_int32 r in (r', int32 v)

unfoldable pub read_all_like : Reader → List Field → Reader × List Field
read_all_like r [] = (r, [])
read_all_like r (f ∷ fs) =
    let (r', v) = read_like r f in let rest = read_all_like r' fs in (rest.0, v ∷ rest.1)

pub write_fits :
    (max_size : ℕ) (msg : Message) (f : Field)
    → length msg + length (encode f) ≤ max_size
    → write max_size (record { message = msg; valid = true }) f
      ≡ record { message = msg ++ encode f; valid = true }
unfolding write Codec.write_int16 Codec.write_int32
write_fits max_size msg (uint8 n) h = ground arith
write_fits max_size msg (uint16 n) h = ground (arith, write_uint16_end max_size msg n)
write_fits max_size msg (uint32 n) h = ground (arith, write_uint32_end max_size msg n)
write_fits max_size msg (int16 z) h = ground (arith, write_uint16_end max_size msg (to_u16 z))
write_fits max_size msg (int32 z) h = ground (arith, write_uint32_end max_size msg (to_u32 z))

pub write_refuses :
    (max_size : ℕ) (msg : Message) (f : Field)
    → max_size < length msg + length (encode f)
    → write max_size (record { message = msg; valid = true }) f
      ≡ record { message = msg; valid = false }
unfolding write
write_refuses max_size msg (uint8 n) h = ground arith
write_refuses max_size msg (uint16 n) h = ground arith
write_refuses max_size msg (uint32 n) h = ground arith
write_refuses max_size msg (int16 z) h = ground arith
write_refuses max_size msg (int32 z) h = ground arith

pub write_invalid :
    (max_size : ℕ) (msg : Message) (f : Field)
    → write max_size (record { message = msg; valid = false }) f
      ≡ record { message = msg; valid = false }
unfolding write
write_invalid max_size msg (uint8 n) = refl
write_invalid max_size msg _ = refl

pub write_all_fits :
    (max_size : ℕ) (msg : Message) (fs : List Field)
    → length msg + length (encode_all fs) ≤ max_size
    → write_all max_size (record { message = msg; valid = true }) fs
      ≡ record { message = msg ++ encode_all fs; valid = true }
unfolding write_all
write_all_fits max_size msg [] h = rw (append-nil msg)
write_all_fits max_size msg (f ∷ fs) h =
    let e = length-append (encode f) (encode_all fs) in
    rw (write_fits max_size msg f (omega (arith, e))) (
      write_all_fits max_size (msg ++ encode f) fs (omega (arith, e, length-append msg (encode f)))
      ∙ ap (λ (m : Message). record { message = m; valid = true })
          (append_assoc msg (encode f) (encode_all fs)))

module _ (msg pre post : Message) where
  at_offset : (i k : ℕ) → msg ≡ pre ++ post → i ≡ length pre + k → get_or msg i 0 ≡ get_or post k 0
  at_offset i k e p = rw e (get_or-append pre post i k p)

abbrev pub at : Message → ℕ → Reader
at msg offset = record { message = msg; offset = offset; valid = true }

module _ (msg pre post : Message) (v : ℕ) where
  read16 : v < 65536 → msg ≡ pre ++ (bytes16 v ++ post) → Codec.read_uint16 msg (length pre) ≡ v
  read16 h e = read_uint16_lem msg (length pre) v room h b0 b1
    where
      room : length pre + 2 ≤ length msg
      room = rw (e, length-append pre (bytes16 v ++ post)) (omega arith)

      b0 : get_or msg (length pre) 0 ≡ v / 256
      b0 = at_offset msg pre (bytes16 v ++ post) (length pre) 0 e (omega arith) ∙ omega arith

      b1 : get_or msg (length pre + 1) 0 ≡ v % 256
      b1 = at_offset msg pre (bytes16 v ++ post) (length pre + 1) 1 e refl

  read32 :
      v < 4294967296 → msg ≡ pre ++ (bytes32 v ++ post) → Codec.read_uint32 msg (length pre) ≡ v
  read32 h e = read_uint32_lem msg (length pre) v room b0 b1 b2 b3
    where
      rest : Message
      rest = bytes32 v ++ post

      room : length pre + 4 ≤ length msg
      room = rw (e, length-append pre (bytes32 v ++ post)) (omega arith)

      b0 : get_or msg (length pre) 0 ≡ v / 16777216
      b0 = at_offset msg pre (bytes32 v ++ post) (length pre) 0 e (omega arith) ∙ omega arith

      b1 : get_or msg (length pre + 1) 0 ≡ v / 65536 % 256
      b1 = at_offset msg pre (bytes32 v ++ post) (length pre + 1) 1 e refl

      b2 : get_or msg (length pre + 2) 0 ≡ v / 256 % 256
      b2 = at_offset msg pre (bytes32 v ++ post) (length pre + 2) 2 e refl

      b3 : get_or msg (length pre + 3) 0 ≡ v % 256
      b3 = at_offset msg pre (bytes32 v ++ post) (length pre + 3) 3 e refl

pub read_like_lem :
    (msg pre post : Message) (f : Field)
    → Fits f
    → msg ≡ pre ++ (encode f ++ post)
    → read_like (at msg (length pre)) f ≡ (at msg (length pre + length (encode f)), f)
unfolding read_like Codec.read_int16 Codec.read_int32
read_like_lem msg pre post (uint8 n) h e =
    let l = ap length e ∙ length-append pre (encode (uint8 n) ++ post) in
    ground (arith, l, at_offset msg pre (n ∷ post) (length pre) 0 e (omega arith))
read_like_lem msg pre post (uint16 n) h e =
    let l = ap length e ∙ length-append pre (encode (uint16 n) ++ post) in
    ground (arith, l, read16 msg pre post n h e)
read_like_lem msg pre post (uint32 n) h e =
    let l = ap length e ∙ length-append pre (encode (uint32 n) ++ post) in
    ground (arith, l, read32 msg pre post n h e)
read_like_lem msg pre post (int16 z) h e =
    let l = ap length e ∙ length-append pre (encode (int16 z) ++ post) in
    ground
      (arith, l, ap from_u16 (read16 msg pre post (to_u16 z) (to_u16-lt z) e) ∙ from_u16-to_u16 z h)
read_like_lem msg pre post (int32 z) h e =
    let l = ap length e ∙ length-append pre (encode (int32 z) ++ post) in
    ground
      (arith, l, ap from_u32 (read32 msg pre post (to_u32 z) (to_u32-lt z) e) ∙ from_u32-to_u32 z h)
