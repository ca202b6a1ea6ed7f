-- ===== src/Payload/RoundTrip.antt =====
-- can-lite/core/CanPayload.cpp: a payload as a whole, written and read back field by field.
use mathlib.Core.List.{append_assoc, append-nil}
use can_lite.Base.{
  ℕ, ◌+◌, ◌≤◌, ◌≡◌, refl, sym, ap, ◌∙◌, true, false, List, [], ◌∷◌, ◌++◌, arith, length,
  length-append, All, ltb, leb, if◌then◌else◌, tests, le→leb, lt→leb_false, Bool-cases, inl, inr,
}
use can_lite.Codec.{Message}
use can_lite.Payload.{Reader, reader, empty_writer}
use can_lite.Payload.Fields.{
  Field, uint8, uint16, uint32, int16, int32, Fits, encode, encode_all, write_all, read_like,
  read_all_like, write_all_fits, read_like_lem, at,
}

read-All_from :
    (msg pre : Message) (fs : List Field)
    → All Fits fs
    → msg ≡ pre ++ encode_all fs
    → read_all_like (at msg (length pre)) fs ≡ (at msg (length msg), fs)
unfolding read_all_like
read-All_from msg pre [] h e =
    ap (λ (k : ℕ). (at msg k, [])) (ap length (sym (append-nil pre) ∙ sym e))
read-All_from msg pre (f ∷ fs) h e =
    rw
      (
        read_like_lem msg pre (encode_all fs) f h.0 e,
        sym (length-append pre (encode f)),
        read-All_from msg (pre ++ encode f) fs h.1
            (e ∙ sym (append_assoc pre (encode f) (encode_all fs))),
      )
      refl

-- Fields whose values are of their types and which together fit the capacity are written, and
-- reading fields of the same types from the message gives the same values, in order, and ends
-- exactly at the end of the message, with the reader still valid.
pub read-write_all :
    (max_size : ℕ) (fs : List Field)
    → All Fits fs
    → length (encode_all fs) ≤ max_size
    → let w = write_all max_size empty_writer fs in
      (w.valid ≡ true)
      × (read_all_like (reader w.message) fs
          ≡ (record { message = w.message; offset = length w.message; valid = true }, fs))
unfolding reader
read-write_all max_size fs h room =
    rw (write_all_fits max_size [] fs (omega arith))
      (refl, read-All_from (encode_all fs) [] fs h refl)

abbrev stopped : Message → ℕ → Reader
stopped msg offset = record { message = msg; offset = offset; valid = false }

read_like_invalid :
    (msg : Message) (offset : ℕ) (f : Field)
    → (read_like (stopped msg offset) f).0 ≡ stopped msg offset
unfolding read_like
read_like_invalid msg offset (uint8 n) = refl
read_like_invalid msg offset _ = refl

read_all_invalid :
    (msg : Message) (offset : ℕ) (fs : List Field)
    → (read_all_like (stopped msg offset) fs).0 ≡ stopped msg offset
unfolding read_all_like
read_all_invalid msg offset [] = refl
read_all_invalid msg offset (f ∷ fs) =
    ap (λ (r : Reader). (read_all_like r fs).0) (read_like_invalid msg offset f)
    ∙ read_all_invalid msg offset fs

read_like_moves :
    (msg : Message) (offset : ℕ) (f : Field)
    → (read_like (at msg offset) f).0 ≡ (
        if ltb (length msg) (offset + length (encode f))
        then stopped msg offset
        else at msg (offset + length (encode f)))
unfolding read_like
read_like_moves msg offset (uint8 n) = ground arith
read_like_moves msg offset (uint16 n) = ground arith
read_like_moves msg offset (uint32 n) = ground arith
read_like_moves msg offset (int16 z) = ground arith
read_like_moves msg offset (int32 z) = ground arith

-- Reading a sequence of fields from anywhere in a message ends valid exactly when the message is
-- long enough for all of them.
pub read_all_bounds :
    (msg : Message) (offset : ℕ) (fs : List Field)
    → offset ≤ length msg
    → (read_all_like (record { message = msg; offset = offset; valid = true }) fs).0.valid
      ≡ leb (offset + length (encode_all fs)) (length msg)
unfolding read_all_like
read_all_bounds msg offset [] h = sym (le→leb _ _ (omega arith))
read_all_bounds msg offset (f ∷ fs) h =
    let e = length-append (encode f) (encode_all fs) in
    ap (λ (r : Reader). (read_all_like r fs).0.valid) (read_like_moves msg offset f)
    ∙ elim (Bool-cases (ltb (length msg) (offset + length (encode f)))) [
      | inl short ↦ rw short (
          ap (λ (r : Reader). r.valid) (read_all_invalid msg offset fs)
          ∙ sym (lt→leb_false _ _ (omega (tests, short, e))))
      | inr enough ↦ rw enough (
          read_all_bounds msg (offset + length (encode f)) fs (omega (tests, enough))
          ∙ ap (λ (k : ℕ). leb k (length msg)) (omega (arith, e)))
    ]
