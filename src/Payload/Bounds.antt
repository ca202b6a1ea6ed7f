-- ===== src/Payload/Bounds.antt =====
-- can-lite/core/CanPayload.cpp: writing numbers and runs of bytes, up to the capacity and beyond it.
use can_lite.Base.{
  ℕ, ◌+◌, ◌≤◌, ◌<◌, ◌≡◌, refl, sym, ap, ◌∙◌, subst, true, false, List, [], ◌∷◌, ◌++◌, arith, length,
  length-append, ltb, leb, tests, le→leb, lt→leb_false, Bool-cases, inl, inr,
}
use can_lite.Codec.{Message}
use can_lite.Payload.{Writer, reserve, write_bytes}
use can_lite.Payload.Fields.{Field, encode, write, write_fits, write_refuses, write_invalid}
use can_lite.Payload.Reading.{holding, write_bytes_lem}

-- What one call of the writer appends.
pub data Part : Type 0 where
  field : Field → Part
  bytes : List ℕ → Part

abbrev pub encode_part : Part → List ℕ
encode_part (field f) = encode f
encode_part (bytes run) = run

abbrev pub encode_parts : List Part → List ℕ
encode_parts [] = []
encode_parts (part ∷ parts) = encode_part part ++ encode_parts parts

unfoldable pub write_part : ℕ → Writer → Part → Writer
unfolding write write_bytes
write_part max_size w (field f) = write max_size w f
write_part max_size w (bytes run) = write_bytes max_size w run

unfoldable pub write_parts : ℕ → Writer → List Part → Writer
unfolding write_part
write_parts max_size w [] = w
write_parts max_size w (part ∷ parts) = write_parts max_size (write_part max_size w part) parts

abbrev failed : Message → Writer
failed msg = record { message = msg; valid = false }

write_part_fits :
    (max_size : ℕ) (msg : Message) (part : Part)
    → length msg + length (encode_part part) ≤ max_size
    → write_part max_size (holding msg) part ≡ holding (msg ++ encode_part part)
unfolding write_part
write_part_fits max_size msg (field f) room = write_fits max_size msg f room
write_part_fits max_size msg (bytes run) room = write_bytes_lem max_size msg run room

write_part_refuses :
    (max_size : ℕ) (msg : Message) (part : Part)
    → max_size < length msg + length (encode_part part)
    → write_part max_size (holding msg) part ≡ failed msg
unfolding write_part write_bytes reserve
write_part_refuses max_size msg (field f) over = write_refuses max_size msg f over
write_part_refuses max_size msg (bytes run) over = ground arith

no_part_fits :
    (max_size : ℕ) (msg : Message) (part : Part)
    → write_part max_size (failed msg) part ≡ failed msg
unfolding write_part write_bytes reserve
no_part_fits max_size msg (field f) = write_invalid max_size msg f
no_part_fits max_size msg (bytes run) = refl

no_parts_fit :
    (max_size : ℕ) (msg : Message) (parts : List Part)
    → write_parts max_size (failed msg) parts ≡ failed msg
unfolding write_parts
no_parts_fit max_size msg [] = refl
no_parts_fit max_size msg (part ∷ parts) =
    rw (no_part_fits max_size msg part) (no_parts_fit max_size msg parts)

abbrev Bounded : ℕ → ℕ → Writer → Type 0
Bounded max_size total w = (length w.message ≤ max_size) × (w.valid ≡ leb total max_size)

-- Whatever numbers and runs of bytes are written, the message never passes the capacity, and the
-- writer ends valid exactly when what it began with and all of them together fit it.
pub write_all_bounds :
    (max_size : ℕ) (msg : Message) (parts : List Part)
    → length msg ≤ max_size
    → let w = write_parts max_size (record { message = msg; valid = true }) parts in
      (length w.message ≤ max_size)
      × (w.valid ≡ leb (length msg + length (encode_parts parts)) max_size)
unfolding write_parts
write_all_bounds max_size msg [] h = (h, sym (le→leb _ _ (omega arith)))
write_all_bounds max_size msg (part ∷ parts) h =
    let e = length-append (encode_part part) (encode_parts parts) in
    let e' = length-append msg (encode_part part) in
    let total = length msg + length (encode_part part ++ encode_parts parts) in
    elim (Bool-cases (ltb max_size (length msg + length (encode_part part)))) [
      | inl over ↦
          subst (Bounded max_size total)
            (sym (
              ap (λ w. write_parts max_size w parts)
                (write_part_refuses max_size msg part (omega (tests, over)))
              ∙ no_parts_fit max_size msg parts))
            (h, sym (lt→leb_false _ _ (omega (tests, over, e))))
      | inr room ↦
          let (bounded, whole) =
            write_all_bounds max_size (msg ++ encode_part part) parts (omega (tests, room, e')) in
          subst (Bounded max_size total)
            (sym (
              ap (λ w. write_parts max_size w parts)
                (write_part_fits max_size msg part (omega (tests, room)))))
            (bounded, whole ∙ ap (λ (k : ℕ). leb k max_size) (omega (arith, e, e')))
    ]
