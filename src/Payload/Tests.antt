-- ===== src/Payload/Tests.antt =====
-- A payload of eight bytes in three fields, and one that is a byte too long.
use can_lite.Base.{ℕ, ◌+◌, ◌≤◌, ◌≡◌, true, List, [], ◌∷◌, arith, length, leb}
use can_lite.Base.Int.{negsuc}
use can_lite.Payload.{empty_writer, reader}
use can_lite.Payload.Fields.{Field, uint16, uint32, int32, int16, write_all, read_all_like}
use can_lite.Payload.RoundTrip.{read-write_all}
use can_lite.Payload.Bounds.{Part, field, bytes, encode_parts, write_parts, write_all_bounds}

abbrev three_fields : List Field
three_fields = uint16 0x1234 ∷ int32 (negsuc 4) ∷ int16 (negsuc 0) ∷ []

abbrev too_many : List Part
too_many = field (uint32 1) ∷ bytes (1 ∷ 2 ∷ 3 ∷ []) ∷ field (uint16 3) ∷ []

read-write_all_example :
    let w = write_all 8 empty_writer three_fields in
    (w.valid ≡ true)
    × (read_all_like (reader w.message) three_fields
        ≡ (record { message = w.message; offset = length w.message; valid = true }, three_fields))
read-write_all_example = read-write_all 8 three_fields (omega arith) (omega arith)

write_all_bounds_example :
    let w = write_parts 8 (record { message = []; valid = true }) too_many in
    (length w.message ≤ 8) × (w.valid ≡ leb (length {A = ℕ} [] + length (encode_parts too_many)) 8)
write_all_bounds_example = write_all_bounds 8 [] too_many (omega arith)
