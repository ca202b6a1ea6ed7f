-- ===== src/Codec/Tests.antt =====
-- Writes into a message of one byte, with a capacity of eight.
use can_lite.Base.{◌≡◌, refl, true, [], ◌∷◌}
use can_lite.Codec.{Message, write_uint16}

abbrev one_byte : Message
one_byte = 7 ∷ []

padded_write : write_uint16 8 one_byte 2 0x1234 ≡ (7 ∷ 0 ∷ 0x12 ∷ 0x34 ∷ [], true)
unfolding write_uint16
padded_write = refl
