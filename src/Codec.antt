-- ===== src/Codec.antt =====
-- can-lite/core/CanFrameCodec.cpp: big-endian integers in a CAN message. A message is its bytes;
-- `max_size` is the capacity of `hal::Can::Message`. The fixed-point functions on `float` are not
-- modelled.
pub mod Bytes
pub mod RoundTrip
pub mod Append
mod Tests
use can_lite.Base.{
  ℕ, zero, suc, ◌+◌, ◌-◌, ◌*◌, Bool, true, false, not, ◌&&◌, ◌||◌, List, [], ◌∷◌, ◌++◌, leb, ltb,
  if◌then◌else◌, length, get_or, set, bit_and, bit_or,
}
use can_lite.Base.Bits.{shl, shr, u8, u16}
use can_lite.Base.Int.{ℤ, to_u16, to_u32, from_u16, from_u32}

abbrev pub Message : Type 0
Message = List ℕ

-- `while (msg.size() < target) msg.push_back(0)`, in at most `rounds` rounds.
unfoldable pub pad : ℕ → ℕ → Message → Message
pad zero target msg = msg
pad (suc rounds) target msg =
    let rest = pad rounds target (msg ++ 0 ∷ []) in if ltb (length msg) target then rest else msg

-- `max_size` is read after the first test, so the subtraction is exact.
unfoldable pub grow : ℕ → Message → ℕ → ℕ → Message × Bool
unfolding pad
grow max_size msg offset width =
    if ltb max_size offset || ltb (max_size - offset) width
    then (msg, false)
    else (pad (offset + width) (offset + width) msg, true)

unfoldable pub readable : Message → ℕ → ℕ → Bool
readable msg offset width = leb offset (length msg) && leb width (length msg - offset)

store16 : Message → ℕ → ℕ → Message
store16 msg offset value =
    set (set msg offset (u8 (shr value 8))) (offset + 1) (u8 (bit_and value 0xFF))

unfoldable pub write_uint16 : ℕ → Message → ℕ → ℕ → Message × Bool
unfolding grow store16
write_uint16 max_size msg offset value =
    let (grown, done) = grow max_size msg offset 2 in
    if done then (store16 grown offset value, true) else (grown, false)

unfoldable pub read_uint16 : Message → ℕ → ℕ
unfolding readable
read_uint16 msg offset =
    if readable msg offset 2
    then u16 (bit_or (shl (get_or msg offset 0) 8) (get_or msg (offset + 1) 0))
    else 0

store32 : Message → ℕ → ℕ → Message
store32 msg offset value =
    let msg1 = set msg offset (u8 (bit_and (shr value 24) 0xFF)) in
    let msg2 = set msg1 (offset + 1) (u8 (bit_and (shr value 16) 0xFF)) in
    let msg3 = set msg2 (offset + 2) (u8 (bit_and (shr value 8) 0xFF)) in
    set msg3 (offset + 3) (u8 (bit_and value 0xFF))

unfoldable pub write_uint32 : ℕ → Message → ℕ → ℕ → Message × Bool
unfolding grow store32
write_uint32 max_size msg offset value =
    let (grown, done) = grow max_size msg offset 4 in
    if done then (store32 grown offset value, true) else (grown, false)

unfoldable pub read_uint32 : Message → ℕ → ℕ
unfolding readable
read_uint32 msg offset =
    if readable msg offset 4
    then bit_or
        (bit_or (bit_or (shl (get_or msg offset 0) 24) (shl (get_or msg (offset + 1) 0) 16))
          (shl (get_or msg (offset + 2) 0) 8))
        (get_or msg (offset + 3) 0)
    else 0

unfoldable pub write_int16 : ℕ → Message → ℕ → ℤ → Message × Bool
unfolding write_uint16
write_int16 max_size msg offset value = write_uint16 max_size msg offset (to_u16 value)

unfoldable pub read_int16 : Message → ℕ → ℤ
unfolding read_uint16
read_int16 msg offset = from_u16 (read_uint16 msg offset)

unfoldable pub write_int32 : ℕ → Message → ℕ → ℤ → Message × Bool
unfolding write_uint32
write_int32 max_size msg offset value = write_uint32 max_size msg offset (to_u32 value)

unfoldable pub read_int32 : Message → ℕ → ℤ
unfolding read_uint32
read_int32 msg offset = from_u32 (read_uint32 msg offset)
