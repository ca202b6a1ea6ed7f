-- ===== src/Payload.antt =====
-- can-lite/core/CanPayload.cpp: the writer and the reader of a CAN payload. `WriteFixed16` and
-- `ReadFixed16`, which go through `float`, are not modelled. `max_size` is the capacity of
-- `hal::Can::Message`.
pub mod Fields
pub mod Reading
pub mod Bounds
pub mod RoundTrip
mod Tests
use can_lite.Base.{
  ℕ, ◌+◌, ◌-◌, Bool, true, false, Option, none, some, List, [], ◌∷◌, ◌++◌, ltb, if◌then◌else◌,
  length, get_or, drop,
}
use can_lite.Base.Int.{ℤ, pos, from_u16, from_u32, to_u16, to_u32}
use can_lite.Codec.{Message}
use can_lite.Codec

pub record Writer : Type 0 where
  pub message : Message
  pub valid : Bool

abbrev pub empty_writer : Writer
empty_writer = record { message = []; valid = true }

unfoldable pub reserve : ℕ → Writer → ℕ → Writer × Bool
reserve max_size w bytes =
    if w.valid
    then (if ltb max_size (length w.message + bytes)
        then (record w { valid = false }, false)
        else (w, true))
    else (w, false)

unfoldable pub write_uint8 : ℕ → Writer → ℕ → Writer
unfolding reserve
write_uint8 max_size w value =
    let (w', room) = reserve max_size w 1 in
    if room then record w' { message = w'.message ++ value ∷ [] } else w'

unfoldable pub write_uint16 : ℕ → Writer → ℕ → Writer
unfolding reserve
write_uint16 max_size w value =
    let (w', room) = reserve max_size w 2 in
    if room
    then record w' {
      message = (Codec.write_uint16 max_size w'.message (length w'.message) value).0;
    }
    else w'

unfoldable pub write_int16 : ℕ → Writer → ℤ → Writer
unfolding reserve Codec.write_int16
write_int16 max_size w value =
    let (w', room) = reserve max_size w 2 in
    if room
    then record w' { message = (Codec.write_int16 max_size w'.message (length w'.message) value).0 }
    else w'

unfoldable pub write_uint32 : ℕ → Writer → ℕ → Writer
unfolding reserve
write_uint32 max_size w value =
    let (w', room) = reserve max_size w 4 in
    if room
    then record w' {
      message = (Codec.write_uint32 max_size w'.message (length w'.message) value).0;
    }
    else w'

unfoldable pub write_int32 : ℕ → Writer → ℤ → Writer
unfolding reserve Codec.write_int32
write_int32 max_size w value =
    let (w', room) = reserve max_size w 4 in
    if room
    then record w' { message = (Codec.write_int32 max_size w'.message (length w'.message) value).0 }
    else w'

-- The loop `for (auto byte : bytes) message.push_back(byte)`.
unfoldable pub push_all : Message → List ℕ → Message
push_all msg [] = msg
push_all msg (byte ∷ bytes) = push_all (msg ++ byte ∷ []) bytes

unfoldable pub write_bytes : ℕ → Writer → List ℕ → Writer
unfolding reserve push_all
write_bytes max_size w bytes =
    let (w', room) = reserve max_size w (length bytes) in
    if room then record w' { message = push_all w'.message bytes } else w'

unfoldable pub remaining : ℕ → Writer → ℕ
remaining max_size w = if w.valid then max_size - length w.message else 0

pub record Reader : Type 0 where
  pub message : Message
  pub offset : ℕ
  pub valid : Bool

unfoldable pub reader : Message → Reader
reader message = record { message = message; offset = 0; valid = true }

unfoldable pub take_bytes : Reader → ℕ → Reader × Option ℕ
take_bytes r bytes =
    if r.valid
    then (if ltb (length r.message) (r.offset + bytes)
        then (record r { valid = false }, none)
        else (record r { offset = r.offset + bytes }, some r.offset))
    else (r, none)

abbrev value_or {ℓ} : {A : Type ℓ} → Option ℕ → (ℕ → A) → A → A
value_or none f d = d
value_or (some start) f d = f start

unfoldable pub read_uint8 : Reader → Reader × ℕ
unfolding take_bytes
read_uint8 r =
    let (r', start) = take_bytes r 1 in (r', value_or start (λ s. get_or r.message s 0) 0)

unfoldable pub read_uint16 : Reader → Reader × ℕ
unfolding take_bytes
read_uint16 r =
    let (r', start) = take_bytes r 2 in (r', value_or start (Codec.read_uint16 r.message) 0)

unfoldable pub read_int16 : Reader → Reader × ℤ
unfolding take_bytes
read_int16 r =
    let (r', start) = take_bytes r 2 in (r', value_or start (Codec.read_int16 r.message) (pos 0))

unfoldable pub read_uint32 : Reader → Reader × ℕ
unfolding take_bytes
read_uint32 r =
    let (r', start) = take_bytes r 4 in (r', value_or start (Codec.read_uint32 r.message) 0)

unfoldable pub read_int32 : Reader → Reader × ℤ
unfolding take_bytes
read_int32 r =
    let (r', start) = take_bytes r 4 in (r', value_or start (Codec.read_int32 r.message) (pos 0))

unfoldable pub skip : Reader → ℕ → Reader
unfolding take_bytes
skip r bytes = (take_bytes r bytes).0

unfoldable pub read_remaining : Reader → Reader × List ℕ
read_remaining r =
    if r.valid then (record r { offset = length r.message }, drop r.offset r.message) else (r, [])

unfoldable pub available : Reader → ℕ
available r = if r.valid then length r.message - r.offset else 0
