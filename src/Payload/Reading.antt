-- ===== src/Payload/Reading.antt =====
-- can-lite/core/CanPayload.cpp: reading one number out of a message that holds its bytes, and what
-- writing one number appends.
use mathlib.Core.List.{append_assoc, append-nil}
use can_lite.Base.{ℕ, ◌+◌, ◌≤◌, ◌<◌, ◌≡◌, sym, ap, ◌∙◌, true, List, [], ◌∷◌, ◌++◌, arith, length}
use can_lite.Codec.{Message}
use can_lite.Codec.Append.{bytes16, bytes32}
use can_lite.Payload.{
  Writer, Reader, push_all, reserve, write_bytes, write_uint8, write_uint16, write_uint32,
  read_uint8, read_uint16, read_uint32,
}
use can_lite.Payload.Fields.{
  Field, uint8, uint16, uint32, write, write_fits, read_like, read_like_lem, at,
}

abbrev number : Field → ℕ
number (uint8 n) = n
number (uint16 n) = n
number (uint32 n) = n
number _ = 0

abbrev numbered : Reader × Field → Reader × ℕ
numbered (r, f) = (r, number f)

module _ (msg pre post : Message) (n : ℕ) where
  pub read_uint8_lem :
      n < 256
      → msg ≡ pre ++ n ∷ post
      → read_uint8 (at msg (length pre)) ≡ (at msg (length pre + 1), n)
  unfolding read_like
  read_uint8_lem h e = ap numbered (read_like_lem msg pre post (uint8 n) h e)

  pub read_uint16_lem :
      n < 65536
      → msg ≡ pre ++ (bytes16 n ++ post)
      → read_uint16 (at msg (length pre)) ≡ (at msg (length pre + 2), n)
  unfolding read_like
  read_uint16_lem h e = ap numbered (read_like_lem msg pre post (uint16 n) h e)

  pub read_uint32_lem :
      n < 4294967296
      → msg ≡ pre ++ (bytes32 n ++ post)
      → read_uint32 (at msg (length pre)) ≡ (at msg (length pre + 4), n)
  unfolding read_like
  read_uint32_lem h e = ap numbered (read_like_lem msg pre post (uint32 n) h e)

abbrev pub holding : Message → Writer
holding msg = record { message = msg; valid = true }

module _ (max_size : ℕ) (msg : Message) (n : ℕ) where
  pub write_uint8_lem :
      length msg + 1 ≤ max_size → write_uint8 max_size (holding msg) n ≡ holding (msg ++ n ∷ [])
  unfolding write
  write_uint8_lem room = write_fits max_size msg (uint8 n) room

  pub write_uint16_lem :
      length msg + 2 ≤ max_size → write_uint16 max_size (holding msg) n ≡ holding (msg ++ bytes16 n)
  unfolding write
  write_uint16_lem room = write_fits max_size msg (uint16 n) room

  pub write_uint32_lem :
      length msg + 4 ≤ max_size → write_uint32 max_size (holding msg) n ≡ holding (msg ++ bytes32 n)
  unfolding write
  write_uint32_lem room = write_fits max_size msg (uint32 n) room

push_all_lem : (msg bytes : List ℕ) → push_all msg bytes ≡ msg ++ bytes
unfolding push_all
push_all_lem msg [] = sym (append-nil msg)
push_all_lem msg (byte ∷ bytes) =
    push_all_lem (msg ++ byte ∷ []) bytes ∙ append_assoc msg (byte ∷ []) bytes

pub write_bytes_lem :
    (max_size : ℕ) (msg bytes : List ℕ)
    → length msg + length bytes ≤ max_size
    → write_bytes max_size (holding msg) bytes ≡ holding (msg ++ bytes)
unfolding write_bytes reserve
write_bytes_lem max_size msg bytes room = ground (arith, push_all_lem msg bytes)
