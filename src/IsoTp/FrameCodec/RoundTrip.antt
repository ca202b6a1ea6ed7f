-- ===== src/IsoTp/FrameCodec/RoundTrip.antt =====
-- Frames made by the encoders and read by the decoders.
use can_lite.Base.{
  ℕ, ◌+◌, ◌*◌, ◌/◌, ◌%◌, ◌^◌, ◌≤◌, ◌<◌, ◌≡◌, refl, ap, ◌∙◌, Bool, true, false, Option, none, some,
  List, [], ◌∷◌, ◌++◌, arith, leb, if◌then◌else◌, length, take, drop, length-take, take-append-drop,
  bit_and, bit_or, ◌&&◌,
}
use can_lite.Base.Bits.{shr, u8, bit_or_add, bit_and_mask}
use can_lite.Codec.{Message}
use can_lite.IsoTp.{
  single_frame, first_frame, consecutive_frame, flow_control, FlowStatus, continue_to_send, wait,
  overflow, flow_status_value,
}
use can_lite.IsoTp.FrameCodec.{
  frame_type_of, flow_status_of, decode_frame_type, encode_single_frame, decode_single_frame_length,
  encode_first_frame, decode_first_frame_total_length, encode_consecutive_frame,
  decode_consecutive_frame_sn, encode_flow_control, decode_flow_control, st_min_to_duration,
}

-- The first byte of a frame: a type above a nibble.
pub header : (kind n : ℕ) → kind < 16 → n < 16 → u8 (bit_or (kind * 16) n) ≡ kind * 16 + n
header kind n k h = omega (arith, bit_or_add 4 (kind * 16) n (omega arith) h)

pub low_nibble : (b : ℕ) → bit_and b 0x0F ≡ b % 16
low_nibble b = bit_and_mask 4 b

pub decode_frame_type_cons :
    (b : ℕ) (rest : Message) → decode_frame_type (b ∷ rest) ≡ frame_type_of (b / 16 % 16)
unfolding decode_frame_type
decode_frame_type_cons b rest =
    ap frame_type_of {x = u8 (bit_and (shr b 4) 15)} {y = b / 16 % 16}
      (omega (arith, low_nibble (b / 16)))

pub encode_single_frame_lem :
    (pdu : List ℕ)
    → 0 < length pdu
    → length pdu ≤ 7
    → encode_single_frame pdu ≡ some (length pdu ∷ pdu)
unfolding encode_single_frame
encode_single_frame_lem pdu pos short =
    ground (arith, header 0 (length pdu), low_nibble (length pdu))

-- A PDU of one to seven bytes makes a frame of at most eight bytes that is taken for a single
-- frame, gives the PDU's length and holds its bytes.
pub decode-encode_single_frame :
    (pdu : List ℕ)
    → 0 < length pdu
    → length pdu ≤ 7
    → (frame : Message) × (encode_single_frame pdu ≡ some frame)
      × (length frame ≤ 8)
      × (decode_frame_type frame ≡ single_frame)
      × (decode_single_frame_length frame ≡ length pdu)
      × (drop 1 frame ≡ pdu)
unfolding decode_single_frame_length
decode-encode_single_frame pdu pos short = (
  length pdu ∷ pdu,
  encode_single_frame_lem pdu pos short,
  omega arith,
  decode_frame_type_cons (length pdu) pdu ∙ unfold frame_type_of in ground arith,
  omega (arith, low_nibble (length pdu)),
  refl,
)

pub encode_first_frame_lem :
    (pdu : List ℕ)
    → 7 < length pdu
    → length pdu ≤ 4095
    → encode_first_frame pdu ≡ some ((16 + length pdu / 256) ∷ (length pdu % 256) ∷ take 6 pdu)
unfolding encode_first_frame
encode_first_frame_lem pdu long bound =
    let n = length pdu in
    ground (arith, header 1 (n / 256), low_nibble (n % 65536 / 2 ^ 8), bit_and_mask 8 (n % 65536))

pub first_frame_length :
    (pdu : List ℕ)
    → length pdu ≤ 4095
    → decode_first_frame_total_length ((16 + length pdu / 256) ∷ (length pdu % 256) ∷ take 6 pdu)
      ≡ length pdu
unfolding decode_first_frame_total_length
first_frame_length pdu bound =
    let n = length pdu in
    ground (arith, low_nibble (16 + n / 256), bit_or_add 8 (n / 256 * 256) (n % 256))

-- A PDU of 8 to 4095 bytes makes a first frame of exactly eight bytes that gives the PDU's length
-- and holds its first six bytes.
pub decode-encode_first_frame :
    (pdu : List ℕ)
    → 7 < length pdu
    → length pdu ≤ 4095
    → (frame : Message) × (encode_first_frame pdu ≡ some frame)
      × (length frame ≡ 8)
      × (decode_frame_type frame ≡ first_frame)
      × (decode_first_frame_total_length frame ≡ length pdu)
      × (drop 2 frame ≡ take 6 pdu)
decode-encode_first_frame pdu long bound =
    let n = length pdu in
    let frame : Message = (16 + n / 256) ∷ (n % 256) ∷ take 6 pdu in
    (
      frame,
      encode_first_frame_lem pdu long bound,
      omega (arith, length-take 6 pdu),
      decode_frame_type_cons (16 + n / 256) ((n % 256) ∷ take 6 pdu)
          ∙ unfold frame_type_of in ground arith,
      first_frame_length pdu bound,
      refl,
    )

abbrev pub made : Option Message → Bool
made none = false
made (some frame) = true

-- The two encoders share the lengths: a single frame is made exactly for 1 to 7 bytes, a first
-- frame exactly for 8 to 4095 bytes, and so never both, and none for an empty or a longer PDU.
pub encoders_share_lengths :
    (pdu : List ℕ)
    → (made (encode_single_frame pdu) ≡ (leb 1 (length pdu) && leb (length pdu) 7))
      × (made (encode_first_frame pdu) ≡ (leb 8 (length pdu) && leb (length pdu) 4095))
unfolding encode_single_frame encode_first_frame
encoders_share_lengths pdu = (ground arith, ground arith)

pub encode_consecutive_frame_lem :
    (sn : ℕ) (remaining : List ℕ)
    → encode_consecutive_frame sn remaining
      ≡ ((32 + sn % 16) ∷ take 7 remaining, length (take 7 remaining))
unfolding encode_consecutive_frame
encode_consecutive_frame_lem sn remaining =
    ap (λ (b : ℕ). (b ∷ take 7 remaining, length (take 7 remaining)))
      (omega (
        arith,
        low_nibble sn,
        header 2 (bit_and sn 15) (omega arith) (omega (arith, low_nibble sn)),
      ))

-- A consecutive frame has at most eight bytes, is taken for one, gives the low nibble of its
-- sequence number, and its data with what it leaves is the data that was to be sent.
pub decode-encode_consecutive_frame :
    (sn : ℕ) (remaining : List ℕ)
    → let (frame, written) = encode_consecutive_frame sn remaining in
      (length frame ≤ 8)
      × (decode_frame_type frame ≡ consecutive_frame)
      × (decode_consecutive_frame_sn frame ≡ sn % 16)
      × (drop 1 frame ++ drop 7 remaining ≡ remaining)
      × (written + 1 ≡ length frame)
unfolding decode_consecutive_frame_sn
decode-encode_consecutive_frame sn remaining = rw (encode_consecutive_frame_lem sn remaining) (
  omega (arith, length-take 7 remaining),
  decode_frame_type_cons (32 + sn % 16) (take 7 remaining) ∙ unfold frame_type_of in ground arith,
  omega (arith, low_nibble (32 + sn % 16)),
  take-append-drop 7 remaining,
  omega arith,
)

pub encode_flow_control_lem :
    (fs : FlowStatus) (block_size st_min : ℕ)
    → encode_flow_control fs block_size st_min
      ≡ (48 + flow_status_value fs) ∷ block_size ∷ st_min ∷ []
unfolding encode_flow_control
encode_flow_control_lem continue_to_send block_size st_min = refl
encode_flow_control_lem wait block_size st_min = refl
encode_flow_control_lem overflow block_size st_min = refl

-- A flow control frame is taken for one, and its status, block size and separation time are read
-- back.
pub decode-encode_flow_control :
    (fs : FlowStatus) (block_size st_min : ℕ)
    → let frame = encode_flow_control fs block_size st_min in
      (decode_frame_type frame ≡ flow_control)
      × (decode_flow_control frame ≡ (true, fs, block_size, st_min))
unfolding decode_frame_type decode_flow_control encode_flow_control
decode-encode_flow_control continue_to_send block_size st_min = (refl, refl)
decode-encode_flow_control wait block_size st_min = (refl, refl)
decode-encode_flow_control overflow block_size st_min = (refl, refl)

-- A flow control frame is accepted exactly when it has its three bytes and its status is one of
-- the three defined; the block size and the separation time are then its second and third byte,
-- and a refused frame leaves the defaults.
pub decode_flow_control_accepts :
    (b0 b1 b2 : ℕ) (rest : Message)
    → decode_flow_control (b0 ∷ b1 ∷ b2 ∷ rest)
      ≡ (if leb (b0 % 16) 2 then (true, flow_status_of (b0 % 16), b1, b2) else (false, wait, 0, 0))
unfolding decode_flow_control
decode_flow_control_accepts b0 b1 b2 rest = ground (arith, low_nibble b0)

-- Every separation time is at most 127 ms.
pub st_min_to_duration-le : (st_min : ℕ) → st_min_to_duration st_min ≤ 127000
unfolding st_min_to_duration
st_min_to_duration-le st_min = ground arith
