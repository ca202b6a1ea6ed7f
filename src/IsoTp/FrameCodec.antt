-- ===== src/IsoTp/FrameCodec.antt =====
-- can-lite/transport/iso-tp/IsoTpFrameCodec.cpp. An encoder that fails leaves its output as it
-- was, which is `none` here. A separation time is given in microseconds.
pub mod RoundTrip
use can_lite.Base.{
  ℕ, ◌+◌, ◌-◌, ◌*◌, Bool, true, false, ◌&&◌, ◌||◌, Option, none, some, List, [], ◌∷◌, ◌++◌, leb,
  ltb, ◌==◌, if◌then◌else◌, length, take, get_or, bit_and, bit_or,
}
use can_lite.Base.Bits.{shl, shr, u8, u16}
use can_lite.Codec.{Message}
use can_lite.IsoTp.{
  FrameType, single_frame, first_frame, consecutive_frame, flow_control, unknown, FlowStatus,
  continue_to_send, wait, overflow, flow_status_value, sf_max_payload_bytes, ff_first_data_bytes,
  ff_max_pdu_length, cf_max_data_bytes, sn_mask,
}

-- static_cast<FrameType> of a nibble, and `unknown` above 3.
unfoldable pub frame_type_of : ℕ → FrameType
frame_type_of nibble =
    if nibble == 0
    then single_frame
    else (if nibble == 1
        then first_frame
        else (if nibble == 2
            then consecutive_frame
            else (if nibble == 3 then flow_control else unknown)))

unfoldable pub decode_frame_type : Message → FrameType
unfolding frame_type_of
decode_frame_type [] = unknown
decode_frame_type (byte0 ∷ rest) = frame_type_of (u8 (bit_and (shr byte0 4) 0x0F))

unfoldable pub encode_single_frame : List ℕ → Option Message
encode_single_frame pdu =
    if (length pdu == 0) || ltb sf_max_payload_bytes (length pdu)
    then none
    else some (u8 (bit_or 0x00 (bit_and (length pdu) 0x0F)) ∷ pdu)

unfoldable pub decode_single_frame_length : Message → ℕ
decode_single_frame_length [] = 0
decode_single_frame_length (byte0 ∷ rest) = u8 (bit_and byte0 0x0F)

-- The loop copies `ffFirstDataBytes` bytes, or all there are.
unfoldable pub encode_first_frame : List ℕ → Option Message
encode_first_frame pdu =
    if leb (length pdu) sf_max_payload_bytes || ltb ff_max_pdu_length (length pdu)
    then none
    else let len = u16 (length pdu) in
      some (
        u8 (bit_or 0x10 (bit_and (shr len 8) 0x0F))
        ∷ u8 (bit_and len 0xFF)
        ∷ take ff_first_data_bytes pdu)

unfoldable pub decode_first_frame_total_length : Message → ℕ
decode_first_frame_total_length frame =
    if ltb (length frame) 2
    then 0
    else u16 (bit_or (shl (bit_and (get_or frame 0 0) 0x0F) 8) (get_or frame 1 0))

-- The frame, and the number of bytes of `remaining` that it carries.
unfoldable pub encode_consecutive_frame : ℕ → List ℕ → Message × ℕ
encode_consecutive_frame sn remaining =
    let written = take cf_max_data_bytes remaining in
    (u8 (bit_or 0x20 (bit_and sn sn_mask)) ∷ written, length written)

unfoldable pub decode_consecutive_frame_sn : Message → ℕ
decode_consecutive_frame_sn [] = 0
decode_consecutive_frame_sn (byte0 ∷ rest) = u8 (bit_and byte0 sn_mask)

unfoldable pub encode_flow_control : FlowStatus → ℕ → ℕ → Message
encode_flow_control fs block_size st_min =
    u8 (bit_or 0x30 (bit_and (flow_status_value fs) 0x0F)) ∷ block_size ∷ st_min ∷ []

-- static_cast<FlowStatus> of a nibble up to 2.
unfoldable pub flow_status_of : ℕ → FlowStatus
flow_status_of nibble =
    if nibble == 0 then continue_to_send else (if nibble == 1 then wait else overflow)

-- The result, and what the three output parameters hold afterwards.
unfoldable pub decode_flow_control : Message → Bool × FlowStatus × ℕ × ℕ
unfolding flow_status_of
decode_flow_control frame =
    let nibble = bit_and (get_or frame 0 0) 0x0F in
    if ltb (length frame) 3
    then (false, wait, 0, 0)
    else (if ltb (flow_status_value overflow) nibble
        then (false, wait, 0, 0)
        else (true, flow_status_of nibble, get_or frame 1 0, get_or frame 2 0))

unfoldable pub st_min_to_duration : ℕ → ℕ
st_min_to_duration st_min =
    if leb st_min 0x7F
    then st_min * 1000
    else (if leb 0xF1 st_min && leb st_min 0xF9 then (st_min - 0xF0) * 100 else 0x7F * 1000)
