-- ===== src/IsoTp/Receiver.antt =====
-- can-lite/transport/iso-tp/IsoTpReceiver.cpp: reassembly of a PDU. A handler returns the new
-- receiver and the calls that it makes, in order: `sendFcFunc` with what its closure captures,
-- `onPduReadyFunc` and `onAbortFunc` (a receiver in use has all three).
pub mod Bounds
use can_lite.Base.{
  ℕ, ◌+◌, ◌-◌, Bool, true, false, not, ◌&&◌, ◌||◌, List, [], ◌∷◌, ◌++◌, leb, ltb, ◌==◌,
  if◌then◌else◌, length, take, drop, bit_and, min,
}
use can_lite.Base.Bits.{u8}
use can_lite.Codec.{Message}
use can_lite.IsoTp.{
  ReceiverState, receiving_cf, FrameType, single_frame, first_frame, consecutive_frame,
  flow_control, unknown, FlowStatus, continue_to_send, overflow, AbortReason, n_cr_timeout,
  buffer_overflow, unexpected_frame, send_failed, sf_max_payload_bytes, ff_first_data_offset,
  cf_max_data_bytes,
}
use can_lite.IsoTp.FrameCodec.{
  decode_frame_type, decode_single_frame_length, decode_first_frame_total_length,
  decode_consecutive_frame_sn, encode_flow_control,
}

pub record Receiver : Type 0 where
  pub state : ReceiverState
  pub expected_total_length : ℕ
  pub expected_sn : ℕ
  pub reception : ℕ
  pub block_size : ℕ
  pub separation_time : ℕ
  pub frames_in_block : ℕ
  pub assembly_buffer : List ℕ
  pub max_size : ℕ
  pub n_cr_timer : Bool

pub data Event : Type 0 where
  send_fc : Message → FlowStatus → ℕ → Event
  pdu_ready : List ℕ → Event
  abort_notified : AbortReason → Event

abbrev pub new_receiver : ℕ → Receiver
new_receiver max_size = record {
  state = ReceiverState.idle;
  expected_total_length = 0;
  expected_sn = 1;
  reception = 0;
  block_size = 0;
  separation_time = 0;
  frames_in_block = 0;
  assembly_buffer = [];
  max_size = max_size;
  n_cr_timer = false;
}

abbrev pub is_idle : ReceiverState → Bool
is_idle ReceiverState.idle = true
is_idle receiving_cf = false

abbrev pub is_continue : FlowStatus → Bool
is_continue continue_to_send = true
is_continue _ = false

unfoldable pub set_flow_control_parameters : Receiver → ℕ → ℕ → Receiver
set_flow_control_parameters r block_size separation_time = record r {
  block_size = block_size;
  separation_time = separation_time;
}

unfoldable pub clear : Receiver → Receiver
clear r = record r {
  n_cr_timer = false;
  assembly_buffer = [];
  state = ReceiverState.idle;
  reception = u8 (r.reception + 1);
}

unfoldable pub abort : Receiver → AbortReason → Receiver × List Event
unfolding clear
abort r reason = (clear r, abort_notified reason ∷ [])

unfoldable pub end_superseded_reception : Receiver → Receiver × List Event
unfolding abort
end_superseded_reception r = if is_idle r.state then (r, []) else abort r unexpected_frame

abbrev pub send_flow_control : Receiver → FlowStatus → List Event
send_flow_control r status =
    send_fc (encode_flow_control status r.block_size r.separation_time) status r.reception ∷ []

-- The closure that goes with a flow control frame.
unfoldable pub on_fc_sent : Receiver → FlowStatus → ℕ → Bool → Receiver × List Event
unfolding abort
on_fc_sent r status current success =
    if not success && is_continue status && (current == r.reception) && not (is_idle r.state)
    then abort r send_failed
    else (r, [])

-- `frame` is not empty: `DecodeFrameType` has read its first byte.
unfoldable pub handle_single_frame : Receiver → Message → Receiver × List Event
unfolding abort end_superseded_reception
handle_single_frame r frame =
    let len = decode_single_frame_length frame in
    if (len == 0) || ltb sf_max_payload_bytes len || ltb (u8 (length frame - 1)) len
    then (r, [])
    else let (r1, events) = end_superseded_reception r in
      if ltb r1.max_size len
      then (let (r2, more) = abort r1 buffer_overflow in (r2, events ++ more))
      else (record r1 { assembly_buffer = [] }, events ++ pdu_ready (take len (drop 1 frame)) ∷ [])

-- `SendFlowControl` and `Abort` in turn, or the start of a reception.
unfoldable pub start_reception : Receiver → ℕ → Message → Receiver × List Event
unfolding abort
start_reception r len frame =
    let r1 = record r {
      expected_total_length = len;
      expected_sn = 1;
      frames_in_block = 0;
      reception = u8 (r.reception + 1);
      assembly_buffer = drop ff_first_data_offset frame;
      state = receiving_cf;
      n_cr_timer = true;
    } in
    if ltb r.max_size len
    then (let (r2, more) = abort r buffer_overflow in (r2, send_flow_control r overflow ++ more))
    else (r1, send_flow_control r1 continue_to_send)

unfoldable pub handle_first_frame : Receiver → Message → Receiver × List Event
unfolding end_superseded_reception start_reception
handle_first_frame r frame =
    let len = decode_first_frame_total_length frame in
    if ltb (length frame) 8
    then (r, [])
    else (if leb len sf_max_payload_bytes
        then (r, [])
        else let (r1, events) = end_superseded_reception r in
          let (r2, more) = start_reception r1 len frame in (r2, events ++ more))

-- The loop over the bytes behind the first, up to the total length.
unfoldable pub fill : ℕ → List ℕ → List ℕ → List ℕ
fill total buffer [] = buffer
fill total buffer (byte ∷ bytes) =
    let rest = fill total (buffer ++ byte ∷ []) bytes in
    if leb total (length buffer) then buffer else rest

unfoldable pub has_consecutive_frame_length : Receiver → Message → Bool
has_consecutive_frame_length r frame =
    let remaining = r.expected_total_length - length r.assembly_buffer in
    leb (1 + min remaining cf_max_data_bytes) (length frame)

unfoldable pub continue_block : Receiver → Receiver × List Event
continue_block r =
    let r1 = record r { frames_in_block = u8 (r.frames_in_block + 1) } in
    let r2 = record r1 { frames_in_block = 0 } in
    if r.block_size == 0
    then (r, [])
    else (if not (r1.frames_in_block == r1.block_size)
        then (r1, [])
        else (r2, send_flow_control r2 continue_to_send))

unfoldable pub take_consecutive : Receiver → Message → Receiver × List Event
unfolding continue_block
take_consecutive r frame =
    let r1 = record r {
      expected_sn = u8 (bit_and (r.expected_sn + 1) 0x0F);
      n_cr_timer = true;
      assembly_buffer = fill r.expected_total_length r.assembly_buffer (drop 1 frame);
    } in
    if leb r1.expected_total_length (length r1.assembly_buffer)
    then (
      record r1 { n_cr_timer = false; state = ReceiverState.idle; assembly_buffer = [] },
      pdu_ready r1.assembly_buffer ∷ [],
    )
    else continue_block r1

unfoldable pub handle_consecutive_frame : Receiver → Message → Receiver × List Event
unfolding abort take_consecutive
handle_consecutive_frame r frame =
    if is_idle r.state || not (has_consecutive_frame_length r frame)
    then (r, [])
    else (if not (decode_consecutive_frame_sn frame == r.expected_sn)
        then abort r unexpected_frame
        else take_consecutive r frame)

unfoldable pub handle_frame : FrameType → Receiver → Message → Receiver × List Event
unfolding handle_single_frame handle_first_frame handle_consecutive_frame
handle_frame single_frame r frame = handle_single_frame r frame
handle_frame first_frame r frame = handle_first_frame r frame
handle_frame consecutive_frame r frame = handle_consecutive_frame r frame
handle_frame flow_control r frame = (r, [])
handle_frame unknown r frame = (r, [])

unfoldable pub process_frame : Receiver → Message → Receiver × List Event
unfolding handle_frame
process_frame r frame = handle_frame (decode_frame_type frame) r frame

-- The timer runs out.
unfoldable pub on_n_cr_timer : Receiver → Receiver × List Event
unfolding abort
on_n_cr_timer r = abort (record r { n_cr_timer = false }) n_cr_timeout

unfoldable pub reset : Receiver → Receiver
unfolding clear
reset r = clear r
