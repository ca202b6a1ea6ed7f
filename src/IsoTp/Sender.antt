-- ===== src/IsoTp/Sender.antt =====
-- can-lite/transport/iso-tp/IsoTpSender.cpp: segmentation of a PDU. A handler returns the new
-- sender and the calls that it makes, in order: `sendFrameFunc` with the closure that it hands
-- over, `onAbortFunc` (a sender in use has one) and the transfer's completion handler, which is a
-- number here. A timer is a flag, or the delay that it was started with.
use can_lite.Base.{
  ℕ, ◌+◌, ◌-◌, Bool, true, false, not, ◌&&◌, Option, none, some, List, [], ◌∷◌, leb, ltb, ◌==◌,
  if◌then◌else◌, length, drop, bit_and,
}
use can_lite.Base.Bits.{u8, u16}
use can_lite.Codec.{Message}
use can_lite.IsoTp.{
  SenderState, FlowStatus, continue_to_send, wait, overflow, AbortReason, n_bs_timeout,
  n_as_timeout, buffer_overflow, unexpected_frame, wait_limit_exceeded, send_failed, n_wft_max,
  sf_max_payload_bytes, ff_first_data_bytes, ff_max_pdu_length, sn_mask,
}
use can_lite.IsoTp.FrameCodec.{
  encode_single_frame, encode_first_frame, encode_consecutive_frame, decode_flow_control,
  st_min_to_duration,
}

pub record Sender : Type 0 where
  pub state : SenderState
  pub bytes_sent : ℕ
  pub sequence_number : ℕ
  pub block_size : ℕ
  pub blocks_remaining : ℕ
  pub st_min_byte : ℕ
  pub wait_count : ℕ
  pub transfer : ℕ
  pub on_done : ℕ
  pub pdu_buffer : List ℕ
  pub max_size : ℕ
  pub n_as_timer : Bool
  pub n_bs_timer : Bool
  pub st_min_timer : Option ℕ

-- The closures that go with a frame: what each captures.
pub data Sent : Type 0 where
  single_sent : ℕ → Sent
  awaiting_fc : ℕ → Sent
  consecutive_sent : Bool → ℕ → Sent

pub data Event : Type 0 where
  send_frame : Message → Sent → Event
  abort_notified : AbortReason → Event
  completed : ℕ → Event

abbrev pub new_sender : ℕ → Sender
new_sender max_size = record {
  state = SenderState.idle;
  bytes_sent = 0;
  sequence_number = 1;
  block_size = 0;
  blocks_remaining = 0;
  st_min_byte = 0;
  wait_count = 0;
  transfer = 0;
  on_done = 0;
  pdu_buffer = [];
  max_size = max_size;
  n_as_timer = false;
  n_bs_timer = false;
  st_min_timer = none;
}

abbrev pub is_idle : SenderState → Bool
is_idle SenderState.idle = true
is_idle _ = false

abbrev pub is_waiting_for_fc : SenderState → Bool
is_waiting_for_fc SenderState.waiting_for_fc = true
is_waiting_for_fc _ = false

abbrev pub is_sending_cf : SenderState → Bool
is_sending_cf SenderState.sending_cf = true
is_sending_cf _ = false

unfoldable pub clear : Sender → Sender
clear s = record s {
  n_as_timer = false;
  n_bs_timer = false;
  st_min_timer = none;
  state = SenderState.idle;
  transfer = u8 (s.transfer + 1);
}

unfoldable pub abort : Sender → AbortReason → Sender × List Event
unfolding clear
abort s reason = (clear s, abort_notified reason ∷ [])

unfoldable pub complete : Sender → Sender × List Event
complete s = (
  record s { state = SenderState.idle; transfer = u8 (s.transfer + 1) },
  completed s.on_done ∷ [],
)

-- `none` where the source asserts that the encoding succeeds.
send_single : Sender → Option Message → Sender × List Event
send_single s none = (s, [])
send_single s (some frame) = (
  record s { state = SenderState.sending_sf; n_as_timer = true },
  send_frame frame (single_sent s.transfer) ∷ [],
)

send_first : Sender → Option Message → Sender × List Event
send_first s none = (s, [])
send_first s (some frame) = (
  record s {
    bytes_sent = ff_first_data_bytes;
    state = SenderState.waiting_for_fc;
    n_bs_timer = true;
  },
  send_frame frame (awaiting_fc s.transfer) ∷ [],
)

unfoldable pub send_first_or_single_frame : Sender → Sender × List Event
unfolding send_single send_first
send_first_or_single_frame s =
    if leb (length s.pdu_buffer) sf_max_payload_bytes
    then send_single s (encode_single_frame s.pdu_buffer)
    else send_first s (encode_first_frame s.pdu_buffer)

-- The sender at the start of a transfer.
abbrev pub accepted : Sender → List ℕ → ℕ → Sender
accepted s pdu on_done = record s {
  pdu_buffer = pdu;
  on_done = on_done;
  transfer = u8 (s.transfer + 1);
  bytes_sent = 0;
  sequence_number = 1;
  block_size = 0;
  blocks_remaining = 0;
  st_min_byte = 0;
  wait_count = 0;
}

unfoldable pub send : Sender → List ℕ → ℕ → Sender × List Event × Bool
send s pdu on_done =
    if length pdu == 0
    then (s, [], false)
    else (if ltb ff_max_pdu_length (length pdu)
        then (s, [], false)
        else (if not (is_idle s.state)
            then (s, [], false)
            else (if ltb s.max_size (length pdu)
                then (s, [], false)
                else let (s', events) = send_first_or_single_frame (accepted s pdu on_done) in
                  (s', events, true))))

unfoldable pub send_next_consecutive_frame : Sender → Sender × List Event
send_next_consecutive_frame s =
    let remaining = drop s.bytes_sent s.pdu_buffer in
    let (frame, written) = encode_consecutive_frame (bit_and s.sequence_number sn_mask) remaining in
    let s1 = record s {
      sequence_number = u8 (bit_and (s.sequence_number + 1) 0x0F);
      bytes_sent = u16 (s.bytes_sent + written);
    } in
    let all_sent = leb (u16 (length s.pdu_buffer)) s1.bytes_sent in
    let counting = not all_sent && not (s.block_size == 0) in
    let s2 =
      if counting && ltb 0 s1.blocks_remaining
      then record s1 { blocks_remaining = s1.blocks_remaining - 1 }
      else s1 in
    if counting && (s2.blocks_remaining == 0)
    then (
      record s2 { state = SenderState.waiting_for_fc; n_bs_timer = true },
      send_frame frame (awaiting_fc s2.transfer) ∷ [],
    )
    else (
      record s2 { n_as_timer = true },
      send_frame frame (consecutive_sent all_sent s2.transfer) ∷ [],
    )

unfoldable pub schedule_next_cf : Sender → Sender × List Event
schedule_next_cf s =
    let delay = st_min_to_duration s.st_min_byte in
    if ltb 0 delay
    then (record s { st_min_timer = some delay }, [])
    else send_next_consecutive_frame s

flow_continues : Sender → ℕ → ℕ → Sender × List Event
flow_continues s bs st_min = schedule_next_cf (record s {
  wait_count = 0;
  n_bs_timer = false;
  block_size = bs;
  blocks_remaining = bs;
  st_min_byte = st_min;
  state = SenderState.sending_cf;
})

flow_waits : Sender → Sender × List Event
unfolding abort
flow_waits s =
    let s' = record s { wait_count = u8 (s.wait_count + 1) } in
    if ltb n_wft_max s'.wait_count
    then abort s' wait_limit_exceeded
    else (record s' { n_bs_timer = true }, [])

on_flow_status : Sender → FlowStatus → ℕ → ℕ → Sender × List Event
unfolding abort flow_waits flow_continues
on_flow_status s overflow bs st_min = abort s buffer_overflow
on_flow_status s wait bs st_min = flow_waits s
on_flow_status s continue_to_send bs st_min = flow_continues s bs st_min

unfoldable pub process_flow_control : Sender → Message → Sender × List Event
unfolding abort on_flow_status
process_flow_control s frame =
    let (decoded, fs, bs, st_min) = decode_flow_control frame in
    if not (is_waiting_for_fc s.state)
    then (s, [])
    else (if decoded then on_flow_status s fs bs st_min else abort s unexpected_frame)

-- The closures, called when the frame has been sent or was given up.
unfoldable pub on_frame_sent : Sender → Sent → Bool → Sender × List Event
unfolding abort complete
on_frame_sent s (single_sent current) success =
    let s' = record s { n_as_timer = false } in
    if not (current == s.transfer)
    then (s, [])
    else (if success then complete s' else abort s' send_failed)
on_frame_sent s (awaiting_fc current) success =
    if not success && (current == s.transfer) then abort s send_failed else (s, [])
on_frame_sent s (consecutive_sent all_sent current) success =
    let s' = record s { n_as_timer = false } in
    if not (current == s.transfer)
    then (s, [])
    else (if not success
        then abort s' send_failed
        else (if all_sent
            then complete s'
            else (if is_sending_cf s.state then schedule_next_cf s' else (s', []))))

-- The timers run out.
unfoldable pub on_n_bs_timer : Sender → Sender × List Event
unfolding abort
on_n_bs_timer s = abort (record s { n_bs_timer = false }) n_bs_timeout

unfoldable pub on_n_as_timer : Sender → Sender × List Event
unfolding abort
on_n_as_timer s = abort (record s { n_as_timer = false }) n_as_timeout

unfoldable pub on_st_min_timer : Sender → Sender × List Event
on_st_min_timer s = send_next_consecutive_frame (record s { st_min_timer = none })

unfoldable pub reset : Sender → Sender
unfolding clear
reset s = clear s
