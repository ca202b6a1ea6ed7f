-- ===== src/IsoTp/Channel.antt =====
-- can-lite/transport/iso-tp/IsoTpChannelImpl.cpp: a sender and a receiver under a pair of
-- identifiers. A method returns the new channel and the calls that it makes of the functions it was
-- configured with: `rawSendFunc` with a frame and the closure, `onPduReadyFunc`, `onAbortFunc`; a
-- transfer's completion handler is a number, as in IsoTp.Sender. A frame that `rawSendFunc` refuses
-- is answered by a call of `on_closure` with `false`, which stands for `onDone(false)`.
use can_lite.Base.{ℕ, Bool, true, false, not, List, [], ◌==◌, if◌then◌else◌, map}
use can_lite.Codec.{Message}
use can_lite.IsoTp.{FrameType, flow_control, FlowStatus, AbortReason}
use can_lite.IsoTp.FrameCodec.{decode_frame_type}
use can_lite.IsoTp.Sender
use can_lite.IsoTp.Sender.{Sender, Sent, send, process_flow_control, on_frame_sent}
use can_lite.IsoTp.Receiver
use can_lite.IsoTp.Receiver.{Receiver, process_frame, set_flow_control_parameters, on_fc_sent}

pub record Channel : Type 0 where
  pub rx_id : ℕ
  pub tx_id : ℕ
  pub occupied : Bool
  pub reception_enabled : Bool
  pub sender : Sender
  pub receiver : Receiver

-- The closure of a frame: the sender's or the receiver's.
pub data Closure : Type 0 where
  of_sender : Sent → Closure
  of_receiver : FlowStatus → ℕ → Closure

pub data Event : Type 0 where
  raw_send : ℕ → Message → Closure → Event
  pdu_ready : ℕ → List ℕ → Event
  abort_notified : ℕ → AbortReason → Event
  completed : ℕ → Event

abbrev pub is_flow_control : FrameType → Bool
is_flow_control flow_control = true
is_flow_control _ = false

-- `Transmit` and `NotifyAbort`, with the identifier to send under.
abbrev pub sender_event : ℕ → Sender.Event → Event
sender_event tx_id (Sender.Event.send_frame frame sent) = raw_send tx_id frame (of_sender sent)
sender_event tx_id (Sender.Event.abort_notified reason) = abort_notified tx_id reason
sender_event tx_id (Sender.Event.completed on_done) = completed on_done

-- `Transmit`, `NotifyPduReady` and `NotifyAbort`.
abbrev pub receiver_event : ℕ → ℕ → Receiver.Event → Event
receiver_event rx_id tx_id (Receiver.Event.send_fc frame status reception) =
    raw_send tx_id frame (of_receiver status reception)
receiver_event rx_id tx_id (Receiver.Event.pdu_ready pdu) = pdu_ready rx_id pdu
receiver_event rx_id tx_id (Receiver.Event.abort_notified reason) = abort_notified rx_id reason

unfoldable pub from_sender : Channel → Sender × List Sender.Event → Channel × List Event
from_sender c (s, events) = (record c { sender = s }, map (sender_event c.tx_id) events)

unfoldable pub from_receiver : Channel → Receiver × List Receiver.Event → Channel × List Event
from_receiver c (r, events) =
    (record c { receiver = r }, map (receiver_event c.rx_id c.tx_id) events)

unfoldable pub configure : Channel → ℕ → ℕ → Channel
configure c rx_id tx_id = record c {
  rx_id = rx_id;
  tx_id = tx_id;
  occupied = true;
  reception_enabled = false;
}

unfoldable pub enable_reception : Channel → Channel
enable_reception c = record c { reception_enabled = true }

unfoldable pub set_parameters : Channel → ℕ → ℕ → Channel
unfolding set_flow_control_parameters
set_parameters c block_size separation_time = record c {
  receiver = set_flow_control_parameters c.receiver block_size separation_time;
}

unfoldable pub release : Channel → Channel
release c = record c {
  sender = Sender.reset c.sender;
  receiver = Receiver.reset c.receiver;
  occupied = false;
  reception_enabled = false;
}

unfoldable pub process_channel_frame : Channel → ℕ → Message → Channel × List Event × Bool
unfolding from_sender from_receiver
process_channel_frame c can_id frame =
    let (flow_controlled, fc_events) = from_sender c (process_flow_control c.sender frame) in
    let (received, rx_events) = from_receiver c (process_frame c.receiver frame) in
    if not (can_id == c.rx_id)
    then (c, [], false)
    else (if is_flow_control (decode_frame_type frame)
        then (flow_controlled, fc_events, true)
        else (if not c.reception_enabled then (c, [], false) else (received, rx_events, true)))

unfoldable pub send_channel_pdu : Channel → List ℕ → ℕ → Channel × List Event × Bool
unfolding from_sender
send_channel_pdu c pdu on_done =
    let (s, events, accepted) = send c.sender pdu on_done in
    let (c', out) = from_sender c (s, events) in (c', out, accepted)

-- A frame was sent or given up: its closure is called.
unfoldable pub on_closure : Channel → Closure → Bool → Channel × List Event
unfolding from_sender from_receiver
on_closure c (of_sender sent) success = from_sender c (on_frame_sent c.sender sent success)
on_closure c (of_receiver status reception) success =
    from_receiver c (on_fc_sent c.receiver status reception success)
