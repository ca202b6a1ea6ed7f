-- ===== src/IsoTp/Link.antt =====
-- A sender and a receiver joined by a bus that loses and reorders nothing: every frame arrives and
-- is confirmed before its answer, and the separation timer runs out before anything else happens.
-- This is the composition that `IsoTpChannelImpl` makes on two nodes, without the identifiers.
pub mod Rounds
pub mod Delivery
pub mod Transfer
use can_lite.Base.{ℕ, zero, suc, true, Option, none, some, List, [], ◌∷◌, ◌++◌}
use can_lite.IsoTp.Sender
use can_lite.IsoTp.Sender.{
  Sender, send_next_consecutive_frame, process_flow_control, on_frame_sent, on_st_min_timer,
}
use can_lite.IsoTp.Receiver
use can_lite.IsoTp.Receiver.{Receiver, process_frame}
use can_lite.IsoTp.{AbortReason}

pub record Link : Type 0 where
  pub sender : Sender
  pub receiver : Receiver
  pub delivered : List (List ℕ)
  pub finished : List ℕ
  pub aborts : List AbortReason

-- Flow control frames go back to the sender.
unfoldable pub answer : Sender → List Receiver.Event → Sender × List Sender.Event
answer s [] = (s, [])
answer s (Receiver.Event.send_fc frame status reception ∷ events) =
    let (s1, e1) = process_flow_control s frame in let (s2, e2) = answer s1 events in (s2, e1 ++ e2)
answer s (Receiver.Event.pdu_ready pdu ∷ events) = answer s events
answer s (Receiver.Event.abort_notified reason ∷ events) = answer s events

unfoldable pub ready_pdus : List Receiver.Event → List (List ℕ)
ready_pdus [] = []
ready_pdus (Receiver.Event.pdu_ready pdu ∷ events) = pdu ∷ ready_pdus events
ready_pdus (Receiver.Event.send_fc frame status reception ∷ events) = ready_pdus events
ready_pdus (Receiver.Event.abort_notified reason ∷ events) = ready_pdus events

unfoldable pub receiver_aborts : List Receiver.Event → List AbortReason
receiver_aborts [] = []
receiver_aborts (Receiver.Event.abort_notified reason ∷ events) = reason ∷ receiver_aborts events
receiver_aborts (Receiver.Event.send_fc frame status reception ∷ events) = receiver_aborts events
receiver_aborts (Receiver.Event.pdu_ready pdu ∷ events) = receiver_aborts events

-- The separation timer runs out, if it was started.
unfoldable pub expire : Sender × List Sender.Event → Sender × List Sender.Event
expire (s, events) = elim s.st_min_timer [
  | none ↦ (s, events)
  | some delay ↦ let (s', more) = on_st_min_timer s in (s', events ++ more)
]

-- What one frame on the bus brings about, and the calls that the sender makes next.
unfoldable pub transport : Link → List ℕ → Sender.Sent → Link × List Sender.Event
transport l frame sent =
    let (r, answers) = process_frame l.receiver frame in
    let (s1, e1) = on_frame_sent l.sender sent true in
    let (s2, e2) = answer s1 answers in
    let (s3, e3) = expire (s2, e1 ++ e2) in
    (
      record l {
        sender = s3;
        receiver = r;
        delivered = l.delivered ++ ready_pdus answers;
        aborts = l.aborts ++ receiver_aborts answers;
      },
      e3,
    )

-- Carries out the sender's calls until there are none.
unfoldable pub run : ℕ → Link → List Sender.Event → Link
run zero l events = l
run (suc fuel) l [] = l
run (suc fuel) l (Sender.Event.send_frame frame sent ∷ events) =
    let (l', more) = transport l frame sent in run fuel l' (events ++ more)
run (suc fuel) l (Sender.Event.completed on_done ∷ events) =
    run fuel (record l { finished = l.finished ++ on_done ∷ [] }) events
run (suc fuel) l (Sender.Event.abort_notified reason ∷ events) =
    run fuel (record l { aborts = l.aborts ++ reason ∷ [] }) events
