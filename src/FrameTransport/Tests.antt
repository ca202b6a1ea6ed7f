-- ===== src/FrameTransport/Tests.antt =====
-- A transport with a telemetry frame on its way and seven frames queued, given an emergency frame.
use mathlib.Core.List.{Perm}
use can_lite.Base.{
  ℕ, ◌≤◌, ◌≡◌, refl, true, false, some, [], ◌∷◌, ◌++◌, arith, All, if◌then◌else◌, ◌==◌, length,
}
use can_lite.FrameTransport.{
  PendingFrame, Transport, no_counts, insert, ordinary_count, submit, on_send_complete, enqueue,
  enqueue_emergency, back,
}
use can_lite.FrameTransport.Insert.{Queue, with_priority, with_priority-insert}
use can_lite.FrameTransport.Invariant.{
  IsValid, submit-IsValid, on_send_complete-IsValid, submit-refuses, submit-accepts,
}
use can_lite.FrameTransport.Callbacks.{
  outstanding, finished, handler, submit-Balanced, on_send_complete-Balanced,
}

abbrev frame : ℕ → ℕ → PendingFrame ℕ ℕ
frame priority handler = record {
  id = handler;
  content = [];
  on_done = handler;
  priority = priority;
}

abbrev with_queue : Queue ℕ ℕ → Transport ℕ ℕ
with_queue queue = record {
  node_id = 5;
  current = some (frame 12 0);
  current_retries = 0;
  counters = no_counts;
  has_notification = true;
  send_queue = queue;
}

abbrev mixed : Queue ℕ ℕ
mixed = frame 0 1 ∷ frame 4 2 ∷ frame 4 3 ∷ frame 8 4 ∷ []

abbrev urgent : Queue ℕ ℕ
urgent =
    frame 0 1
    ∷ frame 0 2
    ∷ frame 0 3
    ∷ frame 0 4
    ∷ frame 0 5
    ∷ frame 0 6
    ∷ frame 0 7
    ∷ frame 0 8
    ∷ []

mixed-IsValid : IsValid (with_queue mixed)
unfolding ordinary_count
mixed-IsValid = record {
  queue = record { bounded = omega arith; reserved = omega arith; sorted = omega arith };
  idle_empty = λ h. cc;
  retries = omega arith;
}

urgent-IsValid : IsValid (with_queue urgent)
unfolding ordinary_count
urgent-IsValid = record {
  queue = record { bounded = omega arith; reserved = omega arith; sorted = omega arith };
  idle_empty = λ h. cc;
  retries = omega arith;
}

with_priority-insert_example :
    with_priority 4 (insert (frame 4 9) mixed)
    ≡ with_priority 4 mixed ++ (if 4 == 4 then frame 4 9 ∷ [] else [])
with_priority-insert_example = with_priority-insert 4 (frame 4 9) mixed (omega arith)

submit-IsValid_example : IsValid (submit (with_queue mixed) (frame 4 9)).0
submit-IsValid_example = submit-IsValid (with_queue mixed) (frame 4 9) mixed-IsValid

on_send_complete-IsValid_example : IsValid (on_send_complete (with_queue mixed) false).0
on_send_complete-IsValid_example = on_send_complete-IsValid (with_queue mixed) false mixed-IsValid

submit-refuses_example :
    All (λ g. g.priority ≤ 0) urgent
    × ((submit (with_queue urgent) (frame 0 9)).0.send_queue ≡ urgent)
    × ((submit (with_queue urgent) (frame 0 9)).0.current ≡ some (frame 12 0))
    × ((submit (with_queue urgent) (frame 0 9)).1 ≡ [])
unfolding submit enqueue enqueue_emergency back
submit-refuses_example = submit-refuses (with_queue urgent) (frame 0 9) urgent-IsValid refl

submit-Balanced_example :
    let (t', events, accepted) = submit (with_queue urgent) (frame 4 9) in
    Perm
      (finished events ++ outstanding t')
      (if accepted then 9 ∷ outstanding (with_queue urgent) else outstanding (with_queue urgent))
submit-Balanced_example = submit-Balanced (with_queue urgent) (frame 4 9)

on_send_complete-Balanced_example :
    let (t', events) = on_send_complete (with_queue mixed) true in
    (finished events ++ outstanding t' ≡ outstanding (with_queue mixed))
    × (length (finished events) ≤ length (handler (with_queue mixed).current))
on_send_complete-Balanced_example = on_send_complete-Balanced (with_queue mixed) true

submit-accepts_example : (submit (with_queue mixed) (frame 12 9)).2 ≡ true
unfolding ordinary_count
submit-accepts_example = submit-accepts (with_queue mixed) (frame 12 9) (omega arith) (omega arith)
