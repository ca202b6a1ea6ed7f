-- ===== src/FrameTransport.antt =====
-- can-lite/core/CanFrameTransport.cpp: one frame on its way to the bus and a bounded queue behind
-- it, ordered by urgency. A method returns the new transport with the calls that it makes, in
-- order; a completion handler is a value of `Done`, and a call of it is an event. The driver
-- reports the end of a transmission by a later call of `on_send_complete`.
pub mod Insert
pub mod Invariant
pub mod Callbacks
mod Tests
use can_lite.Base.{
  ℕ, ◌+◌, ◌-◌, Bool, true, false, not, ◌&&◌, ◌||◌, Option, none, some, List, [], ◌∷◌, ◌++◌, ltb,
  leb, ◌==◌, if◌then◌else◌, length, take, drop,
}
use can_lite.Base.Bits.{u8, u32}
use can_lite.Codec.{Message}
use can_lite.Hal.{CanIds}
use can_lite.Protocol.{
  CanPriority, emergency, command, priority_value, make_can_id, extract_can_priority,
}

abbrev pub queue_depth : ℕ
queue_depth = 8

abbrev pub emergency_reserve : ℕ
emergency_reserve = 2

abbrev pub emergency_retry_limit : ℕ
emergency_retry_limit = 2

pub record Counters : Type 0 where
  pub emergency_drops : ℕ
  pub emergency_retries : ℕ
  pub evictions : ℕ
  pub ordinary_drops : ℕ
  pub send_failures : ℕ

abbrev pub no_counts : Counters
no_counts = record {
  emergency_drops = 0;
  emergency_retries = 0;
  evictions = 0;
  ordinary_drops = 0;
  send_failures = 0;
}

pub record PendingFrame (Ident Done : Type 0) : Type 0 where
  pub id : Ident
  pub content : Message
  pub on_done : Done
  pub priority : ℕ

pub record Transport (Ident Done : Type 0) : Type 0 where
  pub node_id : ℕ
  pub current : Option (PendingFrame Ident Done)
  pub current_retries : ℕ
  pub counters : Counters
  pub has_notification : Bool
  pub send_queue : List (PendingFrame Ident Done)

-- `can.SendData`, a call of a completion handler, a call of `onSendNotification`.
pub data Event (Ident Done : Type 0) : Type 0 where
  send_data : Ident → Message → Event Ident Done
  done : Done → Bool → Event Ident Done
  notified : Event Ident Done

module _ {Ident Done : Type 0} where
  abbrev pub is_emergency : PendingFrame Ident Done → Bool
  is_emergency frame = frame.priority == priority_value emergency

  -- The number of frames before the first that is less urgent than `priority`.
  unfoldable pub find_less_urgent : ℕ → List (PendingFrame Ident Done) → ℕ
  find_less_urgent priority [] = 0
  find_less_urgent priority (queued ∷ queue) =
      let rest = find_less_urgent priority queue in
      if ltb priority queued.priority then 0 else rest + 1

  -- `push_back` and `rotate`: the last frame moves to the index found.
  unfoldable pub insert :
      PendingFrame Ident Done → List (PendingFrame Ident Done) → List (PendingFrame Ident Done)
  insert frame queue =
      let index = find_less_urgent frame.priority queue in
      take index queue ++ frame ∷ drop index queue

  unfoldable pub ordinary_count : List (PendingFrame Ident Done) → ℕ
  ordinary_count [] = 0
  ordinary_count (queued ∷ queue) =
      if is_emergency queued then ordinary_count queue else ordinary_count queue + 1

  unfoldable pub back : List (PendingFrame Ident Done) → Option (PendingFrame Ident Done)
  back [] = none
  back (frame ∷ []) = some frame
  back (frame ∷ next ∷ queue) = back (next ∷ queue)

  unfoldable pub pop_back : List (PendingFrame Ident Done) → List (PendingFrame Ident Done)
  pop_back [] = []
  pop_back (frame ∷ []) = []
  pop_back (frame ∷ next ∷ queue) = frame ∷ pop_back (next ∷ queue)

  abbrev pub full : List (PendingFrame Ident Done) → Bool
  full queue = length queue == queue_depth

  abbrev pub notify_send : Transport Ident Done → List (Event Ident Done)
  notify_send t = if t.has_notification then notified ∷ [] else []

  abbrev pub transmit : PendingFrame Ident Done → List (Event Ident Done)
  transmit frame = send_data frame.id frame.content ∷ []

  -- The frame evicted is the last one of the queue.
  displace_newest_least_urgent :
      Transport Ident Done
      → PendingFrame Ident Done
      → PendingFrame Ident Done
      → Transport Ident Done × List (Event Ident Done)
  displace_newest_least_urgent t last frame = (
    record t {
      send_queue = insert frame (pop_back t.send_queue);
      counters = record (t.counters) { evictions = u32 (t.counters.evictions + 1) };
    },
    done last.on_done false ∷ [],
  )

  -- The queue is not empty where `back` is called (`back_is_called_safely`).
  unfoldable pub enqueue_ordinary :
      Transport Ident Done
      → PendingFrame Ident Done
      → Transport Ident Done × List (Event Ident Done) × Bool
  unfolding displace_newest_least_urgent
  enqueue_ordinary t frame =
      if not (full t.send_queue)
        && ltb (ordinary_count t.send_queue) (queue_depth - emergency_reserve)
      then (record t { send_queue = insert frame t.send_queue }, [], true)
      else elim (back t.send_queue) [
        | none ↦ (t, [], false)
        | some last ↦
            if is_emergency last || leb last.priority frame.priority
            then (
              record t {
                counters = record (t.counters) {
                  ordinary_drops = u32 (t.counters.ordinary_drops + 1);
                };
              },
              [],
              false,
            )
            else let (t', events) = displace_newest_least_urgent t last frame in (t', events, true)
      ]

  unfoldable pub enqueue_emergency :
      Transport Ident Done
      → PendingFrame Ident Done
      → Transport Ident Done × List (Event Ident Done) × Bool
  unfolding displace_newest_least_urgent
  enqueue_emergency t frame =
      if not (full t.send_queue)
      then (record t { send_queue = insert frame t.send_queue }, [], true)
      else elim (back t.send_queue) [
        | none ↦ (t, [], false)
        | some last ↦
            if is_emergency last
            then (
              record t {
                counters = record (t.counters) {
                  emergency_drops = u32 (t.counters.emergency_drops + 1);
                };
              },
              [],
              false,
            )
            else let (t', events) = displace_newest_least_urgent t last frame in (t', events, true)
      ]

  unfoldable pub enqueue :
      Transport Ident Done
      → PendingFrame Ident Done
      → Transport Ident Done × List (Event Ident Done) × Bool
  enqueue t frame =
      let (t', events, queued) =
        if is_emergency frame then enqueue_emergency t frame else enqueue_ordinary t frame in
      if queued then (t', events ++ notify_send t', true) else (t', events, false)

  -- A frame for the bus or the queue.
  unfoldable pub submit :
      Transport Ident Done
      → PendingFrame Ident Done
      → Transport Ident Done × List (Event Ident Done) × Bool
  unfolding enqueue
  submit t frame = elim t.current [
    | some busy ↦ enqueue t frame
    | none ↦ (
      record t { current = some frame; current_retries = 0 },
      transmit frame ++ notify_send t,
      true,
    )
  ]

  -- Whether the frame goes out again.
  unfoldable pub retry_current :
      Transport Ident Done
      → PendingFrame Ident Done
      → Bool
      → Transport Ident Done × List (Event Ident Done) × Bool
  retry_current t frame success =
      if success
      then (t, [], false)
      else (if not (is_emergency frame)
          then (
            record t {
              counters = record (t.counters) { send_failures = u32 (t.counters.send_failures + 1) };
            },
            [],
            false,
          )
          else (if t.current_retries == emergency_retry_limit
              then (
                record t {
                  counters = record (t.counters) {
                    emergency_drops = u32 (t.counters.emergency_drops + 1);
                  };
                },
                [],
                false,
              )
              else (
                record t {
                  current_retries = u8 (t.current_retries + 1);
                  counters = record (t.counters) {
                    emergency_retries = u32 (t.counters.emergency_retries + 1);
                  };
                },
                transmit frame,
                true,
              )))

  unfoldable pub send_next_queued :
      Transport Ident Done → Transport Ident Done × List (Event Ident Done)
  send_next_queued t = elim t.send_queue [
    | [] ↦ (record t { current = none }, [])
    | next ∷ queue ↦
        (record t { current = some next; send_queue = queue; current_retries = 0 }, transmit next)
  ]

  complete_frame :
      Transport Ident Done
      → PendingFrame Ident Done
      → Bool
      → Transport Ident Done × List (Event Ident Done)
  unfolding retry_current send_next_queued
  complete_frame t frame success =
      let (t', events, again) = retry_current t frame success in
      if again
      then (t', events)
      else let (t'', next) = send_next_queued t' in (t'', next ++ done frame.on_done success ∷ [])

  -- The driver calls this only while a frame is on its way.
  unfoldable pub on_send_complete :
      Transport Ident Done → Bool → Transport Ident Done × List (Event Ident Done)
  unfolding complete_frame
  on_send_complete t success = elim t.current [
    | none ↦ (t, [])
    | some frame ↦ complete_frame t frame success
  ]

  unfoldable pub set_node_id : Transport Ident Done → ℕ → Transport Ident Done
  set_node_id t node_id = record t { node_id = node_id }

module _ (hal : CanIds) where
  open hal use {Ident, is_29_bit_id, get_29_bit_id, create_29_bit_id}

  unfoldable pub priority_of : Ident → ℕ
  priority_of id =
      if not (is_29_bit_id id)
      then priority_value command
      else extract_can_priority (get_29_bit_id id)

  unfoldable pub pending_frame : {Done : Type 0} → Ident → Message → Done → PendingFrame Ident Done
  unfolding priority_of
  pending_frame id content on_done = record {
    id = id;
    content = content;
    on_done = on_done;
    priority = priority_of id;
  }

  unfoldable pub send_raw_frame :
      {Done : Type 0}
      → Transport Ident Done
      → Ident
      → Message
      → Done
      → Transport Ident Done × List (Event Ident Done) × Bool
  unfolding pending_frame submit
  send_raw_frame t id content on_done = submit t (pending_frame id content on_done)

  unfoldable pub send_frame_to :
      {Done : Type 0}
      → Transport Ident Done
      → ℕ
      → CanPriority
      → ℕ
      → ℕ
      → Message
      → Done
      → Transport Ident Done × List (Event Ident Done) × Bool
  unfolding send_raw_frame
  send_frame_to t target_node_id priority category message_type content on_done =
      let raw_id = make_can_id priority category message_type target_node_id in
      send_raw_frame t (create_29_bit_id raw_id) content on_done

  unfoldable pub send_frame :
      {Done : Type 0}
      → Transport Ident Done
      → CanPriority
      → ℕ
      → ℕ
      → Message
      → Done
      → Transport Ident Done × List (Event Ident Done) × Bool
  unfolding send_frame_to
  send_frame t = send_frame_to t t.node_id

  unfoldable pub transport : {Done : Type 0} → ℕ → Bool → Transport Ident Done
  transport node_id has_notification = record {
    node_id = node_id;
    current = none;
    current_retries = 0;
    counters = no_counts;
    has_notification = has_notification;
    send_queue = [];
  }
