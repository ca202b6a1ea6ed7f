-- ===== src/Client.antt =====
-- can-lite/client/CanProtocolClient.cpp: the node that sends commands, as far as it keeps track of
-- its servers. `serverStates` holds the sequence number and the command awaited for each server,
-- `serverLiveness` who is online. A pointer to a slot is the slot's index. A timer is the time at
-- which it runs out, or `none`; the current time is an argument.
pub mod Liveness
pub mod Reservations
pub mod Counting
pub mod Resync
pub mod Sending
pub mod Dispatch
pub mod Exchange
mod Scenarios
mod Tests
use can_lite.Base.{
  ℕ, suc, ◌+◌, ◌%◌, Bool, true, false, not, ◌&&◌, ◌||◌, Option, none, some, List, [], ◌∷◌, ltb, leb,
  ◌==◌, if◌then◌else◌, length, get_or, set,
}
use can_lite.Base.Bits.{u8}
use can_lite.Codec.{Message}
use can_lite.Protocol.{
  can_system_category_id, can_command_ack_message_type_id, can_command_ack_size, sequence_error,
  ack_status_value,
}

-- `maxServers`
abbrev pub max_servers : ℕ
max_servers = 8

pub record PerServerState : Type 0 where
  pub node_id : ℕ
  pub sequence_counter : ℕ
  pub occupied : Bool
  pub awaiting_ack : Bool
  pub awaiting_category : ℕ
  pub awaiting_message_type : ℕ
  pub ack_timer : Option ℕ

abbrev pub empty_state : PerServerState
empty_state = record {
  node_id = 0;
  sequence_counter = 0;
  occupied = false;
  awaiting_ack = false;
  awaiting_category = 0;
  awaiting_message_type = 0;
  ack_timer = none;
}

-- `previous` holds the sequence record and the deadline of its timer.
pub record Reservation : Type 0 where
  pub index : ℕ
  pub sequence : ℕ
  pub previous : PerServerState
  pub previous_evict_index : ℕ

pub record Sequences : Type 0 where
  pub server_states : List PerServerState
  pub next_sequence_evict_index : ℕ
  pub last_reservation : Option Reservation

pub data Event : Type 0 where
  command_ack_timeout : ℕ → ℕ → ℕ → Event
  server_online server_offline : ℕ → Event

abbrev pub serves : ℕ → PerServerState → Bool
serves node_id state = state.occupied && (state.node_id == node_id)

abbrev pub next_index : Option ℕ → Option ℕ
next_index none = none
next_index (some index) = some (suc index)

-- The index of the first slot that the test holds for.
unfoldable pub find_slot : (PerServerState → Bool) → List PerServerState → Option ℕ
find_slot test [] = none
find_slot test (state ∷ states) =
    let rest = find_slot test states in if test state then some 0 else next_index rest

abbrev pub slot : ℕ → List PerServerState → PerServerState
slot index states = get_or states index empty_state

-- Changes the first slot that the test holds for.
unfoldable pub update_slot :
    (PerServerState → Bool)
    → (PerServerState → PerServerState)
    → List PerServerState
    → List PerServerState
update_slot test change [] = []
update_slot test change (state ∷ states) =
    let rest = update_slot test change states in
    if test state then change state ∷ states else state ∷ rest

-- The node's slot, else a free one, else the one whose turn it is; and the next to evict.
unfoldable pub choose_slot : Option ℕ → Option ℕ → ℕ → ℕ × ℕ
choose_slot (some index) free evict_index = (index, evict_index)
choose_slot none (some index) evict_index = (index, evict_index)
choose_slot none none evict_index = (evict_index, u8 ((evict_index + 1) % max_servers))

unfoldable pub claim_sequence_slot : Sequences → ℕ → ℕ × ℕ
unfolding choose_slot
claim_sequence_slot c node_id =
    choose_slot (find_slot (serves node_id) c.server_states)
      (find_slot (λ state. not state.occupied) c.server_states) c.next_sequence_evict_index

-- A slot as the reservation finds it, or a new record for the node; the timer stays.
unfoldable pub opened : ℕ → PerServerState → PerServerState
opened node_id state =
    if not state.occupied || not (state.node_id == node_id)
    then record {
      node_id = node_id;
      sequence_counter = 0;
      occupied = true;
      awaiting_ack = false;
      awaiting_category = 0;
      awaiting_message_type = 0;
      ack_timer = state.ack_timer;
    }
    else state

-- `deadline` is the current time and `commandAckTimeout` together.
unfoldable pub reserve_sequence : Sequences → ℕ → ℕ → ℕ → ℕ → Sequences × ℕ
reserve_sequence c node_id category message_type deadline =
    let (index, next) = claim_sequence_slot c node_id in
    let previous = slot index c.server_states in
    let state = opened node_id previous in
    let reserved = record state {
      sequence_counter = u8 (state.sequence_counter + 1);
      awaiting_ack = true;
      awaiting_category = category;
      awaiting_message_type = message_type;
      ack_timer = some deadline;
    } in
    (
      record {
        server_states = set c.server_states index reserved;
        next_sequence_evict_index = next;
        last_reservation = some (record {
          index = index;
          sequence = state.sequence_counter;
          previous = previous;
          previous_evict_index = c.next_sequence_evict_index;
        });
      },
      state.sequence_counter,
    )

-- The source asserts that the last reservation is the one to cancel. `AwaitAck` starts the timer
-- at its old deadline, or it is cancelled.
unfoldable pub cancel_reservation : Sequences → Sequences
cancel_reservation c = elim c.last_reservation [
  | none ↦ c
  | some reservation ↦
      let restored =
        if reservation.previous.awaiting_ack
        then reservation.previous
        else record (reservation.previous) { ack_timer = none } in
      record {
        server_states = set c.server_states reservation.index restored;
        next_sequence_evict_index = reservation.previous_evict_index;
        last_reservation = none;
      }
]

unfoldable pub return_sequence : Sequences → ℕ → ℕ → Sequences
return_sequence c node_id sequence = record c {
  server_states =
      update_slot (λ state. serves node_id state && (state.sequence_counter == u8 (sequence + 1)))
        (λ state. record state { sequence_counter = sequence }) c.server_states;
}

unfoldable pub resync_sequence : Sequences → ℕ → ℕ → Sequences
resync_sequence c node_id expected_sequence = record c {
  server_states =
      update_slot (serves node_id) (λ state. record state { sequence_counter = expected_sequence })
        c.server_states;
}

unfoldable pub clear_awaiting_ack : Sequences → ℕ → ℕ → ℕ → Sequences
clear_awaiting_ack c node_id category message_type = record c {
  server_states =
      update_slot
        (λ state.
          serves node_id state
          && state.awaiting_ack
          && (state.awaiting_category == category)
          && (state.awaiting_message_type == message_type))
        (λ state. record state { awaiting_ack = false; ack_timer = none }) c.server_states;
}

abbrev awaits : ℕ → PerServerState → Bool
awaits node_id state = serves node_id state && state.awaiting_ack

-- The timer of the node's slot runs out.
unfoldable pub handle_command_ack_timeout : Sequences → ℕ → Sequences × List Event
handle_command_ack_timeout c node_id = elim (find_slot (awaits node_id) c.server_states) [
  | none ↦ (c, [])
  | some index ↦
      let state = slot index c.server_states in
      (
        record c {
          server_states =
              update_slot (awaits node_id)
                (λ state. record state { awaiting_ack = false; ack_timer = none }) c.server_states;
        },
        command_ack_timeout node_id state.awaiting_category state.awaiting_message_type ∷ [],
      )
]

unfoldable pub handle_command_ack_frame : Sequences → ℕ → ℕ → ℕ → Message → Sequences
unfolding clear_awaiting_ack resync_sequence
handle_command_ack_frame c source_node_id category_id message_type payload =
    let cleared = clear_awaiting_ack c source_node_id (get_or payload 0 0) (get_or payload 1 0) in
    if not (category_id == can_system_category_id)
      || not (message_type == can_command_ack_message_type_id)
    then c
    else (if ltb (length payload) can_command_ack_size || (source_node_id == 0)
        then c
        else (if get_or payload 2 0 == ack_status_value sequence_error
            then resync_sequence cleared source_node_id (get_or payload 3 0)
            else cleared))
