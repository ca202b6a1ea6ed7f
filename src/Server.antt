-- ===== src/Server.antt =====
-- can-lite/server/CanProtocolServer.cpp: the node that receives commands. A method returns the new
-- server with what can be observed outside, in order: frames for the driver, calls of completion
-- handlers that are not the server's own, and `Online` and `Offline`.
--
-- Parameters: the driver's identifiers, the capacity of a message, what the handlers of the
-- registered categories do, and the ISO-TP transport, which is an interface here. A handler works
-- on a state of its own and replies by the protected methods of `CanCategoryServer`.
pub mod Dispatch
pub mod Core
pub mod Commands
pub mod Handled
pub mod Budget
pub mod Registry
mod Tests
use can_lite.Base.{
  ℕ, ◌+◌, Bool, true, false, not, ◌&&◌, ◌||◌, Option, none, some, List, [], ◌∷◌, ◌++◌, leb, ◌==◌,
  if◌then◌else◌, length, map,
}
use can_lite.Base.Bits.{u8, u16, u32}
use can_lite.Codec.{Message}
use can_lite.Hal.{CanIds}
use can_lite.Payload.{empty_writer, write_uint8}
use can_lite.Protocol.{
  CanPriority, emergency, response, telemetry, heartbeat, priority_value, CanAckStatus,
  unknown_command, invalid_payload, sequence_error, ack_status_value, extract_can_priority,
  extract_can_category, extract_can_message_type, extract_can_node_id, is_command_message_type,
  can_broadcast_node_id, can_protocol_version, can_system_category_id,
  can_heartbeat_message_type_id, can_command_ack_message_type_id,
  can_status_request_message_type_id, can_category_list_request_message_type_id,
  can_category_list_response_message_type_id, can_category_error_response_message_type_id,
  can_max_registered_categories,
}
use can_lite.FrameTransport
use can_lite.FrameTransport.{Transport}

pub record Config : Type 0 where
  pub node_id : ℕ
  pub max_messages_per_second : ℕ
  pub heartbeat_interval : ℕ
  pub client_timeout : ℕ
  pub max_emergency_messages_per_second : ℕ

pub record Counters : Type 0 where
  pub rate_limited : ℕ
  pub emergency_rate_limited : ℕ
  pub invalid_frames : ℕ
  pub emergency_admitted : ℕ

pub data DispatchResult : Type 0 where
  handled rejected unknown_message_type : DispatchResult

-- A category: `key` stands for its address, `message_types` are the identifiers in its list.
pub record Category : Type 0 where
  pub key : ℕ
  pub id : ℕ
  pub requires_sequence_validation : Bool
  pub has_acknowledger : Bool
  pub message_types : List ℕ

-- A reply of a handler: `SendCommandAck`, `SendResponse`, `SendTelemetry`, `SendEmergency` and
-- `SendCategoryError` of `CanCategoryServer`.
pub data Reply : Type 0 where
  command_ack : ℕ → CanAckStatus → Reply
  send_response send_telemetry send_emergency : ℕ → Message → Reply
  send_category_error : ℕ → ℕ → Reply

-- The completion handlers that the server hands to its transport, and those of others.
pub data Closure (App : Type 0) : Type 0 where
  ignored heartbeat_sent : Closure App
  other : App → Closure App

pub data Event (Ident App : Type 0) : Type 0 where
  send_data : Ident → Message → Event Ident App
  done : App → Bool → Event Ident App
  online offline : Event Ident App

pub record Sequence : Type 0 where
  pub last_sequence_number : ℕ
  pub sequence_initialized : Bool

-- `app` is the state of the handlers and of the ISO-TP transport.
pub record Server (Ident App State : Type 0) : Type 0 where
  pub config : Config
  pub transport : Transport Ident (Closure App)
  pub heartbeat_timer : Option ℕ
  pub client_liveness_timer : Option ℕ
  pub message_count_this_period : ℕ
  pub emergency_message_count_this_period : ℕ
  pub counters : Counters
  pub sequence : Sequence
  pub client_online : Bool
  pub heartbeat_pending : Bool
  pub categories : List Category
  pub iso_tp_attached : Bool
  pub app : State

abbrev pub is_emergency : ℕ → Bool
is_emergency raw_id = extract_can_priority raw_id == priority_value emergency

abbrev pub system_category : Category
system_category = record {
  key = 0;
  id = can_system_category_id;
  requires_sequence_validation = false;
  has_acknowledger = true;
  message_types =
      can_heartbeat_message_type_id ∷ can_status_request_message_type_id
      ∷ can_category_list_request_message_type_id ∷ [];
}

-- `ConsumeBudget`: the new count, the new refusals, and whether there was room.
unfoldable pub consume_budget : ℕ → ℕ → ℕ → ℕ × ℕ × Bool
consume_budget used limit refusals =
    if leb limit used then (used, u32 (refusals + 1), false) else (u16 (used + 1), refusals, true)

unfoldable pub find_category : ℕ → List Category → Option Category
find_category category_id [] = none
find_category category_id (category ∷ categories) =
    let rest = find_category category_id categories in
    if category.id == category_id then some category else rest

unfoldable pub expected_sequence : Sequence → ℕ
expected_sequence q = u8 (q.last_sequence_number + 1)

unfoldable pub is_expected_sequence : Sequence → ℕ → Bool
unfolding expected_sequence
is_expected_sequence q sequence_number =
    not q.sequence_initialized || (sequence_number == expected_sequence q)

unfoldable pub commit_sequence : Category → Message → Sequence → Sequence
commit_sequence category [] q = q
commit_sequence category (byte ∷ payload) q =
    if category.requires_sequence_validation
    then record { last_sequence_number = byte; sequence_initialized = true }
    else q

unfoldable pub has_id : ℕ → List Category → Bool
has_id id [] = false
has_id id (existing ∷ categories) = (existing.id == id) || has_id id categories

-- `erase` of the category with this address.
unfoldable pub erase_category : ℕ → List Category → Option (List Category)
erase_category key [] = none
erase_category key (existing ∷ categories) =
    let rest = erase_category key categories in
    if existing.key == key
    then some categories
    else elim rest [ none ↦ none | some others ↦ some (existing ∷ others) ]

module _ {Ident App State : Type 0} where
  abbrev pub heartbeat_reset : Server Ident App State → Server Ident App State
  heartbeat_reset s = record s { heartbeat_timer = some s.config.heartbeat_interval }

  -- What the transport calls while it works: the server's own closures act on the server.
  unfoldable pub absorb :
      Server Ident App State
      → List (FrameTransport.Event Ident (Closure App))
      → Server Ident App State × List (Event Ident App)
  absorb s [] = (s, [])
  absorb s (FrameTransport.Event.send_data id content ∷ events) =
      let (s', out) = absorb s events in (s', send_data id content ∷ out)
  absorb s (FrameTransport.Event.done ignored success ∷ events) = absorb s events
  absorb s (FrameTransport.Event.done heartbeat_sent success ∷ events) =
      absorb (record s { heartbeat_pending = false }) events
  absorb s (FrameTransport.Event.done (other closure) success ∷ events) =
      let (s', out) = absorb s events in (s', done closure success ∷ out)
  absorb s (FrameTransport.Event.notified ∷ events) = absorb (heartbeat_reset s) events

  unfoldable pub on_send_complete :
      Server Ident App State → Bool → Server Ident App State × List (Event Ident App)
  on_send_complete s success =
      let (t, events) = FrameTransport.on_send_complete s.transport success in
      absorb (record s { transport = t }) events

  unfoldable pub register_category :
      Server Ident App State → Category → Server Ident App State × Bool
  register_category s category =
      if leb can_max_registered_categories (length s.categories)
      then (s, false)
      else (if has_id category.id s.categories then (s, false) else (
        record s { categories = s.categories ++ record category { has_acknowledger = true } ∷ [] },
        true,
      ))

  unfoldable pub unregister_category :
      Server Ident App State → Category → Server Ident App State × Bool
  unregister_category s category =
      if category.key == system_category.key
      then (s, false)
      else elim (erase_category category.key s.categories) [
        | none ↦ (s, false)
        | some categories ↦ (record s { categories = categories }, true)
      ]

  unfoldable pub reset_rate_counter : Server Ident App State → Server Ident App State
  reset_rate_counter s = record s {
    message_count_this_period = 0;
    emergency_message_count_this_period = 0;
  }

  unfoldable pub check_and_increment_rate :
      Server Ident App State → ℕ → Server Ident App State × Bool
  check_and_increment_rate s raw_id =
      if is_emergency raw_id
      then (let (used, refusals, room) =
            consume_budget s.emergency_message_count_this_period
              s.config.max_emergency_messages_per_second s.counters.emergency_rate_limited in
          (
            record s {
              emergency_message_count_this_period = used;
              counters = record (s.counters) { emergency_rate_limited = refusals };
            },
            room,
          ))
      else (let (used, refusals, room) =
            consume_budget s.message_count_this_period s.config.max_messages_per_second
              s.counters.rate_limited in
          (
            record s {
              message_count_this_period = used;
              counters = record (s.counters) { rate_limited = refusals };
            },
            room,
          ))

  unfoldable pub is_addressed_to_this_node : Server Ident App State → ℕ → Bool
  is_addressed_to_this_node s raw_id =
      let node_id = extract_can_node_id raw_id in
      (node_id == s.config.node_id) || (node_id == can_broadcast_node_id)

  unfoldable pub mark_client_alive :
      Server Ident App State → Server Ident App State × List (Event Ident App)
  mark_client_alive s =
      let s' = record s { client_liveness_timer = some s.config.client_timeout } in
      if s.client_online then (s', []) else (record s' { client_online = true }, online ∷ [])

  -- The liveness timer runs out.
  unfoldable pub handle_client_timeout :
      Server Ident App State → Server Ident App State × List (Event Ident App)
  handle_client_timeout s =
      let s' = record s { client_liveness_timer = none } in
      if not s.client_online then (s', []) else (record s' { client_online = false }, offline ∷ [])

  unfoldable pub accept_command :
      Server Ident App State → ℕ → Server Ident App State × List (Event Ident App)
  unfolding mark_client_alive
  accept_command s raw_id =
      let counted = record s {
        counters = record (s.counters) {
          emergency_admitted = u32 (s.counters.emergency_admitted + 1);
        };
      } in
      if is_emergency raw_id then mark_client_alive counted else mark_client_alive s
