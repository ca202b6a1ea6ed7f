-- ===== src/Client/Dispatch.antt =====
-- can-lite/client/CanProtocolClient.cpp and can-lite/categories/system/CanSystemCategoryClient.cpp:
-- the client as a whole: registration, discovery, heartbeats and the dispatch of what it receives. A
-- timer is the delay that it was started with, or `none`; a discovery's `onDone` is a number.
pub mod Accounts
pub mod Discovery
use can_lite.Base.{
  ℕ, Bool, true, false, not, ◌&&◌, ◌||◌, Option, none, some, List, [], ◌∷◌, ◌++◌, ◌==◌, leb,
  if◌then◌else◌, length, map,
}
use can_lite.Codec.{Message}
use can_lite.Hal.{CanIds}
use can_lite.Payload.{empty_writer, write_uint8}
use can_lite.Protocol.{
  command, heartbeat, extract_can_node_id, extract_can_category, extract_can_message_type,
  can_broadcast_node_id, can_system_category_id, can_heartbeat_message_type_id,
  can_command_ack_message_type_id, can_category_list_request_message_type_id,
  can_category_list_response_message_type_id, can_max_registered_categories, can_protocol_version,
}
use can_lite.Client as Tracking
use can_lite.Client.{handle_command_ack_frame, handle_command_ack_timeout}
use can_lite.Client.Liveness.{Servers, mark_server_alive, handle_server_timeout}
use can_lite.Client.Sending
use can_lite.Client.Sending.{Node, nothing, send, send_command_without_sequence, on_send_complete}

pub record Config : Type 0 where
  pub server_timeout : ℕ
  pub heartbeat_interval : ℕ
  pub discovery_timeout : ℕ

-- `key` stands for the category's address.
pub record Category : Type 0 where
  pub key : ℕ
  pub id : ℕ

abbrev pub system_category : Category
system_category = record { key = 0; id = can_system_category_id }

-- What the categories' handlers and the ISO-TP transport do. A handler's answer is not used.
pub record Handlers (State : Type 0) : Type 0 where
  pub handle : ℕ → ℕ → State → Message → State
  pub handle_pdu : ℕ → ℕ → State → Message → State
  -- The PDUs that a frame completes, each with its identifier, and whether the frame was consumed.
  pub process_frame : State → ℕ → Message → State × List (ℕ × Message) × Bool

-- `discoveryNode`, `discoveryDone` and `discoveryTimer`.
pub record DiscoveryState : Type 0 where
  pub node : Option ℕ
  pub on_done : Option ℕ
  pub timer : Option ℕ

pub record Client (Ident App State : Type 0) : Type 0 where
  pub config : Config
  pub node : Node Ident App
  pub servers : Servers
  pub heartbeat_timer : Option ℕ
  pub discovery : DiscoveryState
  pub categories : List Category
  pub iso_tp_attached : Bool
  pub app : State

pub data Event (Ident App : Type 0) : Type 0 where
  send_data : Ident → Message → Event Ident App
  done : App → Bool → Event Ident App
  observed : Tracking.Event → Event Ident App
  discovered : ℕ → Option Message → Event Ident App
  -- A call of `discoveryDone` while it is empty.
  unset_called : Event Ident App

abbrev pub holds_id : ℕ → List Category → Bool
holds_id id [] = false
holds_id id (category ∷ categories) = (category.id == id) || holds_id id categories

unfoldable pub find_handler : ℕ → List Category → Option Category
find_handler id [] = none
find_handler id (category ∷ categories) =
    let rest = find_handler id categories in if category.id == id then some category else rest

-- `erase` of the list of categories, by address.
unfoldable pub erase : ℕ → List Category → List Category
erase key [] = []
erase key (category ∷ categories) =
    let rest = erase key categories in if category.key == key then categories else category ∷ rest

abbrev pub no_discovery : DiscoveryState
no_discovery = record { node = none; on_done = none; timer = none }

abbrev pub is_discovered : ℕ → Option ℕ → Bool
is_discovered source_node_id none = false
is_discovered source_node_id (some node_id) = node_id == source_node_id

-- `onDone(categoryIds)`, which the source does not guard.
abbrev pub report : {Ident App : Type 0} → Option ℕ → Option Message → List (Event Ident App)
report none category_ids = unset_called ∷ []
report (some on_done) category_ids = discovered on_done category_ids ∷ []

module _ {Ident App State : Type 0} where
  unfoldable pub register_category :
      Client Ident App State → Category → Client Ident App State × Bool
  register_category c category =
      if leb can_max_registered_categories (length c.categories)
      then (c, false)
      else (if holds_id category.id c.categories
          then (c, false)
          else (record c { categories = c.categories ++ category ∷ [] }, true))

  unfoldable pub unregister_category : Client Ident App State → Category → Client Ident App State
  unfolding erase
  unregister_category c category = record c { categories = erase category.key c.categories }

  unfoldable pub attach_iso_tp_transport : Client Ident App State → Client Ident App State
  attach_iso_tp_transport c = record c { iso_tp_attached = true }

  unfoldable pub detach_iso_tp_transport : Client Ident App State → Client Ident App State
  detach_iso_tp_transport c = record c { iso_tp_attached = false }

  unfoldable pub reset_heartbeat_timer : Client Ident App State → Client Ident App State
  reset_heartbeat_timer c = record c { heartbeat_timer = some (c.config.heartbeat_interval) }

  -- Each frame that goes out starts the heartbeat's delay again.
  unfoldable pub absorb :
      Client Ident App State
      → List (Sending.Event Ident App)
      → Client Ident App State × List (Event Ident App)
  unfolding reset_heartbeat_timer
  absorb c [] = (c, [])
  absorb c (Sending.Event.send_data id content ∷ events) =
      let (c', out) = absorb c events in (c', send_data id content ∷ out)
  absorb c (Sending.Event.done closure sent ∷ events) =
      let (c', out) = absorb c events in (c', done closure sent ∷ out)
  absorb c (Sending.Event.notified ∷ events) = absorb (reset_heartbeat_timer c) events

  unfoldable pub complete_discovery :
      Client Ident App State → Option Message → Client Ident App State × List (Event Ident App)
  complete_discovery c category_ids =
      (record c { discovery = no_discovery }, report c.discovery.on_done category_ids)

  unfoldable pub handle_category_list_frame :
      Client Ident App State → ℕ → ℕ → ℕ → Message → Client Ident App State × List (Event Ident App)
  unfolding complete_discovery
  handle_category_list_frame c source_node_id category_id message_type payload =
      if not (category_id == can_system_category_id)
        || not (message_type == can_category_list_response_message_type_id)
      then (c, [])
      else (if is_discovered source_node_id c.discovery.node
          then complete_discovery c (some payload)
          else (c, []))

  unfoldable pub note_alive :
      Client Ident App State → ℕ → Client Ident App State × List (Event Ident App)
  unfolding mark_server_alive
  note_alive c source_node_id =
      let (servers, told) = mark_server_alive c.servers source_node_id c.config.server_timeout in
      if source_node_id == 0 then (c, []) else (record c { servers = servers }, map observed told)

  -- `MarkServerAlive` for a source that is a node, then the frames that the client reads itself.
  unfoldable pub note_source :
      Client Ident App State → ℕ → ℕ → ℕ → Message → Client Ident App State × List (Event Ident App)
  unfolding note_alive handle_command_ack_frame handle_category_list_frame
  note_source c source_node_id category_id message_type payload =
      let (alive, told) = note_alive c source_node_id in
      let sequences =
        handle_command_ack_frame alive.node.sequences source_node_id category_id message_type
          payload in
      let (c', out) =
        handle_category_list_frame
          (record alive { node = record (alive.node) { sequences = sequences } }) source_node_id
          category_id message_type payload in
      (c', told ++ out)

  -- A frame of the client's own handlers changes nothing more: those of the system category only
  -- answer `true`.
  abbrev pub handled_by :
      (ℕ → ℕ → State → Message → State)
      → Client Ident App State
      → ℕ
      → Message
      → Option Category
      → Client Ident App State
  handled_by handle c message_type payload none = c
  handled_by handle c message_type payload (some category) =
      if category.key == system_category.key
      then c
      else record c { app = handle category.key message_type c.app payload }

  unfoldable pub dispatch :
      (ℕ → ℕ → State → Message → State)
      → Client Ident App State
      → ℕ
      → Message
      → Client Ident App State × List (Event Ident App)
  unfolding note_source find_handler
  dispatch handle c raw_id payload =
      let category_id = extract_can_category raw_id in
      let message_type = extract_can_message_type raw_id in
      let (c', out) = note_source c (extract_can_node_id raw_id) category_id message_type payload in
      (handled_by handle c' message_type payload (find_handler category_id c'.categories), out)

  module _ (handlers : Handlers State) where
    unfoldable pub dispatch_pdu :
        Client Ident App State → ℕ → Message → Client Ident App State × List (Event Ident App)
    unfolding dispatch
    dispatch_pdu = dispatch handlers.handle_pdu

    unfoldable pub dispatch_pdus :
        Client Ident App State
        → List (ℕ × Message)
        → Client Ident App State × List (Event Ident App)
    unfolding dispatch_pdu
    dispatch_pdus c [] = (c, [])
    dispatch_pdus c ((raw_id, pdu) ∷ pdus) =
        let (c1, out) = dispatch_pdu c raw_id pdu in
        let (c2, more) = dispatch_pdus c1 pdus in (c2, out ++ more)

    unfoldable pub process_raw :
        Client Ident App State → ℕ → Message → Client Ident App State × List (Event Ident App)
    unfolding dispatch dispatch_pdus
    process_raw c raw_id content =
        let (app, pdus, consumed) = handlers.process_frame c.app raw_id content in
        let (c1, out) = dispatch_pdus (record c { app = app }) pdus in
        let (c2, more) = dispatch handlers.handle c1 raw_id content in
        if not c.iso_tp_attached
        then dispatch handlers.handle c raw_id content
        else (if consumed then (c1, out) else (c2, out ++ more))

  unfoldable pub handle_ack_timeout :
      Client Ident App State → ℕ → Client Ident App State × List (Event Ident App)
  unfolding handle_command_ack_timeout
  handle_ack_timeout c node_id =
      let (sequences, told) = handle_command_ack_timeout c.node.sequences node_id in
      (record c { node = record (c.node) { sequences = sequences } }, map observed told)

  unfoldable pub handle_liveness_timeout :
      Client Ident App State → ℕ → Client Ident App State × List (Event Ident App)
  unfolding handle_server_timeout
  handle_liveness_timeout c node_id =
      let (servers, told) = handle_server_timeout c.servers node_id in
      (record c { servers = servers }, map observed told)

module _ (hal : CanIds) (max_size : ℕ) {App State : Type 0} where
  unfoldable pub process_received_message :
      Handlers State
      → Client (hal.Ident) App State
      → hal.Ident
      → Message
      → Client (hal.Ident) App State × List (Event (hal.Ident) App)
  unfolding process_raw
  process_received_message handlers c id content =
      if not (hal.is_29_bit_id id)
      then (c, [])
      else process_raw handlers c (hal.get_29_bit_id id) content

  -- The end of `DiscoverCategories`: a request that is not taken ends the discovery silently.
  abbrev pub concluded :
      Client (hal.Ident) App State
      → List (Event (hal.Ident) App)
      → Bool
      → Client (hal.Ident) App State × List (Event (hal.Ident) App) × Bool
  concluded c out true = (c, out, true)
  concluded c out false = (record c { discovery = no_discovery }, out, false)

  unfoldable pub begin_discovery :
      Client (hal.Ident) App State
      → ℕ
      → ℕ
      → Client (hal.Ident) App State × List (Event (hal.Ident) App) × Bool
  unfolding send_command_without_sequence absorb
  begin_discovery c node_id on_done =
      let started : DiscoveryState = record {
        node = some node_id;
        on_done = some on_done;
        timer = some (c.config.discovery_timeout);
      } in
      let (n, events, taken) =
        send_command_without_sequence hal max_size c.node node_id can_system_category_id
          can_category_list_request_message_type_id empty_writer command in
      let (c', out) = absorb (record c { discovery = started; node = n }) events in
      concluded c' out taken

  -- The guard: no discovery runs, and the node is not the broadcast address.
  abbrev pub unless_busy :
      Option ℕ
      → Bool
      → Client (hal.Ident) App State
      → Client (hal.Ident) App State × List (Event (hal.Ident) App) × Bool
      → Client (hal.Ident) App State × List (Event (hal.Ident) App) × Bool
  unless_busy (some busy) everyone c outcome = (c, [], false)
  unless_busy none true c outcome = (c, [], false)
  unless_busy none false c outcome = outcome

  unfoldable pub discover_categories :
      Client (hal.Ident) App State
      → ℕ
      → ℕ
      → Client (hal.Ident) App State × List (Event (hal.Ident) App) × Bool
  unfolding begin_discovery
  discover_categories c node_id on_done =
      unless_busy c.discovery.node (node_id == can_broadcast_node_id) c
        (begin_discovery c node_id on_done)

  unfoldable pub handle_discovery_timeout :
      Client (hal.Ident) App State → Client (hal.Ident) App State × List (Event (hal.Ident) App)
  unfolding complete_discovery
  handle_discovery_timeout c = complete_discovery c none

  unfoldable pub send_heartbeat :
      Client (hal.Ident) App State → Client (hal.Ident) App State × List (Event (hal.Ident) App)
  unfolding send absorb reset_heartbeat_timer
  send_heartbeat c =
      let payload = write_uint8 max_size empty_writer can_protocol_version in
      let (n, events, taken) =
        send hal max_size c.node can_broadcast_node_id heartbeat can_system_category_id
          can_heartbeat_message_type_id payload.message nothing in
      let (c', out) = absorb (record c { node = n }) events in (reset_heartbeat_timer c', out)

  unfoldable pub send_completed :
      Client (hal.Ident) App State
      → Bool
      → Client (hal.Ident) App State × List (Event (hal.Ident) App)
  unfolding on_send_complete absorb
  send_completed c success =
      let (n, events) = on_send_complete hal max_size c.node success in
      absorb (record c { node = n }) events
