-- ===== src/Server/Core.antt =====
-- What sending, and with it every handler, leaves alone.
use can_lite.Base.{ℕ, Bool, true, false, Option, List, [], ◌∷◌, ◌≡◌, refl, ◌∙◌, arith}
use can_lite.Codec.{Message}
use can_lite.Hal.{CanIds}
use can_lite.Protocol.{
  CanPriority, CanAckStatus, response, heartbeat, can_heartbeat_message_type_id,
  can_system_category_id, can_protocol_version, can_category_error_response_message_type_id,
}
use can_lite.Payload.{empty_writer, write_uint8}
use can_lite.FrameTransport
use can_lite.FrameTransport.{send_frame}
use can_lite.Server.{
  Server, Category, Config, Counters, Sequence, Closure, ignored, heartbeat_sent, other, Reply,
  command_ack, send_response, send_telemetry, send_emergency, send_category_error, absorb,
  heartbeat_reset,
}
use can_lite.Server.Dispatch.{
  Handlers, send, send_command_ack, send_heartbeat, send_category_list, send_reply, send_replies,
  handle_system, handle_message, handle_pdu_message,
}

-- A server without its transport, its heartbeats and its handlers' state.
pub record Core : Type 0 where
  pub config : Config
  pub counters : Counters
  pub sequence : Sequence
  pub client_online : Bool
  pub client_liveness_timer : Option ℕ
  pub categories : List Category
  pub message_count_this_period : ℕ
  pub emergency_message_count_this_period : ℕ
  pub iso_tp_attached : Bool

abbrev pub core : {Ident App State : Type 0} → Server Ident App State → Core
core s = record {
  config = s.config;
  counters = s.counters;
  sequence = s.sequence;
  client_online = s.client_online;
  client_liveness_timer = s.client_liveness_timer;
  categories = s.categories;
  message_count_this_period = s.message_count_this_period;
  emergency_message_count_this_period = s.emergency_message_count_this_period;
  iso_tp_attached = s.iso_tp_attached;
}

core-absorb :
    {Ident App State : Type 0} (s : Server Ident App State)
    (events : List (FrameTransport.Event Ident (Closure App)))
    → core (absorb s events).0 ≡ core s
unfolding absorb
core-absorb s [] = refl
core-absorb s (FrameTransport.Event.send_data id content ∷ events) = core-absorb s events
core-absorb s (FrameTransport.Event.done ignored success ∷ events) = core-absorb s events
core-absorb s (FrameTransport.Event.done heartbeat_sent success ∷ events) =
    core-absorb (record s { heartbeat_pending = false }) events
core-absorb s (FrameTransport.Event.done (other closure) success ∷ events) = core-absorb s events
core-absorb s (FrameTransport.Event.notified ∷ events) = core-absorb (heartbeat_reset s) events

app-absorb :
    {Ident App State : Type 0} (s : Server Ident App State)
    (events : List (FrameTransport.Event Ident (Closure App)))
    → (absorb s events).0.app ≡ s.app
unfolding absorb
app-absorb s [] = refl
app-absorb s (FrameTransport.Event.send_data id content ∷ events) = app-absorb s events
app-absorb s (FrameTransport.Event.done ignored success ∷ events) = app-absorb s events
app-absorb s (FrameTransport.Event.done heartbeat_sent success ∷ events) =
    app-absorb (record s { heartbeat_pending = false }) events
app-absorb s (FrameTransport.Event.done (other closure) success ∷ events) = app-absorb s events
app-absorb s (FrameTransport.Event.notified ∷ events) = app-absorb (heartbeat_reset s) events

module _ (hal : CanIds) (max_size : ℕ) {App State : Type 0} where
  core-send :
      (s : Server (hal.Ident) App State) (priority : CanPriority) (category message_type : ℕ)
      (content : Message) (closure : Closure App)
      → core (send hal max_size s priority category message_type content closure).0 ≡ core s
  unfolding send
  core-send s priority category message_type content closure =
      core-absorb
        (record s {
          transport = (send_frame hal s.transport priority category message_type content closure).0;
        })
        (send_frame hal s.transport priority category message_type content closure).1

  app-send :
      (s : Server (hal.Ident) App State) (priority : CanPriority) (category message_type : ℕ)
      (content : Message) (closure : Closure App)
      → (send hal max_size s priority category message_type content closure).0.app ≡ s.app
  unfolding send
  app-send s priority category message_type content closure =
      app-absorb
        (record s {
          transport = (send_frame hal s.transport priority category message_type content closure).0;
        })
        (send_frame hal s.transport priority category message_type content closure).1

  pub core-send_command_ack :
      (s : Server (hal.Ident) App State) (category command_type : ℕ) (status : CanAckStatus)
      (expected : ℕ)
      → core (send_command_ack hal max_size s category command_type status expected).0 ≡ core s
  unfolding send_command_ack
  core-send_command_ack s category command_type status expected = core-send s _ _ _ _ _

  pub app-send_command_ack :
      (s : Server (hal.Ident) App State) (category command_type : ℕ) (status : CanAckStatus)
      (expected : ℕ)
      → (send_command_ack hal max_size s category command_type status expected).0.app ≡ s.app
  unfolding send_command_ack
  app-send_command_ack s category command_type status expected = app-send s _ _ _ _ _

  app-send_reply :
      (s : Server (hal.Ident) App State) (category : Category) (reply : Reply)
      → (send_reply hal max_size s category reply).0.app ≡ s.app
  unfolding send_reply
  app-send_reply s category (command_ack message_type status) =
      ground (arith, app-send_command_ack s category.id message_type status 0)
  app-send_reply s category (send_response message_type content) =
      app-send s _ _ message_type content ignored
  app-send_reply s category (send_telemetry message_type content) =
      app-send s _ _ message_type content ignored
  app-send_reply s category (send_emergency message_type content) =
      app-send s _ _ message_type content ignored
  app-send_reply s category (send_category_error command_id error_code) = ground (
    arith,
    app-send s response category.id can_category_error_response_message_type_id
        (write_uint8 max_size (write_uint8 max_size empty_writer command_id) error_code).message
        ignored,
  )

  pub app-send_replies :
      (s : Server (hal.Ident) App State) (category : Category) (replies : List Reply)
      → (send_replies hal max_size s category replies).0.app ≡ s.app
  unfolding send_replies
  app-send_replies s category [] = refl
  app-send_replies s category (reply ∷ replies) =
      app-send_replies (send_reply hal max_size s category reply).0 category replies
      ∙ app-send_reply s category reply

  core-send_heartbeat :
      (s : Server (hal.Ident) App State) → core (send_heartbeat hal max_size s).0 ≡ core s
  unfolding send_heartbeat
  core-send_heartbeat s = ground (
    arith,
    core-send (record (heartbeat_reset s) { heartbeat_pending = true }) heartbeat
        can_system_category_id can_heartbeat_message_type_id
        (write_uint8 max_size empty_writer can_protocol_version).message heartbeat_sent,
  )

  core-send_category_list :
      (s : Server (hal.Ident) App State) → core (send_category_list hal max_size s).0 ≡ core s
  unfolding send_category_list
  core-send_category_list s = core-send s _ _ _ _ _

  core-send_reply :
      (s : Server (hal.Ident) App State) (category : Category) (reply : Reply)
      → core (send_reply hal max_size s category reply).0 ≡ core s
  unfolding send_reply
  core-send_reply s category (command_ack message_type status) =
      ground (arith, core-send_command_ack s category.id message_type status 0)
  core-send_reply s category (send_response message_type content) =
      core-send s _ _ message_type content ignored
  core-send_reply s category (send_telemetry message_type content) =
      core-send s _ _ message_type content ignored
  core-send_reply s category (send_emergency message_type content) =
      core-send s _ _ message_type content ignored
  core-send_reply s category (send_category_error command_id error_code) = ground (
    arith,
    core-send s response category.id can_category_error_response_message_type_id
        (write_uint8 max_size (write_uint8 max_size empty_writer command_id) error_code).message
        ignored,
  )

  core-send_replies :
      (s : Server (hal.Ident) App State) (category : Category) (replies : List Reply)
      → core (send_replies hal max_size s category replies).0 ≡ core s
  unfolding send_replies
  core-send_replies s category [] = refl
  core-send_replies s category (reply ∷ replies) =
      core-send_replies (send_reply hal max_size s category reply).0 category replies
      ∙ core-send_reply s category reply

  core-handle_system :
      (s : Server (hal.Ident) App State) (message_type : ℕ)
      → core (handle_system hal max_size s message_type).0 ≡ core s
  unfolding handle_system
  core-handle_system s message_type =
      ground (arith, core-send_heartbeat s, core-send_category_list s)

  pub core-handle_message :
      (handlers : Handlers State) (s : Server (hal.Ident) App State) (category : Category)
      (message_type : ℕ) (content : Message)
      → core (handle_message hal max_size handlers s category message_type content).0 ≡ core s
  unfolding handle_message
  core-handle_message handlers s category message_type content = ground (
    arith,
    core-handle_system s message_type,
    core-send_replies
        (record s { app = (handlers.handle category.key message_type s.app content).0 }) category
        (handlers.handle category.key message_type s.app content).1,
  )

  pub core-handle_pdu_message :
      (handlers : Handlers State) (s : Server (hal.Ident) App State) (category : Category)
      (message_type : ℕ) (content : Message)
      → core (handle_pdu_message hal max_size handlers s category message_type content).0 ≡ core s
  unfolding handle_pdu_message
  core-handle_pdu_message handlers s category message_type content = ground (
    arith,
    core-send_replies
        (record s { app = (handlers.handle_pdu category.key message_type s.app content).0 })
        category (handlers.handle_pdu category.key message_type s.app content).1,
  )
