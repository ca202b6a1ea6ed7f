-- ===== src/Server/Dispatch.antt =====
-- can-lite/server/CanProtocolServer.cpp, can-lite/core/CanCategory.cpp (the server's half) and
-- can-lite/categories/system/CanSystemCategoryServer.cpp: from a received frame to the replies.
use can_lite.Base.{
  ℕ, ◌+◌, Bool, true, false, not, ◌&&◌, ◌||◌, Option, none, some, List, [], ◌∷◌, ◌++◌, ◌==◌,
  if◌then◌else◌,
}
use can_lite.Base.Bits.{u32}
use can_lite.Codec.{Message}
use can_lite.Hal.{CanIds}
use can_lite.Payload.{Writer, empty_writer, write_uint8}
use can_lite.Protocol.{
  CanPriority, emergency, response, telemetry, heartbeat, CanAckStatus, unknown_command,
  invalid_payload, sequence_error, ack_status_value, extract_can_category, extract_can_message_type,
  is_command_message_type, can_protocol_version, can_system_category_id,
  can_heartbeat_message_type_id, can_command_ack_message_type_id,
  can_status_request_message_type_id, can_category_list_response_message_type_id,
  can_category_error_response_message_type_id,
}
use can_lite.FrameTransport.{send_frame}
use can_lite.Server.{
  Server, Category, Closure, ignored, heartbeat_sent, Event, Reply, command_ack, send_response,
  send_telemetry, send_emergency, send_category_error, DispatchResult, handled, rejected,
  unknown_message_type, Sequence, system_category, is_emergency, find_category, expected_sequence,
  is_expected_sequence, commit_sequence, absorb, heartbeat_reset, check_and_increment_rate,
  is_addressed_to_this_node, accept_command,
}

-- What the handlers of the registered categories and the ISO-TP transport do.
pub record Handlers (State : Type 0) : Type 0 where
  pub handle : ℕ → ℕ → State → Message → State × List Reply × Bool
  pub handle_pdu : ℕ → ℕ → State → Message → State × List Reply × Bool
  -- The PDUs that a frame completes, each with its identifier, and whether the frame was consumed.
  pub process_frame : State → ℕ → Message → State × List (ℕ × Message) × Bool

-- The identifiers of the message types are searched in turn.
unfoldable pub has_message_type : ℕ → List ℕ → Bool
has_message_type message_type [] = false
has_message_type message_type (existing ∷ types) =
    (existing == message_type) || has_message_type message_type types

unfoldable pub ack_payload : ℕ → ℕ → ℕ → CanAckStatus → ℕ → Writer
ack_payload max_size category command_type status expected =
    write_uint8 max_size
      (write_uint8 max_size
        (write_uint8 max_size (write_uint8 max_size empty_writer category) command_type)
        (ack_status_value status))
      expected

unfoldable pub write_ids : ℕ → List Category → Writer → Writer
write_ids max_size [] w = w
write_ids max_size (category ∷ categories) w =
    write_ids max_size categories (write_uint8 max_size w category.id)

module _ (hal : CanIds) (max_size : ℕ) {App State : Type 0} where
  unfoldable pub send :
      Server (hal.Ident) App State
      → CanPriority
      → ℕ
      → ℕ
      → Message
      → Closure App
      → Server (hal.Ident) App State × List (Event (hal.Ident) App) × Bool
  send s priority category message_type content closure =
      let (t, events, taken) =
        send_frame hal s.transport priority category message_type content closure in
      let (s', out) = absorb (record s { transport = t }) events in (s', out, taken)

  unfoldable pub send_command_ack :
      Server (hal.Ident) App State
      → ℕ
      → ℕ
      → CanAckStatus
      → ℕ
      → Server (hal.Ident) App State × List (Event (hal.Ident) App)
  unfolding send
  send_command_ack s category command_type status expected =
      let payload = ack_payload max_size category command_type status expected in
      let (s', out, taken) =
        send s response can_system_category_id can_command_ack_message_type_id payload.message
          ignored in
      (s', out)

  unfoldable pub send_heartbeat :
      Server (hal.Ident) App State → Server (hal.Ident) App State × List (Event (hal.Ident) App)
  unfolding send
  send_heartbeat s =
      let s1 = heartbeat_reset s in
      let payload = write_uint8 max_size empty_writer can_protocol_version in
      let (s2, out, taken) =
        send (record s1 { heartbeat_pending = true }) heartbeat can_system_category_id
          can_heartbeat_message_type_id payload.message heartbeat_sent in
      if s1.heartbeat_pending
      then (s1, [])
      else (if taken then (s2, out) else (record s2 { heartbeat_pending = false }, out))

  unfoldable pub send_category_list :
      Server (hal.Ident) App State → Server (hal.Ident) App State × List (Event (hal.Ident) App)
  unfolding send
  send_category_list s =
      let payload = write_ids max_size s.categories empty_writer in
      let (s', out, taken) =
        send s response can_system_category_id can_category_list_response_message_type_id
          payload.message ignored in
      (s', out)

  -- The replies of a category's handler, carried out on the server.
  unfoldable pub send_reply :
      Server (hal.Ident) App State
      → Category
      → Reply
      → Server (hal.Ident) App State × List (Event (hal.Ident) App)
  unfolding send send_command_ack
  send_reply s category (command_ack message_type status) =
      if category.has_acknowledger
      then send_command_ack s category.id message_type status 0
      else (s, [])
  send_reply s category (send_response message_type content) =
      let (s', out, taken) = send s response category.id message_type content ignored in (s', out)
  send_reply s category (send_telemetry message_type content) =
      let (s', out, taken) = send s telemetry category.id message_type content ignored in (s', out)
  send_reply s category (send_emergency message_type content) =
      let (s', out, taken) = send s emergency category.id message_type content ignored in (s', out)
  send_reply s category (send_category_error command_id error_code) =
      let payload =
        write_uint8 max_size (write_uint8 max_size empty_writer command_id) error_code in
      let (s', out, taken) =
        send s response category.id can_category_error_response_message_type_id payload.message
          ignored in
      if payload.valid then (s', out) else (s, [])

  unfoldable pub send_replies :
      Server (hal.Ident) App State
      → Category
      → List Reply
      → Server (hal.Ident) App State × List (Event (hal.Ident) App)
  unfolding send_reply
  send_replies s category [] = (s, [])
  send_replies s category (reply ∷ replies) =
      let (s1, out) = send_reply s category reply in
      let (s2, more) = send_replies s1 category replies in (s2, out ++ more)

  -- The handlers of the system category, through its observer.
  unfoldable pub handle_system :
      Server (hal.Ident) App State → ℕ → Server (hal.Ident) App State × List (Event (hal.Ident) App)
  unfolding send_heartbeat send_category_list
  handle_system s message_type =
      if message_type == can_heartbeat_message_type_id
      then (s, [])
      else (if message_type == can_status_request_message_type_id
          then send_heartbeat s
          else send_category_list s)

  module _ (handlers : Handlers State) where
    unfoldable pub handle_message :
        Server (hal.Ident) App State
        → Category
        → ℕ
        → Message
        → Server (hal.Ident) App State × List (Event (hal.Ident) App) × DispatchResult
    unfolding send_replies handle_system
    handle_message s category message_type content =
        if not (has_message_type message_type category.message_types)
        then (s, [], unknown_message_type)
        else (if category.key == system_category.key
            then (let (s', out) = handle_system s message_type in (s', out, handled))
            else let (app, replies, taken) =
                handlers.handle category.key message_type s.app content in
              let (s', out) = send_replies (record s { app = app }) category replies in
              (s', out, if taken then handled else rejected))

    -- A message type of the system category takes no PDU.
    unfoldable pub handle_pdu_message :
        Server (hal.Ident) App State
        → Category
        → ℕ
        → Message
        → Server (hal.Ident) App State × List (Event (hal.Ident) App) × DispatchResult
    unfolding send_replies
    handle_pdu_message s category message_type content =
        if not (has_message_type message_type category.message_types)
        then (s, [], unknown_message_type)
        else (if category.key == system_category.key
            then (s, [], rejected)
            else let (app, replies, taken) =
                handlers.handle_pdu category.key message_type s.app content in
              let (s', out) = send_replies (record s { app = app }) category replies in
              (s', out, if taken then handled else rejected))

  abbrev pub count_invalid : Server (hal.Ident) App State → Server (hal.Ident) App State
  count_invalid s = record s {
    counters = record (s.counters) { invalid_frames = u32 (s.counters.invalid_frames + 1) };
  }

  unfoldable pub reject_command :
      Server (hal.Ident) App State
      → ℕ
      → CanAckStatus
      → ℕ
      → Server (hal.Ident) App State × List (Event (hal.Ident) App)
  unfolding send_command_ack
  reject_command s raw_id status expected =
      send_command_ack (count_invalid s) (extract_can_category raw_id)
        (extract_can_message_type raw_id) status expected

  unfoldable pub admit_sequenced :
      Server (hal.Ident) App State
      → ℕ
      → Category
      → Message
      → Server (hal.Ident) App State × List (Event (hal.Ident) App) × Option Category
  unfolding reject_command
  admit_sequenced s raw_id category [] =
      let (s', out) = reject_command s raw_id invalid_payload 0 in (s', out, none)
  admit_sequenced s raw_id category (byte ∷ payload) =
      let (s', out) = reject_command s raw_id sequence_error (expected_sequence s.sequence) in
      if not (is_emergency raw_id) && not (is_expected_sequence s.sequence byte)
      then (s', out, none)
      else (s, [], some category)

  unfoldable pub admit_found :
      Server (hal.Ident) App State
      → ℕ
      → Message
      → Option Category
      → Server (hal.Ident) App State × List (Event (hal.Ident) App) × Option Category
  unfolding admit_sequenced
  admit_found s raw_id payload none = (count_invalid s, [], none)
  admit_found s raw_id payload (some category) =
      if not category.requires_sequence_validation
      then (s, [], some category)
      else admit_sequenced s raw_id category payload

  unfoldable pub admit_command :
      Server (hal.Ident) App State
      → ℕ
      → Message
      → Server (hal.Ident) App State × List (Event (hal.Ident) App) × Option Category
  unfolding admit_found
  admit_command s raw_id payload =
      let found =
        if is_command_message_type (extract_can_message_type raw_id)
        then find_category (extract_can_category raw_id) s.categories
        else none in
      admit_found s raw_id payload found

  -- `Conclude`; `checkpoint` is the sequence before the command.
  unfoldable pub conclude :
      Server (hal.Ident) App State
      → ℕ
      → Sequence
      → DispatchResult
      → Server (hal.Ident) App State × List (Event (hal.Ident) App)
  unfolding accept_command reject_command
  conclude s raw_id checkpoint handled = accept_command s raw_id
  conclude s raw_id checkpoint rejected =
      reject_command (record s { sequence = checkpoint }) raw_id invalid_payload 0
  conclude s raw_id checkpoint unknown_message_type =
      reject_command (record s { sequence = checkpoint }) raw_id unknown_command 0

  -- From the result of the admission to the end of the command; `dispatch` is `HandleMessage` or
  -- `HandlePduMessage`.
  unfoldable pub execute_admitted :
      (Server (hal.Ident) App State
        → Category
        → ℕ
        → Message
        → Server (hal.Ident) App State × List (Event (hal.Ident) App) × DispatchResult)
      → ℕ
      → Message
      → Server (hal.Ident) App State × List (Event (hal.Ident) App) × Option Category
      → Server (hal.Ident) App State × List (Event (hal.Ident) App)
  unfolding conclude
  execute_admitted dispatch raw_id payload (s, out, none) = (s, out)
  execute_admitted dispatch raw_id payload (s, out, some category) =
      let committed = record s { sequence = commit_sequence category payload s.sequence } in
      let (s1, replies, result) =
        dispatch committed category (extract_can_message_type raw_id) payload in
      let (s2, end) = conclude s1 raw_id s.sequence result in (s2, out ++ replies ++ end)

  unfoldable pub execute :
      (Server (hal.Ident) App State
        → Category
        → ℕ
        → Message
        → Server (hal.Ident) App State × List (Event (hal.Ident) App) × DispatchResult)
      → Server (hal.Ident) App State
      → ℕ
      → Message
      → Server (hal.Ident) App State × List (Event (hal.Ident) App)
  unfolding admit_command execute_admitted
  execute dispatch s raw_id payload =
      execute_admitted dispatch raw_id payload (admit_command s raw_id payload)

  module _ (handlers : Handlers State) where
    unfoldable pub dispatch_pdu :
        Server (hal.Ident) App State
        → ℕ
        → Message
        → Server (hal.Ident) App State × List (Event (hal.Ident) App)
    unfolding execute
    dispatch_pdu s raw_id pdu =
        if not (is_addressed_to_this_node s raw_id)
        then (s, [])
        else execute (handle_pdu_message handlers) s raw_id pdu

    unfoldable pub dispatch_pdus :
        Server (hal.Ident) App State
        → List (ℕ × Message)
        → Server (hal.Ident) App State × List (Event (hal.Ident) App)
    dispatch_pdus s [] = (s, [])
    dispatch_pdus s ((raw_id, pdu) ∷ pdus) =
        let (s1, out) = dispatch_pdu s raw_id pdu in
        let (s2, more) = dispatch_pdus s1 pdus in (s2, out ++ more)

    unfoldable pub process_addressed :
        Server (hal.Ident) App State
        → ℕ
        → Message
        → Server (hal.Ident) App State × List (Event (hal.Ident) App)
    unfolding execute dispatch_pdus
    process_addressed s raw_id content =
        let (app, pdus, consumed) = handlers.process_frame s.app raw_id content in
        let (s1, out) = dispatch_pdus (record s { app = app }) pdus in
        let (s2, more) = execute (handle_message handlers) s1 raw_id content in
        if not s.iso_tp_attached
        then execute (handle_message handlers) s raw_id content
        else (if consumed then (s1, out) else (s2, out ++ more))

    unfoldable pub process_received_message :
        Server (hal.Ident) App State
        → hal.Ident
        → Message
        → Server (hal.Ident) App State × List (Event (hal.Ident) App)
    unfolding process_addressed check_and_increment_rate
    process_received_message s id content =
        if not (hal.is_29_bit_id id)
        then (s, [])
        else let raw_id = hal.get_29_bit_id id in
          if not (is_addressed_to_this_node s raw_id)
          then (s, [])
          else let (s', room) = check_and_increment_rate s raw_id in
            if not room then (s', []) else process_addressed s' raw_id content
