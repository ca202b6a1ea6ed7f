-- ===== src/Firmware/RoundTrip.antt =====
-- can-lite/categories/firmware_upgrade: messages of the client to the server and of the server to the
-- client, by way of both halves of the category.
use can_lite.Base.{
  ℕ, ◌+◌, ◌≤◌, ◌<◌, ◌≡◌, refl, true, false, some, List, [], ◌∷◌, ◌++◌, length, arith, Option, none,
  if◌then◌else◌, ◌==◌,
}
use can_lite.Codec.{Message}
use can_lite.Codec.Append.{bytes16, bytes32}
use can_lite.Protocol.{CanAckStatus, success, category_error}
use can_lite.Payload.{Writer, empty_writer, reader, read_remaining}
use can_lite.Payload.Reading.{
  read_uint8_lem, read_uint16_lem, read_uint32_lem, write_uint8_lem, write_uint16_lem,
  write_uint32_lem, write_bytes_lem, holding,
}
use can_lite.Server.{command_ack, send_response}
use can_lite.Firmware.{
  FwuState, idle, receiving, verifying, complete, error, FwuError, ok, busy, invalid_size,
  sequence_error, write_error, crc_mismatch, not_ready, invalid_state, session_timeout, state_value,
  error_value, state_of, error_of, fwu_begin_upgrade_id, fwu_data_block_id, fwu_verify_id,
  fwu_activate_id, fwu_abort_id, fwu_query_progress_id, fwu_begin_response_id,
  fwu_data_block_ack_id, fwu_verify_response_id, fwu_activate_response_id, fwu_progress_response_id,
}
use can_lite.Firmware.Server.{
  Upgrade, Output, reply, to_ack_status, on_begin_upgrade, on_data_block, on_verify, on_activate,
  on_abort, on_query_progress, stop_session_timer, handle, handle_begin_upgrade, handle_data_block,
  handle_verify, handle_activate, handle_abort, handle_query_progress, complete_begin_upgrade,
  complete_data_block, complete_verify, complete_activate, complete_with_status,
  complete_query_progress, complete_abort, respond, status_and_number,
}
use can_lite.Firmware.Client.{
  Notification, on_begin_response, on_data_block_ack, on_verify_response, on_activate_response,
  on_progress_response, is_fwu_error, is_fwu_state, begin_upgrade_payload, data_block_payload,
  verify_payload, handle_begin_response, handle_data_block_ack, handle_verify_response,
  handle_activate_response, handle_progress_response, handle_response,
}

-- The commands of the client, with their arguments.
pub data Command : Type 0 where
  begin_upgrade : ℕ → Command
  data_block : ℕ → List ℕ → Command
  verify : ℕ → Command
  activate abort_upgrade query_progress : Command

abbrev pub Encodable : ℕ → Command → Type 0
Encodable max_size (begin_upgrade firmware_size) = (firmware_size < 4294967296) × (4 ≤ max_size)
Encodable max_size (data_block block_index content) =
    (block_index < 65536) × (2 + length content ≤ max_size)
Encodable max_size (verify expected_crc) = (expected_crc < 4294967296) × (4 ≤ max_size)
Encodable max_size _ = 0 ≤ max_size

abbrev pub type_of : Command → ℕ
type_of (begin_upgrade firmware_size) = fwu_begin_upgrade_id
type_of (data_block block_index content) = fwu_data_block_id
type_of (verify expected_crc) = fwu_verify_id
type_of activate = fwu_activate_id
type_of abort_upgrade = fwu_abort_id
type_of query_progress = fwu_query_progress_id

-- What the client sends with the command.
abbrev pub payload_of : ℕ → Command → Writer
payload_of max_size (begin_upgrade firmware_size) = begin_upgrade_payload max_size firmware_size
payload_of max_size (data_block block_index content) =
    data_block_payload max_size block_index content
payload_of max_size (verify expected_crc) = verify_payload max_size expected_crc
payload_of max_size _ = empty_writer

-- What the server's observer is to be told.
abbrev pub call_of : Command → Output
call_of (begin_upgrade firmware_size) = on_begin_upgrade firmware_size
call_of (data_block block_index content) = on_data_block block_index content
call_of (verify expected_crc) = on_verify expected_crc
call_of activate = on_activate
call_of abort_upgrade = on_abort
call_of query_progress = on_query_progress

-- Verifying, activating and aborting end the session.
abbrev pub after : Command → Upgrade → Upgrade
after (begin_upgrade firmware_size) u = u
after (data_block block_index content) u = u
after query_progress u = u
after _ u = record u { session_timer = false }

-- Every command that the client can encode is written whole, and the server, when it has an observer,
-- handles its message: the observer is told exactly the command's arguments, nothing is sent yet, and
-- the session timer is stopped by the commands that end the session and by no other.
pub handle-payload_of :
    (server_size max_size : ℕ) (u : Upgrade) (c : Command)
    → Encodable max_size c
    → u.has_observer ≡ true
    → let w = payload_of max_size c in
      (w.valid ≡ true)
      × (handle server_size u (type_of c) w.message ≡ (after c u, call_of c ∷ [], true))
unfolding handle handle_begin_upgrade handle_data_block handle_verify handle_activate handle_abort
    handle_query_progress begin_upgrade_payload data_block_payload verify_payload stop_session_timer
    reader read_remaining
handle-payload_of server_size max_size u (begin_upgrade firmware_size) (fits, room) told =
    rw
      (
        write_uint32_lem max_size [] firmware_size room,
        read_uint32_lem (bytes32 firmware_size) [] [] firmware_size fits refl,
        told,
      )
      (refl, refl)
handle-payload_of server_size max_size u (data_block block_index content) (fits, room) told =
    rw
      (
        write_uint16_lem max_size [] block_index (omega arith),
        write_bytes_lem max_size (bytes16 block_index) content room,
        read_uint16_lem (bytes16 block_index ++ content) [] content block_index fits refl,
        told,
      )
      (refl, refl)
handle-payload_of server_size max_size u (verify expected_crc) (fits, room) told =
    rw
      (
        write_uint32_lem max_size [] expected_crc room,
        read_uint32_lem (bytes32 expected_crc) [] [] expected_crc fits refl,
        told,
      )
      (refl, refl)
handle-payload_of server_size max_size u activate fits told = rw told (refl, refl)
handle-payload_of server_size max_size u abort_upgrade fits told = rw told (refl, refl)
handle-payload_of server_size max_size u query_progress fits told = rw told (refl, refl)

-- What the server answers a command with, once its observer is done.
pub data Result : Type 0 where
  begun : FwuError → ℕ → Result
  block_stored : ℕ → FwuError → Result
  verified activated : FwuError → Result
  progress : FwuState → ℕ → ℕ → Result
  aborted : Result

abbrev pub Representable : Result → Type 0
Representable (begun status page_size) = page_size < 65536
Representable (block_stored block_index status) = block_index < 65536
Representable (progress state blocks_received total_blocks) =
    (blocks_received < 65536) × (total_blocks < 65536)
Representable _ = 0 ≤ 0

abbrev pub completed : ℕ → Upgrade → Result → List Output
completed max_size u (begun status page_size) =
    (complete_begin_upgrade max_size u status page_size).1
completed max_size u (block_stored block_index status) =
    (complete_data_block max_size u block_index status).1
completed max_size u (verified status) = complete_verify max_size status
completed max_size u (activated status) = complete_activate max_size status
completed max_size u (progress state blocks_received total_blocks) =
    complete_query_progress max_size state blocks_received total_blocks
completed max_size u aborted = complete_abort max_size

-- What the client's observers are to be told; the completion of an abort has no response.
abbrev pub told_of : Result → Option Notification
told_of (begun status page_size) = some (on_begin_response status page_size)
told_of (block_stored block_index status) = some (on_data_block_ack status block_index)
told_of (verified status) = some (on_verify_response status)
told_of (activated status) = some (on_activate_response status)
told_of (progress state blocks_received total_blocks) =
    some (on_progress_response state blocks_received total_blocks)
told_of aborted = none

-- `ok` is acknowledged as a success, every other status as an error of the category.
abbrev pub acknowledgement : FwuError → CanAckStatus
acknowledgement status = if error_value status == 0 then success else category_error

-- The command that is answered, and its acknowledgement.
abbrev pub answered : Result → ℕ × CanAckStatus
answered (begun status page_size) = (fwu_begin_upgrade_id, acknowledgement status)
answered (block_stored block_index status) = (fwu_data_block_id, acknowledgement status)
answered (verified status) = (fwu_verify_id, acknowledgement status)
answered (activated status) = (fwu_activate_id, acknowledgement status)
answered (progress state blocks_received total_blocks) = (fwu_query_progress_id, success)
answered aborted = (fwu_abort_id, success)

abbrev ack_of : Result → Output
ack_of result = reply (command_ack (answered result).0 (answered result).1)

-- With something to tell, a response that the client takes comes before the acknowledgement; without,
-- the acknowledgement is all.
pub AnsweredBy : List Output → Output → Option Notification → Type 0
AnsweredBy outputs ack none = outputs ≡ ack ∷ []
AnsweredBy outputs ack (some told) =
    (message_type : ℕ) × (content : Message) × (outputs
      ≡ reply (send_response message_type content) ∷ ack ∷ [])
    × (handle_response message_type content ≡ some told)

pub Answered : List Output → Result → Type 0
Answered outputs result = AnsweredBy outputs (ack_of result) (told_of result)

to_ack_status-acknowledgement : (status : FwuError) → to_ack_status status ≡ acknowledgement status
to_ack_status-acknowledgement ok = refl
to_ack_status-acknowledgement busy = refl
to_ack_status-acknowledgement invalid_size = refl
to_ack_status-acknowledgement sequence_error = refl
to_ack_status-acknowledgement write_error = refl
to_ack_status-acknowledgement crc_mismatch = refl
to_ack_status-acknowledgement not_ready = refl
to_ack_status-acknowledgement invalid_state = refl
to_ack_status-acknowledgement session_timeout = refl

error_of-error_value :
    (e : FwuError)
    → (error_of (error_value e) ≡ e) × (is_fwu_error (error_value e) ≡ true) × (error_value e < 256)
error_of-error_value ok = (refl, refl, omega arith)
error_of-error_value busy = (refl, refl, omega arith)
error_of-error_value invalid_size = (refl, refl, omega arith)
error_of-error_value sequence_error = (refl, refl, omega arith)
error_of-error_value write_error = (refl, refl, omega arith)
error_of-error_value crc_mismatch = (refl, refl, omega arith)
error_of-error_value not_ready = (refl, refl, omega arith)
error_of-error_value invalid_state = (refl, refl, omega arith)
error_of-error_value session_timeout = (refl, refl, omega arith)

state_of-state_value :
    (s : FwuState)
    → (state_of (state_value s) ≡ s) × (is_fwu_state (state_value s) ≡ true) × (state_value s < 256)
state_of-state_value idle = (refl, refl, omega arith)
state_of-state_value receiving = (refl, refl, omega arith)
state_of-state_value verifying = (refl, refl, omega arith)
state_of-state_value complete = (refl, refl, omega arith)
state_of-state_value error = (refl, refl, omega arith)

status_and_number_lem :
    (max_size status n : ℕ)
    → 3 ≤ max_size
    → status_and_number max_size status n ≡ holding (status ∷ bytes16 n)
unfolding status_and_number
status_and_number_lem max_size status n room =
    rw (write_uint8_lem max_size [] status (omega arith))
      (write_uint16_lem max_size (status ∷ []) n (omega arith))

-- With room for five bytes: each completion of a command but an abort sends one response and then one
-- acknowledgement of that command, a success when the status is `ok` (a query's always is) and an
-- error of the category otherwise, and the client takes the response and tells its observers the
-- values that the completion was called with. The completion of an abort sends one acknowledgement of
-- it, a success, and no response.
pub completed-Answered :
    (max_size : ℕ) (u : Upgrade) (result : Result)
    → 5 ≤ max_size
    → Representable result
    → Answered (completed max_size u result) result
unfolding Answered AnsweredBy respond complete_begin_upgrade complete_data_block complete_verify
    complete_activate complete_with_status complete_query_progress handle_response
    handle_begin_response handle_data_block_ack handle_verify_response handle_activate_response
    handle_progress_response reader
completed-Answered max_size u (begun status page_size) room fits =
    let (same, known, small) = error_of-error_value status in
    let msg = error_value status ∷ bytes16 page_size in
    (
      fwu_begin_response_id,
      msg,
      rw (
        to_ack_status-acknowledgement status,
        status_and_number_lem max_size (error_value status) page_size (omega arith),
      ),
      rw (
        read_uint8_lem msg [] (bytes16 page_size) (error_value status) small refl,
        read_uint16_lem msg (error_value status ∷ []) [] page_size fits refl,
        known,
        same,
      ),
    )
completed-Answered max_size u (block_stored block_index status) room fits =
    let (same, known, small) = error_of-error_value status in
    let msg = error_value status ∷ bytes16 block_index in
    (
      fwu_data_block_ack_id,
      msg,
      rw (
        to_ack_status-acknowledgement status,
        status_and_number_lem max_size (error_value status) block_index (omega arith),
      ),
      rw (
        read_uint8_lem msg [] (bytes16 block_index) (error_value status) small refl,
        read_uint16_lem msg (error_value status ∷ []) [] block_index fits refl,
        known,
        same,
      ),
    )
completed-Answered max_size u (verified status) room fits =
    let (same, known, small) = error_of-error_value status in
    let msg = error_value status ∷ [] in
    (
      fwu_verify_response_id,
      msg,
      rw (
        to_ack_status-acknowledgement status,
        write_uint8_lem max_size [] (error_value status) (omega arith),
      ),
      rw (read_uint8_lem msg [] [] (error_value status) small refl, known, same),
    )
completed-Answered max_size u (activated status) room fits =
    let (same, known, small) = error_of-error_value status in
    let msg = error_value status ∷ [] in
    (
      fwu_activate_response_id,
      msg,
      rw (
        to_ack_status-acknowledgement status,
        write_uint8_lem max_size [] (error_value status) (omega arith),
      ),
      rw (read_uint8_lem msg [] [] (error_value status) small refl, known, same),
    )
completed-Answered max_size u (progress state blocks_received total_blocks) room (fits, fits') =
    let (same, known, small) = state_of-state_value state in
    let msg = state_value state ∷ bytes16 blocks_received ++ bytes16 total_blocks in
    (
      fwu_progress_response_id,
      msg,
      rw (
        status_and_number_lem max_size (state_value state) blocks_received (omega arith),
        write_uint16_lem max_size (state_value state ∷ bytes16 blocks_received) total_blocks
            (omega arith),
      ),
      rw (
        read_uint8_lem msg [] (bytes16 blocks_received ++ bytes16 total_blocks) (state_value state)
            small refl,
        read_uint16_lem msg (state_value state ∷ []) (bytes16 total_blocks) blocks_received fits
            refl,
        read_uint16_lem msg (state_value state ∷ bytes16 blocks_received) [] total_blocks fits'
            refl,
        known,
        same,
      ),
    )
completed-Answered max_size u aborted room fits = refl
