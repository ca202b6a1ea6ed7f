-- ===== src/Firmware/Client.antt =====
-- can-lite/categories/firmware_upgrade/FirmwareUpgradeCategoryClient.cpp: the payloads of the
-- commands, sending them, and what a response tells the observers.
use can_lite.Base.{ℕ, Bool, not, ◌||◌, Option, none, some, List, ◌==◌, leb, if◌then◌else◌}
use can_lite.Codec.{Message}
use can_lite.Hal.{CanIds}
use can_lite.Protocol.{command}
use can_lite.Payload.{
  Writer, empty_writer, write_uint16, write_uint32, write_bytes, reader, read_uint8, read_uint16,
}
use can_lite.Client.Sending.{Node, Event, send_command_without_sequence}
use can_lite.Firmware.{
  FwuState, error, FwuError, session_timeout, state_value, state_of, error_value, error_of,
  firmware_upgrade_category_id, fwu_begin_upgrade_id, fwu_data_block_id, fwu_verify_id,
  fwu_activate_id, fwu_abort_id, fwu_query_progress_id, fwu_begin_response_id,
  fwu_data_block_ack_id, fwu_verify_response_id, fwu_activate_response_id, fwu_progress_response_id,
}

-- The calls of the observers.
pub data Notification : Type 0 where
  on_begin_response : FwuError → ℕ → Notification
  on_data_block_ack : FwuError → ℕ → Notification
  on_verify_response on_activate_response : FwuError → Notification
  on_progress_response : FwuState → ℕ → ℕ → Notification

abbrev pub is_fwu_error : ℕ → Bool
is_fwu_error value = leb value (error_value session_timeout)

abbrev pub is_fwu_state : ℕ → Bool
is_fwu_state value = leb value (state_value error)

module _ (max_size : ℕ) where
  unfoldable pub begin_upgrade_payload : ℕ → Writer
  begin_upgrade_payload firmware_size = write_uint32 max_size empty_writer firmware_size

  unfoldable pub data_block_payload : ℕ → Message → Writer
  data_block_payload block_index block_data =
      write_bytes max_size (write_uint16 max_size empty_writer block_index) block_data

  unfoldable pub verify_payload : ℕ → Writer
  verify_payload expected_crc = write_uint32 max_size empty_writer expected_crc

module _ (hal : CanIds) (max_size : ℕ) {App : Type 0} where
  -- `SendCommandWithoutSequence` of this category, at the priority of a command.
  abbrev send_upgrade :
      Node (hal.Ident) App
      → ℕ
      → ℕ
      → Writer
      → Node (hal.Ident) App × List (Event (hal.Ident) App) × Bool
  send_upgrade n target_node_id message_type payload =
      send_command_without_sequence hal max_size n target_node_id firmware_upgrade_category_id
        message_type payload command

  unfoldable pub send_begin_upgrade :
      Node (hal.Ident) App → ℕ → ℕ → Node (hal.Ident) App × List (Event (hal.Ident) App) × Bool
  unfolding begin_upgrade_payload
  send_begin_upgrade n target_node_id firmware_size =
      send_upgrade n target_node_id fwu_begin_upgrade_id
        (begin_upgrade_payload max_size firmware_size)

  unfoldable pub send_data_block :
      Node (hal.Ident) App
      → ℕ
      → ℕ
      → Message
      → Node (hal.Ident) App × List (Event (hal.Ident) App) × Bool
  unfolding data_block_payload
  send_data_block n target_node_id block_index block_data =
      send_upgrade n target_node_id fwu_data_block_id
        (data_block_payload max_size block_index block_data)

  unfoldable pub send_verify :
      Node (hal.Ident) App → ℕ → ℕ → Node (hal.Ident) App × List (Event (hal.Ident) App) × Bool
  unfolding verify_payload
  send_verify n target_node_id expected_crc =
      send_upgrade n target_node_id fwu_verify_id (verify_payload max_size expected_crc)

  unfoldable pub send_activate :
      Node (hal.Ident) App → ℕ → Node (hal.Ident) App × List (Event (hal.Ident) App) × Bool
  send_activate n target_node_id = send_upgrade n target_node_id fwu_activate_id empty_writer

  unfoldable pub send_abort :
      Node (hal.Ident) App → ℕ → Node (hal.Ident) App × List (Event (hal.Ident) App) × Bool
  send_abort n target_node_id = send_upgrade n target_node_id fwu_abort_id empty_writer

  unfoldable pub send_query_progress :
      Node (hal.Ident) App → ℕ → Node (hal.Ident) App × List (Event (hal.Ident) App) × Bool
  send_query_progress n target_node_id =
      send_upgrade n target_node_id fwu_query_progress_id empty_writer

-- A handler's result: `none` is `false`, a notification is `true` after `NotifyObservers`.
unfoldable pub handle_begin_response : Message → Option Notification
handle_begin_response content =
    let (r1, status) = read_uint8 (reader content) in
    let (r2, page_size) = read_uint16 r1 in
    if not r2.valid || not (is_fwu_error status)
    then none
    else some (on_begin_response (error_of status) page_size)

unfoldable pub handle_data_block_ack : Message → Option Notification
handle_data_block_ack content =
    let (r1, status) = read_uint8 (reader content) in
    let (r2, block_index) = read_uint16 r1 in
    if not r2.valid || not (is_fwu_error status)
    then none
    else some (on_data_block_ack (error_of status) block_index)

unfoldable pub handle_verify_response : Message → Option Notification
handle_verify_response content =
    let (r1, status) = read_uint8 (reader content) in
    if not r1.valid || not (is_fwu_error status)
    then none
    else some (on_verify_response (error_of status))

unfoldable pub handle_activate_response : Message → Option Notification
handle_activate_response content =
    let (r1, status) = read_uint8 (reader content) in
    if not r1.valid || not (is_fwu_error status)
    then none
    else some (on_activate_response (error_of status))

unfoldable pub handle_progress_response : Message → Option Notification
handle_progress_response content =
    let (r1, state) = read_uint8 (reader content) in
    let (r2, blocks_received) = read_uint16 r1 in
    let (r3, total_blocks) = read_uint16 r2 in
    if not r3.valid || not (is_fwu_state state)
    then none
    else some (on_progress_response (state_of state) blocks_received total_blocks)

-- The handler whose identifier is the message type's.
unfoldable pub handle_response : ℕ → Message → Option Notification
unfolding handle_begin_response handle_data_block_ack handle_verify_response
    handle_activate_response handle_progress_response
handle_response message_type content =
    if message_type == fwu_begin_response_id
    then handle_begin_response content
    else (if message_type == fwu_data_block_ack_id
        then handle_data_block_ack content
        else (if message_type == fwu_verify_response_id
            then handle_verify_response content
            else (if message_type == fwu_activate_response_id
                then handle_activate_response content
                else (if message_type == fwu_progress_response_id
                    then handle_progress_response content
                    else none))))
