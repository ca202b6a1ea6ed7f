-- ===== src/Firmware/Server.antt =====
-- can-lite/categories/firmware_upgrade/FirmwareUpgradeCategoryServer.cpp. The observer is who installs
-- the firmware: a call of it is an output, and its later call of `onResult` or `onDone` is a call of
-- one of the `complete` functions. Sent responses and acknowledgements are replies, in order.
use can_lite.Base.{ℕ, Bool, true, false, not, List, [], ◌∷◌, ◌==◌, if◌then◌else◌}
use can_lite.Codec.{Message}
use can_lite.Protocol.{CanAckStatus, success, category_error}
use can_lite.Payload.{
  Writer, empty_writer, write_uint8, write_uint16, reader, read_uint16, read_uint32, read_remaining,
}
use can_lite.Server.{Reply, command_ack, send_response, Category}
use can_lite.Firmware.{
  FwuState, idle, FwuError, ok, not_ready, state_value, error_value, firmware_upgrade_category_id,
  fwu_begin_upgrade_id, fwu_data_block_id, fwu_verify_id, fwu_activate_id, fwu_abort_id,
  fwu_query_progress_id, fwu_begin_response_id, fwu_data_block_ack_id, fwu_verify_response_id,
  fwu_activate_response_id, fwu_progress_response_id,
}

-- The session timer is running or not.
pub record Upgrade : Type 0 where
  pub has_observer : Bool
  pub session_timer : Bool

pub data Output : Type 0 where
  reply : Reply → Output
  on_begin_upgrade : ℕ → Output
  on_data_block : ℕ → List ℕ → Output
  on_verify : ℕ → Output
  on_activate on_abort on_query_progress on_session_timeout : Output

abbrev pub to_ack_status : FwuError → CanAckStatus
to_ack_status ok = success
to_ack_status _ = category_error

abbrev pub is_ok : FwuError → Bool
is_ok ok = true
is_ok _ = false

-- `AddMessageTypes` and `RequiresSequenceValidation`.
abbrev pub firmware_category : ℕ → Category
firmware_category key = record {
  key = key;
  id = firmware_upgrade_category_id;
  requires_sequence_validation = false;
  has_acknowledger = true;
  message_types =
      fwu_begin_upgrade_id ∷ fwu_data_block_id ∷ fwu_verify_id ∷ fwu_activate_id ∷ fwu_abort_id
      ∷ fwu_query_progress_id ∷ [];
}

unfoldable pub start_session_timer : Upgrade → Upgrade
start_session_timer u = record u { session_timer = true }

unfoldable pub stop_session_timer : Upgrade → Upgrade
stop_session_timer u = record u { session_timer = false }

-- The timer runs out only once.
unfoldable pub handle_session_timeout : Upgrade → Upgrade × List Output
handle_session_timeout u =
    (record u { session_timer = false }, if u.has_observer then on_session_timeout ∷ [] else [])

-- `SendResponse` with a payload writer, then `SendCommandAck`.
unfoldable pub respond : Writer → ℕ → ℕ → CanAckStatus → List Output
respond payload response_id command_id status =
    if payload.valid
    then reply (send_response response_id payload.message)
      ∷ reply (command_ack command_id status)
      ∷ []
    else reply (command_ack command_id status) ∷ []

unfoldable pub status_and_number : ℕ → ℕ → ℕ → Writer
status_and_number max_size status number =
    write_uint16 max_size (write_uint8 max_size empty_writer status) number

module _ (max_size : ℕ) where
  unfoldable pub complete_begin_upgrade : Upgrade → FwuError → ℕ → Upgrade × List Output
  unfolding start_session_timer respond status_and_number
  complete_begin_upgrade u status page_size = (
    if is_ok status then start_session_timer u else u,
    respond (status_and_number max_size (error_value status) page_size) fwu_begin_response_id
        fwu_begin_upgrade_id (to_ack_status status),
  )

  unfoldable pub complete_data_block : Upgrade → ℕ → FwuError → Upgrade × List Output
  unfolding start_session_timer respond status_and_number
  complete_data_block u block_index status = (
    if is_ok status then start_session_timer u else u,
    respond (status_and_number max_size (error_value status) block_index) fwu_data_block_ack_id
        fwu_data_block_id (to_ack_status status),
  )

  unfoldable pub complete_with_status : ℕ → ℕ → FwuError → List Output
  unfolding respond
  complete_with_status command_id response_id status =
      respond (write_uint8 max_size empty_writer (error_value status)) response_id command_id
        (to_ack_status status)

  unfoldable pub complete_verify : FwuError → List Output
  unfolding complete_with_status
  complete_verify = complete_with_status fwu_verify_id fwu_verify_response_id

  unfoldable pub complete_activate : FwuError → List Output
  unfolding complete_with_status
  complete_activate = complete_with_status fwu_activate_id fwu_activate_response_id

  abbrev pub complete_abort : List Output
  complete_abort = reply (command_ack fwu_abort_id success) ∷ []

  unfoldable pub complete_query_progress : FwuState → ℕ → ℕ → List Output
  unfolding respond status_and_number
  complete_query_progress state blocks_received total_blocks =
      respond
        (write_uint16 max_size (status_and_number max_size (state_value state) blocks_received)
          total_blocks)
        fwu_progress_response_id fwu_query_progress_id success

  unfoldable pub handle_begin_upgrade : Upgrade → Message → Upgrade × List Output × Bool
  unfolding complete_begin_upgrade
  handle_begin_upgrade u content =
      let (r, firmware_size) = read_uint32 (reader content) in
      let (u', replies) = complete_begin_upgrade u not_ready 0 in
      if not r.valid
      then (u, [], false)
      else (if not u.has_observer
          then (u', replies, true)
          else (u, on_begin_upgrade firmware_size ∷ [], true))

  unfoldable pub handle_data_block : Upgrade → Message → Upgrade × List Output × Bool
  unfolding complete_data_block
  handle_data_block u content =
      let (r, block_index) = read_uint16 (reader content) in
      let (r', block_data) = read_remaining r in
      let (u', replies) = complete_data_block u block_index not_ready in
      if not r'.valid
      then (u, [], false)
      else (if not u.has_observer
          then (u', replies, true)
          else (u, on_data_block block_index block_data ∷ [], true))

  unfoldable pub handle_verify : Upgrade → Message → Upgrade × List Output × Bool
  unfolding complete_verify stop_session_timer
  handle_verify u content =
      let (r, expected_crc) = read_uint32 (reader content) in
      if not r.valid then (u, [], false) else (
        stop_session_timer u,
        if u.has_observer then on_verify expected_crc ∷ [] else complete_verify not_ready,
        true,
      )

  unfoldable pub handle_activate : Upgrade → Message → Upgrade × List Output × Bool
  unfolding complete_activate stop_session_timer
  handle_activate u content = (
    stop_session_timer u,
    if u.has_observer then on_activate ∷ [] else complete_activate not_ready,
    true,
  )

  unfoldable pub handle_abort : Upgrade → Message → Upgrade × List Output × Bool
  unfolding stop_session_timer
  handle_abort u content =
      (stop_session_timer u, if u.has_observer then on_abort ∷ [] else complete_abort, true)

  unfoldable pub handle_query_progress : Upgrade → Message → Upgrade × List Output × Bool
  unfolding complete_query_progress
  handle_query_progress u content =
      (u, if u.has_observer then on_query_progress ∷ [] else complete_query_progress idle 0 0, true)

  -- The handler whose identifier is the message type's; `HandleMessage` finds no other.
  unfoldable pub handle : Upgrade → ℕ → Message → Upgrade × List Output × Bool
  unfolding handle_begin_upgrade handle_data_block handle_verify handle_activate handle_abort
      handle_query_progress
  handle u message_type content =
      if message_type == fwu_begin_upgrade_id
      then handle_begin_upgrade u content
      else (if message_type == fwu_data_block_id
          then handle_data_block u content
          else (if message_type == fwu_verify_id
              then handle_verify u content
              else (if message_type == fwu_activate_id
                  then handle_activate u content
                  else (if message_type == fwu_abort_id
                      then handle_abort u content
                      else (if message_type == fwu_query_progress_id
                          then handle_query_progress u content
                          else (u, [], false))))))
