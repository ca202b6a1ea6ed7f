-- ===== src/Firmware.antt =====
-- can-lite/categories/firmware_upgrade/FirmwareUpgradeDefinitions.hpp: identifiers, states and errors
-- of the firmware upgrade category. `static_cast` between an enumeration and its byte is a function
-- each way; a byte above the last enumerator is read as the last one and is refused by a test before.
pub mod Server
pub mod Client
pub mod RoundTrip
pub mod Session
mod Tests
use can_lite.Base.{ℕ, List, [], ◌∷◌, get_or}

abbrev pub firmware_upgrade_category_id : ℕ
firmware_upgrade_category_id = 0x01

abbrev pub fwu_begin_upgrade_id : ℕ
fwu_begin_upgrade_id = 0x00

abbrev pub fwu_data_block_id : ℕ
fwu_data_block_id = 0x01

abbrev pub fwu_verify_id : ℕ
fwu_verify_id = 0x02

abbrev pub fwu_activate_id : ℕ
fwu_activate_id = 0x03

abbrev pub fwu_abort_id : ℕ
fwu_abort_id = 0x04

abbrev pub fwu_query_progress_id : ℕ
fwu_query_progress_id = 0x05

abbrev pub fwu_begin_response_id : ℕ
fwu_begin_response_id = 0x80

abbrev pub fwu_data_block_ack_id : ℕ
fwu_data_block_ack_id = 0x81

abbrev pub fwu_verify_response_id : ℕ
fwu_verify_response_id = 0x82

abbrev pub fwu_activate_response_id : ℕ
fwu_activate_response_id = 0x83

abbrev pub fwu_progress_response_id : ℕ
fwu_progress_response_id = 0x85

pub data FwuState : Type 0 where
  idle receiving verifying complete error : FwuState

pub data FwuError : Type 0 where
  ok busy invalid_size sequence_error write_error crc_mismatch not_ready invalid_state
        session_timeout :
      FwuError

abbrev pub state_value : FwuState → ℕ
state_value idle = 0
state_value receiving = 1
state_value verifying = 2
state_value complete = 3
state_value error = 4

-- The enumerators in the order of their values.
abbrev pub states : List FwuState
states = idle ∷ receiving ∷ verifying ∷ complete ∷ error ∷ []

abbrev pub state_of : ℕ → FwuState
state_of value = get_or states value error

abbrev pub error_value : FwuError → ℕ
error_value ok = 0
error_value busy = 1
error_value invalid_size = 2
error_value sequence_error = 3
error_value write_error = 4
error_value crc_mismatch = 5
error_value not_ready = 6
error_value invalid_state = 7
error_value session_timeout = 8

abbrev pub errors : List FwuError
errors =
    ok ∷ busy ∷ invalid_size ∷ sequence_error ∷ write_error ∷ crc_mismatch ∷ not_ready
    ∷ invalid_state ∷ session_timeout ∷ []

abbrev pub error_of : ℕ → FwuError
error_of value = get_or errors value session_timeout
