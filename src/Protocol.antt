-- ===== src/Protocol.antt =====
-- can-lite/core/CanProtocolDefinitions.hpp: the constants, the enumerations, and the layout of the
-- 29-bit identifier. An enumeration with a fixed underlying type may hold a number that no
-- enumerator has, so what is cut out of an identifier or a payload stays a number.
pub mod Identifier
mod Tests
use can_lite.Base.{ℕ, ◌≤◌, ◌<◌, Bool, ◌&&◌, bit_and, bit_or, leb, ltb}
use can_lite.Base.Bits.{shl, shr, u8, u16, u32}

abbrev pub can_protocol_version : ℕ
can_protocol_version = 1

abbrev pub can_id_priority_shift : ℕ
can_id_priority_shift = 24

abbrev pub can_id_category_shift : ℕ
can_id_category_shift = 20

abbrev pub can_id_message_type_shift : ℕ
can_id_message_type_shift = 12

abbrev pub can_id_category_mask : ℕ
can_id_category_mask = 0xF

abbrev pub can_id_node_id_mask : ℕ
can_id_node_id_mask = 0xFFF

abbrev pub can_broadcast_node_id : ℕ
can_broadcast_node_id = 0

abbrev pub can_system_category_id : ℕ
can_system_category_id = 0x00

abbrev pub can_heartbeat_message_type_id : ℕ
can_heartbeat_message_type_id = 0x01

abbrev pub can_command_ack_message_type_id : ℕ
can_command_ack_message_type_id = 0x02

abbrev pub can_status_request_message_type_id : ℕ
can_status_request_message_type_id = 0x03

abbrev pub can_category_list_request_message_type_id : ℕ
can_category_list_request_message_type_id = 0x04

abbrev pub can_category_list_response_message_type_id : ℕ
can_category_list_response_message_type_id = 0x05

abbrev pub can_first_application_category_id : ℕ
can_first_application_category_id = 0x02

abbrev pub can_last_application_category_id : ℕ
can_last_application_category_id = 0x0F

abbrev pub can_max_frame_payload_size : ℕ
can_max_frame_payload_size = 8

abbrev pub can_max_registered_categories : ℕ
can_max_registered_categories = 8

abbrev pub can_category_error_response_message_type_id : ℕ
can_category_error_response_message_type_id = 0xFE

abbrev pub can_last_command_message_type_id : ℕ
can_last_command_message_type_id = 0x7F

abbrev pub can_command_ack_size : ℕ
can_command_ack_size = 4

pub data CanPriority : Type 0 where
  emergency command response telemetry heartbeat : CanPriority

abbrev pub priority_value : CanPriority → ℕ
priority_value emergency = 0
priority_value command = 4
priority_value response = 8
priority_value telemetry = 12
priority_value heartbeat = 16

pub data CanAckStatus : Type 0 where
  success unknown_command invalid_payload invalid_state sequence_error rate_limited : CanAckStatus
  not_implemented category_error : CanAckStatus

abbrev pub ack_status_value : CanAckStatus → ℕ
ack_status_value success = 0
ack_status_value unknown_command = 1
ack_status_value invalid_payload = 2
ack_status_value invalid_state = 3
ack_status_value sequence_error = 4
ack_status_value rate_limited = 5
ack_status_value not_implemented = 6
ack_status_value category_error = 7

-- The arithmetic is on uint32_t, so every shift to the left is cut to 32 bits.
unfoldable pub make_can_id : CanPriority → ℕ → ℕ → ℕ → ℕ
make_can_id priority category message_type node_id =
    bit_or
      (bit_or
        (bit_or (u32 (shl (priority_value priority) can_id_priority_shift))
          (u32 (shl (bit_and category can_id_category_mask) can_id_category_shift)))
        (u32 (shl message_type can_id_message_type_shift)))
      (bit_and node_id can_id_node_id_mask)

unfoldable pub extract_can_priority : ℕ → ℕ
extract_can_priority can_id = bit_and (shr can_id can_id_priority_shift) 0x1F

unfoldable pub extract_can_category : ℕ → ℕ
extract_can_category can_id = u8 (bit_and (shr can_id can_id_category_shift) 0xF)

unfoldable pub extract_can_message_type : ℕ → ℕ
extract_can_message_type can_id = u8 (bit_and (shr can_id can_id_message_type_shift) 0xFF)

unfoldable pub extract_can_node_id : ℕ → ℕ
extract_can_node_id can_id = u16 (bit_and can_id can_id_node_id_mask)

unfoldable pub is_command_message_type : ℕ → Bool
is_command_message_type message_type = leb message_type can_last_command_message_type_id

unfoldable pub is_response_message_type : ℕ → Bool
is_response_message_type message_type = ltb can_last_command_message_type_id message_type

unfoldable pub is_application_category_id : ℕ → Bool
is_application_category_id category =
    leb can_first_application_category_id category && leb category can_last_application_category_id
