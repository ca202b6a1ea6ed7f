-- ===== src/IsoTp.antt =====
-- can-lite/transport/iso-tp/IsoTpTypes.hpp: the names and bounds of ISO 15765-2.
pub mod FrameCodec
pub mod Sender
pub mod Receiver
pub mod Link
pub mod Channel
pub mod Pool
mod Tests
use can_lite.Base.{ℕ}

pub data FrameType : Type 0 where
  single_frame first_frame consecutive_frame flow_control unknown : FrameType

pub data FlowStatus : Type 0 where
  continue_to_send wait overflow : FlowStatus

abbrev pub flow_status_value : FlowStatus → ℕ
flow_status_value continue_to_send = 0
flow_status_value wait = 1
flow_status_value overflow = 2

pub data SenderState : Type 0 where
  idle sending_sf waiting_for_fc sending_cf : SenderState

pub data ReceiverState : Type 0 where
  idle receiving_cf : ReceiverState

pub data AbortReason : Type 0 where
  n_bs_timeout n_cr_timeout buffer_overflow unexpected_frame wait_limit_exceeded : AbortReason
  send_failed n_as_timeout : AbortReason

abbrev pub n_wft_max : ℕ
n_wft_max = 16

abbrev pub sf_max_payload_bytes : ℕ
sf_max_payload_bytes = 7

abbrev pub ff_first_data_offset : ℕ
ff_first_data_offset = 2

abbrev pub ff_first_data_bytes : ℕ
ff_first_data_bytes = 6

abbrev pub ff_max_pdu_length : ℕ
ff_max_pdu_length = 0x0FFF

abbrev pub cf_max_data_bytes : ℕ
cf_max_data_bytes = 7

abbrev pub sn_mask : ℕ
sn_mask = 0x0F
