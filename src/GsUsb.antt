-- ===== src/GsUsb.antt =====
-- can-lite/drivers/codec/GsUsbProtocol.cpp: the messages of a gs_usb adapter. An array is a list
-- of its size. The search for a bit timing, which compares floating-point sample points, is not
-- modelled.
pub mod Words
pub mod RoundTrip
mod Tests
use can_lite.Base.{
  ℕ, zero, suc, ◌+◌, ◌-◌, ◌*◌, Bool, true, false, not, ◌||◌, Option, none, some, List, [], ◌∷◌, ltb,
  leb, ◌==◌, if◌then◌else◌, length, get_or, set, take, drop, replicate, bit_and, bit_or,
}
use can_lite.Base.Bits.{shl, shr, u8, u32}
use can_lite.Codec.{Message}

abbrev pub standard_id_mask : ℕ
standard_id_mask = 0x7FF

abbrev pub extended_id_mask : ℕ
extended_id_mask = 0x1FFFFFFF

abbrev pub host_format : ℕ
host_format = 0xBEEF

abbrev pub received_echo_id : ℕ
received_echo_id = 0xFFFFFFFF

abbrev pub extended_flag : ℕ
extended_flag = 0x80000000

abbrev pub remote_flag : ℕ
remote_flag = 0x40000000

abbrev pub error_flag : ℕ
error_flag = 0x20000000

abbrev pub frame_size : ℕ
frame_size = 20

abbrev pub bit_timing_constants_size : ℕ
bit_timing_constants_size = 40

abbrev pub bit_timing_size : ℕ
bit_timing_size = 20

abbrev pub mode_size : ℕ
mode_size = 8

-- The four bytes from `offset` on.
unfoldable pub read_little_endian : List ℕ → ℕ → ℕ
read_little_endian bytes offset =
    bit_or
      (bit_or (bit_or (get_or bytes offset 0) (u32 (shl (get_or bytes (offset + 1) 0) 8)))
        (u32 (shl (get_or bytes (offset + 2) 0) 16)))
      (u32 (shl (get_or bytes (offset + 3) 0) 24))

-- The loop over the four indices, from `index` on.
unfoldable pub write_bytes : ℕ → List ℕ → ℕ → ℕ → ℕ → List ℕ
write_bytes zero bytes offset value index = bytes
write_bytes (suc rounds) bytes offset value index =
    write_bytes rounds (set bytes (offset + index) (u8 (shr value (8 * index)))) offset value
      (index + 1)

unfoldable pub write_little_endian : List ℕ → ℕ → ℕ → List ℕ
unfolding write_bytes
write_little_endian bytes offset value = write_bytes 4 bytes offset value 0

-- `std::copy` to the place from `offset` on.
unfoldable pub copy : List ℕ → ℕ → List ℕ → List ℕ
copy bytes offset [] = bytes
copy bytes offset (byte ∷ content) = copy (set bytes offset byte) (offset + 1) content

pub record BitTimingConstants : Type 0 where
  pub feature : ℕ
  pub clock : ℕ
  pub tseg1_min : ℕ
  pub tseg1_max : ℕ
  pub tseg2_min : ℕ
  pub tseg2_max : ℕ
  pub sjw_max : ℕ
  pub brp_min : ℕ
  pub brp_max : ℕ
  pub brp_increment : ℕ

pub record BitTiming : Type 0 where
  pub prop_seg : ℕ
  pub phase_seg1 : ℕ
  pub phase_seg2 : ℕ
  pub sjw : ℕ
  pub brp : ℕ

pub record HostFrame : Type 0 where
  pub echo_id : ℕ
  pub id : ℕ
  pub extended : Bool
  pub remote : Bool
  pub error : Bool
  pub channel : ℕ
  pub content : Message

unfoldable pub decode_bit_timing_constants : List ℕ → Option BitTimingConstants
decode_bit_timing_constants bytes =
    let constants : BitTimingConstants = record {
      feature = read_little_endian bytes 0;
      clock = read_little_endian bytes 4;
      tseg1_min = read_little_endian bytes 8;
      tseg1_max = read_little_endian bytes 12;
      tseg2_min = read_little_endian bytes 16;
      tseg2_max = read_little_endian bytes 20;
      sjw_max = read_little_endian bytes 24;
      brp_min = read_little_endian bytes 28;
      brp_max = read_little_endian bytes 32;
      brp_increment = read_little_endian bytes 36;
    } in
    if ltb (length bytes) bit_timing_constants_size
    then none
    else (if (constants.clock == 0)
          || (constants.brp_min == 0)
          || ltb constants.brp_max constants.brp_min
          || ltb constants.tseg1_max constants.tseg1_min
          || ltb constants.tseg2_max constants.tseg2_min
        then none
        else some constants)

unfoldable pub encode_host_format : List ℕ
encode_host_format = write_little_endian (replicate 4 0) 0 host_format

unfoldable pub encode_bit_timing : BitTiming → List ℕ
encode_bit_timing timing =
    write_little_endian
      (write_little_endian
        (write_little_endian
          (write_little_endian (write_little_endian (replicate bit_timing_size 0) 0 timing.prop_seg)
            4 timing.phase_seg1)
          8 timing.phase_seg2)
        12 timing.sjw)
      16 timing.brp

unfoldable pub encode_mode : ℕ → List ℕ
encode_mode mode = write_little_endian (replicate mode_size 0) 0 mode

unfoldable pub encode_frame : ℕ → ℕ → Bool → Message → ℕ → List ℕ
encode_frame echo_id id extended content channel =
    let raw_id =
      if extended
      then bit_or (bit_and id extended_id_mask) extended_flag
      else bit_and id standard_id_mask in
    let with_echo = write_little_endian (replicate frame_size 0) 0 echo_id in
    let with_id = write_little_endian with_echo 4 raw_id in
    let with_size = set with_id 8 (u8 (length content)) in
    let with_channel = set with_size 9 channel in copy with_channel 12 content

-- `bytes` holds the `size` bytes that were received.
unfoldable pub decode_frame : List ℕ → Option HostFrame
decode_frame bytes =
    let raw_id = read_little_endian bytes 4 in
    let size = get_or bytes 8 0 in
    let extended = not (bit_and raw_id extended_flag == 0) in
    let remote = not (bit_and raw_id remote_flag == 0) in
    if ltb (length bytes) frame_size
    then none
    else (if ltb 8 size
        then none
        else some (record {
          echo_id = read_little_endian bytes 0;
          id = bit_and raw_id (if extended then extended_id_mask else standard_id_mask);
          extended = extended;
          remote = remote;
          error = not (bit_and raw_id error_flag == 0);
          channel = get_or bytes 9 0;
          content = if remote then [] else take size (drop 12 bytes);
        }))
