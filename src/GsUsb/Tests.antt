-- ===== src/GsUsb/Tests.antt =====
-- A frame on channel 1 with two bytes, and the words that start an adapter.
use can_lite.Base.{◌≡◌, refl, true, false, some, [], ◌∷◌, arith, bit_and, if◌then◌else◌}
use can_lite.GsUsb.{
  extended_id_mask, standard_id_mask, encode_frame, decode_frame, encode_host_format, encode_mode,
  write_little_endian,
}
use can_lite.GsUsb.RoundTrip.{decode-encode_frame}

host_format_bytes : encode_host_format ≡ 0xEF ∷ 0xBE ∷ 0 ∷ 0 ∷ []
unfolding encode_host_format write_little_endian
host_format_bytes = refl

start_bytes : encode_mode 1 ≡ 1 ∷ 0 ∷ 0 ∷ 0 ∷ 0 ∷ 0 ∷ 0 ∷ 0 ∷ []
unfolding encode_mode write_little_endian
start_bytes = refl

decode-encode_frame_example :
    decode_frame (encode_frame 5 0x4203005 true (7 ∷ 255 ∷ []) 1)
    ≡ some (record {
      echo_id = 5;
      id = bit_and 0x4203005 (if true then extended_id_mask else standard_id_mask);
      extended = true;
      remote = false;
      error = false;
      channel = 1;
      content = 7 ∷ 255 ∷ [];
    })
decode-encode_frame_example =
    decode-encode_frame 5 0x4203005 true (7 ∷ 255 ∷ []) 1 (omega arith) (omega arith)
