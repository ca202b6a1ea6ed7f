-- ===== src/GsUsb/RoundTrip.antt =====
-- A frame that is encoded for the adapter and decoded again.
use can_lite.Base.{
  ℕ, ◌+◌, ◌%◌, ◌≤◌, ◌<◌, ◌≡◌, inr, refl, ◌∙◌, Bool, true, false, not, some, List, arith, length,
  length-set, get_or, set, take, drop, replicate, bit_or, bit_and, if◌then◌else◌, ltb, ◌==◌,
}
use can_lite.Base.Bits.{u8, bit_and_bit, bit_and_mask, bit_or_low}
use can_lite.Codec.{Message}
use can_lite.GsUsb.{
  frame_size, extended_flag, remote_flag, error_flag, extended_id_mask, standard_id_mask,
  read_little_endian, write_little_endian, copy, encode_frame, decode_frame,
}
use can_lite.GsUsb.Words.{
  get_or-set_self, get_or-set_ne, length-write_little_endian, get_or-write_little_endian,
  read-write_little_endian, get_or-copy, drop-copy, length-copy, read_same,
}

abbrev raw_id_of : ℕ → Bool → ℕ
raw_id_of id extended =
    if extended
    then bit_or (bit_and id extended_id_mask) extended_flag
    else bit_and id standard_id_mask

-- The bytes in front of the payload.
abbrev header : ℕ → ℕ → ℕ → ℕ → List ℕ
header echo_id raw_id size channel =
    set
      (set (write_little_endian (write_little_endian (replicate frame_size 0) 0 echo_id) 4 raw_id) 8
        size)
      9 channel

length-header : (echo_id raw_id size channel : ℕ) → length (header echo_id raw_id size channel) ≡ 20
length-header echo_id raw_id size channel =
    length-set _ 9 channel
    ∙ length-set _ 8 size
    ∙ length-write_little_endian _ 4 raw_id
    ∙ length-write_little_endian (replicate frame_size 0) 0 echo_id

header_echo :
    (echo_id raw_id size channel : ℕ)
    → echo_id < 4294967296
    → read_little_endian (header echo_id raw_id size channel) 0 ≡ echo_id
header_echo echo_id raw_id size channel small =
    let word = write_little_endian (replicate frame_size 0) 0 echo_id in
    read_same (header echo_id raw_id size channel) word 0 (λ j low high.
      get_or-set_ne _ 9 j channel (λ e. omega arith)
      ∙ get_or-set_ne _ 8 j size (λ e. omega arith)
      ∙ get_or-write_little_endian word 4 raw_id j (inr (omega arith)))
    ∙ read-write_little_endian (replicate frame_size 0) 0 echo_id (omega arith) small

header_raw_id :
    (echo_id raw_id size channel : ℕ)
    → raw_id < 4294967296
    → read_little_endian (header echo_id raw_id size channel) 4 ≡ raw_id
header_raw_id echo_id raw_id size channel small =
    let word = write_little_endian (replicate frame_size 0) 0 echo_id in
    read_same (header echo_id raw_id size channel) (write_little_endian word 4 raw_id) 4
      (λ j low high.
        get_or-set_ne _ 9 j channel (λ e. omega arith)
        ∙ get_or-set_ne _ 8 j size (λ e. omega arith))
    ∙ read-write_little_endian word 4 raw_id
        (omega (arith, length-write_little_endian (replicate frame_size 0) 0 echo_id)) small

header_size :
    (echo_id raw_id size channel : ℕ) → get_or (header echo_id raw_id size channel) 8 0 ≡ size
header_size echo_id raw_id size channel =
    let words =
      write_little_endian (write_little_endian (replicate frame_size 0) 0 echo_id) 4 raw_id in
    get_or-set_ne (set words 8 size) 9 8 channel (λ e. omega arith)
    ∙ get_or-set_self words 8 size (
        omega (
          arith,
          length-write_little_endian (write_little_endian (replicate frame_size 0) 0 echo_id) 4
              raw_id,
          length-write_little_endian (replicate frame_size 0) 0 echo_id,
        ))

header_channel :
    (echo_id raw_id size channel : ℕ) → get_or (header echo_id raw_id size channel) 9 0 ≡ channel
header_channel echo_id raw_id size channel = get_or-set_self _ 9 channel (
    omega (
      arith,
      length-header echo_id raw_id size channel,
      length-set
          (set
            (write_little_endian (write_little_endian (replicate frame_size 0) 0 echo_id) 4 raw_id)
            8 size)
          9 channel,
    ))

-- The identifier and its flags.
raw_id_lem :
    (id : ℕ) (extended : Bool)
    → (raw_id_of id extended < 4294967296)
      × (not (bit_and (raw_id_of id extended) extended_flag == 0) ≡ extended)
      × (not (bit_and (raw_id_of id extended) remote_flag == 0) ≡ false)
      × (not (bit_and (raw_id_of id extended) error_flag == 0) ≡ false)
      × (bit_and (raw_id_of id extended) (if extended then extended_id_mask else standard_id_mask)
          ≡ bit_and id (if extended then extended_id_mask else standard_id_mask))
raw_id_lem id true =
    let raw = bit_or (bit_and id extended_id_mask) extended_flag in
    let masked : bit_and id extended_id_mask ≡ id % 536870912 = bit_and_mask 29 id in
    let sum : raw ≡ id % 536870912 + extended_flag =
      bit_or_low 31 extended_flag (bit_and id extended_id_mask) (omega arith) (omega arith)
      ∙ omega arith in
    (
      omega arith,
      ground (arith, bit_and_bit 31 raw),
      ground (arith, bit_and_bit 30 raw),
      ground (arith, bit_and_bit 29 raw),
      omega (arith, bit_and_mask 29 raw),
    )
raw_id_lem id false =
    let raw = bit_and id standard_id_mask in
    let masked : raw ≡ id % 2048 = bit_and_mask 11 id in
    (
      omega arith,
      ground (arith, bit_and_bit 31 raw),
      ground (arith, bit_and_bit 30 raw),
      ground (arith, bit_and_bit 29 raw),
      omega (arith, bit_and_mask 11 raw),
    )

-- A frame of at most eight bytes is decoded from its 20-byte encoding as it was: the echo
-- identifier, the identifier cut to its 29 or 11 bits, whether it is extended, the channel and the
-- payload, with neither the remote nor the error flag.
pub decode-encode_frame :
    (echo_id id : ℕ) (extended : Bool) (content : Message) (channel : ℕ)
    → echo_id < 4294967296
    → length content ≤ 8
    → decode_frame (encode_frame echo_id id extended content channel)
      ≡ some (record {
        echo_id = echo_id;
        id = bit_and id (if extended then extended_id_mask else standard_id_mask);
        extended = extended;
        remote = false;
        error = false;
        channel = channel;
        content = content;
      })
unfolding decode_frame encode_frame
decode-encode_frame echo_id id extended content channel small short =
    let raw = raw_id_of id extended in
    let head = header echo_id raw (u8 (length content)) channel in
    let bytes = copy head 12 content in
    let (raw_small, is_extended, is_remote, is_error, same_id) = raw_id_lem id extended in
    let whole : length bytes ≡ 20 =
      length-copy head 12 content ∙ length-header echo_id raw (u8 (length content)) channel in
    let echo : read_little_endian bytes 0 ≡ echo_id =
      read_same bytes head 0 (λ j low high. get_or-copy head 12 content j (omega arith))
      ∙ header_echo echo_id raw (u8 (length content)) channel small in
    let raw_read : read_little_endian bytes 4 ≡ raw =
      read_same bytes head 4 (λ j low high. get_or-copy head 12 content j (omega arith))
      ∙ header_raw_id echo_id raw (u8 (length content)) channel raw_small in
    let size : get_or bytes 8 0 ≡ length content =
      get_or-copy head 12 content 8 (omega arith)
      ∙ header_size echo_id raw (u8 (length content)) channel
      ∙ omega arith in
    let on_channel : get_or bytes 9 0 ≡ channel =
      get_or-copy head 12 content 9 (omega arith)
      ∙ header_channel echo_id raw (u8 (length content)) channel in
    let payload : take (length content) (drop 12 bytes) ≡ content =
      drop-copy head 12 content
        (omega (arith, length-header echo_id raw (u8 (length content)) channel)) in
    let long : ltb (length bytes) frame_size ≡ false = ground arith in
    let carried : ltb 8 (length content) ≡ false = ground arith in
    rw (long, echo, raw_read, size, on_channel, carried, is_remote, is_error, payload)
      (rw (is_extended, same_id) refl)
