-- ===== src/Codec/RoundTrip.antt =====
-- What a write leaves behind, and that a read finds it again.
use can_lite.Base.{
  ℕ, ◌+◌, ◌-◌, ◌/◌, ◌%◌, ◌≤◌, ◌<◌, ◌≡◌, refl, ap, ◌∙◌, true, false, ◌⊎◌, inr, arith, length, get_or,
  set, length-set, if◌then◌else◌, bit_and, ◌==◌, ◌^◌,
}
use can_lite.Base.Bits.{u8, bit_and_mask}
use can_lite.Base.Int.{
  ℤ, InRange, to_u16, to_u32, from_u16, from_u32, from_u16-to_u16, from_u32-to_u32, to_u16-lt,
  to_u32-lt,
}
use can_lite.Codec.{
  Message, pad, store16, store32, write_uint16, read_uint16, write_uint32, read_uint32, write_int16,
  read_int16, write_int32, read_int32,
}
use can_lite.Codec.Bytes.{
  length-pad, get_or-pad, get_or-set, read_uint16_lem, read_uint32_lem, grow_fits, grow_refuses,
}

module _ (msg : Message) (offset value : ℕ) where
  store16_lem :
      offset + 2 ≤ length msg
      → (length (store16 msg offset value) ≡ length msg)
        × ((j : ℕ)
            → get_or (store16 msg offset value) j 0 ≡ (
                if offset + 1 == j
                then value % 256
                else (if offset == j then value / 256 % 256 else get_or msg j 0)))
  unfolding store16
  store16_lem fits =
      let msg1 = set msg offset (u8 (value / 2 ^ 8)) in
      let l1 = length-set msg offset (u8 (value / 2 ^ 8)) in
      (
        omega (arith, length-set msg1 (offset + 1) (u8 (bit_and value 0xFF)), l1),
        λ j. rw (bit_and_mask 8 value) (
            get_or-set msg1 (offset + 1) (value % 256 % 256) j (omega (arith, l1))
            ∙ ground (arith, get_or-set msg offset (u8 (value / 2 ^ 8)) j (omega arith))),
      )

  store32_lem :
      offset + 4 ≤ length msg
      → (length (store32 msg offset value) ≡ length msg)
        × ((j : ℕ)
            → get_or (store32 msg offset value) j 0 ≡ (
                if offset + 3 == j
                then value % 256
                else (if offset + 2 == j
                    then value / 256 % 256
                    else (if offset + 1 == j
                        then value / 65536 % 256
                        else (if offset == j then value / 16777216 % 256 else get_or msg j 0)))))
  unfolding store32
  store32_lem fits =
      let v0 = u8 (bit_and (value / 2 ^ 24) 0xFF) in
      let v1 = u8 (bit_and (value / 2 ^ 16) 0xFF) in
      let v2 = u8 (bit_and (value / 2 ^ 8) 0xFF) in
      let v3 = u8 (bit_and value 0xFF) in
      let msg1 = set msg offset v0 in
      let msg2 = set msg1 (offset + 1) v1 in
      let msg3 = set msg2 (offset + 2) v2 in
      let l1 = length-set msg offset v0 in
      let l2 = length-set msg1 (offset + 1) v1 in
      let l3 = length-set msg2 (offset + 2) v2 in
      (
        omega (arith, length-set msg3 (offset + 3) v3, l1, l2, l3),
        λ j. ground (
          arith,
          bit_and_mask 8 (value / 2 ^ 24),
          bit_and_mask 8 (value / 2 ^ 16),
          bit_and_mask 8 (value / 2 ^ 8),
          bit_and_mask 8 value,
          get_or-set msg offset v0 j (omega arith),
          get_or-set msg1 (offset + 1) v1 j (omega (arith, l1)),
          get_or-set msg2 (offset + 2) v2 j (omega (arith, l1, l2)),
          get_or-set msg3 (offset + 3) v3 j (omega (arith, l1, l2, l3)),
        ),
      )

module _ (max_size : ℕ) (msg : Message) (offset : ℕ) where
  -- A 16-bit write that fits the message's capacity succeeds, and the same place then reads as the
  -- value written; the message is as long as before or reaches to the end of the value, and any
  -- other byte `j`, the padding included, reads as before.
  pub read-write_uint16 :
      (value j : ℕ)
      → offset + 2 ≤ max_size
      → value < 65536
      → (j < offset) ⊎ (offset + 2 ≤ j)
      → let (msg', done) = write_uint16 max_size msg offset value in
        (done ≡ true)
        × (read_uint16 msg' offset ≡ value)
        × (length msg' ≡ length msg + (offset + 2 - length msg))
        × (get_or msg' j 0 ≡ get_or msg j 0)
  unfolding write_uint16
  read-write_uint16 value j h v o =
      let e = length-pad (offset + 2) (offset + 2) msg (omega arith) in
      let stored =
        store16_lem (pad (offset + 2) (offset + 2) msg) offset value (omega (arith, e)) in
      rw (grow_fits max_size msg offset 2 h) (
        refl,
        read_uint16_lem _ offset value (omega (arith, e, stored.0)) v
            (stored.1 offset ∙ ground arith) (stored.1 (offset + 1) ∙ ground arith),
        stored.0 ∙ e,
        stored.1 j ∙ ground (arith, get_or-pad (offset + 2) (offset + 2) j msg (omega arith)),
      )

  -- The same for 32 bits.
  pub read-write_uint32 :
      (value j : ℕ)
      → offset + 4 ≤ max_size
      → value < 4294967296
      → (j < offset) ⊎ (offset + 4 ≤ j)
      → let (msg', done) = write_uint32 max_size msg offset value in
        (done ≡ true)
        × (read_uint32 msg' offset ≡ value)
        × (length msg' ≡ length msg + (offset + 4 - length msg))
        × (get_or msg' j 0 ≡ get_or msg j 0)
  unfolding write_uint32
  read-write_uint32 value j h v o =
      let e = length-pad (offset + 4) (offset + 4) msg (omega arith) in
      let stored =
        store32_lem (pad (offset + 4) (offset + 4) msg) offset value (omega (arith, e)) in
      rw (grow_fits max_size msg offset 4 h) (
        refl,
        read_uint32_lem _ offset value (omega (arith, e, stored.0)) (stored.1 offset ∙ ground arith)
            (stored.1 (offset + 1) ∙ ground arith) (stored.1 (offset + 2) ∙ ground arith)
            (stored.1 (offset + 3) ∙ ground arith),
        stored.0 ∙ e,
        stored.1 j ∙ ground (arith, get_or-pad (offset + 4) (offset + 4) j msg (omega arith)),
      )

  -- A signed 32-bit value survives the way through its two's complement pattern.
  pub read-write_int32 :
      (value : ℤ)
      → offset + 4 ≤ max_size
      → InRange 2147483648 value
      → read_int32 (write_int32 max_size msg offset value).0 offset ≡ value
  unfolding write_int32 read_int32
  read-write_int32 value h v =
      ap from_u32
        (read-write_uint32 (to_u32 value) (offset + 4) h (to_u32-lt value) (inr (omega arith))).1
      ∙ from_u32-to_u32 value v

  -- A signed 16-bit value survives the way through its two's complement pattern.
  pub read-write_int16 :
      (value : ℤ)
      → offset + 2 ≤ max_size
      → InRange 32768 value
      → read_int16 (write_int16 max_size msg offset value).0 offset ≡ value
  unfolding write_int16 read_int16
  read-write_int16 value h v =
      ap from_u16
        (read-write_uint16 (to_u16 value) (offset + 2) h (to_u16-lt value) (inr (omega arith))).1
      ∙ from_u16-to_u16 value v

  -- Where 16 bits would pass the capacity, neither a 16-bit nor a 32-bit write happens: both are
  -- refused and leave the message as it was.
  pub write_refused :
      (value : ℕ)
      → max_size < offset + 2
      → (write_uint16 max_size msg offset value ≡ (msg, false))
        × (write_uint32 max_size msg offset value ≡ (msg, false))
  unfolding write_uint16 write_uint32
  write_refused value h = (
    rw (grow_refuses max_size msg offset 2 h) refl,
    rw (grow_refuses max_size msg offset 4 (omega arith)) refl,
  )
