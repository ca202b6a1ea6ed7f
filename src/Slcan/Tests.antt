-- ===== src/Slcan/Tests.antt =====
-- Lines as an adapter sends them.
use can_lite.Base.{◌≤◌, ◌≡◌, refl, true, false, [], ◌∷◌, ◌++◌, arith, length, bit_and}
use can_lite.Slcan.{
  carriage_return, max_line_length, SlcanDecoder, frame, feed, id_mask, encode_slcan_frame,
  append_hex, append_bytes,
}
use can_lite.Slcan.RoundTrip.{feed_all, fresh, but_last, feed_all-encode_slcan_frame}
use can_lite.Slcan.Bounds.{GoodItem, feed_bounds}

-- "t1232A0F" and the end of the line.
encoded :
    encode_slcan_frame 0x123 false (0xA0 ∷ 0x0F ∷ [])
    ≡ b't' ∷ b'1' ∷ b'2' ∷ b'3' ∷ b'2' ∷ b'A' ∷ b'0' ∷ b'0' ∷ b'F' ∷ 13 ∷ []
unfolding encode_slcan_frame append_hex append_bytes
encoded = refl

abbrev discarding : SlcanDecoder
discarding = record { line = b'T' ∷ []; discarding = true }

feed_all-encode_slcan_frame_example :
    let before = (b'z' ∷ b'9' ∷ []) ++ carriage_return ∷ [] in
    let text = encode_slcan_frame 0x4203005 true (7 ∷ 255 ∷ []) in
    (feed_all discarding (before ++ text) ≡ (
      fresh,
      (feed_all discarding before).1
          ++ record {
            event = frame;
            item_frame = record {
              id = bit_and 0x4203005 (id_mask true);
              extended = true;
              remote = false;
              content = 7 ∷ 255 ∷ [];
            };
          }
            ∷ [],
    ))
    × ((feed_all discarding (before ++ but_last text)).1 ≡ (feed_all discarding before).1)
feed_all-encode_slcan_frame_example =
    feed_all-encode_slcan_frame discarding (b'z' ∷ b'9' ∷ []) 0x4203005 true (7 ∷ 255 ∷ [])
      (omega arith) (omega arith)

feed_bounds_example :
    (length (feed discarding 13).0.line ≤ max_line_length) × GoodItem (feed discarding 13).1
feed_bounds_example = feed_bounds discarding 13 (omega arith)
