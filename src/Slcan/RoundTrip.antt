-- ===== src/Slcan/RoundTrip.antt =====
-- A decoder that is fed what `EncodeSlcanFrame` writes.
use can_lite.Base.{
  ℕ, zero, suc, ◌+◌, ◌*◌, ◌%◌, ◌≤◌, ◌<◌, ◌≡◌, refl, sym, ap, ◌∙◌, Bool, true, false, Option, none,
  some, List, [], ◌∷◌, ◌++◌, arith, length, get_or, length-append, take, take-append, ◌-◌, All,
  All-append, bit_and, Bool-cases, inl, inr,
}
use mathlib.Core.List.{append_assoc, append-nil}
use can_lite.Base.Bits.{shr, bit_and_mask}
use can_lite.Codec.{Message}
use can_lite.Slcan.{
  carriage_return, max_line_length, id_mask, id_digits, hex_digit, hex_digits, parse_line,
  encode_slcan_frame, SlcanDecoder, Item, frame, feed, reset,
}
use can_lite.Slcan.Hex.{hex_text, length-hex_text, hex_digit-digits}
use can_lite.Slcan.Line.{
  hex_bytes, length-hex_bytes, type_of, line_of, encoded_line, data_frame, parse_line-line,
}

-- Characters one after the other; the items in order.
abbrev pub then_item : Option Item → SlcanDecoder × List Item → SlcanDecoder × List Item
then_item none result = result
then_item (some item) (decoder, items) = (decoder, item ∷ items)

unfoldable pub feed_all : SlcanDecoder → List ℕ → SlcanDecoder × List Item
feed_all decoder [] = (decoder, [])
feed_all decoder (byte ∷ bytes) =
    let (decoder', item) = feed decoder byte in then_item item (feed_all decoder' bytes)

abbrev pub fresh : SlcanDecoder
fresh = record { line = []; discarding = false }

-- Characters that stand within a line.
abbrev Plain : List ℕ → Type 0
Plain text = All (λ character. carriage_return < character) text

digit_is_plain :
    (character digit : ℕ) → hex_digit character ≡ some digit → carriage_return < character
unfolding hex_digit
digit_is_plain character digit e = ground arith

hex_text-Plain : (value digits : ℕ) → Plain (hex_text value digits)
unfolding hex_text
hex_text-Plain value zero = tt
hex_text-Plain value (suc index) = (
  digit_is_plain _ (shr value (4 * index) % 16) (
      ap (λ (n : ℕ). hex_digit (get_or hex_digits n 0)) (bit_and_mask 4 (shr value (4 * index)))
      ∙ hex_digit-digits (shr value (4 * index) % 16) (omega arith)),
  hex_text-Plain value index,
)

hex_bytes-Plain : (content : Message) → Plain (hex_bytes content)
unfolding hex_bytes
hex_bytes-Plain [] = tt
hex_bytes-Plain (byte ∷ content) =
    All-append _ (hex_text byte 2) (hex_bytes content) (hex_text-Plain byte 2)
      (hex_bytes-Plain content)

line_of-Plain : (id : ℕ) (extended : Bool) (content : Message) → Plain (line_of id extended content)
line_of-Plain id extended content =
    All-append _ (type_of extended ∷ hex_text id (id_digits extended)) _
      (ground arith, hex_text-Plain id (id_digits extended)) (omega arith, hex_bytes-Plain content)

feed_plain :
    (line : List ℕ) (byte : ℕ)
    → carriage_return < byte
    → length line < max_line_length
    → feed (record { line = line; discarding = false }) byte
      ≡ (record { line = line ++ byte ∷ []; discarding = false }, none)
unfolding feed
feed_plain line byte plain room = ground arith

feed_all_cons :
    (decoder decoder' : SlcanDecoder) (byte : ℕ) (bytes : List ℕ) (item : Option Item)
    → feed decoder byte ≡ (decoder', item)
    → feed_all decoder (byte ∷ bytes) ≡ then_item item (feed_all decoder' bytes)
unfolding feed_all
feed_all_cons decoder decoder' byte bytes item e =
    ap (λ (p : SlcanDecoder × Option Item). then_item p.1 (feed_all p.0 bytes)) e

feed_all-Plain :
    (line text rest : List ℕ)
    → Plain text
    → length line + length text ≤ max_line_length
    → feed_all (record { line = line; discarding = false }) (text ++ rest)
      ≡ feed_all (record { line = line ++ text; discarding = false }) rest
unfolding feed_all
feed_all-Plain line [] rest plain room =
    ap (λ (l : List ℕ). feed_all (record { line = l; discarding = false }) rest)
      (sym (append-nil line))
feed_all-Plain line (byte ∷ text) rest plain room =
    feed_all_cons _ _ byte (text ++ rest) none (feed_plain line byte plain.0 (omega arith))
    ∙ (feed_all-Plain (line ++ byte ∷ []) text rest plain.1
          (omega (arith, length-append line (byte ∷ [])))
        ∙ ap (λ (l : List ℕ). feed_all (record { line = l; discarding = false }) rest)
            (append_assoc line (byte ∷ []) text))

feed_end :
    (line : List ℕ)
    → feed (record { line = line; discarding = false }) carriage_return ≡ (fresh, parse_line line)
unfolding feed reset
feed_end line = refl

few_digits : (extended : Bool) → id_digits extended ≤ 8
few_digits true = omega arith
few_digits false = omega arith

line_size :
    (id : ℕ) (extended : Bool) (content : Message)
    → length content ≤ 8
    → length (line_of id extended content) ≤ max_line_length
line_size id extended content short = omega (
  arith,
  length-append (type_of extended ∷ hex_text id (id_digits extended))
      ((b'0' + length content) ∷ hex_bytes content),
  length-hex_text id (id_digits extended),
  length-hex_bytes content,
  few_digits extended,
)

-- All characters but the last.
abbrev pub but_last : List ℕ → List ℕ
but_last text = take (length text - 1) text

but_last-append : (line : List ℕ) (byte : ℕ) → but_last (line ++ byte ∷ []) ≡ line
but_last-append line byte =
    ap (λ n. take n (line ++ byte ∷ [])) {x = length (line ++ byte ∷ []) - 1} {y = length line}
      (omega (arith, length-append line (byte ∷ [])))
    ∙ take-append line (byte ∷ [])

-- Before the end of the line a fresh decoder keeps the characters and gives no item.
feed_all-but_last :
    (id : ℕ) (extended : Bool) (content : Message)
    → length content ≤ 8
    → (feed_all fresh (but_last (encode_slcan_frame id extended content))).1 ≡ []
unfolding feed_all
feed_all-but_last id extended content short =
    let line = line_of (bit_and id (id_mask extended)) extended content in
    ap (λ text. (feed_all fresh (but_last text)).1) (encoded_line id extended content)
    ∙ ap (λ text. (feed_all fresh text).1)
        (but_last-append line carriage_return ∙ sym (append-nil line))
    ∙ ap (λ (r : SlcanDecoder × List Item). r.1)
        (feed_all-Plain [] line [] (line_of-Plain _ extended content)
          (omega (arith, line_size (bit_and id (id_mask extended)) extended content short)))

-- A fresh decoder that is fed one frame.
feed_all-encode :
    (id : ℕ) (extended : Bool) (content : Message)
    → length content ≤ 8
    → All (λ byte. byte < 256) content
    → feed_all fresh (encode_slcan_frame id extended content) ≡ (
      fresh,
      record {
        event = frame;
        item_frame = data_frame (bit_and id (id_mask extended)) extended content;
      }
          ∷ [],
    )
unfolding feed_all
feed_all-encode id extended content short small =
    let masked = bit_and id (id_mask extended) in
    let fits : masked ≤ id_mask extended = elim (Bool-cases extended) [
      | inl long ↦ rw long (omega (arith, bit_and_mask 29 id))
      | inr standard ↦ rw standard (omega (arith, bit_and_mask 11 id))
    ] in
    let line = line_of masked extended content in
    let size = line_size masked extended content short in
    ap (feed_all fresh) (encoded_line id extended content)
    ∙ feed_all-Plain [] line (carriage_return ∷ []) (line_of-Plain masked extended content)
        (omega arith)
    ∙ feed_all_cons _ fresh carriage_return [] _ (
        feed_end line
        ∙ ap (λ (item : Option Item). (fresh, item))
            (parse_line-line masked extended content fits short small))

then_item-append :
    (item : Option Item) (first : SlcanDecoder × List Item) (more : List ℕ)
    → then_item item ((feed_all first.0 more).0, first.1 ++ (feed_all first.0 more).1) ≡ (
      (feed_all (then_item item first).0 more).0,
      (then_item item first).1 ++ (feed_all (then_item item first).0 more).1,
    )
then_item-append none first more = refl
then_item-append (some item) first more = refl

feed_all-append :
    (decoder : SlcanDecoder) (bytes more : List ℕ)
    → feed_all decoder (bytes ++ more) ≡ (
      (feed_all (feed_all decoder bytes).0 more).0,
      (feed_all decoder bytes).1 ++ (feed_all (feed_all decoder bytes).0 more).1,
    )
unfolding feed_all
feed_all-append decoder [] more = refl
feed_all-append decoder (byte ∷ bytes) more =
    ap (then_item (feed decoder byte).1) (feed_all-append (feed decoder byte).0 bytes more)
    ∙ then_item-append (feed decoder byte).1 (feed_all (feed decoder byte).0 bytes) more

end_of_line : (decoder : SlcanDecoder) → (feed decoder carriage_return).0 ≡ fresh
unfolding feed reset
end_of_line decoder = refl

then_item_state :
    (item : Option Item) (result : SlcanDecoder × List Item) → (then_item item result).0 ≡ result.0
then_item_state none result = refl
then_item_state (some item) result = refl

ends_fresh :
    (decoder : SlcanDecoder) (noise : List ℕ)
    → (feed_all decoder (noise ++ carriage_return ∷ [])).0 ≡ fresh
unfolding feed_all
ends_fresh decoder [] = then_item_state (feed decoder carriage_return).1 _ ∙ end_of_line decoder
ends_fresh decoder (byte ∷ noise) =
    then_item_state (feed decoder byte).1 _ ∙ ends_fresh (feed decoder byte).0 noise

-- Whatever a decoder has been fed, in whatever state it is: after the end of a line it receives the
-- encoding of a frame of at most eight bytes as exactly that frame, with the identifier cut to its
-- 29 or 11 bits, at the last character and not before, and is ready for the next line.
pub feed_all-encode_slcan_frame :
    (decoder : SlcanDecoder) (noise : List ℕ) (id : ℕ) (extended : Bool) (content : Message)
    → length content ≤ 8
    → All (λ byte. byte < 256) content
    → let before = noise ++ carriage_return ∷ [] in
      let text = encode_slcan_frame id extended content in
      (feed_all decoder (before ++ text) ≡ (
        fresh,
        (feed_all decoder before).1
            ++ record {
              event = frame;
              item_frame = data_frame (bit_and id (id_mask extended)) extended content;
            }
              ∷ [],
      ))
      × ((feed_all decoder (before ++ but_last text)).1 ≡ (feed_all decoder before).1)
feed_all-encode_slcan_frame decoder noise id extended content short small =
    let before = noise ++ carriage_return ∷ [] in
    let text = encode_slcan_frame id extended content in
    (
      feed_all-append decoder before text
          ∙ ap (λ (r : SlcanDecoder × List Item). (r.0, (feed_all decoder before).1 ++ r.1))
              (ap (λ (d : SlcanDecoder). feed_all d text) (ends_fresh decoder noise)
                ∙ feed_all-encode id extended content short small),
      ap (λ (r : SlcanDecoder × List Item). r.1) (feed_all-append decoder before (but_last text))
          ∙ ap (λ items. (feed_all decoder before).1 ++ items)
              (ap (λ (d : SlcanDecoder). (feed_all d (but_last text)).1) (ends_fresh decoder noise)
                ∙ feed_all-but_last id extended content short)
          ∙ append-nil (feed_all decoder before).1,
    )
