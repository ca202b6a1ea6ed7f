-- ===== src/Slcan/Line.antt =====
-- can-lite/drivers/codec/SlcanCodec.cpp: the line of a frame without its end, and parsing it.
use can_lite.Base.{
  ℕ, suc, ◌+◌, ◌*◌, ◌%◌, ◌^◌, ◌≤◌, ◌<◌, ◌≡◌, refl, sym, ap, ◌∙◌, Bool, true, false, none, some,
  List, [], ◌∷◌, ◌++◌, arith, length, get_or, length-append, All, bit_and, ltb, if◌then◌else◌,
  Bool-cases, inl, inr,
}
use mathlib.Core.List.{append_assoc, append-nil}
use can_lite.Base.Bits.{u8}
use can_lite.Codec.{Message}
use can_lite.Slcan.{
  carriage_return, id_mask, id_digits, hex_digit, parse_hex, append_hex, append_bytes,
  parse_payload, parse_data, checked_frame, parse_frame, parse_line, frame_item, is_frame_type,
  encode_slcan_frame, SlcanFrame, frame,
}
use can_lite.Slcan.Hex.{hex_text, append_hex_lem, length-hex_text, parse_hex-hex_text}

unfoldable pub hex_bytes : Message → List ℕ
hex_bytes [] = []
hex_bytes (byte ∷ content) = hex_text byte 2 ++ hex_bytes content

append_bytes_lem :
    (command : List ℕ) (content : Message)
    → append_bytes command content ≡ command ++ hex_bytes content
unfolding append_bytes hex_bytes
append_bytes_lem command [] = sym (append-nil command)
append_bytes_lem command (byte ∷ content) =
    append_bytes_lem (append_hex command byte 2) content
    ∙ ap (λ (c : List ℕ). c ++ hex_bytes content) (append_hex_lem command byte 2)
    ∙ append_assoc command _ _

pub length-hex_bytes : (content : Message) → length (hex_bytes content) ≡ 2 * length content
unfolding hex_bytes
length-hex_bytes [] = refl
length-hex_bytes (byte ∷ content) = omega (
  arith,
  length-append (hex_text byte 2) (hex_bytes content),
  length-hex_text byte 2,
  length-hex_bytes content,
)

parse_payload_cons :
    (line : List ℕ) (offset count byte : ℕ) (acc : Message)
    → parse_hex line offset 2 ≡ some byte
    → parse_payload line offset (suc count) acc
      ≡ parse_payload line (offset + 2) count (acc ++ u8 byte ∷ [])
unfolding parse_payload
parse_payload_cons line offset count byte acc e = ground (arith, e)

parse_payload-hex_bytes :
    (before content acc : List ℕ)
    → All (λ byte. byte < 256) content
    → parse_payload (before ++ hex_bytes content) (length before) (length content) acc
      ≡ some (acc ++ content)
unfolding hex_bytes
parse_payload-hex_bytes before [] acc small = unfold parse_payload in ap some (sym (append-nil acc))
parse_payload-hex_bytes before (byte ∷ content) acc small =
    let text = hex_text byte 2 in
    let line = before ++ (text ++ hex_bytes content) in
    parse_payload_cons line (length before) (length content) byte acc (
      parse_hex-hex_text before (hex_bytes content) byte 2 (omega arith)
      ∙ ap some (omega (arith, small.0)))
    ∙ ap
        (λ (l : List ℕ). parse_payload l (length before + 2) (length content) (acc ++ u8 byte ∷ []))
        (sym (append_assoc before text (hex_bytes content)))
    ∙ ap
        (λ (n : ℕ).
          parse_payload ((before ++ text) ++ hex_bytes content) n (length content)
            (acc ++ u8 byte ∷ []))
        (omega (arith, length-append before text, length-hex_text byte 2))
    ∙ parse_payload-hex_bytes (before ++ text) content (acc ++ u8 byte ∷ []) small.1
    ∙ ap some (
        append_assoc acc (u8 byte ∷ []) content
        ∙ ap (λ (n : ℕ). acc ++ n ∷ content) (omega (arith, small.0)))

-- The line of a frame, without its end.
abbrev pub type_of : Bool → ℕ
type_of extended = if extended then b'T' else b't'

abbrev pub line_of : ℕ → Bool → Message → List ℕ
line_of id extended content =
    (type_of extended ∷ hex_text id (id_digits extended))
    ++ ((b'0' + length content) ∷ hex_bytes content)

pub encoded_line :
    (id : ℕ) (extended : Bool) (content : Message)
    → encode_slcan_frame id extended content
      ≡ line_of (bit_and id (id_mask extended)) extended content ++ carriage_return ∷ []
unfolding encode_slcan_frame
encoded_line id extended content =
    ap (λ (l : List ℕ). l ++ carriage_return ∷ [])
      (append_bytes_lem _ content
        ∙ ap (λ (l : List ℕ). (l ++ (b'0' + length content) ∷ []) ++ hex_bytes content)
            (append_hex_lem (type_of extended ∷ []) (bit_and id (id_mask extended))
              (id_digits extended))
        ∙ append_assoc
            (type_of extended ∷ hex_text (bit_and id (id_mask extended)) (id_digits extended)) _ _)

get_or-append : (xs ys : List ℕ) (y d : ℕ) → get_or (xs ++ y ∷ ys) (length xs) d ≡ y
get_or-append [] ys y d = refl
get_or-append (x ∷ xs) ys y d = get_or-append xs ys y d

size_digit : (size : ℕ) → size ≤ 8 → hex_digit (b'0' + size) ≡ some size
unfolding hex_digit
size_digit size h = ground arith

abbrev pub data_frame : ℕ → Bool → Message → SlcanFrame
data_frame id extended content = record {
  id = id;
  extended = extended;
  remote = false;
  content = content;
}

module _ (id : ℕ) (extended : Bool) (content : Message) (fits : id ≤ id_mask extended)
    (short : length content ≤ 8) (small : All (λ byte. byte < 256) content) where
  abbrev head : List ℕ
  head = type_of extended ∷ hex_text id (id_digits extended)

  mask_bits : id % 2 ^ (4 * id_digits extended) ≡ id
  mask_bits = elim (Bool-cases extended) [
    | inl long ↦ rw long (let f : id ≤ 0x1FFFFFFF = ground arith in omega arith)
    | inr standard ↦ rw standard (let f : id ≤ 0x7FF = ground arith in omega arith)
  ]

  digits_fit : 2 ^ (4 * id_digits extended) ≤ 4294967296
  digits_fit = elim (Bool-cases extended) [
    | inl long ↦ rw long (omega arith)
    | inr standard ↦ rw standard (omega arith)
  ]

  length-head : length head ≡ 1 + id_digits extended
  length-head = omega (arith, length-hex_text id (id_digits extended))

  id_parsed : parse_hex (line_of id extended content) 1 (id_digits extended) ≡ some id
  id_parsed =
      parse_hex-hex_text (type_of extended ∷ []) ((b'0' + length content) ∷ hex_bytes content) id
        (id_digits extended) digits_fit
      ∙ ap some mask_bits

  size_parsed :
      (if ltb (1 + id_digits extended) (length (line_of id extended content))
        then hex_digit (get_or (line_of id extended content) (1 + id_digits extended) 0)
        else none)
      ≡ some (length content)
  size_parsed =
      let long : ltb (1 + id_digits extended) (length (line_of id extended content)) ≡ true =
        ground
          (arith, length-append head ((b'0' + length content) ∷ hex_bytes content), length-head) in
      let at : get_or (line_of id extended content) (1 + id_digits extended) 0
          ≡ b'0' + length content =
        ap (λ (n : ℕ). get_or (line_of id extended content) n 0) (sym length-head)
        ∙ get_or-append head (hex_bytes content) (b'0' + length content) 0 in
      rw (long, at) (size_digit (length content) short)

  data_parsed :
      parse_data (line_of id extended content) id extended false (length content)
      ≡ some (data_frame id extended content)
  unfolding parse_data
  data_parsed =
      let before = head ++ (b'0' + length content) ∷ [] in
      let e : parse_payload (line_of id extended content) (2 + id_digits extended) (length content)
            []
          ≡ some content =
        ap (λ (l : List ℕ). parse_payload l (2 + id_digits extended) (length content) [])
          (sym (append_assoc head ((b'0' + length content) ∷ []) (hex_bytes content)))
        ∙ ap (λ (n : ℕ). parse_payload (before ++ hex_bytes content) n (length content) [])
            (omega (arith, length-append head ((b'0' + length content) ∷ []), length-head))
        ∙ parse_payload-hex_bytes before content [] small in
      ground (arith, e)

  frame_parsed :
      checked_frame
        (line_of id extended content)
        extended
        false
        (parse_hex (line_of id extended content) 1 (id_digits extended))
        (if ltb (1 + id_digits extended) (length (line_of id extended content))
          then hex_digit (get_or (line_of id extended content) (1 + id_digits extended) 0)
          else none)
      ≡ some (data_frame id extended content)
  unfolding checked_frame
  frame_parsed = rw (id_parsed, size_parsed) (ground (arith, data_parsed, fits, short))

parse_frame-line :
    (id : ℕ) (extended : Bool) (content : Message)
    → id ≤ id_mask extended
    → length content ≤ 8
    → All (λ byte. byte < 256) content
    → parse_frame (line_of id extended content) ≡ some (data_frame id extended content)
unfolding parse_frame
parse_frame-line id true content fits short small = frame_parsed id true content fits short small
parse_frame-line id false content fits short small = frame_parsed id false content fits short small

pub parse_line-line :
    (id : ℕ) (extended : Bool) (content : Message)
    → id ≤ id_mask extended
    → length content ≤ 8
    → All (λ byte. byte < 256) content
    → parse_line (line_of id extended content)
      ≡ some (record { event = frame; item_frame = data_frame id extended content })
unfolding parse_line is_frame_type frame_item
parse_line-line id extended content fits short small =
    let head = type_of extended ∷ hex_text id (id_digits extended) in
    let long : 2 ≤ length (line_of id extended content) =
      omega (arith, length-append head ((b'0' + length content) ∷ hex_bytes content)) in
    ground (arith, parse_frame-line id extended content fits short small, long)
