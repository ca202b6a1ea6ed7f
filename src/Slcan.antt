-- ===== src/Slcan.antt =====
-- can-lite/drivers/codec/SlcanCodec.cpp: CAN frames as lines of text. A character is its code; a
-- bounded string of capacity `n` that is full is told by its length. `EncodeSlcanFrame` never fills
-- its string of 32 characters, since a frame has at most eight bytes.
pub mod Hex
pub mod Line
pub mod RoundTrip
pub mod Bounds
pub mod Adapter
mod Tests
use can_lite.Base.{
  ℕ, zero, suc, ◌+◌, ◌-◌, ◌*◌, Bool, true, false, not, ◌&&◌, ◌||◌, Option, none, some, List, [],
  ◌∷◌, ◌++◌, ltb, leb, ◌==◌, if◌then◌else◌, length, get_or, take, drop, bit_and, bit_or,
}
use can_lite.Base.Bits.{shl, shr, u8, u32}
use can_lite.Codec.{Message}

abbrev pub bell : ℕ
bell = 7

abbrev pub carriage_return : ℕ
carriage_return = 13

abbrev pub standard_id_digits : ℕ
standard_id_digits = 3

abbrev pub extended_id_digits : ℕ
extended_id_digits = 8

abbrev pub standard_id_mask : ℕ
standard_id_mask = 0x7FF

abbrev pub extended_id_mask : ℕ
extended_id_mask = 0x1FFFFFFF

abbrev pub max_line_length : ℕ
max_line_length = 64

abbrev pub bitrate_codes : List (ℕ × ℕ)
bitrate_codes =
    (10000, b'0')
    ∷ (20000, b'1')
    ∷ (50000, b'2')
    ∷ (100000, b'3')
    ∷ (125000, b'4')
    ∷ (250000, b'5')
    ∷ (500000, b'6')
    ∷ (800000, b'7')
    ∷ (1000000, b'8')
    ∷ []

abbrev pub hex_digits : List ℕ
hex_digits =
    b'0' ∷ b'1' ∷ b'2' ∷ b'3' ∷ b'4' ∷ b'5' ∷ b'6' ∷ b'7' ∷ b'8' ∷ b'9' ∷ b'A' ∷ b'B' ∷ b'C' ∷ b'D'
    ∷ b'E' ∷ b'F' ∷ []

unfoldable pub hex_digit : ℕ → Option ℕ
hex_digit character =
    if leb b'0' character && leb character b'9'
    then some (character - b'0')
    else (if leb b'a' character && leb character b'f'
        then some (character - b'a' + 10)
        else (if leb b'A' character && leb character b'F'
            then some (character - b'A' + 10)
            else none))

-- The loop over the digits of `ParseHex`.
unfoldable pub parse_digits : ℕ → List ℕ → Option ℕ
parse_digits value [] = some value
parse_digits value (character ∷ text) = elim (hex_digit character) [
  | none ↦ none
  | some digit ↦ parse_digits (bit_or (u32 (shl value 4)) digit) text
]

unfoldable pub parse_hex : List ℕ → ℕ → ℕ → Option ℕ
parse_hex text offset digits =
    if ltb (length text) (offset + digits)
    then none
    else parse_digits 0 (take digits (drop offset text))

unfoldable pub append_hex : List ℕ → ℕ → ℕ → List ℕ
append_hex out value zero = out
append_hex out value (suc index) =
    append_hex (out ++ get_or hex_digits (bit_and (shr value (4 * index)) 0xF) 0 ∷ []) value index

unfoldable pub is_frame_type : ℕ → Bool
is_frame_type type = (type == b't') || (type == b'T') || (type == b'r') || (type == b'R')

-- The bytes are appended to `content`, `count` of them from `offset` on.
unfoldable pub parse_payload : List ℕ → ℕ → ℕ → Message → Option Message
parse_payload line offset zero content = some content
parse_payload line offset (suc count) content = elim (parse_hex line offset 2) [
  | none ↦ none
  | some byte ↦ parse_payload line (offset + 2) count (content ++ u8 byte ∷ [])
]

pub record SlcanFrame : Type 0 where
  pub id : ℕ
  pub extended : Bool
  pub remote : Bool
  pub content : Message

abbrev pub id_mask : Bool → ℕ
id_mask extended = if extended then extended_id_mask else standard_id_mask

abbrev pub id_digits : Bool → ℕ
id_digits extended = if extended then extended_id_digits else standard_id_digits

-- The part behind the length digit.
unfoldable pub parse_data : List ℕ → ℕ → Bool → Bool → ℕ → Option SlcanFrame
parse_data line id extended remote size =
    if remote
    then some (record { id = id; extended = extended; remote = remote; content = [] })
    else elim (parse_payload line (2 + id_digits extended) size []) [
      | none ↦ none
      | some content ↦
          some (record { id = id; extended = extended; remote = remote; content = content })
    ]

-- The tests on the identifier and the length.
unfoldable pub checked_frame : List ℕ → Bool → Bool → Option ℕ → Option ℕ → Option SlcanFrame
unfolding parse_data
checked_frame line extended remote none size = none
checked_frame line extended remote (some id) none = none
checked_frame line extended remote (some id) (some size) =
    if ltb 8 size || ltb (id_mask extended) id
    then none
    else parse_data line id extended remote size

-- `line` is not empty.
unfoldable pub parse_frame : List ℕ → Option SlcanFrame
unfolding checked_frame
parse_frame line =
    let type = get_or line 0 0 in
    let extended = (type == b'T') || (type == b'R') in
    let remote = (type == b'r') || (type == b'R') in
    let digits = id_digits extended in
    checked_frame line extended remote (parse_hex line 1 digits)
      (if ltb (1 + digits) (length line) then hex_digit (get_or line (1 + digits) 0) else none)

unfoldable pub find_code : ℕ → List (ℕ × ℕ) → Option ℕ
find_code bitrate [] = none
find_code bitrate ((rate, code) ∷ codes) =
    let rest = find_code bitrate codes in if rate == bitrate then some code else rest

unfoldable pub slcan_bitrate_code : ℕ → Option ℕ
unfolding find_code
slcan_bitrate_code bitrate = find_code bitrate bitrate_codes

unfoldable pub slcan_open_commands : ℕ → List ℕ
slcan_open_commands code =
    b'C' ∷ carriage_return ∷ b'S' ∷ code ∷ carriage_return ∷ b'O' ∷ carriage_return ∷ []

unfoldable pub slcan_close_command : List ℕ
slcan_close_command = b'C' ∷ carriage_return ∷ []

unfoldable pub append_bytes : List ℕ → Message → List ℕ
append_bytes command [] = command
append_bytes command (byte ∷ content) = append_bytes (append_hex command byte 2) content

unfoldable pub encode_slcan_frame : ℕ → Bool → Message → List ℕ
encode_slcan_frame id extended content =
    let type : List ℕ = (if extended then b'T' else b't') ∷ [] in
    let with_id = append_hex type (bit_and id (id_mask extended)) (id_digits extended) in
    let with_size = with_id ++ (b'0' + length content) ∷ [] in
    append_bytes with_size content ++ carriage_return ∷ []

pub data Event : Type 0 where
  frame acknowledged error : Event

pub record Item : Type 0 where
  pub event : Event
  pub item_frame : SlcanFrame

-- `{}` of a frame.
abbrev pub no_frame : SlcanFrame
no_frame = record { id = 0; extended = false; remote = false; content = [] }

pub record SlcanDecoder : Type 0 where
  pub line : List ℕ
  pub discarding : Bool

unfoldable pub reset : SlcanDecoder → SlcanDecoder
reset decoder = record { line = []; discarding = false }

unfoldable pub frame_item : Option SlcanFrame → Option Item
frame_item none = none
frame_item (some parsed) = some (record { event = frame; item_frame = parsed })

-- A line is empty, or "z", or "Z", or has a type.
unfoldable pub parse_line : List ℕ → Option Item
unfolding frame_item
parse_line line =
    let type = get_or line 0 0 in
    if (length line == 0) || ((length line == 1) && ((type == b'z') || (type == b'Z')))
    then some (record { event = acknowledged; item_frame = no_frame })
    else (if is_frame_type type then frame_item (parse_frame line) else none)

unfoldable pub feed : SlcanDecoder → ℕ → SlcanDecoder × Option Item
unfolding reset
feed decoder byte =
    if byte == bell
    then (reset decoder, some (record { event = error; item_frame = no_frame }))
    else (if not (byte == carriage_return)
        then (
          (if length decoder.line == max_line_length
              then record decoder { discarding = true }
              else record decoder { line = decoder.line ++ byte ∷ [] }),
          none,
        )
        else (reset decoder, if decoder.discarding then none else parse_line decoder.line))
