-- ===== src/Slcan/Bounds.antt =====
-- Whatever characters arrive: what the decoder holds and hands over fits its buffers.
use can_lite.Base.{
  ℕ, zero, suc, ◌+◌, ◌≤◌, ◌≡◌, refl, subst, Bool, true, false, ◌&&◌, ◌||◌, Option, none, some, List,
  [], ◌∷◌, ◌++◌, arith, length, length-append, get_or, ltb, ◌==◌, if◌then◌else◌, Bool-cases,
  Option-cases, inl, inr,
}
use can_lite.Base.Bits.{u8}
use can_lite.Codec.{Message}
use can_lite.Slcan.{
  bell, carriage_return, max_line_length, id_mask, id_digits, hex_digit, parse_hex, parse_payload,
  parse_data, checked_frame, parse_frame, parse_line, frame_item, is_frame_type, SlcanFrame,
  SlcanDecoder, Item, feed, reset, no_frame,
}

-- A frame that a CAN bus can carry.
pub record Carried (f : SlcanFrame) : Type 0 where
  pub short : length f.content ≤ 8
  pub id_fits : f.id ≤ id_mask f.extended

abbrev Good : Option SlcanFrame → Type 0
Good none = true ≡ true
Good (some f) = Carried f

unfoldable pub GoodItem : Option Item → Type 0
GoodItem none = true ≡ true
GoodItem (some item) = Carried item.item_frame

abbrev AtMost : ℕ → Option Message → Type 0
AtMost n none = true ≡ true
AtMost n (some content) = length content ≤ n

payload_bounds :
    (line : List ℕ) (offset count n : ℕ) (content : Message)
    → length content + count ≤ n
    → AtMost n (parse_payload line offset count content)
unfolding parse_payload
payload_bounds line offset zero n content room = omega arith
payload_bounds line offset (suc count) n content room =
    elim (Option-cases (parse_hex line offset 2)) [
      | inl bad ↦ rw (bad, parse_payload) refl
      | inr (byte, e) ↦
          rw (e, parse_payload)
            (payload_bounds line (offset + 2) count n (content ++ u8 byte ∷ [])
              (omega (arith, length-append content (u8 byte ∷ []))))
    ]

data_bounds :
    (line : List ℕ) (id : ℕ) (extended remote : Bool) (size : ℕ)
    → size ≤ 8
    → id ≤ id_mask extended
    → Good (parse_data line id extended remote size)
unfolding parse_data
data_bounds line id extended true size short fits = record { short = omega arith; id_fits = fits }
data_bounds line id extended false size short fits =
    let bound = payload_bounds line (2 + id_digits extended) size 8 [] (omega arith) in
    elim (Option-cases (parse_payload line (2 + id_digits extended) size [])) [
      | inl bad ↦ rw (bad, parse_data) refl
      | inr (content, e) ↦
          let b : AtMost 8 (some content) = subst (AtMost 8) e bound in
          rw (e, parse_data) (record { short = b; id_fits = fits })
    ]

checked_bounds :
    (line : List ℕ) (extended remote : Bool) (id size : Option ℕ)
    → Good (checked_frame line extended remote id size)
unfolding checked_frame
checked_bounds line extended remote none size = refl
checked_bounds line extended remote (some id) none = refl
checked_bounds line extended remote (some id) (some size) =
    elim (Bool-cases (ltb 8 size || ltb (id_mask extended) id)) [
      | inl bad ↦ rw bad refl
      | inr good ↦ rw good (data_bounds line id extended remote size (ground arith) (ground arith))
    ]

parse_frame_bounds : (line : List ℕ) → Good (parse_frame line)
unfolding parse_frame
parse_frame_bounds line =
    let type = get_or line 0 0 in
    let digits = id_digits ((type == b'T') || (type == b'R')) in
    checked_bounds line ((type == b'T') || (type == b'R')) ((type == b'r') || (type == b'R'))
      (parse_hex line 1 digits)
      (if ltb (1 + digits) (length line) then hex_digit (get_or line (1 + digits) 0) else none)

frame_item_bounds : (parsed : Option SlcanFrame) → Good parsed → GoodItem (frame_item parsed)
unfolding frame_item GoodItem
frame_item_bounds none g = refl
frame_item_bounds (some parsed) g = g

no_frame-Carried : Carried no_frame
no_frame-Carried = record { short = omega arith; id_fits = omega arith }

parse_line_bounds : (line : List ℕ) → GoodItem (parse_line line)
unfolding parse_line GoodItem
parse_line_bounds line =
    let type = get_or line 0 0 in
    elim (Bool-cases
      ((length line == 0) || ((length line == 1) && ((type == b'z') || (type == b'Z'))))) [
        | inl reply ↦ rw reply no_frame-Carried
        | inr other ↦ elim (Bool-cases (is_frame_type type)) [
          | inl typed ↦
              rw (other, typed) (frame_item_bounds (parse_frame line) (parse_frame_bounds line))
          | inr unknown ↦ rw (other, unknown) refl
        ]
      ]

-- Whatever character arrives, in whatever state: the line never grows past its 64 characters, and a
-- frame that is handed over has at most eight bytes and an identifier of its 29 or 11 bits.
pub feed_bounds :
    (decoder : SlcanDecoder) (byte : ℕ)
    → length decoder.line ≤ max_line_length
    → (length (feed decoder byte).0.line ≤ max_line_length) × GoodItem (feed decoder byte).1
unfolding feed reset
feed_bounds decoder byte h = (
  ground (arith, length-append decoder.line (byte ∷ [])),
  elim (Bool-cases (byte == bell)) [
    | inl failed ↦ rw failed (unfold GoodItem in no_frame-Carried)
    | inr other ↦ elim (Bool-cases (byte == carriage_return)) [
      | inr within ↦ rw (other, within) (unfold GoodItem in refl)
      | inl ended ↦ elim (Bool-cases decoder.discarding) [
        | inl long ↦ simp (other, ended, long) (unfold GoodItem in refl)
        | inr whole ↦ simp (other, ended, whole) (parse_line_bounds decoder.line)
      ]
    ]
  ],
)
