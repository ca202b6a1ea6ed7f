-- ===== src/IsoTp/Link/Rounds.antt =====
-- One consecutive frame, as the sender makes it and as the receiver takes it.
use can_lite.Base.{
  ℕ, zero, suc, ◌+◌, ◌-◌, ◌%◌, ◌≤◌, ◌<◌, ◌≡◌, ◌≢◌, refl, sym, ap, ◌∙◌, true, false, none, some,
  List, [], ◌∷◌, ◌++◌, arith, length, take, drop, length-take, length-drop, length-append, leb, ltb,
  ◌==◌, if◌then◌else◌, Bool-cases, bit_and, take_all, inl, inr,
}
use mathlib.Core.List.{append_assoc, append-nil}
use can_lite.Codec.{Message}
use can_lite.IsoTp.{SenderState, ReceiverState, receiving_cf, consecutive_frame, continue_to_send}
use can_lite.IsoTp.FrameCodec.{
  decode_frame_type, decode_consecutive_frame_sn, encode_flow_control, frame_type_of,
  st_min_to_duration,
}
use can_lite.IsoTp.FrameCodec.RoundTrip.{
  decode_frame_type_cons, low_nibble, encode_consecutive_frame_lem,
}
use can_lite.IsoTp.Sender
use can_lite.IsoTp.Sender.{Sender, send_next_consecutive_frame, schedule_next_cf, on_st_min_timer}
use can_lite.IsoTp.Receiver
use can_lite.IsoTp.Receiver.{
  Receiver, process_frame, fill, handle_consecutive_frame, has_consecutive_frame_length,
  continue_block,
}
use can_lite.IsoTp.Link.{expire}

-- The sender is about to send the bytes of `pdu` from `b` on, and the receiver has those before.
pub record Ready (s : Sender) (r : Receiver) (pdu : List ℕ) (b : ℕ) : Type 0 where
  pub sending : s.state ≡ SenderState.sending_cf
  pub whole : s.pdu_buffer ≡ pdu
  pub position : s.bytes_sent ≡ b
  pub number : s.sequence_number < 16
  pub no_timer : s.st_min_timer ≡ none
  pub block_byte : s.block_size < 256
  pub credit : s.block_size ≢ 0 → (0 < s.blocks_remaining) × (s.blocks_remaining ≤ s.block_size)
  pub receiving : r.state ≡ receiving_cf
  pub total : r.expected_total_length ≡ length pdu
  pub same_number : r.expected_sn ≡ s.sequence_number
  pub assembled : r.assembly_buffer ≡ take b pdu
  pub same_block : r.block_size ≡ s.block_size
  pub counted : s.block_size ≢ 0 → r.frames_in_block + s.blocks_remaining ≡ s.block_size

pub fill_all :
    (total : ℕ) (buffer bytes : List ℕ)
    → length buffer + length bytes ≤ total
    → fill total buffer bytes ≡ buffer ++ bytes
unfolding fill
fill_all total buffer [] h = sym (append-nil buffer)
fill_all total buffer (x ∷ bytes) h = rw (le→leb_no h) (
    fill_all total (buffer ++ x ∷ []) bytes (omega (arith, length-append buffer (x ∷ [])))
    ∙ append_assoc buffer (x ∷ []) bytes)
  where
    le→leb_no : length buffer + suc (length bytes) ≤ total → leb total (length buffer) ≡ false
    le→leb_no h = ground arith

take_nil : (n : ℕ) → take {A = ℕ} n [] ≡ []
take_nil zero = refl
take_nil (suc n) = refl

pub take-append-take : (b k : ℕ) (xs : List ℕ) → take b xs ++ take k (drop b xs) ≡ take (b + k) xs
take-append-take zero k xs = ap (λ (n : ℕ). take n xs) (omega arith)
take-append-take (suc b) k [] = take_nil k ∙ sym (take_nil (suc b + k))
take-append-take (suc b) k (x ∷ xs) =
    ap (◌∷◌ x) (take-append-take b k xs)
    ∙ ap (λ (n : ℕ). take n (x ∷ xs)) {x = suc (b + k)} {y = suc b + k} (omega arith)

pub expire-none :
    (s : Sender) (events : List Sender.Event)
    → s.st_min_timer ≡ none
    → expire (s, events) ≡ (s, events)
unfolding expire
expire-none s events e = ground arith

expire_started :
    (s : Sender) (delay : ℕ)
    → expire (record s { st_min_timer = some delay }, [])
      ≡ send_next_consecutive_frame (record s { st_min_timer = none })
unfolding expire on_st_min_timer
expire_started s delay = refl

send_next_keeps_timer :
    (s : Sender) → (send_next_consecutive_frame s).0.st_min_timer ≡ s.st_min_timer
unfolding send_next_consecutive_frame
send_next_keeps_timer s = ground arith

-- Whatever the separation time, the next frame is the next thing that the sender sends.
pub expire_schedule :
    (s : Sender)
    → s.st_min_timer ≡ none
    → expire (schedule_next_cf s) ≡ send_next_consecutive_frame s
unfolding schedule_next_cf
expire_schedule s e = elim (Bool-cases (ltb 0 (st_min_to_duration s.st_min_byte))) [
  | inl later ↦ rw later (
      expire_started s (st_min_to_duration s.st_min_byte)
      ∙ ap send_next_consecutive_frame (restart e))
  | inr now ↦ rw now (
      expire-none (send_next_consecutive_frame s).0 (send_next_consecutive_frame s).1
        (send_next_keeps_timer s ∙ e))
]
  where
    restart : s.st_min_timer ≡ none → record s { st_min_timer = none } ≡ s
    restart e = ground arith

-- The bytes of the next frame, and the frame.
abbrev pub chunk : List ℕ → ℕ → List ℕ
chunk pdu b = take 7 (drop b pdu)

abbrev pub next_frame : Sender → List ℕ → ℕ → Message
next_frame s pdu b = (32 + s.sequence_number) ∷ chunk pdu b

-- The sender and the receiver one frame on.
abbrev pub advanced : Sender → ℕ → Sender
advanced s b = record s {
  sequence_number = (s.sequence_number + 1) % 16;
  bytes_sent = b + 7;
  blocks_remaining = s.blocks_remaining - (if s.block_size == 0 then 0 else 1);
}

abbrev pub taken : Sender → Receiver → List ℕ → ℕ → Receiver
taken s r pdu b = record r {
  expected_sn = (s.sequence_number + 1) % 16;
  n_cr_timer = true;
  assembly_buffer = take (b + 7) pdu;
}

module _ (s : Sender) (r : Receiver) (pdu : List ℕ) (b : ℕ) (ready : Ready s r pdu b)
    (bound : length pdu ≤ 4095) where
  -- The last frame.
  pub sends_last :
      b < length pdu
      → length pdu ≤ b + 7
      → send_next_consecutive_frame s ≡ (
        record s {
          sequence_number = (s.sequence_number + 1) % 16;
          bytes_sent = length pdu;
          n_as_timer = true;
        },
        Sender.Event.send_frame (next_frame s pdu b) (Sender.Sent.consecutive_sent true s.transfer)
            ∷ [],
      )
  unfolding send_next_consecutive_frame
  sends_last more h = ground (
    arith,
    encode_consecutive_frame_lem (bit_and s.sequence_number 15) (drop s.bytes_sent s.pdu_buffer),
    low_nibble s.sequence_number,
    low_nibble (s.sequence_number + 1),
    length-take 7 (drop b pdu),
    length-drop b pdu,
    ready.whole,
    ready.position,
    ready.number,
    ready.block_byte,
  )

  -- A frame within a block, or without blocks.
  pub sends_more :
      b + 7 < length pdu
      → (if s.block_size == 0 then false else s.blocks_remaining == 1) ≡ false
      → send_next_consecutive_frame s ≡ (
        record (advanced s b) { n_as_timer = true },
        Sender.Event.send_frame (next_frame s pdu b) (Sender.Sent.consecutive_sent false s.transfer)
            ∷ [],
      )
  unfolding send_next_consecutive_frame
  sends_more h more = ground (
    arith,
    encode_consecutive_frame_lem (bit_and s.sequence_number 15) (drop s.bytes_sent s.pdu_buffer),
    low_nibble s.sequence_number,
    low_nibble (s.sequence_number + 1),
    length-take 7 (drop b pdu),
    length-drop b pdu,
    ready.whole,
    ready.position,
    ready.number,
    ready.block_byte,
    ready.credit,
  )

  -- The last frame of a block.
  pub sends_block_end :
      b + 7 < length pdu
      → (if s.block_size == 0 then false else s.blocks_remaining == 1) ≡ true
      → send_next_consecutive_frame s ≡ (
        record (advanced s b) { state = SenderState.waiting_for_fc; n_bs_timer = true },
        Sender.Event.send_frame (next_frame s pdu b) (Sender.Sent.awaiting_fc s.transfer) ∷ [],
      )
  unfolding send_next_consecutive_frame
  sends_block_end h end = ground (
    arith,
    encode_consecutive_frame_lem (bit_and s.sequence_number 15) (drop s.bytes_sent s.pdu_buffer),
    low_nibble s.sequence_number,
    low_nibble (s.sequence_number + 1),
    length-take 7 (drop b pdu),
    length-drop b pdu,
    ready.whole,
    ready.position,
    ready.number,
    ready.block_byte,
    ready.credit,
  )

  filled :
      b < length pdu
      → fill r.expected_total_length r.assembly_buffer (chunk pdu b) ≡ take (b + 7) pdu
  filled more =
      rw (ready.total, ready.assembled)
        (fill_all (length pdu) (take b pdu) (chunk pdu b)
            (omega (arith, length-take b pdu, length-take 7 (drop b pdu), length-drop b pdu))
          ∙ take-append-take b 7 pdu)

  is_consecutive : decode_frame_type (next_frame s pdu b) ≡ consecutive_frame
  is_consecutive =
      decode_frame_type_cons (32 + s.sequence_number) (chunk pdu b)
      ∙ unfold frame_type_of in ground (arith, ready.number)

  pub receives :
      process_frame r (next_frame s pdu b) ≡ handle_consecutive_frame r (next_frame s pdu b)
  unfolding process_frame
  receives = rw (is_consecutive, process_frame) refl

  pub takes_last :
      b < length pdu
      → length pdu ≤ b + 7
      → handle_consecutive_frame r (next_frame s pdu b) ≡ (
        record r {
          expected_sn = (s.sequence_number + 1) % 16;
          n_cr_timer = false;
          assembly_buffer = [];
          state = ReceiverState.idle;
        },
        Receiver.Event.pdu_ready pdu ∷ [],
      )
  unfolding handle_consecutive_frame has_consecutive_frame_length decode_consecutive_frame_sn
  takes_last more h = ground (
    arith,
    low_nibble (32 + s.sequence_number),
    low_nibble (r.expected_sn + 1),
    filled more,
    take_all (b + 7) pdu h,
    length-take b pdu,
    length-take 7 (drop b pdu),
    length-drop b pdu,
    ready.receiving,
    ready.total,
    ready.same_number,
    ready.assembled,
    ready.number,
  )

  pub takes_more :
      b + 7 < length pdu
      → (if s.block_size == 0 then false else s.blocks_remaining == 1) ≡ false
      → handle_consecutive_frame r (next_frame s pdu b) ≡ (
        record (taken s r pdu b) {
          frames_in_block = r.frames_in_block + (if s.block_size == 0 then 0 else 1);
        },
        [],
      )
  unfolding handle_consecutive_frame has_consecutive_frame_length decode_consecutive_frame_sn
      continue_block
  takes_more h more = ground (
    arith,
    low_nibble (32 + s.sequence_number),
    low_nibble (r.expected_sn + 1),
    filled (omega arith),
    length-take (b + 7) pdu,
    length-take b pdu,
    length-take 7 (drop b pdu),
    length-drop b pdu,
    ready.receiving,
    ready.total,
    ready.same_number,
    ready.assembled,
    ready.number,
    ready.credit,
    ready.counted,
    ready.same_block,
    ready.block_byte,
  )

  pub takes_block_end :
      b + 7 < length pdu
      → (if s.block_size == 0 then false else s.blocks_remaining == 1) ≡ true
      → handle_consecutive_frame r (next_frame s pdu b) ≡ (
        record (taken s r pdu b) { frames_in_block = 0 },
        Receiver.Event.send_fc
              (encode_flow_control continue_to_send r.block_size r.separation_time)
              continue_to_send
              r.reception
            ∷ [],
      )
  unfolding handle_consecutive_frame has_consecutive_frame_length decode_consecutive_frame_sn
      continue_block
  takes_block_end h end = ground (
    arith,
    low_nibble (32 + s.sequence_number),
    low_nibble (r.expected_sn + 1),
    filled (omega arith),
    length-take (b + 7) pdu,
    length-take b pdu,
    length-take 7 (drop b pdu),
    length-drop b pdu,
    ready.receiving,
    ready.total,
    ready.same_number,
    ready.assembled,
    ready.number,
    ready.credit,
    ready.counted,
    ready.same_block,
    ready.block_byte,
  )
