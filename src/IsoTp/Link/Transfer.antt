-- ===== src/IsoTp/Link/Transfer.antt =====
-- A transfer from the call of `Send` to its end.
use can_lite.Base.{
  ℕ, zero, suc, ◌+◌, ◌/◌, ◌%◌, ◌≤◌, ◌<◌, ◌≡◌, refl, ◌∙◌, true, false, none, List, [], ◌∷◌, ◌++◌,
  arith, length, take, take_all, length-take, leb, Bool-cases, tests, ==_refl, inl, inr,
}
use mathlib.Core.List.{append-nil}
use can_lite.Base.Bits.{u8}
use can_lite.IsoTp.{
  SenderState, ReceiverState, receiving_cf, continue_to_send, single_frame, first_frame,
}
use can_lite.IsoTp.FrameCodec.{
  decode_frame_type, decode_single_frame_length, encode_flow_control, frame_type_of,
}
use can_lite.IsoTp.FrameCodec.RoundTrip.{
  decode_frame_type_cons, encode_single_frame_lem, encode_first_frame_lem, low_nibble,
  first_frame_length,
}
use can_lite.IsoTp.Sender
use can_lite.IsoTp.Sender.{
  Sender, send, send_first_or_single_frame, accepted, send_next_consecutive_frame, schedule_next_cf,
  process_flow_control, on_frame_sent,
}
use can_lite.IsoTp.Receiver
use can_lite.IsoTp.Receiver.{
  Receiver, process_frame, handle_single_frame, handle_first_frame, end_superseded_reception,
}
use can_lite.IsoTp.Link.{Link, answer, ready_pdus, receiver_aborts, run}
use can_lite.IsoTp.Link.Rounds.{Ready, expire-none, expire_schedule}
use can_lite.IsoTp.Link.Delivery.{
  continues, transport_lem, run_frame, run_nil, answer_fc, block_sent, Delivered,
  Delivered-receiver, rounds,
}

module _ (s : Sender) (r : Receiver) (pdu : List ℕ) (on_done : ℕ) where
  abbrev single_started : Sender
  single_started = record (accepted s pdu on_done) {
    state = SenderState.sending_sf;
    n_as_timer = true;
  }

  abbrev first_started : Sender
  first_started = record (accepted s pdu on_done) {
    bytes_sent = 6;
    state = SenderState.waiting_for_fc;
    n_bs_timer = true;
  }

  send_single_lem :
      s.state ≡ SenderState.idle
      → 0 < length pdu
      → length pdu ≤ 7
      → length pdu ≤ s.max_size
      → send s pdu on_done ≡ (
        single_started,
        Sender.Event.send_frame (length pdu ∷ pdu) (Sender.Sent.single_sent (u8 (s.transfer + 1)))
            ∷ [],
        true,
      )
  unfolding send send_first_or_single_frame
  send_single_lem idle pos short fits = ground (arith, encode_single_frame_lem pdu pos short)

  send_first_lem :
      s.state ≡ SenderState.idle
      → 7 < length pdu
      → length pdu ≤ 4095
      → length pdu ≤ s.max_size
      → send s pdu on_done ≡ (
        first_started,
        Sender.Event.send_frame
              ((16 + length pdu / 256) ∷ (length pdu % 256) ∷ take 6 pdu)
              (Sender.Sent.awaiting_fc (u8 (s.transfer + 1)))
            ∷ [],
        true,
      )
  unfolding send send_first_or_single_frame
  send_first_lem idle long bound fits = ground (arith, encode_first_frame_lem pdu long bound)

  receive_single :
      r.state ≡ ReceiverState.idle
      → 0 < length pdu
      → length pdu ≤ 7
      → length pdu ≤ r.max_size
      → process_frame r (length pdu ∷ pdu)
        ≡ (record r { assembly_buffer = [] }, Receiver.Event.pdu_ready pdu ∷ [])
  unfolding process_frame
  receive_single idle pos short fits = rw (kind, process_frame) handled
    where
      kind : decode_frame_type (length pdu ∷ pdu) ≡ single_frame
      kind = decode_frame_type_cons (length pdu) pdu ∙ unfold frame_type_of in ground arith

      handled :
          handle_single_frame r (length pdu ∷ pdu)
          ≡ (record r { assembly_buffer = [] }, Receiver.Event.pdu_ready pdu ∷ [])
      handled =
          unfold handle_single_frame decode_single_frame_length end_superseded_reception in
          ground (arith, low_nibble (length pdu), take_all (length pdu) pdu)

  abbrev receiving : Receiver
  receiving = record r {
    expected_total_length = length pdu;
    expected_sn = 1;
    frames_in_block = 0;
    reception = u8 (r.reception + 1);
    assembly_buffer = take 6 pdu;
    state = receiving_cf;
    n_cr_timer = true;
  }

  receive_first :
      r.state ≡ ReceiverState.idle
      → 7 < length pdu
      → length pdu ≤ 4095
      → length pdu ≤ r.max_size
      → process_frame r ((16 + length pdu / 256) ∷ (length pdu % 256) ∷ take 6 pdu) ≡ (
        receiving,
        Receiver.Event.send_fc
              (encode_flow_control continue_to_send r.block_size r.separation_time)
              continue_to_send
              (u8 (r.reception + 1))
            ∷ [],
      )
  unfolding process_frame
  receive_first idle long bound fits = rw (kind, process_frame) handled
    where
      kind :
          decode_frame_type ((16 + length pdu / 256) ∷ (length pdu % 256) ∷ take 6 pdu)
          ≡ first_frame
      kind =
          decode_frame_type_cons (16 + length pdu / 256) ((length pdu % 256) ∷ take 6 pdu)
          ∙ unfold frame_type_of in ground arith

      handled : handle_first_frame r ((16 + length pdu / 256) ∷ (length pdu % 256) ∷ take 6 pdu) ≡ (
        receiving,
        Receiver.Event.send_fc
              (encode_flow_control continue_to_send r.block_size r.separation_time)
              continue_to_send
              (u8 (r.reception + 1))
            ∷ [],
      )
      handled =
          unfold handle_first_frame end_superseded_reception in
          ground (arith, first_frame_length pdu bound, length-take 6 pdu)

single_done :
    (s : Sender)
    → on_frame_sent s (Sender.Sent.single_sent s.transfer) true ≡ (
      record s { n_as_timer = false; state = SenderState.idle; transfer = u8 (s.transfer + 1) },
      Sender.Event.completed s.on_done ∷ [],
    )
unfolding on_frame_sent
single_done s = rw (==_refl s.transfer) refl

-- What a transfer needs of the two ends.
pub record CanTransfer (l : Link) (pdu : List ℕ) : Type 0 where
  pub sender_idle : l.sender.state ≡ SenderState.idle
  pub no_timer : l.sender.st_min_timer ≡ none
  pub receiver_idle : l.receiver.state ≡ ReceiverState.idle
  pub not_empty : 0 < length pdu
  pub encodable : length pdu ≤ 4095
  pub sender_room : length pdu ≤ l.sender.max_size
  pub receiver_room : length pdu ≤ l.receiver.max_size
  pub block_byte : l.receiver.block_size < 256

module _ (l : Link) (pdu : List ℕ) (on_done : ℕ) (can : CanTransfer l pdu) where
  abbrev Sends : ℕ → Type 0
  Sends fuel =
      ((send l.sender pdu on_done).2 ≡ true)
      × Delivered l
          (run fuel (record l { sender = (send l.sender pdu on_done).0 })
            (send l.sender pdu on_done).1)
          pdu on_done

  transfer_single : (fuel : ℕ) → length pdu ≤ 7 → Sends (suc (suc fuel))
  unfolding run
  transfer_single fuel short =
      let s0 = single_started l.sender l.receiver pdu on_done in
      let s1 = record s0 {
        n_as_timer = false;
        state = SenderState.idle;
        transfer = u8 (s0.transfer + 1);
      } in
      let r1 = record (l.receiver) { assembly_buffer = [] } in
      rw
        (
          send_single_lem l.sender l.receiver pdu on_done can.sender_idle can.not_empty short
              can.sender_room,
          run_frame (suc fuel) (record l { sender = s0 }) _ _ _ _
              (transport_lem (record l { sender = s0 }) (length pdu ∷ pdu)
                (Sender.Sent.single_sent s0.transfer) r1 (Receiver.Event.pdu_ready pdu ∷ []) s1 s1
                (Sender.Event.completed on_done ∷ []) [] (s1, Sender.Event.completed on_done ∷ [])
                (l.delivered ++ pdu ∷ [])
                (receive_single l.sender l.receiver pdu on_done can.receiver_idle can.not_empty
                  short can.receiver_room)
                (single_done s0) (unfold answer in refl)
                (expire-none s1 (Sender.Event.completed on_done ∷ []) can.no_timer)
                (unfold ready_pdus in refl) (unfold receiver_aborts in refl)),
          run_nil fuel _,
        )
        (
          refl,
          record {
            delivered = refl;
            finished = refl;
            aborts = refl;
            sender_idle = refl;
            receiver_idle = can.receiver_idle;
          },
        )

  abbrev continued : Sender
  continued = record (first_started (l.sender) (l.receiver) pdu on_done) {
    wait_count = 0;
    n_bs_timer = false;
    block_size = l.receiver.block_size;
    blocks_remaining = l.receiver.block_size;
    st_min_byte = l.receiver.separation_time;
    state = SenderState.sending_cf;
  }

  continued-Ready :
      7 < length pdu → Ready continued (receiving l.sender l.receiver pdu on_done) pdu 6
  continued-Ready long = record {
    sending = refl;
    whole = refl;
    position = refl;
    number = omega arith;
    no_timer = can.no_timer;
    block_byte = can.block_byte;
    credit = λ z. (ground arith, omega arith);
    receiving = refl;
    total = refl;
    same_number = refl;
    assembled = refl;
    same_block = refl;
    counted = λ z. omega arith;
  }

  transfer_first : (fuel : ℕ) → 7 < length pdu → length pdu ≤ fuel → Sends (suc fuel)
  transfer_first fuel long enough =
      let s0 = first_started l.sender l.receiver pdu on_done in
      let r1 = receiving l.sender l.receiver pdu on_done in
      let fc =
        encode_flow_control continue_to_send l.receiver.block_size l.receiver.separation_time in
      let scheduled = schedule_next_cf continued in
      rw
        (
          send_first_lem l.sender l.receiver pdu on_done can.sender_idle long can.encodable
              can.sender_room,
          run_frame fuel (record l { sender = s0 }) _ _ _ _
              (transport_lem (record l { sender = s0 })
                ((16 + length pdu / 256) ∷ (length pdu % 256) ∷ take 6 pdu)
                (Sender.Sent.awaiting_fc s0.transfer) r1
                (Receiver.Event.send_fc fc continue_to_send r1.reception ∷ []) s0 scheduled.0 []
                scheduled.1 (send_next_consecutive_frame continued) l.delivered
                (receive_first l.sender l.receiver pdu on_done can.receiver_idle long can.encodable
                  can.receiver_room)
                (block_sent s0 s0.transfer)
                (answer_fc s0 fc continue_to_send r1.reception
                  ∙ continues s0 l.receiver.block_size l.receiver.separation_time refl)
                (expire_schedule continued can.no_timer)
                (unfold ready_pdus in append-nil l.delivered) (unfold receiver_aborts in refl)),
        )
        (
          refl,
          Delivered-receiver l _ r1 pdu on_done (
              rounds fuel (record l { receiver = r1 }) continued pdu 6 (continued-Ready long)
                can.encodable (omega arith) (omega arith)),
        )

-- A PDU of 1 to 4095 bytes that both buffers hold, sent by an idle sender to an idle receiver over
-- a bus that loses nothing, is accepted and arrives: the receiver delivers exactly the bytes sent,
-- once, the sender's handler is called, once, nobody aborts, and both ends are idle again. This
-- holds for every block size and every separation time, and `length pdu + 3` calls are enough.
pub transfer_delivers :
    (l : Link) (pdu : List ℕ) (on_done fuel : ℕ)
    → CanTransfer l pdu
    → length pdu + 3 ≤ fuel
    → let (s, events, accepted) = send l.sender pdu on_done in
      (accepted ≡ true) × Delivered l (run fuel (record l { sender = s }) events) pdu on_done
transfer_delivers l pdu on_done zero can enough = absurd (omega arith)
transfer_delivers l pdu on_done (suc zero) can enough = absurd (omega arith)
transfer_delivers l pdu on_done (suc (suc fuel)) can enough =
    elim (Bool-cases (leb (length pdu) 7)) [
      | inl short ↦ transfer_single l pdu on_done can fuel (omega (tests, short))
      | inr long ↦ transfer_first l pdu on_done can (suc fuel) (omega (tests, long)) (omega arith)
    ]
