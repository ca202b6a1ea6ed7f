-- ===== src/IsoTp/Link/Delivery.antt =====
-- A whole transfer over the link.
use can_lite.Base.{
  ℕ, zero, suc, ◌+◌, ◌-◌, ◌%◌, ◌≤◌, ◌<◌, ◌≡◌, refl, ap, ◌∙◌, true, false, List, [], ◌∷◌, ◌++◌,
  arith, length, leb, ◌==◌, if◌then◌else◌, Bool-cases, tests, ==_refl, inl, inr,
}
use mathlib.Core.List.{append-nil}
use can_lite.Base.Bits.{u8}
use can_lite.Codec.{Message}
use can_lite.IsoTp.{SenderState, ReceiverState, FlowStatus, continue_to_send}
use can_lite.IsoTp.FrameCodec.{encode_flow_control}
use can_lite.IsoTp.FrameCodec.RoundTrip.{decode-encode_flow_control}
use can_lite.IsoTp.Sender
use can_lite.IsoTp.Sender.{
  Sender, send_next_consecutive_frame, schedule_next_cf, process_flow_control, on_frame_sent,
}
use can_lite.IsoTp.Receiver
use can_lite.IsoTp.Receiver.{Receiver, process_frame}
use can_lite.IsoTp.Link.{Link, answer, ready_pdus, receiver_aborts, expire, transport, run}
use can_lite.IsoTp.Link.Rounds.{
  Ready, next_frame, expire-none, advanced, taken, expire_schedule, sends_last, sends_more,
  sends_block_end, receives, takes_last, takes_more, takes_block_end,
}

-- A sender that waits takes a "continue" for what it is.
pub continues :
    (s : Sender) (bs st : ℕ)
    → s.state ≡ SenderState.waiting_for_fc
    → process_flow_control s (encode_flow_control continue_to_send bs st)
      ≡ schedule_next_cf (record s {
        wait_count = 0;
        n_bs_timer = false;
        block_size = bs;
        blocks_remaining = bs;
        st_min_byte = st;
        state = SenderState.sending_cf;
      })
unfolding process_flow_control
continues s bs st e = rw ((decode-encode_flow_control continue_to_send bs st).1, e) refl

-- What `transport` comes to, from what each of its calls comes to.
pub transport_lem :
    (l : Link) (m : Message) (sent : Sender.Sent) (r : Receiver) (answers : List Receiver.Event)
    (s1 s2 : Sender) (e1 e2 : List Sender.Event) (q : Sender × List Sender.Event)
    (pdus : List (List ℕ))
    → process_frame l.receiver m ≡ (r, answers)
    → on_frame_sent l.sender sent true ≡ (s1, e1)
    → answer s1 answers ≡ (s2, e2)
    → expire (s2, e1 ++ e2) ≡ q
    → l.delivered ++ ready_pdus answers ≡ pdus
    → receiver_aborts answers ≡ []
    → transport l m sent ≡ (record l { sender = q.0; receiver = r; delivered = pdus }, q.1)
unfolding transport
transport_lem l m sent r answers s1 s2 e1 e2 q pdus p t a x d n =
    rw (p, t, a, x, d, n, append-nil l.aborts) refl

pub run_frame :
    (fuel : ℕ) (l l' : Link) (m : Message) (sent : Sender.Sent) (more : List Sender.Event)
    → transport l m sent ≡ (l', more)
    → run (suc fuel) l (Sender.Event.send_frame m sent ∷ []) ≡ run fuel l' more
unfolding run
run_frame fuel l l' m sent more e = ap (λ (p : Link × List Sender.Event). run fuel p.0 p.1) e

pub run_nil : (fuel : ℕ) (l : Link) → run fuel l [] ≡ l
unfolding run
run_nil zero l = refl
run_nil (suc fuel) l = refl

pub answer_fc :
    (s : Sender) (m : Message) (status : FlowStatus) (reception : ℕ)
    → answer s (Receiver.Event.send_fc m status reception ∷ []) ≡ process_flow_control s m
unfolding answer
answer_fc s m status reception =
    ap (λ (e : List Sender.Event). ((process_flow_control s m).0, e))
      (append-nil (process_flow_control s m).1)

last_sent :
    (s : Sender)
    → on_frame_sent s (Sender.Sent.consecutive_sent true s.transfer) true ≡ (
      record s { n_as_timer = false; state = SenderState.idle; transfer = u8 (s.transfer + 1) },
      Sender.Event.completed s.on_done ∷ [],
    )
unfolding on_frame_sent
last_sent s = rw (==_refl s.transfer) refl

more_sent :
    (s : Sender)
    → s.state ≡ SenderState.sending_cf
    → on_frame_sent s (Sender.Sent.consecutive_sent false s.transfer) true
      ≡ schedule_next_cf (record s { n_as_timer = false })
unfolding on_frame_sent
more_sent s e = ground (arith, ==_refl s.transfer)

pub block_sent :
    (s : Sender) (current : ℕ) → on_frame_sent s (Sender.Sent.awaiting_fc current) true ≡ (s, [])
unfolding on_frame_sent
block_sent s current = refl

-- What a link has done when it stops: the PDU has been delivered once, the handler called once,
-- nobody has aborted, and both ends are idle.
pub record Delivered (l l' : Link) (pdu : List ℕ) (on_done : ℕ) : Type 0 where
  pub delivered : l'.delivered ≡ l.delivered ++ pdu ∷ []
  pub finished : l'.finished ≡ l.finished ++ on_done ∷ []
  pub aborts : l'.aborts ≡ l.aborts
  pub sender_idle : l'.sender.state ≡ SenderState.idle
  pub receiver_idle : l'.receiver.state ≡ ReceiverState.idle

module _ (l : Link) (s : Sender) (pdu : List ℕ) (b : ℕ) (ready : Ready s l.receiver pdu b)
    (bound : length pdu ≤ 4095) where
  abbrev begin_round : Link × List Sender.Event
  begin_round =
      (record l { sender = (send_next_consecutive_frame s).0 }, (send_next_consecutive_frame s).1)

  abbrev closed : Sender
  closed = record s {
    sequence_number = (s.sequence_number + 1) % 16;
    bytes_sent = length pdu;
    n_as_timer = false;
    state = SenderState.idle;
    transfer = u8 (s.transfer + 1);
  }

  abbrev idle_again : Receiver
  idle_again = record (l.receiver) {
    expected_sn = (s.sequence_number + 1) % 16;
    n_cr_timer = false;
    assembly_buffer = [];
    state = ReceiverState.idle;
  }

  transport_last :
      b < length pdu
      → length pdu ≤ b + 7
      → transport
          (record l {
            sender = record s {
              sequence_number = (s.sequence_number + 1) % 16;
              bytes_sent = length pdu;
              n_as_timer = true;
            };
          })
          (next_frame s pdu b)
          (Sender.Sent.consecutive_sent true s.transfer)
        ≡ (
          record l { sender = closed; receiver = idle_again; delivered = l.delivered ++ pdu ∷ [] },
          Sender.Event.completed s.on_done ∷ [],
        )
  transport_last more h =
      transport_lem _ (next_frame s pdu b) (Sender.Sent.consecutive_sent true s.transfer) idle_again
        (Receiver.Event.pdu_ready pdu ∷ []) closed closed (Sender.Event.completed s.on_done ∷ []) []
        (closed, Sender.Event.completed s.on_done ∷ []) (l.delivered ++ pdu ∷ [])
        (receives s l.receiver pdu b ready bound ∙ takes_last s l.receiver pdu b ready bound more h)
        (last_sent _) (unfold answer in refl)
        (expire-none closed (Sender.Event.completed s.on_done ∷ []) ready.no_timer)
        (unfold ready_pdus in refl) (unfold receiver_aborts in refl)

  -- The last frame: the PDU is delivered and the sender completes.
  round_last :
      (fuel : ℕ)
      → b < length pdu
      → length pdu ≤ b + 7
      → Delivered l (run (suc (suc fuel)) begin_round.0 begin_round.1) pdu s.on_done
  unfolding run
  round_last fuel more h =
      rw
        (
          sends_last s l.receiver pdu b ready bound more h,
          run_frame (suc fuel) _ _ _ _ _ (transport_last more h),
        )
        (rw (run_nil fuel _) (record {
          delivered = refl;
          finished = refl;
          aborts = refl;
          sender_idle = refl;
          receiver_idle = refl;
        }))

  -- After a frame within a block.
  abbrev next_sender : Sender
  next_sender = record (advanced s b) { n_as_timer = false }

  abbrev next_receiver : Receiver
  next_receiver = record (taken s (l.receiver) pdu b) {
    frames_in_block = l.receiver.frames_in_block + (if s.block_size == 0 then 0 else 1);
  }

  next_Ready :
      b + 7 < length pdu
      → (if s.block_size == 0 then false else s.blocks_remaining == 1) ≡ false
      → Ready next_sender next_receiver pdu (b + 7)
  next_Ready h more = record {
    sending = ready.sending;
    whole = ready.whole;
    position = refl;
    number = omega arith;
    no_timer = ready.no_timer;
    block_byte = ready.block_byte;
    credit = λ z. ground (arith, ready.credit z);
    receiving = ready.receiving;
    total = ready.total;
    same_number = refl;
    assembled = refl;
    same_block = ready.same_block;
    counted = λ z. ground (arith, ready.credit z, ready.counted z);
  }

  round_more :
      (fuel : ℕ)
      → b + 7 < length pdu
      → (if s.block_size == 0 then false else s.blocks_remaining == 1) ≡ false
      → let next = send_next_consecutive_frame next_sender in
        run (suc fuel) begin_round.0 begin_round.1
        ≡ run fuel (record l { sender = next.0; receiver = next_receiver }) next.1
  round_more fuel h more = rw (sends_more s l.receiver pdu b ready bound h more) (
      run_frame fuel _ _ _ _ _ (
        transport_lem (record l { sender = record (advanced s b) { n_as_timer = true } })
          (next_frame s pdu b) (Sender.Sent.consecutive_sent false s.transfer) next_receiver []
          (schedule_next_cf next_sender).0 (schedule_next_cf next_sender).0
          (schedule_next_cf next_sender).1 [] (send_next_consecutive_frame next_sender) l.delivered
          (receives s l.receiver pdu b ready bound
            ∙ takes_more s l.receiver pdu b ready bound h more)
          (more_sent (record (advanced s b) { n_as_timer = true }) ready.sending)
          (unfold answer in refl)
          (rw (append-nil (schedule_next_cf next_sender).1)
            (expire_schedule next_sender ready.no_timer))
          (unfold ready_pdus in append-nil l.delivered) (unfold receiver_aborts in refl)))

  -- After the last frame of a block, which the receiver answers.
  abbrev resumed_sender : Sender
  resumed_sender = record (advanced s b) {
    wait_count = 0;
    n_bs_timer = false;
    block_size = l.receiver.block_size;
    blocks_remaining = l.receiver.block_size;
    st_min_byte = l.receiver.separation_time;
    state = SenderState.sending_cf;
  }

  abbrev resumed_receiver : Receiver
  resumed_receiver = record (taken s (l.receiver) pdu b) { frames_in_block = 0 }

  resumed_Ready :
      b + 7 < length pdu
      → (if s.block_size == 0 then false else s.blocks_remaining == 1) ≡ true
      → Ready resumed_sender resumed_receiver pdu (b + 7)
  resumed_Ready h end = record {
    sending = refl;
    whole = ready.whole;
    position = refl;
    number = omega arith;
    no_timer = ready.no_timer;
    block_byte = omega (arith, ready.same_block, ready.block_byte);
    credit = λ z. (ground arith, omega arith);
    receiving = ready.receiving;
    total = ready.total;
    same_number = refl;
    assembled = refl;
    same_block = refl;
    counted = λ z. omega arith;
  }

  round_block_end :
      (fuel : ℕ)
      → b + 7 < length pdu
      → (if s.block_size == 0 then false else s.blocks_remaining == 1) ≡ true
      → let next = send_next_consecutive_frame resumed_sender in
        run (suc fuel) begin_round.0 begin_round.1
        ≡ run fuel (record l { sender = next.0; receiver = resumed_receiver }) next.1
  round_block_end fuel h end =
      let waiting = record (advanced s b) {
        state = SenderState.waiting_for_fc;
        n_bs_timer = true;
      } in
      let scheduled = schedule_next_cf resumed_sender in
      let fc =
        encode_flow_control continue_to_send l.receiver.block_size l.receiver.separation_time in
      rw (sends_block_end s l.receiver pdu b ready bound h end) (
        run_frame fuel _ _ _ _ _ (
          transport_lem (record l { sender = waiting }) (next_frame s pdu b)
            (Sender.Sent.awaiting_fc s.transfer) resumed_receiver
            (Receiver.Event.send_fc fc continue_to_send l.receiver.reception ∷ []) waiting
            scheduled.0 [] scheduled.1 (send_next_consecutive_frame resumed_sender) l.delivered
            (receives s l.receiver pdu b ready bound
              ∙ takes_block_end s l.receiver pdu b ready bound h end)
            (block_sent waiting s.transfer)
            (answer_fc waiting fc continue_to_send l.receiver.reception
              ∙ continues waiting l.receiver.block_size l.receiver.separation_time refl)
            (expire_schedule resumed_sender ready.no_timer)
            (unfold ready_pdus in append-nil l.delivered) (unfold receiver_aborts in refl)))

pub Delivered-receiver :
    (l l' : Link) (r : Receiver) (pdu : List ℕ) (on_done : ℕ)
    → Delivered (record l { receiver = r }) l' pdu on_done
    → Delivered l l' pdu on_done
Delivered-receiver l l' r pdu on_done d = record {
  delivered = d.delivered;
  finished = d.finished;
  aborts = d.aborts;
  sender_idle = d.sender_idle;
  receiver_idle = d.receiver_idle;
}

-- From any point of a transfer on, the rest of it is delivered.
pub rounds :
    (fuel : ℕ) (l : Link) (s : Sender) (pdu : List ℕ) (b : ℕ)
    → Ready s l.receiver pdu b
    → length pdu ≤ 4095
    → b < length pdu
    → length pdu - b + 2 ≤ fuel
    → Delivered l
        (run fuel
          (record l { sender = (send_next_consecutive_frame s).0 })
          (send_next_consecutive_frame s).1)
        pdu
        s.on_done
rounds zero l s pdu b ready bound more enough = absurd (omega arith)
rounds (suc zero) l s pdu b ready bound more enough = absurd (omega arith)
rounds (suc (suc fuel)) l s pdu b ready bound more enough =
    elim (Bool-cases (leb (length pdu) (b + 7))) [
      | inl last ↦ round_last l s pdu b ready bound fuel more (omega (tests, last))
      | inr far ↦ elim (Bool-cases (if s.block_size == 0 then false else s.blocks_remaining == 1)) [
        | inl end ↦
            let h : b + 7 < length pdu = omega (tests, far) in
            rw (round_block_end l s pdu b ready bound (suc fuel) h end) (
              Delivered-receiver l _ _ pdu s.on_done (
                rounds (suc fuel) (record l { receiver = resumed_receiver l s pdu b ready bound })
                  (resumed_sender l s pdu b ready bound) pdu (b + 7)
                  (resumed_Ready l s pdu b ready bound h end) bound h (omega arith)))
        | inr within ↦
            let h : b + 7 < length pdu = omega (tests, far) in
            rw (round_more l s pdu b ready bound (suc fuel) h within) (
              Delivered-receiver l _ _ pdu s.on_done (
                rounds (suc fuel) (record l { receiver = next_receiver l s pdu b ready bound })
                  (next_sender l s pdu b ready bound) pdu (b + 7)
                  (next_Ready l s pdu b ready bound h within) bound h (omega arith)))
      ]
    ]
