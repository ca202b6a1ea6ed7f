-- ===== src/IsoTp/Receiver/Bounds.antt =====
-- The receiver against any frames: what it holds and delivers stays within its buffer.
use can_lite.Base.{
  ℕ, ◌+◌, ◌-◌, ◌≤◌, ◌<◌, ◌≡◌, refl, ◌∙◌, subst, true, false, ◌||◌, List, [], ◌∷◌, ◌++◌, arith,
  length, drop, length-take, length-drop, length-append, leb, ltb, ◌==◌, Bool-cases, inl, inr,
  tests, bit_and,
}
use can_lite.Base.Bits.{u8}
use can_lite.Codec.{Message}
use can_lite.IsoTp.{
  ReceiverState, FrameType, AbortReason, single_frame, first_frame, consecutive_frame, flow_control,
  unknown, buffer_overflow, unexpected_frame, sf_max_payload_bytes,
}
use can_lite.IsoTp.FrameCodec.{
  decode_frame_type, decode_single_frame_length, decode_first_frame_total_length,
  decode_consecutive_frame_sn,
}
use can_lite.IsoTp.Receiver
use can_lite.IsoTp.Receiver.{
  Receiver, is_idle, abort, clear, end_superseded_reception, handle_single_frame,
  handle_first_frame, handle_consecutive_frame, handle_frame, process_frame, start_reception,
  take_consecutive, continue_block, fill, has_consecutive_frame_length,
}

-- While a PDU is received, less than all of it is there, and all of it has room.
pub record IsValid (r : Receiver) : Type 0 where
  pub incomplete : is_idle r.state ≡ false → length r.assembly_buffer < r.expected_total_length
  pub room : is_idle r.state ≡ false → r.expected_total_length ≤ r.max_size

-- The PDUs that are handed over have room in a buffer of this size.
unfoldable pub Fits : ℕ → List Receiver.Event → Type 0
Fits size [] = true ≡ true
Fits size (Receiver.Event.pdu_ready pdu ∷ events) = (length pdu ≤ size) × Fits size events
Fits size (Receiver.Event.send_fc frame status reception ∷ events) = Fits size events
Fits size (Receiver.Event.abort_notified reason ∷ events) = Fits size events

Fits-append :
    (size : ℕ) (events more : List Receiver.Event)
    → Fits size events
    → Fits size more
    → Fits size (events ++ more)
unfolding Fits
Fits-append size [] more a b = b
Fits-append size (Receiver.Event.pdu_ready pdu ∷ events) more a b =
    (a.0, Fits-append size events more a.1 b)
Fits-append size (Receiver.Event.send_fc frame status reception ∷ events) more a b =
    Fits-append size events more a b
Fits-append size (Receiver.Event.abort_notified reason ∷ events) more a b =
    Fits-append size events more a b

length-fill :
    (total : ℕ) (buffer bytes : List ℕ)
    → length buffer ≤ total
    → length (fill total buffer bytes) ≤ total
unfolding fill
length-fill total buffer [] h = h
length-fill total buffer (byte ∷ bytes) h = elim (Bool-cases (leb total (length buffer))) [
  | inl full ↦ rw full h
  | inr room ↦ rw room (
      length-fill total (buffer ++ byte ∷ []) bytes
        (omega (arith, tests, room, length-append buffer (byte ∷ []))))
]

-- A step from `r` to a valid receiver of the same size, with what it hands over.
pub record Good (r r' : Receiver) (events : List Receiver.Event) : Type 0 where
  pub valid : IsValid r'
  pub size : r'.max_size ≡ r.max_size
  pub fits : Fits r.max_size events

idle-IsValid : (r : Receiver) → is_idle r.state ≡ true → IsValid r
idle-IsValid r e = record { incomplete = λ busy. cc; room = λ busy. cc }

abort-Good : (r : Receiver) (reason : AbortReason) → Good r (abort r reason).0 (abort r reason).1
unfolding abort Fits clear
abort-Good r reason = record { valid = idle-IsValid _ refl; size = refl; fits = refl }

nothing-Good : (r : Receiver) → IsValid r → Good r r []
unfolding Fits
nothing-Good r v = record { valid = v; size = refl; fits = refl }

superseded :
    (r : Receiver)
    → Good r (end_superseded_reception r).0 (end_superseded_reception r).1
      × (is_idle (end_superseded_reception r).0.state ≡ true)
unfolding end_superseded_reception abort clear
superseded r = elim (Bool-cases (is_idle r.state)) [
  | inl idle ↦ rw idle (nothing-Good r (idle-IsValid r idle), idle)
  | inr busy ↦ rw busy (abort-Good r unexpected_frame, refl)
]

-- What follows a good step from its result is good from its start.
Good-step :
    (r r1 r2 : Receiver) (events more : List Receiver.Event)
    → Good r r1 events
    → Good r1 r2 more
    → Good r r2 (events ++ more)
Good-step r r1 r2 events more g g' = record {
  valid = g'.valid;
  size = g'.size ∙ g.size;
  fits = Fits-append r.max_size events more g.fits (subst (λ n. Fits n more) g.size g'.fits);
}

single-Good :
    (r : Receiver) (frame : Message)
    → IsValid r
    → Good r (handle_single_frame r frame).0 (handle_single_frame r frame).1
unfolding handle_single_frame
single-Good r frame v =
    let len = decode_single_frame_length frame in
    let (g, idle) = superseded r in
    let r1 = (end_superseded_reception r).0 in
    elim (Bool-cases
      ((len == 0) || ltb sf_max_payload_bytes len || ltb (u8 (length frame - 1)) len)) [
        | inl wrong ↦ rw wrong (nothing-Good r v)
        | inr right ↦ elim (Bool-cases (ltb r1.max_size len)) [
          | inl big ↦
              rw (right, big)
                (Good-step r r1 (abort r1 buffer_overflow).0 _ _ g (abort-Good r1 buffer_overflow))
          | inr small ↦
              rw (right, small)
                (Good-step r r1 (record r1 { assembly_buffer = [] }) _ _ g
                  (record {
                    valid = idle-IsValid (record r1 { assembly_buffer = [] }) idle;
                    size = refl;
                    fits =
                        unfold Fits in
                        (omega (arith, tests, small, length-take len (drop 1 frame)), refl);
                  }))
        ]
      ]

start_reception-Good :
    (r : Receiver) (len : ℕ) (frame : Message)
    → is_idle r.state ≡ true
    → 7 < len
    → length frame ≤ 8
    → Good r (start_reception r len frame).0 (start_reception r len frame).1
unfolding start_reception abort clear
start_reception-Good r len frame idle long short = elim (Bool-cases (ltb r.max_size len)) [
  | inl big ↦
      rw big
        (record { valid = idle-IsValid (clear r) refl; size = refl; fits = unfold Fits in refl })
  | inr small ↦ rw small (record {
    valid = record {
      incomplete = λ busy. omega (arith, length-drop 2 frame);
      room = λ busy. omega (arith, tests, small);
    };
    size = refl;
    fits = unfold Fits in refl;
  })
]

first-Good :
    (r : Receiver) (frame : Message)
    → IsValid r
    → length frame ≤ 8
    → Good r (handle_first_frame r frame).0 (handle_first_frame r frame).1
unfolding handle_first_frame
first-Good r frame v short =
    let len = decode_first_frame_total_length frame in
    let (g, idle) = superseded r in
    let r1 = (end_superseded_reception r).0 in
    elim (Bool-cases (ltb (length frame) 8)) [
      | inl small ↦ rw small (nothing-Good r v)
      | inr whole ↦ elim (Bool-cases (leb len sf_max_payload_bytes)) [
        | inl single ↦ rw (whole, single) (nothing-Good r v)
        | inr long ↦
            rw (whole, long)
              (Good-step r r1 (start_reception r1 len frame).0 _ _ g
                (start_reception-Good r1 len frame idle (omega (arith, tests, long)) short))
      ]
    ]

-- Asking for the next block, or not, keeps what was received.
continue_block-Good : (r : Receiver) → IsValid r → Good r (continue_block r).0 (continue_block r).1
unfolding continue_block Fits
continue_block-Good r v = elim (Bool-cases (r.block_size == 0)) [
  | inl unlimited ↦ rw unlimited (nothing-Good r v)
  | inr limited ↦ elim (Bool-cases (u8 (r.frames_in_block + 1) == r.block_size)) [
    | inl full ↦
        rw (limited, full)
          (record {
            valid = record { incomplete = v.incomplete; room = v.room };
            size = refl;
            fits = refl;
          })
    | inr more ↦
        rw (limited, more)
          (record {
            valid = record { incomplete = v.incomplete; room = v.room };
            size = refl;
            fits = refl;
          })
  ]
]

take_consecutive-Good :
    (r : Receiver) (frame : Message)
    → IsValid r
    → is_idle r.state ≡ false
    → Good r (take_consecutive r frame).0 (take_consecutive r frame).1
unfolding take_consecutive
take_consecutive-Good r frame v busy =
    let filled = fill r.expected_total_length r.assembly_buffer (drop 1 frame) in
    let within : length filled ≤ r.expected_total_length =
      length-fill r.expected_total_length r.assembly_buffer (drop 1 frame)
        (omega (arith, v.incomplete busy)) in
    let r1 : Receiver = record r {
      expected_sn = u8 (bit_and (r.expected_sn + 1) 0x0F);
      n_cr_timer = true;
      assembly_buffer = filled;
    } in
    elim (Bool-cases (leb r.expected_total_length (length filled))) [
      | inl complete ↦ rw complete (record {
        valid =
            idle-IsValid
              (record r1 { n_cr_timer = false; state = ReceiverState.idle; assembly_buffer = [] })
              refl;
        size = refl;
        fits = unfold Fits in (omega (arith, within, v.room busy), refl);
      })
      | inr more ↦
          let g =
            continue_block-Good r1
              (record { incomplete = λ b. omega (arith, tests, more); room = v.room }) in
          rw more (record { valid = g.valid; size = g.size; fits = g.fits })
    ]

consecutive-Good :
    (r : Receiver) (frame : Message)
    → IsValid r
    → Good r (handle_consecutive_frame r frame).0 (handle_consecutive_frame r frame).1
unfolding handle_consecutive_frame
consecutive-Good r frame v = elim (Bool-cases (is_idle r.state)) [
  | inl idle ↦ rw idle (nothing-Good r v)
  | inr busy ↦ elim (Bool-cases (has_consecutive_frame_length r frame)) [
    | inr short ↦ rw (busy, short) (nothing-Good r v)
    | inl long ↦ elim (Bool-cases (decode_consecutive_frame_sn frame == r.expected_sn)) [
      | inl next ↦ rw (busy, long, next) (take_consecutive-Good r frame v busy)
      | inr lost ↦ rw (busy, long, lost) (abort-Good r unexpected_frame)
    ]
  ]
]

handle_frame-Good :
    (kind : FrameType) (r : Receiver) (frame : Message)
    → IsValid r
    → length frame ≤ 8
    → Good r (handle_frame kind r frame).0 (handle_frame kind r frame).1
unfolding handle_frame
handle_frame-Good single_frame r frame v short = single-Good r frame v
handle_frame-Good first_frame r frame v short = first-Good r frame v short
handle_frame-Good consecutive_frame r frame v short = consecutive-Good r frame v
handle_frame-Good flow_control r frame v short = nothing-Good r v
handle_frame-Good unknown r frame v short = nothing-Good r v

-- Whatever frame of at most eight bytes arrives, in whatever valid state: the receiver stays valid
-- (while it receives a PDU it holds less than the length announced, and that length has room in its
-- buffer), its buffer keeps its size, and each PDU that it hands over is at most as large.
pub process_frame-Good :
    (r : Receiver) (frame : Message)
    → IsValid r
    → length frame ≤ 8
    → Good r (process_frame r frame).0 (process_frame r frame).1
unfolding process_frame
process_frame-Good r frame v short = handle_frame-Good (decode_frame_type frame) r frame v short
