-- ===== src/IsoTp/Tests.antt =====
-- A PDU of ten bytes: its frames, and their way through a sender and a receiver.
use can_lite.Base.{
  ℕ, ◌+◌, ◌≤◌, ◌≡◌, refl, true, some, List, [], ◌∷◌, ◌++◌, arith, length, take, drop,
}
use can_lite.Codec.{Message}
use can_lite.IsoTp.{single_frame, first_frame, consecutive_frame, flow_control, wait, receiving_cf}
use can_lite.IsoTp.FrameCodec.{
  decode_frame_type, encode_single_frame, decode_single_frame_length, encode_first_frame,
  decode_first_frame_total_length, encode_consecutive_frame, decode_consecutive_frame_sn,
  encode_flow_control, decode_flow_control,
}
use can_lite.IsoTp.FrameCodec.RoundTrip.{
  decode-encode_single_frame, decode-encode_first_frame, decode-encode_consecutive_frame,
  decode-encode_flow_control,
}
use can_lite.IsoTp.Sender.{new_sender, send}
use can_lite.IsoTp.Receiver.{Receiver, new_receiver, process_frame}
use can_lite.IsoTp.Receiver.Bounds.{IsValid, Good, process_frame-Good}
use can_lite.IsoTp.Link.{Link, run}
use can_lite.IsoTp.Link.Delivery.{Delivered}
use can_lite.IsoTp.Link.Transfer.{CanTransfer, transfer_delivers}

abbrev ten : List ℕ
ten = 1 ∷ 2 ∷ 3 ∷ 4 ∷ 5 ∷ 6 ∷ 7 ∷ 8 ∷ 9 ∷ 10 ∷ []

decode-encode_single_frame_example :
    (frame : Message) × (encode_single_frame (1 ∷ 2 ∷ 3 ∷ []) ≡ some frame)
    × (length frame ≤ 8)
    × (decode_frame_type frame ≡ single_frame)
    × (decode_single_frame_length frame ≡ 3)
    × (drop 1 frame ≡ 1 ∷ 2 ∷ 3 ∷ [])
decode-encode_single_frame_example =
    decode-encode_single_frame (1 ∷ 2 ∷ 3 ∷ []) (omega arith) (omega arith)

decode-encode_first_frame_example :
    (frame : Message) × (encode_first_frame ten ≡ some frame)
    × (length frame ≡ 8)
    × (decode_frame_type frame ≡ first_frame)
    × (decode_first_frame_total_length frame ≡ 10)
    × (drop 2 frame ≡ take 6 ten)
decode-encode_first_frame_example = decode-encode_first_frame ten (omega arith) (omega arith)

decode-encode_consecutive_frame_example :
    let (frame, written) = encode_consecutive_frame 3 ten in
    (length frame ≤ 8)
    × (decode_frame_type frame ≡ consecutive_frame)
    × (decode_consecutive_frame_sn frame ≡ 3)
    × (drop 1 frame ++ drop 7 ten ≡ ten)
    × (written + 1 ≡ length frame)
decode-encode_consecutive_frame_example = decode-encode_consecutive_frame 3 ten

decode-encode_flow_control_example :
    let frame = encode_flow_control wait 8 20 in
    (decode_frame_type frame ≡ flow_control) × (decode_flow_control frame ≡ (true, wait, 8, 20))
decode-encode_flow_control_example = decode-encode_flow_control wait 8 20

-- The receiver asks for a new flow control frame after each consecutive frame.
abbrev quiet_link : Link
quiet_link = record {
  sender = new_sender 64;
  receiver = record (new_receiver 64) { block_size = 1; separation_time = 2 };
  delivered = [];
  finished = [];
  aborts = [];
}

quiet_link-CanTransfer : CanTransfer quiet_link ten
quiet_link-CanTransfer = record {
  sender_idle = refl;
  no_timer = refl;
  receiver_idle = refl;
  not_empty = omega arith;
  encodable = omega arith;
  sender_room = omega arith;
  receiver_room = omega arith;
  block_byte = omega arith;
}

transfer_delivers_example :
    let (s, events, accepted) = send quiet_link.sender ten 5 in
    (accepted ≡ true)
    × Delivered quiet_link (run 13 (record quiet_link { sender = s }) events) ten 5
transfer_delivers_example =
    transfer_delivers quiet_link ten 5 13 quiet_link-CanTransfer (omega arith)

-- In the middle of a PDU of ten bytes.
abbrev halfway : Receiver
halfway = record (new_receiver 16) {
  state = receiving_cf;
  expected_total_length = 10;
  assembly_buffer = 1 ∷ 2 ∷ 3 ∷ 4 ∷ 5 ∷ 6 ∷ [];
  n_cr_timer = true;
}

halfway-IsValid : IsValid halfway
halfway-IsValid = record { incomplete = λ busy. omega arith; room = λ busy. omega arith }

process_frame-Good_example :
    Good halfway
      (process_frame halfway (0x21 ∷ 7 ∷ 8 ∷ 9 ∷ 10 ∷ [])).0
      (process_frame halfway (0x21 ∷ 7 ∷ 8 ∷ 9 ∷ 10 ∷ [])).1
process_frame-Good_example =
    process_frame-Good halfway (0x21 ∷ 7 ∷ 8 ∷ 9 ∷ 10 ∷ []) halfway-IsValid (omega arith)
