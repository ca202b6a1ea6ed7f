-- ===== src/Client/Resync.antt =====
-- A client and a server that disagree on the sequence number, and the refusal that the server sends.
use can_lite.Base.{
  ℕ, ◌≤◌, ◌≡◌, ◌≢◌, refl, ap, ◌∙◌, Bool, true, false, Option, none, some, ◌<◌, List, [], ◌∷◌, ◌++◌,
  if◌then◌else◌, Bool-cases, inl, inr, arith, ==_refl,
}
use can_lite.Codec.{Message}
use can_lite.Payload.{write_uint8, reserve}
use can_lite.Protocol.{
  CanPriority, response, make_can_id, extract_can_category, extract_can_message_type,
  extract_can_node_id, is_command_message_type, can_system_category_id,
  can_command_ack_message_type_id, sequence_error,
}
use can_lite.Server.{
  Server, Category, Closure, ignored, Event, send_data, absorb, find_category, is_emergency,
  Sequence, expected_sequence, is_expected_sequence,
}
use can_lite.Server.Core.{Core, core-send_command_ack}
use can_lite.Server.Dispatch.{
  Handlers, handle_message, ack_payload, send, send_command_ack, reject_command, admit_command,
  admit_found, admit_sequenced, execute, execute_admitted, count_invalid,
}
use can_lite.Protocol.Identifier.{extract-make_can_id}
use can_lite.Hal.{CanIds}
use can_lite.FrameTransport
use can_lite.FrameTransport.{
  Transport, PendingFrame, transmit, notify_send, send_frame, send_frame_to, send_raw_frame,
  pending_frame, submit,
}
use can_lite.Client.{
  PerServerState, Sequences, serves, find_slot, next_index, update_slot, clear_awaiting_ack,
  resync_sequence, reserve_sequence, handle_command_ack_frame,
}
use can_lite.Client.Counting.{reserve_sequence-resync_sequence}

find_slot-change :
    (test other : PerServerState → Bool) (change : PerServerState → PerServerState)
    (states : List PerServerState)
    → ((s : PerServerState) → test (change s) ≡ test s)
    → find_slot test (update_slot other change states) ≡ find_slot test states
unfolding find_slot update_slot
find_slot-change test other change [] keeps = refl
find_slot-change test other change (s ∷ states) keeps = elim (Bool-cases (other s)) [
  | inl changed ↦ rw (changed, keeps s) refl
  | inr same ↦ rw same (
      ap (λ (o : Option ℕ). if test s then some 0 else next_index o)
        (find_slot-change test other change states keeps))
]

find_slot-clear_awaiting_ack :
    (c : Sequences) (node_id source category message_type : ℕ)
    → find_slot (serves node_id) (clear_awaiting_ack c source category message_type).server_states
      ≡ find_slot (serves node_id) c.server_states
unfolding clear_awaiting_ack
find_slot-clear_awaiting_ack c node_id source category message_type =
    find_slot-change (serves node_id) _ _ c.server_states (λ s. refl)

ack_bytes :
    (max_size category message_type expected : ℕ)
    → 4 ≤ max_size
    → (ack_payload max_size category message_type sequence_error expected).message
      ≡ category ∷ message_type ∷ 4 ∷ expected ∷ []
unfolding ack_payload write_uint8 reserve
ack_bytes max_size category message_type expected room = ground arith

refusal_lem :
    (c : Sequences) (node_id category message_type expected : ℕ)
    → node_id ≢ 0
    → handle_command_ack_frame c node_id can_system_category_id can_command_ack_message_type_id
        (category ∷ message_type ∷ 4 ∷ expected ∷ [])
      ≡ resync_sequence (clear_awaiting_ack c node_id category message_type) node_id expected
unfolding handle_command_ack_frame
refusal_lem c node_id category message_type expected nonzero = ground arith

-- The client's part: it reads the expected number out of the acknowledgement.
acknowledged_number :
    (q : Sequence) (c : Sequences)
    (max_size node_id index category message_type category' message_type' deadline : ℕ)
    → 4 ≤ max_size
    → node_id ≢ 0
    → find_slot (serves node_id) c.server_states ≡ some index
    → let refusal =
        (ack_payload max_size category message_type sequence_error (expected_sequence q)).message in
      let c' =
        handle_command_ack_frame c node_id can_system_category_id can_command_ack_message_type_id
          refusal in
      is_expected_sequence q (reserve_sequence c' node_id category' message_type' deadline).1 ≡ true
unfolding is_expected_sequence
acknowledged_number q c max_size node_id index category message_type category' message_type'
      deadline room nonzero found =
    let cleared = clear_awaiting_ack c node_id category message_type in
    let told =
      ap
        (λ (bytes : Message).
          (reserve_sequence
            (handle_command_ack_frame c node_id can_system_category_id
              can_command_ack_message_type_id bytes)
            node_id category' message_type' deadline).1)
        (ack_bytes max_size category message_type (expected_sequence q) room)
      ∙ ap (λ (c : Sequences). (reserve_sequence c node_id category' message_type' deadline).1)
          (refusal_lem c node_id category message_type (expected_sequence q) nonzero)
      ∙ reserve_sequence-resync_sequence cleared node_id index (expected_sequence q) category'
          message_type' deadline
          (find_slot-clear_awaiting_ack c node_id node_id category message_type ∙ found) in
    rw told (ground (arith, ==_refl (expected_sequence q)))

submit_at :
    {Ident Done : Type 0} (t : Transport Ident Done) (c : Option (PendingFrame Ident Done))
    (f : PendingFrame Ident Done)
    → c ≡ none
    → (submit (record t { current = c }) f).1 ≡ transmit f ++ notify_send t
unfolding submit
submit_at t none f idle = refl
submit_at t (some busy) f idle = absurd cc

absorb_transmit :
    {Ident App State : Type 0} (s : Server Ident App State) (id : Ident) (content : Message)
    (told : Bool)
    → (absorb s (
        FrameTransport.Event.send_data id content
        ∷ (if told then FrameTransport.Event.notified ∷ [] else []))).1
      ≡ send_data id content ∷ []
unfolding absorb
absorb_transmit s id content true = refl
absorb_transmit s id content false = refl

module _ (hal : CanIds) {App : Type 0} where
  -- The client `c` has been sent one frame, a command acknowledgement of the server `node_id`, and
  -- its next number for that server is the one that the server expects.
  pub record Corrected (node_id : ℕ) (q : Sequence) (out : List (Event (hal.Ident) App))
      (c : Sequences) (category message_type deadline : ℕ) : Type 0 where
    pub id : hal.Ident
    pub content : Message
    pub sent : out ≡ send_data id content ∷ []
    pub in_step :
        (let raw_id = hal.get_29_bit_id id in
          let c' =
            handle_command_ack_frame c
              (extract_can_node_id raw_id)
              (extract_can_category raw_id)
              (extract_can_message_type raw_id)
              content in
          is_expected_sequence q (reserve_sequence c' node_id category message_type deadline).1
          ≡ true)

module _ (hal : CanIds) (max_size : ℕ) {App State : Type 0} where
  -- A transport with no frame on its way sends at once.
  send_idle :
      (s : Server (hal.Ident) App State) (priority : CanPriority) (category message_type : ℕ)
      (content : Message) (closure : Closure App)
      → s.transport.current ≡ none
      → (send hal max_size s priority category message_type content closure).1
        ≡ send_data
            (hal.create_29_bit_id (make_can_id priority category message_type s.transport.node_id))
            content
          ∷ []
  unfolding send send_frame send_frame_to send_raw_frame pending_frame
  send_idle s priority category message_type content closure idle =
      let (t, events, taken) =
        send_frame hal s.transport priority category message_type content closure in
      let id =
        hal.create_29_bit_id (make_can_id priority category message_type s.transport.node_id) in
      ap
        (λ (sent : List (FrameTransport.Event (hal.Ident) (Closure App))).
          (absorb (record s { transport = t }) sent).1)
        (submit_at s.transport s.transport.current _ idle)
      ∙ absorb_transmit (record s { transport = t }) id content s.transport.has_notification

  -- The server's part: what it keeps and sends.
  unexpected_refused :
      (s : Server (hal.Ident) App State) (raw_id byte : ℕ) (payload : Message) (category : Category)
      → is_command_message_type (extract_can_message_type raw_id) ≡ true
      → find_category (extract_can_category raw_id) s.categories ≡ some category
      → category.requires_sequence_validation ≡ true
      → is_emergency raw_id ≡ false
      → is_expected_sequence s.sequence byte ≡ false
      → admit_command hal max_size s raw_id (byte ∷ payload) ≡ (
          let (s', out) =
            reject_command hal max_size s raw_id sequence_error (expected_sequence s.sequence) in
          (s', out, none))
  unfolding admit_command admit_found admit_sequenced
  unexpected_refused s raw_id byte payload category is_command found sequenced ordinary unexpected =
      ground arith

  reject-Corrected :
      (s : Server (hal.Ident) App State) (raw_id : ℕ) (c : Sequences)
      (index category message_type deadline : ℕ)
      → 4 ≤ max_size
      → s.transport.current ≡ none
      → s.transport.node_id < 4096
      → s.transport.node_id ≢ 0
      → find_slot (serves s.transport.node_id) c.server_states ≡ some index
      → let (s', out) =
          reject_command hal max_size s raw_id sequence_error (expected_sequence s.sequence) in
        Corrected hal (s.transport.node_id) s'.sequence out c category message_type deadline
  unfolding reject_command send_command_ack
  reject-Corrected s raw_id c index category message_type deadline room idle small nonzero found =
      let refused = extract_can_category raw_id in
      let refused_type = extract_can_message_type raw_id in
      let node_id = s.transport.node_id in
      let own =
        make_can_id response can_system_category_id can_command_ack_message_type_id node_id in
      let refusal =
        (ack_payload max_size refused refused_type sequence_error
          (expected_sequence s.sequence)).message in
      let (below, priority, category_of, type_of, node_of) =
        extract-make_can_id response can_system_category_id can_command_ack_message_type_id node_id
          (omega arith) in
      let source : extract_can_node_id own ≡ node_id = omega (arith, node_of, small) in
      let told =
        acknowledged_number s.sequence c max_size node_id index refused refused_type category
          message_type deadline room nonzero found in
      record {
        id = hal.create_29_bit_id own;
        content = refusal;
        sent =
            send_idle (count_invalid hal max_size s) response can_system_category_id
              can_command_ack_message_type_id refusal ignored idle;
        in_step =
            rw
              (
                ap Core.sequence (
                    core-send_command_ack hal max_size (count_invalid hal max_size s) refused
                      refused_type sequence_error (expected_sequence s.sequence)),
                hal.created_get own,
                category_of,
                type_of,
                source,
              )
              told;
      }

  -- A server with no frame on its way gets a command, not an emergency, of a category that requires
  -- sequence numbers, with a number that it does not expect. It sends one frame, and a client with a
  -- slot for the server that receives this frame next uses for it a number that the server expects,
  -- whatever number it would have used before. (The server's node id is not 0 and has 12 bits; a
  -- message holds 4 bytes at least.)
  pub refusal_resynchronises :
      (handlers : Handlers State) (s : Server (hal.Ident) App State) (raw_id byte : ℕ)
      (payload : Message) (refused : Category) (c : Sequences)
      (index category message_type deadline : ℕ)
      → is_command_message_type (extract_can_message_type raw_id) ≡ true
      → find_category (extract_can_category raw_id) s.categories ≡ some refused
      → refused.requires_sequence_validation ≡ true
      → is_emergency raw_id ≡ false
      → is_expected_sequence s.sequence byte ≡ false
      → 4 ≤ max_size
      → s.transport.current ≡ none
      → s.transport.node_id < 4096
      → s.transport.node_id ≢ 0
      → find_slot (serves s.transport.node_id) c.server_states ≡ some index
      → let (s', out) =
          execute hal max_size (handle_message hal max_size handlers) s raw_id (byte ∷ payload) in
        Corrected hal (s.transport.node_id) s'.sequence out c category message_type deadline
  unfolding execute execute_admitted
  refusal_resynchronises handlers s raw_id byte payload refused c index category message_type
        deadline is_command registered sequenced ordinary unexpected room idle small nonzero found =
      rw
        (unexpected_refused s raw_id byte payload refused is_command registered sequenced ordinary
          unexpected)
        (reject-Corrected s raw_id c index category message_type deadline room idle small nonzero
          found)
