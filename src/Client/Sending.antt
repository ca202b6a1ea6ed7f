-- ===== src/Client/Sending.antt =====
-- can-lite/core/CanCategory.cpp, the client's half: a category of the client sends commands through
-- the frame transport, and CanProtocolClient is the source of their sequence numbers.
use can_lite.Base.{ℕ, Bool, true, false, List, [], ◌∷◌, if◌then◌else◌}
use can_lite.Codec.{Message}
use can_lite.Hal.{CanIds}
use can_lite.Protocol.{CanPriority}
use can_lite.Payload.{Writer, empty_writer, write_uint8, write_bytes}
use can_lite.FrameTransport
use can_lite.FrameTransport.{Transport, send_frame_to}
use can_lite.Client.{Sequences, reserve_sequence, cancel_reservation, return_sequence}

-- The completion handlers of a command's frame, and those of others.
pub data Closure (App : Type 0) : Type 0 where
  nothing : Closure App
  return_unsent : ℕ → ℕ → Closure App
  other : App → Closure App

pub data Event (Ident App : Type 0) : Type 0 where
  send_data : Ident → Message → Event Ident App
  done : App → Bool → Event Ident App
  notified : Event Ident App

pub record Node (Ident App : Type 0) : Type 0 where
  pub transport : Transport Ident (Closure App)
  pub sequences : Sequences

module _ {Ident App : Type 0} where
  -- What the transport calls: the handler of an unsent command returns its sequence number.
  unfoldable pub absorb :
      Node Ident App
      → List (FrameTransport.Event Ident (Closure App))
      → Node Ident App × List (Event Ident App)
  unfolding return_sequence
  absorb n [] = (n, [])
  absorb n (FrameTransport.Event.send_data id content ∷ events) =
      let (n', out) = absorb n events in (n', send_data id content ∷ out)
  absorb n (FrameTransport.Event.done nothing sent ∷ events) = absorb n events
  absorb n (FrameTransport.Event.done (return_unsent target_node_id sequence) true ∷ events) =
      absorb n events
  absorb n (FrameTransport.Event.done (return_unsent target_node_id sequence) false ∷ events) =
      absorb (record n { sequences = return_sequence n.sequences target_node_id sequence }) events
  absorb n (FrameTransport.Event.done (other closure) sent ∷ events) =
      let (n', out) = absorb n events in (n', done closure sent ∷ out)
  absorb n (FrameTransport.Event.notified ∷ events) =
      let (n', out) = absorb n events in (n', notified ∷ out)

  -- The end of `SendCommand`: a command that is not taken gives its reservation back.
  unfoldable pub conclude_command :
      Node Ident App × List (Event Ident App) × Bool
      → Node Ident App × List (Event Ident App) × Bool
  unfolding cancel_reservation
  conclude_command (n, out, true) = (n, out, true)
  conclude_command (n, out, false) =
      (record n { sequences = cancel_reservation n.sequences }, out, false)

-- The sequence number, then the payload.
unfoldable pub command_data : ℕ → ℕ → Message → Writer
command_data max_size sequence payload =
    write_bytes max_size (write_uint8 max_size empty_writer sequence) payload

module _ (hal : CanIds) (max_size : ℕ) {App : Type 0} where
  unfoldable pub send :
      Node (hal.Ident) App
      → ℕ
      → CanPriority
      → ℕ
      → ℕ
      → Message
      → Closure App
      → Node (hal.Ident) App × List (Event (hal.Ident) App) × Bool
  send n target_node_id priority category message_type content on_done =
      let (t, events, taken) =
        send_frame_to hal n.transport target_node_id priority category message_type content
          on_done in
      let (n', out) = absorb (record n { transport = t }) events in (n', out, taken)

  unfoldable pub send_command :
      Node (hal.Ident) App
      → ℕ
      → ℕ
      → ℕ
      → Message
      → CanPriority
      → ℕ
      → Node (hal.Ident) App × List (Event (hal.Ident) App) × Bool
  unfolding conclude_command send command_data
  send_command n target_node_id category message_type payload priority deadline =
      let (sequences, sequence) =
        reserve_sequence n.sequences target_node_id category message_type deadline in
      let reserved = record n { sequences = sequences } in
      let command = command_data max_size sequence payload in
      let sent =
        send reserved target_node_id priority category message_type command.message
          (return_unsent target_node_id sequence) in
      conclude_command (if command.valid then sent else (reserved, [], false))

  unfoldable pub send_command_without_sequence :
      Node (hal.Ident) App
      → ℕ
      → ℕ
      → ℕ
      → Writer
      → CanPriority
      → Node (hal.Ident) App × List (Event (hal.Ident) App) × Bool
  unfolding send
  send_command_without_sequence n target_node_id category message_type payload priority =
      let sent = send n target_node_id priority category message_type payload.message nothing in
      if payload.valid then sent else (n, [], false)

  -- A command whose payload is written by a `CanPayloadWriter`.
  unfoldable pub send_command_payload :
      Node (hal.Ident) App
      → ℕ
      → ℕ
      → ℕ
      → Writer
      → CanPriority
      → ℕ
      → Node (hal.Ident) App × List (Event (hal.Ident) App) × Bool
  unfolding send_command
  send_command_payload n target_node_id category message_type payload priority deadline =
      let sent =
        send_command n target_node_id category message_type payload.message priority deadline in
      if payload.valid then sent else (n, [], false)

  -- The driver reports the end of the frame in flight.
  unfoldable pub on_send_complete :
      Node (hal.Ident) App → Bool → Node (hal.Ident) App × List (Event (hal.Ident) App)
  on_send_complete n success =
      let (t, events) = FrameTransport.on_send_complete n.transport success in
      absorb (record n { transport = t }) events
