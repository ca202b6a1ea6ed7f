-- ===== src/Client/Dispatch/Discovery.antt =====
-- can-lite/client/CanProtocolClient.cpp: `DiscoverCategories` and what answers it, among
-- everything else that the client does meanwhile.
use can_lite.Base.{
  ℕ, ◌+◌, ◌≡◌, refl, sym, ◌∙◌, ap, inl, inr, Bool, true, false, Option, none, some, List, [], ◌∷◌,
  ◌++◌, ◌==◌, if◌then◌else◌, subst, Bool-cases, arith,
}
use can_lite.Base.Search.{count}
use can_lite.Codec.{Message}
use can_lite.Hal.{CanIds}
use can_lite.Payload.{empty_writer, write_uint8}
use can_lite.Protocol.{
  command, heartbeat, can_heartbeat_message_type_id, can_protocol_version, can_broadcast_node_id,
  can_category_list_request_message_type_id, can_system_category_id,
}
use can_lite.Client.Sending
use can_lite.Client.Sending.{send_command_without_sequence, send, nothing, on_send_complete}
use can_lite.Client.Dispatch.{
  Client, Handlers, DiscoveryState, Event, concluded, begin_discovery, unless_busy, absorb,
  reset_heartbeat_timer, process_received_message, discover_categories, handle_discovery_timeout,
  send_heartbeat, send_completed, handle_ack_timeout, handle_liveness_timeout,
}
use can_lite.Client.Dispatch.Accounts.{
  IsWhole, pending, is_some, is_call, calls, Accounted, quiet, then-Accounted, observed_silent,
  absorb_keeps, complete-Accounted, process_raw-Accounted, idle_pending,
}

-- What happens to a client that bears on a discovery, or may seem to.
pub data Input (Ident : Type 0) : Type 0 where
  discover : ℕ → ℕ → Input Ident
  received : Ident → Message → Input Ident
  discovery_timeout heartbeat_due : Input Ident
  completed : Bool → Input Ident
  ack_timeout liveness_timeout : ℕ → Input Ident

abbrev begun : Bool → ℕ
begun accepted = if accepted then 1 else 0

module _ (hal : CanIds) (max_size : ℕ) {App State : Type 0} (handlers : Handlers State) where
  -- The client after an input, its events, and how many discoveries the input began. A timer that
  -- does not run does not fire.
  unfoldable pub step :
      Client (hal.Ident) App State
      → Input (hal.Ident)
      → Client (hal.Ident) App State × List (Event (hal.Ident) App) × ℕ
  unfolding discover_categories process_received_message handle_discovery_timeout send_heartbeat
      send_completed handle_ack_timeout handle_liveness_timeout
  step c (discover node_id on_done) =
      let (c', out, accepted) = discover_categories hal max_size c node_id on_done in
      (c', out, begun accepted)
  step c (received id content) =
      let (c', out) = process_received_message hal max_size handlers c id content in (c', out, 0)
  step c discovery_timeout =
      let (c', out) = handle_discovery_timeout hal max_size c in
      if is_some c.discovery.timer then (c', out, 0) else (c, [], 0)
  step c heartbeat_due = let (c', out) = send_heartbeat hal max_size c in (c', out, 0)
  step c (completed success) = let (c', out) = send_completed hal max_size c success in (c', out, 0)
  step c (ack_timeout node_id) = let (c', out) = handle_ack_timeout c node_id in (c', out, 0)
  step c (liveness_timeout node_id) =
      let (c', out) = handle_liveness_timeout c node_id in (c', out, 0)

  unfoldable pub run :
      Client (hal.Ident) App State
      → List (Input (hal.Ident))
      → Client (hal.Ident) App State × List (Event (hal.Ident) App) × ℕ
  unfolding step
  run c [] = (c, [], 0)
  run c (input ∷ inputs) =
      let (c1, out, k) = step c input in
      let (c2, more, l) = run c1 inputs in (c2, out ++ more, k + l)

  absorb-Accounted :
      (c : Client (hal.Ident) App State) (events : List (Sending.Event (hal.Ident) App))
      → IsWhole c.discovery
      → let out = absorb c events in Accounted c.discovery out.0.discovery out.1 0
  absorb-Accounted c events whole =
      let (same, silent) = absorb_keeps c events in
      subst (λ d. Accounted c.discovery d (absorb c events).1 0) (sym same)
        (quiet c.discovery (absorb c events).1 whole silent)

  concluded-Accounted :
      (before : DiscoveryState) (c : Client (hal.Ident) App State)
      (out : List (Event (hal.Ident) App)) (taken : Bool)
      → IsWhole c.discovery
      → pending c.discovery ≡ 1
      → pending before ≡ 0
      → count is_call out ≡ 0
      → let end = concluded hal max_size c out taken in
        Accounted before end.0.discovery end.1 (begun end.2)
  concluded-Accounted before c out true whole one idle silent = record {
    whole = whole;
    set = omega (arith, silent, calls (hal.Ident) App out);
    balance = omega (arith, one, idle, silent, calls (hal.Ident) App out);
  }
  concluded-Accounted before c out false whole one idle silent = record {
    whole = record { handler = refl; timer = refl };
    set = omega (arith, silent, calls (hal.Ident) App out);
    balance = omega (arith, idle, silent, calls (hal.Ident) App out);
  }

  begin-Accounted :
      (c : Client (hal.Ident) App State) (node_id on_done : ℕ)
      → pending c.discovery ≡ 0
      → let out = begin_discovery hal max_size c node_id on_done in
        Accounted c.discovery out.0.discovery out.1 (begun out.2)
  unfolding begin_discovery
  begin-Accounted c node_id on_done idle =
      let started : DiscoveryState = record {
        node = some node_id;
        on_done = some on_done;
        timer = some (c.config.discovery_timeout);
      } in
      let (n, events, taken) =
        send_command_without_sequence hal max_size c.node node_id can_system_category_id
          can_category_list_request_message_type_id empty_writer command in
      let begins : Client (hal.Ident) App State = record c { discovery = started; node = n } in
      let (same, silent) = absorb_keeps begins events in
      let (c', out) = absorb begins events in
      concluded-Accounted c.discovery c' out taken
        (subst IsWhole (sym same) (record { handler = refl; timer = refl })) (ap pending same) idle
        silent

  unless_busy-Accounted :
      (c : Client (hal.Ident) App State) (busy : Option ℕ) (everyone : Bool)
      (outcome : Client (hal.Ident) App State × List (Event (hal.Ident) App) × Bool)
      → IsWhole c.discovery
      → (busy ≡ none → Accounted c.discovery outcome.0.discovery outcome.1 (begun outcome.2))
      → let out = unless_busy hal max_size busy everyone c outcome in
        Accounted c.discovery out.0.discovery out.1 (begun out.2)
  unfolding count
  unless_busy-Accounted c (some busy) everyone outcome whole begins =
      quiet c.discovery [] whole refl
  unless_busy-Accounted c none true outcome whole begins = quiet c.discovery [] whole refl
  unless_busy-Accounted c none false outcome whole begins = begins refl

  discover-Accounted :
      (c : Client (hal.Ident) App State) (node_id on_done : ℕ)
      → IsWhole c.discovery
      → let out = discover_categories hal max_size c node_id on_done in
        Accounted c.discovery out.0.discovery out.1 (begun out.2)
  unfolding discover_categories
  discover-Accounted c node_id on_done whole =
      unless_busy-Accounted c c.discovery.node (node_id == can_broadcast_node_id)
        (begin_discovery hal max_size c node_id on_done) whole
        (λ idle. begin-Accounted c node_id on_done (idle_pending c.discovery whole idle))

  step-Accounted :
      (c : Client (hal.Ident) App State) (input : Input (hal.Ident))
      → IsWhole c.discovery
      → let out = step c input in Accounted c.discovery out.0.discovery out.1 out.2
  unfolding step process_received_message handle_discovery_timeout send_heartbeat send_completed
      handle_ack_timeout handle_liveness_timeout reset_heartbeat_timer count
  step-Accounted c (discover node_id on_done) whole = discover-Accounted c node_id on_done whole
  step-Accounted c (received id content) whole = elim (Bool-cases (hal.is_29_bit_id id)) [
    | inl extended ↦
        rw extended (process_raw-Accounted handlers c (hal.get_29_bit_id id) content whole)
    | inr standard ↦ rw standard (quiet c.discovery [] whole refl)
  ]
  step-Accounted c discovery_timeout whole = elim (Bool-cases (is_some c.discovery.timer)) [
    | inl running ↦
        rw running (complete-Accounted c none (whole.handler ∙ sym whole.timer ∙ running))
    | inr stopped ↦ rw stopped (quiet c.discovery [] whole refl)
  ]
  step-Accounted c heartbeat_due whole =
      let payload = write_uint8 max_size empty_writer can_protocol_version in
      let (n, events, taken) =
        send hal max_size c.node can_broadcast_node_id heartbeat can_system_category_id
          can_heartbeat_message_type_id payload.message nothing in
      absorb-Accounted (record c { node = n }) events whole
  step-Accounted c (completed success) whole =
      let (n, events) = on_send_complete hal max_size c.node success in
      absorb-Accounted (record c { node = n }) events whole
  step-Accounted c (ack_timeout node_id) whole =
      quiet c.discovery _ whole (observed_silent (hal.Ident) App _)
  step-Accounted c (liveness_timeout node_id) whole =
      quiet c.discovery _ whole (observed_silent (hal.Ident) App _)

  -- Over any run of a client whose discovery is whole, in which the discovery's timer fires only
  -- while it runs: the discovery stays whole (node, handler and timer are set and cleared together),
  -- no discovery's handler is called while it is not set, and the discoveries reported, and one if
  -- one is pending at the end, are as many as the discoveries begun, and one if one was pending
  -- before.
  pub run-Accounted :
      (c : Client (hal.Ident) App State) (inputs : List (Input (hal.Ident)))
      → IsWhole c.discovery
      → let out = run c inputs in Accounted c.discovery out.0.discovery out.1 out.2
  unfolding run count
  run-Accounted c [] whole = quiet c.discovery [] whole refl
  run-Accounted c (input ∷ inputs) whole =
      let first = step-Accounted c input whole in
      let (c1, out, k) = step c input in
      then-Accounted c.discovery c1.discovery _ out _ k _ first
        (run-Accounted c1 inputs first.whole)
