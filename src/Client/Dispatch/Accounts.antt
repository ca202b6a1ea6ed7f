-- ===== src/Client/Dispatch/Accounts.antt =====
-- can-lite/client/CanProtocolClient.cpp: what each part of the client does to a discovery and reports of
-- it.
use can_lite.Base.{
  ℕ, ◌+◌, ◌≡◌, refl, sym, ◌∙◌, inl, inr, Bool, true, false, not, ◌||◌, Option, none, some, List, [],
  ◌∷◌, ◌++◌, ◌==◌, if◌then◌else◌, map, subst, Bool-cases, arith,
}
use can_lite.Base.Search.{count, count-append}
use can_lite.Codec.{Message}
use can_lite.Protocol.{
  can_system_category_id, can_category_list_response_message_type_id, extract_can_node_id,
  extract_can_category, extract_can_message_type,
}
use can_lite.Client as Tracking
use can_lite.Client.Sending
use can_lite.Client.Sending.{send_command_without_sequence, send, nothing, on_send_complete}
use can_lite.Client.Dispatch.{
  Client, Category, Handlers, DiscoveryState, no_discovery, Event, observed, discovered,
  unset_called, is_discovered, report, find_handler, handled_by, system_category, absorb,
  reset_heartbeat_timer, complete_discovery, handle_category_list_frame, note_alive, note_source,
  dispatch, dispatch_pdu, dispatch_pdus, process_raw,
}

abbrev pub is_some : Option ℕ → Bool
is_some none = false
is_some (some x) = true

-- The node, the handler and the timer of a discovery are set and cleared together.
pub record IsWhole (d : DiscoveryState) : Type 0 where
  pub handler : is_some d.on_done ≡ is_some d.node
  pub timer : is_some d.timer ≡ is_some d.node

abbrev pub pending : DiscoveryState → ℕ
pending d = if is_some d.on_done then 1 else 0

abbrev pub is_report : {Ident App : Type 0} → Event Ident App → Bool
is_report (discovered on_done category_ids) = true
is_report _ = false

abbrev pub is_unset : {Ident App : Type 0} → Event Ident App → Bool
is_unset unset_called = true
is_unset _ = false

abbrev pub is_call : {Ident App : Type 0} → Event Ident App → Bool
is_call e = is_report e || is_unset e

-- A step that begins `begun` discoveries.
pub record Accounted {Ident App : Type 0} (before after : DiscoveryState)
    (out : List (Event Ident App)) (begun : ℕ) : Type 0 where
  pub whole : IsWhole after
  pub set : count is_unset out ≡ 0
  pub balance : count is_report out + pending after ≡ pending before + begun

pub calls :
    (Ident App : Type 0) (out : List (Event Ident App))
    → count is_report out + count is_unset out ≡ count is_call out
unfolding count
calls Ident App [] = refl
calls Ident App (discovered on_done category_ids ∷ out) = omega (arith, calls Ident App out)
calls Ident App (unset_called ∷ out) = omega (arith, calls Ident App out)
calls Ident App (Event.send_data id content ∷ out) = omega (arith, calls Ident App out)
calls Ident App (Event.done closure sent ∷ out) = omega (arith, calls Ident App out)
calls Ident App (observed event ∷ out) = omega (arith, calls Ident App out)

module _ {Ident App : Type 0} where
  pub quiet :
      (before : DiscoveryState) (out : List (Event Ident App))
      → IsWhole before
      → count is_call out ≡ 0
      → Accounted before before out 0
  quiet before out whole silent = record {
    whole = whole;
    set = omega (arith, silent, calls Ident App out);
    balance = omega (arith, silent, calls Ident App out);
  }

  pub then-Accounted :
      (d1 d2 d3 : DiscoveryState) (out more : List (Event Ident App)) (k l : ℕ)
      → Accounted d1 d2 out k
      → Accounted d2 d3 more l
      → Accounted d1 d3 (out ++ more) (k + l)
  then-Accounted d1 d2 d3 out more k l first next = record {
    whole = next.whole;
    set = omega (arith, first.set, next.set, count-append is_unset out more);
    balance = omega (arith, first.balance, next.balance, count-append is_report out more);
  }

  reported-Accounted :
      (before : DiscoveryState) (on_done : Option ℕ) (category_ids : Option Message)
      → is_some on_done ≡ true
      → before.on_done ≡ on_done
      → Accounted before no_discovery (report {Ident = Ident} {App = App} on_done category_ids) 0
  unfolding count
  reported-Accounted before none category_ids is_set same = absurd cc
  reported-Accounted before (some on_done) category_ids is_set same = record {
    whole = record { handler = refl; timer = refl };
    set = refl;
    balance = rw same refl;
  }

pub observed_silent :
    (Ident App : Type 0) (told : List Tracking.Event)
    → count (is_call {Ident = Ident} {App = App}) (map observed told) ≡ 0
unfolding count
observed_silent Ident App [] = refl
observed_silent Ident App (event ∷ told) = omega (arith, observed_silent Ident App told)

is_some-is_discovered :
    (source : ℕ) (node : Option ℕ) → is_discovered source node ≡ true → is_some node ≡ true
is_some-is_discovered source none awaited = awaited
is_some-is_discovered source (some node_id) awaited = refl

module _ {Ident App State : Type 0} where
  pub absorb_keeps :
      (c : Client Ident App State) (events : List (Sending.Event Ident App))
      → ((absorb c events).0.discovery ≡ c.discovery) × (count is_call (absorb c events).1 ≡ 0)
  unfolding absorb reset_heartbeat_timer count
  absorb_keeps c [] = (refl, refl)
  absorb_keeps c (Sending.Event.send_data id content ∷ events) =
      let (same, silent) = absorb_keeps c events in (same, omega (arith, silent))
  absorb_keeps c (Sending.Event.done closure sent ∷ events) =
      let (same, silent) = absorb_keeps c events in (same, omega (arith, silent))
  absorb_keeps c (Sending.Event.notified ∷ events) = absorb_keeps (reset_heartbeat_timer c) events

  pub complete-Accounted :
      (c : Client Ident App State) (category_ids : Option Message)
      → is_some c.discovery.on_done ≡ true
      → let out = complete_discovery c category_ids in Accounted c.discovery out.0.discovery out.1 0
  unfolding complete_discovery
  complete-Accounted c category_ids is_set =
      reported-Accounted c.discovery c.discovery.on_done category_ids is_set refl

  list_frame-Accounted :
      (c : Client Ident App State) (source category_id message_type : ℕ) (payload : Message)
      → IsWhole c.discovery
      → let out = handle_category_list_frame c source category_id message_type payload in
        Accounted c.discovery out.0.discovery out.1 0
  unfolding handle_category_list_frame count
  list_frame-Accounted c source category_id message_type payload whole =
      elim (Bool-cases (
        not (category_id == can_system_category_id)
        || not (message_type == can_category_list_response_message_type_id))) [
          | inl foreign ↦ rw foreign (quiet c.discovery [] whole refl)
          | inr listed ↦ elim (Bool-cases (is_discovered source c.discovery.node)) [
            | inl awaited ↦
                rw (listed, awaited)
                  (complete-Accounted c (some payload)
                    (whole.handler ∙ is_some-is_discovered source c.discovery.node awaited))
            | inr other ↦ rw (listed, other) (quiet c.discovery [] whole refl)
          ]
        ]

  note_alive_keeps :
      (c : Client Ident App State) (source : ℕ)
      → ((note_alive c source).0.discovery ≡ c.discovery)
        × (count is_call (note_alive c source).1 ≡ 0)
  unfolding note_alive count
  note_alive_keeps c source = elim (Bool-cases (source == 0)) [
    | inl unknown ↦ rw unknown (refl, refl)
    | inr node ↦ rw node (refl, observed_silent Ident App _)
  ]

  note_source-Accounted :
      (c : Client Ident App State) (source category_id message_type : ℕ) (payload : Message)
      → IsWhole c.discovery
      → let out = note_source c source category_id message_type payload in
        Accounted c.discovery out.0.discovery out.1 0
  unfolding note_source
  note_source-Accounted c source category_id message_type payload whole =
      let (same, silent) = note_alive_keeps c source in
      let (alive, told) = note_alive c source in
      then-Accounted c.discovery alive.discovery _ told _ 0 0
        (subst (λ d. Accounted c.discovery d told 0) (sym same)
          (quiet c.discovery told whole silent))
        (list_frame-Accounted _ source category_id message_type payload
          (subst IsWhole (sym same) whole))

  handled_by_keeps :
      (handle : ℕ → ℕ → State → Message → State) (c : Client Ident App State) (message_type : ℕ)
      (payload : Message) (found : Option Category)
      → (handled_by handle c message_type payload found).discovery ≡ c.discovery
  handled_by_keeps handle c message_type payload none = refl
  handled_by_keeps handle c message_type payload (some category) =
      elim (Bool-cases (category.key == system_category.key)) [
        | inl own ↦ rw own
        | inr other ↦ rw other
      ]

  dispatch-Accounted :
      (handle : ℕ → ℕ → State → Message → State) (c : Client Ident App State) (raw_id : ℕ)
      (payload : Message)
      → IsWhole c.discovery
      → let out = dispatch handle c raw_id payload in Accounted c.discovery out.0.discovery out.1 0
  unfolding dispatch
  dispatch-Accounted handle c raw_id payload whole =
      let category_id = extract_can_category raw_id in
      let message_type = extract_can_message_type raw_id in
      let (noted, told) =
        note_source c (extract_can_node_id raw_id) category_id message_type payload in
      subst (λ d. Accounted c.discovery d told 0)
        (sym (
          handled_by_keeps handle noted message_type payload
            (find_handler category_id noted.categories)))
        (note_source-Accounted c (extract_can_node_id raw_id) category_id message_type payload
          whole)

  dispatch_pdus-Accounted :
      (handlers : Handlers State) (c : Client Ident App State) (pdus : List (ℕ × Message))
      → IsWhole c.discovery
      → let out = dispatch_pdus handlers c pdus in Accounted c.discovery out.0.discovery out.1 0
  unfolding dispatch_pdus dispatch_pdu count
  dispatch_pdus-Accounted handlers c [] whole = quiet c.discovery [] whole refl
  dispatch_pdus-Accounted handlers c ((raw_id, pdu) ∷ pdus) whole =
      let first = dispatch-Accounted handlers.handle_pdu c raw_id pdu whole in
      let (c1, out) = dispatch_pdu handlers c raw_id pdu in
      then-Accounted c.discovery c1.discovery _ out _ 0 0 first
        (dispatch_pdus-Accounted handlers c1 pdus first.whole)

  either-Accounted :
      (before : DiscoveryState) (b : Bool) (x y : Client Ident App State × List (Event Ident App))
      → Accounted before x.0.discovery x.1 0
      → Accounted before y.0.discovery y.1 0
      → let out = if b then x else y in Accounted before out.0.discovery out.1 0
  either-Accounted before true x y left right = left
  either-Accounted before false x y left right = right

  pub process_raw-Accounted :
      (handlers : Handlers State) (c : Client Ident App State) (raw_id : ℕ) (content : Message)
      → IsWhole c.discovery
      → let out = process_raw handlers c raw_id content in
        Accounted c.discovery out.0.discovery out.1 0
  unfolding process_raw
  process_raw-Accounted handlers c raw_id content whole =
      let (app, pdus, consumed) = handlers.process_frame c.app raw_id content in
      let first = dispatch_pdus-Accounted handlers (record c { app = app }) pdus whole in
      let (c1, out) = dispatch_pdus handlers (record c { app = app }) pdus in
      let (c2, more) = dispatch handlers.handle c1 raw_id content in
      either-Accounted c.discovery (not c.iso_tp_attached)
        (dispatch handlers.handle c raw_id content)
        (if consumed then (c1, out) else (c2, out ++ more))
        (dispatch-Accounted handlers.handle c raw_id content whole)
        (either-Accounted c.discovery consumed (c1, out) (c2, out ++ more) first
          (then-Accounted c.discovery c1.discovery c2.discovery out more 0 0 first
            (dispatch-Accounted handlers.handle c1 raw_id content first.whole)))

pub idle_pending : (d : DiscoveryState) → IsWhole d → d.node ≡ none → pending d ≡ 0
idle_pending d whole idle = rw (whole.handler, idle)
