-- ===== src/Client/Liveness/Observed.antt =====
-- What an observer is told about the servers, and who is online.
use can_lite.Base.{
  ℕ, zero, suc, ◌+◌, ◌<◌, ◌≡◌, refl, ap, ◌∙◌, Bool, true, false, not, Option, none, some, List, [],
  ◌∷◌, ◌==◌, if◌then◌else◌, length, length-set, get_or, set, Bool-cases, inl, inr, arith,
}
use can_lite.Client.{max_servers, Event, server_online, server_offline, command_ack_timeout}
use can_lite.Client.Reservations.{some_inner}
use can_lite.Client.Liveness.{
  ServerLiveness, Servers, no_entry, is_entry_of, behind, change_first, started, evict_server,
  choose_entry, mark_server_alive, silence, handle_server_timeout,
}

abbrev one : ℕ → ServerLiveness → ℕ
one node_id entry = if is_entry_of node_id entry then 1 else 0

-- How many entries a node has.
unfoldable pub entries_of : ℕ → List ServerLiveness → ℕ
entries_of node_id [] = 0
entries_of node_id (entry ∷ entries) = entries_of node_id entries + one node_id entry

-- How often an observer is told that a node came online, and that it went offline.
unfoldable pub told_online : ℕ → List Event → ℕ
told_online node_id [] = 0
told_online node_id (server_online other ∷ events) =
    told_online node_id events + (if other == node_id then 1 else 0)
told_online node_id (server_offline other ∷ events) = told_online node_id events
told_online node_id (command_ack_timeout other category message_type ∷ events) =
    told_online node_id events

unfoldable pub told_offline : ℕ → List Event → ℕ
told_offline node_id [] = 0
told_offline node_id (server_online other ∷ events) = told_offline node_id events
told_offline node_id (server_offline other ∷ events) =
    told_offline node_id events + (if other == node_id then 1 else 0)
told_offline node_id (command_ack_timeout other category message_type ∷ events) =
    told_offline node_id events

-- One entry that the test holds for was changed.
record Changed (node_id : ℕ) (test : ServerLiveness → Bool)
    (change : ServerLiveness → ServerLiveness) (entries changed : List ServerLiveness)
    : Type 0 where
  entry : ServerLiveness
  holds : test entry ≡ true
  counted :
      entries_of node_id changed + one node_id entry
      ≡ entries_of node_id entries + one node_id (change entry)
  same_length : length changed ≡ length entries

behind-some :
    (entry : ServerLiveness) (o : Option (List ServerLiveness)) (changed : List ServerLiveness)
    → behind entry o ≡ some changed
    → (entries : List ServerLiveness) × (o ≡ some entries) × (entry ∷ entries ≡ changed)
behind-some entry none changed e = absurd cc
behind-some entry (some entries) changed e = (entries, refl, some_inner e)

change_first-Changed :
    (node_id : ℕ) (test : ServerLiveness → Bool) (change : ServerLiveness → ServerLiveness)
    (entries changed : List ServerLiveness)
    → change_first test change entries ≡ some changed
    → Changed node_id test change entries changed
unfolding change_first entries_of
change_first-Changed node_id test change [] changed e = absurd cc
change_first-Changed node_id test change (entry ∷ entries) changed e =
    elim (Bool-cases (test entry)) [
      | inl first ↦
          let same : change entry ∷ entries ≡ changed = some_inner (ground arith) in
          rw⁻¹ same
            (record { entry = entry; holds = first; counted = omega arith; same_length = refl })
      | inr fails ↦
          let (rest, found, same) =
            behind-some entry (change_first test change entries) changed (ground arith) in
          let c = change_first-Changed node_id test change entries rest found in
          rw⁻¹ same (record {
            entry = c.entry;
            holds = c.holds;
            counted = omega (arith, c.counted);
            same_length = ap suc c.same_length;
          })
    ]

behind-none :
    (entry : ServerLiveness) (o : Option (List ServerLiveness)) → behind entry o ≡ none → o ≡ none
behind-none entry none e = refl
behind-none entry (some entries) e = absurd cc

not_changed :
    (test : ServerLiveness → Bool) (change : ServerLiveness → ServerLiveness)
    (entries : List ServerLiveness) (index : ℕ)
    → change_first test change entries ≡ none
    → index < length entries
    → test (get_or entries index no_entry) ≡ false
unfolding change_first
not_changed test change [] index e short = absurd (omega arith)
not_changed test change (entry ∷ entries) zero e short = elim (Bool-cases (test entry)) [
  | inl first ↦ let bad : some (change entry ∷ entries) ≡ none = ground arith in absurd cc
  | inr fails ↦ fails
]
not_changed test change (entry ∷ entries) (suc index) e short = elim (Bool-cases (test entry)) [
  | inl first ↦ let bad : some (change entry ∷ entries) ≡ none = ground arith in absurd cc
  | inr fails ↦
      not_changed test change entries index (behind-none entry _ (ground arith)) (omega arith)
]

entries_of-set :
    (node_id : ℕ) (entries : List ServerLiveness) (index : ℕ) (entry : ServerLiveness)
    → index < length entries
    → entries_of node_id (set entries index entry) + one node_id (get_or entries index no_entry)
      ≡ entries_of node_id entries + one node_id entry
unfolding entries_of
entries_of-set node_id [] index entry short = absurd (omega arith)
entries_of-set node_id (first ∷ entries) zero entry short = omega arith
entries_of-set node_id (first ∷ entries) (suc index) entry short =
    omega (arith, entries_of-set node_id entries index entry (omega arith))

-- There are eight entries, and the one to evict next is one of them.
pub record EntriesValid (c : Servers) : Type 0 where
  pub eight : length c.server_liveness ≡ max_servers
  pub evictable : c.next_liveness_evict_index < max_servers

-- What happened to a node and what was told of it agree.
pub record Told (node_id : ℕ) (c c' : Servers) (events : List Event) : Type 0 where
  pub valid : EntriesValid c'
  pub agrees :
      told_offline node_id events + entries_of node_id c'.server_liveness
      ≡ told_online node_id events + entries_of node_id c.server_liveness

choose_entry-Told :
    (m : ℕ) (c : Servers) (node_id server_timeout : ℕ) (own free : Option (List ServerLiveness))
    → EntriesValid c
    → change_first (is_entry_of node_id) (λ entry. started node_id server_timeout) c.server_liveness
      ≡ own
    → change_first
        (λ entry. not entry.occupied)
        (λ entry. started node_id server_timeout)
        c.server_liveness
      ≡ free
    → Told m c
        (choose_entry c node_id server_timeout own free).0
        (choose_entry c node_id server_timeout own free).1
unfolding choose_entry evict_server told_online told_offline
choose_entry-Told m c node_id server_timeout (some entries) free v e e' =
    let changed = change_first-Changed m _ _ c.server_liveness entries e in
    record {
      valid = record { eight = changed.same_length ∙ v.eight; evictable = v.evictable };
      agrees = ground (arith, changed.counted, changed.holds);
    }
choose_entry-Told m c node_id server_timeout none (some entries) v e e' =
    let changed = change_first-Changed m _ _ c.server_liveness entries e' in
    record {
      valid = record { eight = changed.same_length ∙ v.eight; evictable = v.evictable };
      agrees = ground (arith, changed.counted, changed.holds);
    }
choose_entry-Told m c node_id server_timeout none none v e e' =
    let index = c.next_liveness_evict_index in
    let full =
      not_changed (λ entry. not entry.occupied) (λ entry. started node_id server_timeout)
        c.server_liveness index e' (omega (arith, v.eight, v.evictable)) in
    let counted =
      entries_of-set m c.server_liveness index (started node_id server_timeout)
        (omega (arith, v.eight, v.evictable)) in
    record {
      valid = record {
        eight = length-set c.server_liveness index (started node_id server_timeout) ∙ v.eight;
        evictable = ground arith;
      };
      agrees = ground (arith, full, counted);
    }

-- A frame from a server changes who is online exactly as the observers are told: for every node,
-- the number of its entries that are online grows by the times it was announced online and shrinks
-- by the times it was announced offline, the server that is evicted for a ninth one included. There are still eight
-- entries.
pub mark_server_alive-Told :
    (m : ℕ) (c : Servers) (node_id server_timeout : ℕ)
    → EntriesValid c
    → Told m c
        (mark_server_alive c node_id server_timeout).0
        (mark_server_alive c node_id server_timeout).1
unfolding mark_server_alive
mark_server_alive-Told m c node_id server_timeout v =
    choose_entry-Told m c node_id server_timeout _ _ v refl refl

silence-Told :
    (m : ℕ) (c : Servers) (node_id : ℕ) (own : Option (List ServerLiveness))
    → EntriesValid c
    → change_first
        (is_entry_of node_id)
        (λ entry. record entry { occupied = false; timeout_timer = none })
        c.server_liveness
      ≡ own
    → Told m c (silence c node_id own).0 (silence c node_id own).1
unfolding silence told_online told_offline
silence-Told m c node_id none v e = record { valid = v; agrees = refl }
silence-Told m c node_id (some entries) v e =
    let changed = change_first-Changed m _ _ c.server_liveness entries e in
    record {
      valid = record { eight = changed.same_length ∙ v.eight; evictable = v.evictable };
      agrees = ground (arith, changed.counted, changed.holds);
    }

-- When a server has been silent for too long, who is online changes exactly as the observers are
-- told: for every node, the number of its entries that are online shrinks by the times it is
-- announced offline and grows by the times it is announced online.
pub handle_server_timeout-Told :
    (m : ℕ) (c : Servers) (node_id : ℕ)
    → EntriesValid c
    → Told m c (handle_server_timeout c node_id).0 (handle_server_timeout c node_id).1
unfolding handle_server_timeout
handle_server_timeout-Told m c node_id v = silence-Told m c node_id _ v refl
