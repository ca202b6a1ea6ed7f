-- ===== src/Client/Counting.antt =====
-- The numbers that successive commands to one server carry, also after a refusal.
use can_lite.Base.{
  ℕ, zero, suc, ◌+◌, ◌<◌, ◌≡◌, ◌≢◌, refl, sym, ap, ◌∙◌, Bool, true, not, Option, none, some, List,
  [], ◌∷◌, length, get_or, set, Bool-cases, ◌⊎◌, inl, inr, arith,
}
use can_lite.Base.Bits.{u8}
use can_lite.Client.{
  max_servers, PerServerState, empty_state, Sequences, serves, find_slot, next_index, slot,
  update_slot, choose_slot, claim_sequence_slot, opened, reserve_sequence, resync_sequence,
}
use can_lite.Client.Reservations.{next_index-suc, some_inner, suc_not_zero, find_slot-set}

next_index_not_zero : (o : Option ℕ) → next_index o ≢ some 0
next_index_not_zero none e = cc
next_index_not_zero (some i) e = suc_not_zero (sym (some_inner e))

-- What the first slot that a test holds for is like, and changing it.
found_slot :
    (test : PerServerState → Bool) (states : List PerServerState) (index : ℕ)
    → find_slot test states ≡ some index
    → (index < length states) × (test (slot index states) ≡ true)
unfolding find_slot
found_slot test [] index e = absurd cc
found_slot test (s ∷ states) zero e = elim (Bool-cases (test s)) [
  | inl first ↦ (omega arith, first)
  | inr fails ↦ absurd (next_index_not_zero (find_slot test states) (ground arith))
]
found_slot test (s ∷ states) (suc index) e = elim (Bool-cases (test s)) [
  | inl first ↦
      let same : some zero ≡ some (suc index) = ground arith in
      absurd (suc_not_zero (some_inner same))
  | inr fails ↦
      let (short, holds) = found_slot test states index (next_index-suc _ index (ground arith)) in
      (omega arith, holds)
]

slot-update_slot :
    (test : PerServerState → Bool) (change : PerServerState → PerServerState)
    (states : List PerServerState) (index : ℕ)
    → find_slot test states ≡ some index
    → slot index (update_slot test change states) ≡ change (slot index states)
unfolding find_slot update_slot
slot-update_slot test change [] index e = absurd cc
slot-update_slot test change (s ∷ states) zero e = elim (Bool-cases (test s)) [
  | inl first ↦ rw first refl
  | inr fails ↦ absurd (next_index_not_zero (find_slot test states) (ground arith))
]
slot-update_slot test change (s ∷ states) (suc index) e = elim (Bool-cases (test s)) [
  | inl first ↦
      let same : some zero ≡ some (suc index) = ground arith in
      absurd (suc_not_zero (some_inner same))
  | inr fails ↦
      rw fails (slot-update_slot test change states index (next_index-suc _ index (ground arith)))
]

find_slot-update_slot :
    (test : PerServerState → Bool) (change : PerServerState → PerServerState)
    (states : List PerServerState)
    → ((s : PerServerState) → test s ≡ true → test (change s) ≡ true)
    → find_slot test (update_slot test change states) ≡ find_slot test states
unfolding find_slot update_slot
find_slot-update_slot test change [] keeps = refl
find_slot-update_slot test change (s ∷ states) keeps = elim (Bool-cases (test s)) [
  | inl first ↦ rw (first, keeps s first) refl
  | inr fails ↦ rw (fails, fails) (ap next_index (find_slot-update_slot test change states keeps))
]

opened_serving :
    (node_id : ℕ) (state : PerServerState)
    → serves node_id state ≡ true
    → opened node_id state ≡ state
unfolding opened
opened_serving node_id state e = ground arith

serves-opened :
    (node_id : ℕ) (state : PerServerState) → serves node_id (opened node_id state) ≡ true
unfolding opened
serves-opened node_id state = ground arith

get_or-set :
    {A : Type 0} (xs : List A) (i : ℕ) (a d : A) → i < length xs → get_or (set xs i a) i d ≡ a
get_or-set [] i a d short = absurd (omega arith)
get_or-set (x ∷ xs) zero a d short = refl
get_or-set (x ∷ xs) (suc i) a d short = get_or-set xs i a d (omega arith)

-- A node that has a slot is given its counter.
reserved_number :
    (c : Sequences) (node_id index category message_type deadline : ℕ)
    → find_slot (serves node_id) c.server_states ≡ some index
    → (reserve_sequence c node_id category message_type deadline).1
      ≡ (slot index c.server_states).sequence_counter
unfolding reserve_sequence claim_sequence_slot choose_slot
reserved_number c node_id index category message_type deadline e =
    ap
      (λ (found : Option ℕ).
        (opened node_id (
          slot
            (choose_slot found (find_slot (λ state. not state.occupied) c.server_states)
              c.next_sequence_evict_index).0
            c.server_states)).sequence_counter)
      e
    ∙ ap PerServerState.sequence_counter (
        opened_serving node_id (slot index c.server_states)
          (found_slot (serves node_id) c.server_states index e).1)

-- There are eight slots, and the one to evict next is one of them.
pub record SlotsValid (c : Sequences) : Type 0 where
  pub eight : length c.server_states ≡ max_servers
  pub evictable : c.next_sequence_evict_index < max_servers

chosen_slot :
    (states : List PerServerState) (test test' : PerServerState → Bool) (evict_index : ℕ)
    (found free : Option ℕ)
    → find_slot test states ≡ found
    → find_slot test' states ≡ free
    → evict_index < length states
    → ((choose_slot found free evict_index).0 < length states)
      × ((find_slot test states ≡ none)
          ⊎ (find_slot test states ≡ some (choose_slot found free evict_index).0))
unfolding choose_slot
chosen_slot states test test' evict_index (some index) free e e' evictable =
    ((found_slot test states index e).0, inr e)
chosen_slot states test test' evict_index none (some index) e e' evictable =
    ((found_slot test' states index e').0, inl e)
chosen_slot states test test' evict_index none none e e' evictable = (evictable, inl e)

claimed_slot :
    (c : Sequences) (node_id : ℕ)
    → SlotsValid c
    → ((claim_sequence_slot c node_id).0 < length c.server_states)
      × ((find_slot (serves node_id) c.server_states ≡ none)
          ⊎ (find_slot (serves node_id) c.server_states ≡ some (claim_sequence_slot c node_id).0))
unfolding claim_sequence_slot
claimed_slot c node_id v =
    chosen_slot c.server_states (serves node_id) (λ state. not state.occupied)
      c.next_sequence_evict_index _ _ refl refl (omega (arith, v.eight, v.evictable))

-- Two commands to one node carry successive sequence numbers, modulo 256, whichever slot the first
-- one had to take.
pub reserve_sequence-reserve_sequence :
    (c : Sequences) (node_id category message_type deadline category' message_type' deadline' : ℕ)
    → SlotsValid c
    → let (c', sequence) = reserve_sequence c node_id category message_type deadline in
      (reserve_sequence c' node_id category' message_type' deadline').1 ≡ u8 (sequence + 1)
unfolding reserve_sequence
reserve_sequence-reserve_sequence c node_id category message_type deadline category' message_type'
      deadline' v =
    let index = (claim_sequence_slot c node_id).0 in
    let state = opened node_id (slot index c.server_states) in
    let reserved : PerServerState = record state {
      sequence_counter = u8 (state.sequence_counter + 1);
      awaiting_ack = true;
      awaiting_category = category;
      awaiting_message_type = message_type;
      ack_timer = some deadline;
    } in
    let (short, before) = claimed_slot c node_id v in
    reserved_number (reserve_sequence c node_id category message_type deadline).0 node_id index
      category' message_type' deadline'
      (find_slot-set (serves node_id) c.server_states index reserved before short
        (serves-opened node_id (slot index c.server_states)))
    ∙ ap PerServerState.sequence_counter
        (get_or-set c.server_states index reserved empty_state short)

-- A node that has a slot sends its next command with the sequence number that it was told.
pub reserve_sequence-resync_sequence :
    (c : Sequences) (node_id index expected category message_type deadline : ℕ)
    → find_slot (serves node_id) c.server_states ≡ some index
    → (reserve_sequence
        (resync_sequence c node_id expected)
        node_id
        category
        message_type
        deadline).1
      ≡ expected
unfolding resync_sequence
reserve_sequence-resync_sequence c node_id index expected category message_type deadline e =
    reserved_number (resync_sequence c node_id expected) node_id index category message_type
      deadline
      (find_slot-update_slot (serves node_id)
          (λ state. record state { sequence_counter = expected }) c.server_states (λ s holds. holds)
        ∙ e)
    ∙ ap PerServerState.sequence_counter (
        slot-update_slot (serves node_id) (λ state. record state { sequence_counter = expected })
          c.server_states index e)
