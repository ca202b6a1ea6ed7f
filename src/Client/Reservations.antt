-- ===== src/Client/Reservations.antt =====
-- Reservations of sequence numbers, their cancellation, and refusals.
use can_lite.Base.{
  ℕ, zero, suc, ◌<◌, ◌≡◌, ◌≢◌, refl, ap, ◌∙◌, Bool, true, false, Option, none, some, List, [], ◌∷◌,
  if◌then◌else◌, length, get_or, set, Bool-cases, ◌⊎◌, inl, inr, arith,
}
use can_lite.Client.{
  PerServerState, empty_state, Sequences, find_slot, next_index, slot, claim_sequence_slot,
  reserve_sequence, cancel_reservation,
}

set-set : {A : Type 0} (xs : List A) (i : ℕ) (a b : A) → set (set xs i a) i b ≡ set xs i b
set-set [] i a b = refl
set-set (x ∷ xs) zero a b = refl
set-set (x ∷ xs) (suc i) a b = ap (λ ys. x ∷ ys) (set-set xs i a b)

set-get_or : {A : Type 0} (xs : List A) (i : ℕ) (d : A) → set xs i (get_or xs i d) ≡ xs
set-get_or [] i d = refl
set-get_or (x ∷ xs) zero d = refl
set-get_or (x ∷ xs) (suc i) d = ap (λ ys. x ∷ ys) (set-get_or xs i d)

-- A timer runs only while an acknowledgement is awaited.
abbrev pub TimerValid : PerServerState → Type 0
TimerValid state = state.awaiting_ack ≡ false → state.ack_timer ≡ none

abbrev pub TimersValid : Sequences → Type 0
TimersValid c = (index : ℕ) → TimerValid (slot index c.server_states)

restored_lem :
    (state : PerServerState)
    → TimerValid state
    → (if state.awaiting_ack then state else record state { ack_timer = none }) ≡ state
restored_lem state valid = elim (Bool-cases state.awaiting_ack) [
  | inl awaiting ↦ simp awaiting refl
  | inr idle ↦ ground (arith, valid idle)
]

-- A reservation that is cancelled leaves no trace: the sequence number, the command awaited and its
-- deadline are those from before, of the server whose record was evicted as well, and the next
-- slot to evict is the same.
pub cancel_reservation-reserve_sequence :
    (c : Sequences) (node_id category message_type deadline : ℕ)
    → TimersValid c
    → cancel_reservation (reserve_sequence c node_id category message_type deadline).0
      ≡ record c { last_reservation = none }
unfolding cancel_reservation reserve_sequence
cancel_reservation-reserve_sequence c node_id category message_type deadline valid =
    let index = (claim_sequence_slot c node_id).0 in
    ap
      (λ (states : List PerServerState). record {
        server_states = states;
        next_sequence_evict_index = c.next_sequence_evict_index;
        last_reservation = none;
      })
      (set-set c.server_states index _ _
        ∙ ap (set c.server_states index) (restored_lem (slot index c.server_states) (valid index))
        ∙ set-get_or c.server_states index empty_state)

next_index-none : (o : Option ℕ) → next_index o ≡ none → o ≡ none
next_index-none none e = refl
next_index-none (some i) e = absurd cc

pub next_index-suc : (o : Option ℕ) (i : ℕ) → next_index o ≡ some (suc i) → o ≡ some i
next_index-suc none i e = absurd cc
next_index-suc (some j) i e = let same : suc j ≡ suc i = cc in ap some (omega arith)

pub some_inner {ℓ} : {A : Type ℓ} {a b : A} → some a ≡ some b → a ≡ b
some_inner e = cc

pub suc_not_zero : {n : ℕ} → zero ≢ suc n
suc_not_zero e = omega arith

-- A slot is found behind one that the test does not hold for.
found_behind :
    (test : PerServerState → Bool) (s : PerServerState) (states : List PerServerState) (index : ℕ)
    → test s ≡ false
    → (find_slot test (s ∷ states) ≡ none) ⊎ (find_slot test (s ∷ states) ≡ some (suc index))
    → (find_slot test states ≡ none) ⊎ (find_slot test states ≡ some index)
unfolding find_slot
found_behind test s states index fails (inl e) = inl (next_index-none _ (ground arith))
found_behind test s states index fails (inr e) = inr (next_index-suc _ index (ground arith))

not_first :
    (test : PerServerState → Bool) (s : PerServerState) (states : List PerServerState) (index : ℕ)
    → test s ≡ true
    → (find_slot test (s ∷ states) ≢ none) × (find_slot test (s ∷ states) ≢ some (suc index))
unfolding find_slot
not_first test s states index holds = rw holds (λ e. cc, λ e. absurd (suc_not_zero (some_inner e)))

pub find_slot-set :
    (test : PerServerState → Bool) (states : List PerServerState) (index : ℕ)
    (state : PerServerState)
    → (find_slot test states ≡ none) ⊎ (find_slot test states ≡ some index)
    → index < length states
    → test state ≡ true
    → find_slot test (set states index state) ≡ some index
unfolding find_slot
find_slot-set test [] index state before short holds = absurd (omega arith)
find_slot-set test (s ∷ states) zero state before short holds = rw holds refl
find_slot-set test (s ∷ states) (suc index) state before short holds = elim (Bool-cases (test s)) [
  | inl first ↦
      let (apart, apart') = not_first test s states index first in
      elim before [ inl e ↦ absurd (apart e) | inr e ↦ absurd (apart' e) ]
  | inr fails ↦ rw fails (
      ap next_index (
        find_slot-set test states index state (found_behind test s states index fails before)
          (omega arith) holds))
]
