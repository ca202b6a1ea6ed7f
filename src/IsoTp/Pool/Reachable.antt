-- ===== src/IsoTp/Pool/Reachable.antt =====
-- can-lite/transport/IsoTpTransportImpl.cpp: the pools that the calls of its methods lead to, in any
-- order, with the closures of the frames that its channels send.
use can_lite.Base.{
  ℕ, ◌≤◌, ◌≡◌, refl, ◌∙◌, inl, inr, Bool, Option, none, some, List, [], ◌∷◌, Bool-cases, arith,
}
use can_lite.Base.Search.{count, count_implied}
use can_lite.Codec.{Message}
use can_lite.IsoTp.Channel.{Channel, Closure, enable_reception, on_closure}
use can_lite.IsoTp.Pool.{
  Pool, channel, uses, enable_opened, register_found, register_receive_channel, release_channel,
  send_on, send_on_opened, send_found, send_pdu, process_in, process_frame,
}
use can_lite.IsoTp.Pool.Invariant.{
  IsValid, SameEnds, loops, uses_same, loops_same, store, store_same, send_channel_pdu-SameEnds,
  on_closure-SameEnds, process_channel_frame-SameEnds, open_connection-IsValid,
  release_found-IsValid,
}

enable_opened-IsValid :
    (p : Pool) (found : Option ℕ) → IsValid p → IsValid (enable_opened (p, found)).0
unfolding enable_opened enable_reception
enable_opened-IsValid p none valid = valid
enable_opened-IsValid p (some index) valid =
    store_same p index _ (record { rx = refl; tx = refl; in_use = refl }) valid

register_found-IsValid :
    (p : Pool) (data_id fc_id : ℕ) (found : Option ℕ)
    → IsValid p
    → IsValid (register_found p data_id fc_id found).0
unfolding register_found
register_found-IsValid p data_id fc_id none valid =
    enable_opened-IsValid _ _ (open_connection-IsValid p data_id fc_id valid)
register_found-IsValid p data_id fc_id (some index) valid =
    elim (Bool-cases (channel index p).reception_enabled) [
      | inl enabled ↦ rw enabled valid
      | inr idle ↦ rw idle (enable_opened-IsValid p (some index) valid)
    ]

send_on-IsValid :
    (p : Pool) (index : ℕ) (pdu : List ℕ) (on_done : ℕ)
    → IsValid p
    → IsValid (send_on p index pdu on_done).0
unfolding send_on
send_on-IsValid p index pdu on_done valid =
    store_same p index _ (send_channel_pdu-SameEnds (channel index p) pdu on_done) valid

send_on_opened-IsValid :
    (p : Pool) (found : Option ℕ) (pdu : List ℕ) (on_done : ℕ)
    → IsValid p
    → IsValid (send_on_opened (p, found) pdu on_done).0
unfolding send_on_opened
send_on_opened-IsValid p none pdu on_done valid = valid
send_on_opened-IsValid p (some index) pdu on_done valid =
    let sent = send_on-IsValid p index pdu on_done valid in
    elim (Bool-cases (send_on p index pdu on_done).2) [
      | inl accepted ↦ rw accepted sent
      | inr refused ↦ rw refused (release_found-IsValid _ (some index) sent)
    ]

send_found-IsValid :
    (p : Pool) (data_id fc_id : ℕ) (pdu : List ℕ) (on_done : ℕ) (found : Option ℕ)
    → IsValid p
    → IsValid (send_found p data_id fc_id pdu on_done found).0
unfolding send_found
send_found-IsValid p data_id fc_id pdu on_done (some index) valid =
    send_on-IsValid p index pdu on_done valid
send_found-IsValid p data_id fc_id pdu on_done none valid =
    send_on_opened-IsValid _ _ pdu on_done (open_connection-IsValid p fc_id data_id valid)

count-process_in :
    (test : Channel → Bool)
    → ((c c' : Channel) → SameEnds c c' → test c' ≡ test c)
    → (channels : List Channel) (can_id : ℕ) (frame : Message)
    → count test (process_in channels can_id frame).0 ≡ count test channels
unfolding process_in count
count-process_in test same [] can_id frame = refl
count-process_in test same (c ∷ channels) can_id frame =
    let kept = same c _ (process_channel_frame-SameEnds c can_id frame) in
    ground (arith, count-process_in test same channels can_id frame, kept)

process_frame-IsValid :
    (p : Pool) (can_id : ℕ) (frame : Message) → IsValid p → IsValid (process_frame p can_id frame).0
unfolding process_frame
process_frame-IsValid p can_id frame valid = record {
  one_owner = λ id. omega (
    arith,
    valid.one_owner id,
    count-process_in (uses id) (λ c c' same. uses_same c c' id same) p.channels can_id frame,
  );
  two_ends = count-process_in loops loops_same p.channels can_id frame ∙ valid.two_ends;
}

-- One call of a method, or of the closure that a channel gave with a frame.
pub data Step : Pool → Pool → Type 0 where
  registered : (p : Pool) (data_id fc_id : ℕ) → Step p (register_receive_channel p data_id fc_id).0
  released : (p : Pool) (data_id : ℕ) → Step p (release_channel p data_id)
  sent :
      (p : Pool) (data_id fc_id : ℕ) (pdu : List ℕ) (on_done : ℕ)
      → Step p (send_pdu p data_id fc_id pdu on_done).0
  processed : (p : Pool) (can_id : ℕ) (frame : Message) → Step p (process_frame p can_id frame).0
  closed :
      (p : Pool) (index : ℕ) (closure : Closure) (success : Bool)
      → Step p (store p index (on_closure (channel index p) closure success).0)

pub data Reach (p : Pool) : Pool → Type 0 where
  start : Reach p p
  later : {q r : Pool} → Reach p q → Step q r → Reach p r

pub step-IsValid : {p q : Pool} → Step p q → IsValid p → IsValid q
unfolding register_receive_channel release_channel send_pdu
step-IsValid (Step.registered p data_id fc_id) valid =
    register_found-IsValid p data_id fc_id _ valid
step-IsValid (Step.released p data_id) valid = release_found-IsValid p _ valid
step-IsValid (Step.sent p data_id fc_id pdu on_done) valid =
    send_found-IsValid p data_id fc_id pdu on_done _ valid
step-IsValid (Step.processed p can_id frame) valid = process_frame-IsValid p can_id frame valid
step-IsValid (Step.closed p index closure success) valid =
    store_same p index _ (on_closure-SameEnds (channel index p) closure success) valid

reach-IsValid : {p q : Pool} → Reach p q → IsValid p → IsValid q
reach-IsValid start valid = valid
reach-IsValid (later before step) valid = step-IsValid step (reach-IsValid before valid)

pub empty-IsValid : (p : Pool) → count (λ (c : Channel). c.occupied) p.channels ≡ 0 → IsValid p
empty-IsValid p empty = record {
  one_owner = λ id. omega (
    arith,
    empty,
    count_implied (uses id) (λ c. c.occupied) p.channels (λ c holds. ground (arith, holds)),
  );
  two_ends = omega (
    arith,
    empty,
    count_implied loops (λ c. c.occupied) p.channels (λ c holds. ground (arith, holds)),
  );
}

-- From a pool without an open connection, whatever calls of the pool's methods and of its channels'
-- closures follow: each identifier is the receiving or the sending one of at most one open channel,
-- and no open channel sends under the identifier that it receives.
pub reach-open_once :
    (p q : Pool) (can_id : ℕ)
    → count (λ (c : Channel). c.occupied) p.channels ≡ 0
    → Reach p q
    → (count (uses can_id) q.channels ≤ 1) × (count loops q.channels ≡ 0)
reach-open_once p q can_id empty reached =
    let valid = reach-IsValid reached (empty-IsValid p empty) in
    (valid.one_owner can_id, valid.two_ends)
