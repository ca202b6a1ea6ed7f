-- ===== src/FrameTransport/Invariant.antt =====
-- What holds of the transport between two calls, and who is refused.
use can_lite.Base.{
  ℕ, ◌-◌, ◌≤◌, ◌<◌, ◌≡◌, ◌≢◌, refl, sym, subst, ap, ◌∙◌, ◌⊎◌, inl, inr, Bool, true, false, Option,
  none, some, List, [], ◌∷◌, arith, length, All, ltb, leb, tests, Bool-cases, not, ◌&&◌, ◌||◌,
}
use can_lite.FrameTransport.{
  PendingFrame, Transport, Event, done, Counters, queue_depth, emergency_reserve,
  emergency_retry_limit, insert, ordinary_count, back, pop_back, is_emergency, full,
  enqueue_ordinary, enqueue_emergency, enqueue, submit, on_send_complete, send_next_queued,
  retry_current, notify_send,
}
use can_lite.FrameTransport.Insert.{
  Queue, Sorted, length-insert, ordinary_count-insert, ordinary_count-le-length, Sorted-insert,
  back-some, All-le-back, Sorted-pop_back, length-pop_back, ordinary_count-pop_back,
}

-- A queue of at most eight frames, at most six of them ordinary, the most urgent first.
pub record QueueValid {Ident Done : Type 0} (q : Queue Ident Done) : Type 0 where
  pub bounded : length q ≤ queue_depth
  pub reserved : ordinary_count q ≤ queue_depth - emergency_reserve
  pub sorted : Sorted q

-- The queue is valid, and it is empty while nothing is on its way to the bus.
pub record IsValid {Ident Done : Type 0} (t : Transport Ident Done) : Type 0 where
  pub queue : QueueValid t.send_queue
  pub idle_empty : t.current ≡ none → t.send_queue ≡ []
  pub retries : t.current_retries ≤ emergency_retry_limit

module _ {Ident Done : Type 0} where
  insert-QueueValid :
      (f : PendingFrame Ident Done) (q : Queue Ident Done)
      → QueueValid q
      → length q < queue_depth
      → (is_emergency f ≡ true) ⊎ (ordinary_count q < queue_depth - emergency_reserve)
      → QueueValid (insert f q)
  insert-QueueValid f q v short room = record {
    bounded = omega (arith, length-insert f q);
    reserved = ground (arith, ordinary_count-insert f q);
    sorted = Sorted-insert f q v.sorted;
  }

  replace-QueueValid :
      (f last : PendingFrame Ident Done) (q : Queue Ident Done)
      → QueueValid q
      → back q ≡ some last
      → is_emergency last ≡ false
      → QueueValid (insert f (pop_back q))
  replace-QueueValid f last q v e ordinary = record {
    bounded =
        ground (arith, length-insert f (pop_back q), length-pop_back q, back_pos q e, v.bounded);
    reserved =
        ground (
          arith,
          ordinary_count-insert f (pop_back q),
          ordinary_count-pop_back q last e,
          v.reserved,
        );
    sorted = Sorted-insert f (pop_back q) (Sorted-pop_back q v.sorted);
  }
    where
      back_pos : (q : Queue Ident Done) → back q ≡ some last → 0 < length q
      back_pos [] e = absurd (unfold back in cc)
      back_pos (x ∷ q) e = omega arith

  -- `back` is called only on a queue that has a last frame.
  back_is_called_safely :
      (q : Queue Ident Done)
      → (not (full q) && ltb (ordinary_count q) (queue_depth - emergency_reserve)) ≡ false
      → (last : PendingFrame Ident Done) × (back q ≡ some last)
  back_is_called_safely q h = back-some q (ground (arith, ordinary_count-le-length q))

  abbrev has_room : Transport Ident Done → PendingFrame Ident Done → Bool
  has_room t f =
      not (full t.send_queue)
      && (is_emergency f || ltb (ordinary_count t.send_queue) (queue_depth - emergency_reserve))

  -- The three ends of an attempt to queue a frame.
  pub data Outcome (t : Transport Ident Done) (f : PendingFrame Ident Done)
      (r : Transport Ident Done × List (Event Ident Done) × Bool) : Type 0 where
    inserted :
        has_room t f ≡ true
        → r ≡ (record t { send_queue = insert f t.send_queue }, notify_send t, true)
        → Outcome t f r
    displaced :
        (last : PendingFrame Ident Done) (c : Counters)
        → has_room t f ≡ false
        → back t.send_queue ≡ some last
        → f.priority < last.priority
        → r ≡ (
          record t { send_queue = insert f (pop_back t.send_queue); counters = c },
          done last.on_done false ∷ notify_send t,
          true,
        )
        → Outcome t f r
    refused :
        (last : PendingFrame Ident Done) (c : Counters)
        → has_room t f ≡ false
        → back t.send_queue ≡ some last
        → last.priority ≤ f.priority
        → r ≡ (record t { counters = c }, [], false)
        → Outcome t f r

  pub enqueue-Outcome :
      (t : Transport Ident Done) (f : PendingFrame Ident Done) → Outcome t f (enqueue t f)
  unfolding enqueue enqueue_ordinary enqueue_emergency
  enqueue-Outcome t f = elim (Bool-cases (has_room t f)) [
    | inl room ↦ inserted room (ground arith)
    | inr crowded ↦
        crowd crowded
          (back-some t.send_queue (ground (arith, ordinary_count-le-length t.send_queue)))
  ]
    where
      crowd :
          has_room t f ≡ false
          → (last : PendingFrame Ident Done) × (back t.send_queue ≡ some last)
          → Outcome t f (enqueue t f)
      crowd h (last, e) = elim (Bool-cases (leb last.priority f.priority)) [
        | inl less ↦ refused last (enqueue t f).0.counters h e (omega (tests, less)) (ground arith)
        | inr more ↦
            displaced last (enqueue t f).0.counters h e (omega (tests, more)) (ground arith)
      ]

  Outcome-IsValid :
      (t : Transport Ident Done) (f : PendingFrame Ident Done)
      (r : Transport Ident Done × List (Event Ident Done) × Bool)
      → Outcome t f r
      → t.current ≢ none
      → IsValid t
      → IsValid r.0
  Outcome-IsValid t f r (inserted room e) busy v = rw e (record {
    queue =
        insert-QueueValid f t.send_queue v.queue (ground (arith, v.queue.bounded)) (ground arith);
    idle_empty = λ h. absurd (busy h);
    retries = v.retries;
  })
  Outcome-IsValid t f r (displaced last c crowded b less e) busy v = rw e (record {
    queue = replace-QueueValid f last t.send_queue v.queue b (ground arith);
    idle_empty = λ h. absurd (busy h);
    retries = v.retries;
  })
  Outcome-IsValid t f r (refused last c crowded b more e) busy v =
      rw e (record { queue = v.queue; idle_empty = v.idle_empty; retries = v.retries })

  -- Every submission, accepted or not, keeps the queue bounded by eight frames of which six are
  -- ordinary, sorted with the most urgent first, and empty while the bus is free.
  pub submit-IsValid :
      (t : Transport Ident Done) (f : PendingFrame Ident Done) → IsValid t → IsValid (submit t f).0
  unfolding submit
  submit-IsValid t f v = by_current t.current refl
    where
      by_current : (c : Option (PendingFrame Ident Done)) → t.current ≡ c → IsValid (submit t f).0
      by_current none e =
          rw (e, submit)
            (record { queue = v.queue; idle_empty = λ h. v.idle_empty e; retries = omega arith })
      by_current (some busy) e =
          rw (e, submit) (Outcome-IsValid t f (enqueue t f) (enqueue-Outcome t f) (λ h. cc) v)

  next-IsValid :
      (t : Transport Ident Done) (q : Queue Ident Done)
      → QueueValid q
      → t.current_retries ≤ emergency_retry_limit
      → IsValid (send_next_queued (record t { send_queue = q })).0
  unfolding send_next_queued
  next-IsValid t [] v r = record { queue = v; idle_empty = λ h. refl; retries = r }
  next-IsValid t (x ∷ q) v r = record {
    queue = record {
      bounded = omega (arith, v.bounded);
      reserved = unfold ordinary_count in ground (arith, v.reserved);
      sorted = v.sorted.1;
    };
    idle_empty = λ h. cc;
    retries = omega arith;
  }

  -- A failed attempt changes the counters and the number of retries, which stays within its limit.
  retry_current_lem :
      (t : Transport Ident Done) (f : PendingFrame Ident Done) (success : Bool)
      → t.current_retries ≤ emergency_retry_limit
      → let t' = (retry_current t f success).0 in
        (t'.send_queue ≡ t.send_queue)
        × (t'.current ≡ t.current)
        × (t'.current_retries ≤ emergency_retry_limit)
  unfolding retry_current
  retry_current_lem t f success h = ground arith

  retried-IsValid :
      (t : Transport Ident Done) (f : PendingFrame Ident Done) (success : Bool)
      → IsValid t
      → IsValid (retry_current t f success).0
  retried-IsValid t f success v =
      let (q, c, r) = retry_current_lem t f success v.retries in
      record {
        queue = subst QueueValid (sym q) v.queue;
        idle_empty = λ h. q ∙ v.idle_empty (sym c ∙ h);
        retries = r;
      }

  complete-IsValid :
      (t : Transport Ident Done) (c : Option (PendingFrame Ident Done)) (success : Bool)
      → IsValid (record t { current = c })
      → IsValid (on_send_complete (record t { current = c }) success).0
  unfolding on_send_complete
  complete-IsValid t none success v = v
  complete-IsValid t (some f) success v =
      let busy = record t { current = some f } in
      let v' = retried-IsValid busy f success v in
      elim (Bool-cases (retry_current busy f success).2) [
        | inl again ↦ rw again v'
        | inr over ↦
            let t' = (retry_current busy f success).0 in
            rw over (next-IsValid t' t'.send_queue v'.queue v'.retries)
      ]

  -- The end of a transmission keeps the invariant, whether it succeeds or fails.
  pub on_send_complete-IsValid :
      (t : Transport Ident Done) (success : Bool)
      → IsValid t
      → IsValid (on_send_complete t success).0
  on_send_complete-IsValid t success v = complete-IsValid t t.current success v

  All-zero :
      (q : Queue Ident Done) (p : ℕ) → p ≡ 0 → All (λ g. g.priority ≤ p) q → ordinary_count q ≡ 0
  unfolding ordinary_count
  All-zero [] p e all = refl
  All-zero (x ∷ q) p e all = ground (arith, All-zero q p e all.1)

  All-le-weaken :
      (q : Queue Ident Done) (a b : ℕ)
      → a ≤ b
      → All (λ g. g.priority ≤ a) q
      → All (λ g. g.priority ≤ b) q
  All-le-weaken [] a b h all = tt
  All-le-weaken (x ∷ q) a b h all = (omega arith, All-le-weaken q a b h all.1)

  -- Why a frame was refused, and that nothing else happened.
  abbrev Refusal :
      Transport Ident Done
      → PendingFrame Ident Done
      → Transport Ident Done × List (Event Ident Done) × Bool
      → Type 0
  Refusal t f r =
      All (λ g. g.priority ≤ f.priority) t.send_queue
      × (r.0.send_queue ≡ t.send_queue)
      × (r.0.current ≡ t.current)
      × (r.1 ≡ [])

  Outcome-Refusal :
      (t : Transport Ident Done) (f : PendingFrame Ident Done)
      (r : Transport Ident Done × List (Event Ident Done) × Bool)
      → Outcome t f r
      → QueueValid t.send_queue
      → r.2 ≡ false
      → Refusal t f r
  Outcome-Refusal t f r (inserted room e) v h = absurd (cc)
  Outcome-Refusal t f r (displaced last c crowded b less e) v h = absurd (cc)
  Outcome-Refusal t f r (refused last c crowded b more e) v h =
      let all = All-le-back t.send_queue last v.sorted b in
      (
        All-le-weaken t.send_queue last.priority f.priority more all,
        ap (λ r. r.0.send_queue) e,
        ap (λ r. r.0.current) e,
        ap (λ r. r.1) e,
      )

  refuses_at :
      (t : Transport Ident Done) (c : Option (PendingFrame Ident Done))
      (f : PendingFrame Ident Done)
      → QueueValid t.send_queue
      → (submit (record t { current = c }) f).2 ≡ false
      → Refusal (record t { current = c }) f (submit (record t { current = c }) f)
  unfolding submit
  refuses_at t none f v h = absurd (cc)
  refuses_at t (some g) f v h =
      let busy = record t { current = some g } in
      Outcome-Refusal busy f (enqueue busy f) (enqueue-Outcome busy f) v h

  -- A frame is refused only while nothing less urgent than it waits; a refusal leaves the queue and
  -- the frame on its way untouched and makes no call.
  pub submit-refuses :
      (t : Transport Ident Done) (f : PendingFrame Ident Done)
      → IsValid t
      → (submit t f).2 ≡ false
      → All (λ g. g.priority ≤ f.priority) t.send_queue
        × ((submit t f).0.send_queue ≡ t.send_queue)
        × ((submit t f).0.current ≡ t.current)
        × ((submit t f).1 ≡ [])
  submit-refuses t f v h = refuses_at t t.current f v.queue h

  enqueue_room :
      (t : Transport Ident Done) (f : PendingFrame Ident Done)
      → has_room t f ≡ true
      → (enqueue t f).2 ≡ true
  unfolding enqueue enqueue_ordinary enqueue_emergency
  enqueue_room t f h = ground arith

  submit_room :
      (t : Transport Ident Done) (c : Option (PendingFrame Ident Done))
      (f : PendingFrame Ident Done)
      → has_room t f ≡ true
      → (submit (record t { current = c }) f).2 ≡ true
  unfolding submit
  submit_room t none f h = refl
  submit_room t (some g) f h = enqueue_room (record t { current = some g }) f h

  -- An emergency frame is refused only when all eight places of the queue hold emergency frames.
  pub submit-refuses_emergency :
      (t : Transport Ident Done) (f : PendingFrame Ident Done)
      → IsValid t
      → is_emergency f ≡ true
      → (submit t f).2 ≡ false
      → (length t.send_queue ≡ queue_depth) × (ordinary_count t.send_queue ≡ 0)
  submit-refuses_emergency t f v urgent h = (
    elim (Bool-cases (has_room t f)) [
      | inl room ↦ absurd (cc (submit_room t t.current f room))
      | inr crowded ↦ ground arith
    ],
    All-zero t.send_queue f.priority (ground arith) (submit-refuses t f v h).0,
  )

  -- An ordinary frame is accepted while fewer than six ordinary frames and fewer than eight frames
  -- in all wait: the two reserved places are lost to emergency frames only.
  pub submit-accepts :
      (t : Transport Ident Done) (f : PendingFrame Ident Done)
      → length t.send_queue < queue_depth
      → ordinary_count t.send_queue < queue_depth - emergency_reserve
      → (submit t f).2 ≡ true
  submit-accepts t f short few = submit_room t t.current f (ground arith)
