-- ===== src/FrameTransport/Insert.antt =====
-- The send queue under insertion and eviction: its length, order, and frames.
use native.Mathlib.Numerals.{add-one}
use mathlib.Core.List.{Perm, append-nil}
use mathlib.Core.List.Perm
use can_lite.Base.{
  ℕ, ◌+◌, ◌≤◌, ◌<◌, ◌≡◌, refl, ap, inl, inr, true, some, List, [], ◌∷◌, ◌++◌, arith, length, All,
  ltb, ◌==◌, if◌then◌else◌, tests, Bool-cases,
}
use can_lite.FrameTransport.{
  PendingFrame, find_less_urgent, insert, ordinary_count, back, pop_back, is_emergency,
}

abbrev pub Queue : Type 0 → Type 0 → Type 0
Queue Ident Done = List (PendingFrame Ident Done)

module _ {Ident Done : Type 0} where
  -- Most urgent first.
  abbrev pub Sorted : Queue Ident Done → Type 0
  Sorted [] = Unit
  Sorted (x ∷ q) = All (λ y. x.priority ≤ y.priority) q × Sorted q

  -- The frames of one priority, in their order.
  abbrev pub with_priority : ℕ → Queue Ident Done → Queue Ident Done
  with_priority p [] = []
  with_priority p (x ∷ q) = if x.priority == p then x ∷ with_priority p q else with_priority p q

  insert_nil : (f : PendingFrame Ident Done) → insert f [] ≡ f ∷ []
  unfolding insert find_less_urgent
  insert_nil f = refl

  insert_cons :
      (f x : PendingFrame Ident Done) (q : Queue Ident Done)
      → insert f (x ∷ q) ≡ (if ltb f.priority x.priority then f ∷ x ∷ q else x ∷ insert f q)
  unfolding insert find_less_urgent
  insert_cons f x q = elim (Bool-cases (ltb f.priority x.priority)) [
    | inl e ↦ rw e
    | inr e ↦ rw (e, add-one)
  ]

  pub length-insert :
      (f : PendingFrame Ident Done) (q : Queue Ident Done) → length (insert f q) ≡ length q + 1
  length-insert f [] = rw (insert_nil f) (omega arith)
  length-insert f (x ∷ q) = ground (arith, insert_cons f x q, length-insert f q)

  pub ordinary_count-insert :
      (f : PendingFrame Ident Done) (q : Queue Ident Done)
      → ordinary_count (insert f q)
        ≡ (if is_emergency f then ordinary_count q else ordinary_count q + 1)
  unfolding ordinary_count
  ordinary_count-insert f [] = rw (insert_nil f) (ground arith)
  ordinary_count-insert f (x ∷ q) = ground (arith, insert_cons f x q, ordinary_count-insert f q)

  pub ordinary_count-le-length : (q : Queue Ident Done) → ordinary_count q ≤ length q
  unfolding ordinary_count
  ordinary_count-le-length [] = omega arith
  ordinary_count-le-length (x ∷ q) = ground (arith, ordinary_count-le-length q)

  All-le_trans :
      (a b : ℕ) (q : Queue Ident Done)
      → a ≤ b
      → All (λ y. b ≤ y.priority) q
      → All (λ y. a ≤ y.priority) q
  All-le_trans a b [] h all = tt
  All-le_trans a b (x ∷ q) h all = (omega arith, All-le_trans a b q h all.1)

  All-insert :
      (P : PendingFrame Ident Done → Type 0) (f : PendingFrame Ident Done) (q : Queue Ident Done)
      → P f
      → All P q
      → All P (insert f q)
  All-insert P f [] h all = rw (insert_nil f) (h, tt)
  All-insert P f (x ∷ q) h all = elim (Bool-cases (ltb f.priority x.priority)) [
    | inl e ↦ rw (insert_cons f x q, e) (h, (all.0, all.1))
    | inr e ↦ rw (insert_cons f x q, e) (all.0, All-insert P f q h all.1)
  ]

  pub Sorted-insert :
      (f : PendingFrame Ident Done) (q : Queue Ident Done) → Sorted q → Sorted (insert f q)
  Sorted-insert f [] s = rw (insert_nil f) (tt, tt)
  Sorted-insert f (x ∷ q) s = elim (Bool-cases (ltb f.priority x.priority)) [
    | inl e ↦
        rw (insert_cons f x q, e)
          (
            (omega (tests, e), All-le_trans f.priority x.priority q (omega (tests, e)) s.0),
            (s.0, s.1),
          )
    | inr e ↦
        rw (insert_cons f x q, e)
          (
            All-insert (λ y. x.priority ≤ y.priority) f q (omega (tests, e)) s.0,
            Sorted-insert f q s.1,
          )
  ]

  pub insert-perm : (f : PendingFrame Ident Done) (q : Queue Ident Done) → Perm (insert f q) (f ∷ q)
  insert-perm f [] = rw (insert_nil f) (Perm.refl _)
  insert-perm f (x ∷ q) = elim (Bool-cases (ltb f.priority x.priority)) [
    | inl e ↦ rw (insert_cons f x q, e) (Perm.refl _)
    | inr e ↦
        rw (insert_cons f x q, e) (Perm.trans (Perm.cons x (insert-perm f q)) (Perm.swap f x q))
  ]

  none_above :
      (p a : ℕ) (q : Queue Ident Done)
      → p < a
      → All (λ y. a ≤ y.priority) q
      → with_priority p q ≡ []
  none_above p a [] h all = refl
  none_above p a (x ∷ q) h all = ground (arith, none_above p a q h all.1)

  -- A frame goes behind all frames of its own priority, and leaves the order within every other
  -- priority as it was.
  pub with_priority-insert :
      (p : ℕ) (f : PendingFrame Ident Done) (q : Queue Ident Done)
      → Sorted q
      → with_priority p (insert f q) ≡ with_priority p q ++ (if f.priority == p then f ∷ [] else [])
  with_priority-insert p f [] s = rw (insert_nil f) refl
  with_priority-insert p f (x ∷ q) s = elim (Bool-cases (ltb f.priority x.priority)) [
    | inl e ↦ rw (insert_cons f x q, e) (front e)
    | inr e ↦ rw (insert_cons f x q, e) (ground (arith, with_priority-insert p f q s.1))
  ]
    where
      front :
          ltb f.priority x.priority ≡ true
          → with_priority p (f ∷ x ∷ q)
            ≡ with_priority p (x ∷ q) ++ (if f.priority == p then f ∷ [] else [])
      front e = elim (Bool-cases (f.priority == p)) [
        | inl same ↦
            rw (same, none_above p x.priority (x ∷ q) (omega (tests, e, same)) (omega arith, s.0))
              refl
        | inr other ↦ rw (other, append-nil (with_priority p (x ∷ q))) refl
      ]

  pub back-some :
      (q : Queue Ident Done) → 0 < length q → (x : PendingFrame Ident Done) × (back q ≡ some x)
  unfolding back
  back-some [] h = absurd (omega arith)
  back-some (x ∷ []) h = (x, refl)
  back-some (x ∷ y ∷ q) h = back-some (y ∷ q) (omega arith)

  pub pop_back-append :
      (q : Queue Ident Done) (x : PendingFrame Ident Done)
      → back q ≡ some x
      → q ≡ pop_back q ++ x ∷ []
  unfolding back pop_back
  pop_back-append [] x e = cc
  pop_back-append (y ∷ []) x e = ground arith
  pop_back-append (y ∷ z ∷ q) x e = ap (◌∷◌ y) (pop_back-append (z ∷ q) x e)

  -- The last frame is the least urgent.
  pub All-le-back :
      (q : Queue Ident Done) (x : PendingFrame Ident Done)
      → Sorted q
      → back q ≡ some x
      → All (λ y. y.priority ≤ x.priority) q
  unfolding back
  All-le-back [] x s e = tt
  All-le-back (y ∷ []) x s e = (ground arith, tt)
  All-le-back (y ∷ z ∷ q) x s e =
      let rest = All-le-back (z ∷ q) x s.1 e in (omega (arith, rest.0, s.0.0), rest)

  All-pop_back :
      (P : PendingFrame Ident Done → Type 0) (q : Queue Ident Done) → All P q → All P (pop_back q)
  unfolding pop_back
  All-pop_back P [] all = tt
  All-pop_back P (x ∷ []) all = tt
  All-pop_back P (x ∷ y ∷ q) all = (all.0, All-pop_back P (y ∷ q) all.1)

  pub Sorted-pop_back : (q : Queue Ident Done) → Sorted q → Sorted (pop_back q)
  unfolding pop_back
  Sorted-pop_back [] s = tt
  Sorted-pop_back (x ∷ []) s = tt
  Sorted-pop_back (x ∷ y ∷ q) s =
      (All-pop_back (λ z. x.priority ≤ z.priority) (y ∷ q) s.0, Sorted-pop_back (y ∷ q) s.1)

  pub length-pop_back :
      (q : Queue Ident Done) → length (pop_back q) + 1 ≡ length q + (if length q == 0 then 1 else 0)
  unfolding pop_back
  length-pop_back [] = omega arith
  length-pop_back (x ∷ []) = refl
  length-pop_back (x ∷ y ∷ q) = ground (arith, length-pop_back (y ∷ q))

  pub ordinary_count-pop_back :
      (q : Queue Ident Done) (x : PendingFrame Ident Done)
      → back q ≡ some x
      → ordinary_count q
        ≡ (if is_emergency x then ordinary_count (pop_back q) else ordinary_count (pop_back q) + 1)
  unfolding back pop_back ordinary_count
  ordinary_count-pop_back [] x e = cc
  ordinary_count-pop_back (y ∷ []) x e = ground arith
  ordinary_count-pop_back (y ∷ z ∷ q) x e = ground (arith, ordinary_count-pop_back (z ∷ q) x e)
