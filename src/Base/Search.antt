-- ===== src/Base/Search.antt =====
-- The first entry of a table that a test holds for, and counting such entries.
use Prim.Native.Nat.{ℕ, zero, suc, ◌+◌, ◌≤◌, ◌<◌}
use mathlib.Core.Path.{◌≡◌, refl, ap}
use mathlib.Core.Logic.{◌≢◌, inl, inr}
use mathlib.Core.Bool.{Bool, true, false}
use mathlib.Core.Option.{Option, none, some}
use mathlib.Core.List.{List, [], ◌∷◌, ◌++◌}
use native.Mathlib.Omega.{arith}
use can_lite.Base.Tests.{if◌then◌else◌, Bool-cases}
use can_lite.Base.Lists.{length, get_or, set}

abbrev pub shift : Option ℕ → Option ℕ
shift none = none
shift (some index) = some (suc index)

shift-none : (o : Option ℕ) → shift o ≡ none → o ≡ none
shift-none none e = refl
shift-none (some i) e = absurd cc

shift-zero : (o : Option ℕ) → shift o ≢ some zero
shift-zero none e = cc
shift-zero (some i) e = cc

shift-suc : (o : Option ℕ) (i : ℕ) → shift o ≡ some (suc i) → o ≡ some i
shift-suc none i e = absurd cc
shift-suc (some j) i e = let same : suc j ≡ suc i = cc in ap some (omega arith)

module _ {ℓ} {A : Type ℓ} where
  unfoldable pub find_index : (A → Bool) → List A → Option ℕ
  find_index test [] = none
  find_index test (x ∷ xs) =
      let rest = find_index test xs in if test x then some zero else shift rest

  unfoldable pub count : (A → Bool) → List A → ℕ
  count test [] = 0
  count test (x ∷ xs) = count test xs + (if test x then 1 else 0)

  pub find_index-some :
      (test : A → Bool) (xs : List A) (d : A) (index : ℕ)
      → find_index test xs ≡ some index
      → (index < length xs) × (test (get_or xs index d) ≡ true)
  unfolding find_index
  find_index-some test [] d index e = absurd cc
  find_index-some test (x ∷ xs) d zero e = elim (Bool-cases (test x)) [
    | inl first ↦ (omega arith, first)
    | inr fails ↦ absurd (shift-zero (find_index test xs) (ground arith))
  ]
  find_index-some test (x ∷ xs) d (suc index) e = elim (Bool-cases (test x)) [
    | inl first ↦ let bad : some zero ≡ some (suc index) = ground arith in absurd cc
    | inr fails ↦
        let (short, holds) = find_index-some test xs d index (shift-suc _ index (ground arith)) in
        (omega arith, holds)
  ]

  pub find_index-none :
      (test : A → Bool) (xs : List A) → find_index test xs ≡ none → count test xs ≡ 0
  unfolding find_index count
  find_index-none test [] e = refl
  find_index-none test (x ∷ xs) e = elim (Bool-cases (test x)) [
    | inl first ↦ let bad : some zero ≡ none = ground arith in absurd cc
    | inr fails ↦ ground (arith, find_index-none test xs (shift-none _ (ground arith)), fails)
  ]

  pub count-set :
      (test : A → Bool) (xs : List A) (index : ℕ) (x d : A)
      → index < length xs
      → count test (set xs index x) + (if test (get_or xs index d) then 1 else 0)
        ≡ count test xs + (if test x then 1 else 0)
  unfolding count
  count-set test [] index x d short = absurd (omega arith)
  count-set test (y ∷ xs) zero x d short = omega arith
  count-set test (y ∷ xs) (suc index) x d short =
      omega (arith, count-set test xs index x d (omega arith))

  pub count-set_same :
      (test : A → Bool) (xs : List A) (index : ℕ) (x d : A)
      → test x ≡ test (get_or xs index d)
      → count test (set xs index x) ≡ count test xs
  unfolding count
  count-set_same test [] index x d same = refl
  count-set_same test (y ∷ xs) zero x d same = ground (arith, same)
  count-set_same test (y ∷ xs) (suc index) x d same =
      omega (arith, count-set_same test xs index x d same)

  pub count-set_below :
      (test : A → Bool) (xs : List A) (index : ℕ) (x : A)
      → test x ≡ false
      → count test (set xs index x) ≤ count test xs
  unfolding count
  count-set_below test [] index x fails = omega arith
  count-set_below test (y ∷ xs) zero x fails = ground (arith, fails)
  count-set_below test (y ∷ xs) (suc index) x fails =
      omega (arith, count-set_below test xs index x fails)

  pub count_implied :
      (test other : A → Bool) (xs : List A)
      → ((x : A) → test x ≡ true → other x ≡ true)
      → count test xs ≤ count other xs
  unfolding count
  count_implied test other [] implies = omega arith
  count_implied test other (x ∷ xs) implies =
      ground (arith, implies x, count_implied test other xs implies)

  count_positive :
      (test : A → Bool) (xs : List A) (index : ℕ) (d : A)
      → index < length xs
      → test (get_or xs index d) ≡ true
      → 1 ≤ count test xs
  unfolding count
  count_positive test [] index d short holds = absurd (omega arith)
  count_positive test (x ∷ xs) zero d short holds = ground (arith, holds)
  count_positive test (x ∷ xs) (suc index) d short holds =
      omega (arith, count_positive test xs index d (omega arith) holds)

  pub find_index_absent :
      (test : A → Bool) (xs : List A) → count test xs ≡ 0 → find_index test xs ≡ none
  unfolding find_index count
  find_index_absent test [] e = refl
  find_index_absent test (x ∷ xs) e = elim (Bool-cases (test x)) [
    | inl first ↦ absurd (ground (arith, first))
    | inr fails ↦ rw (fails, find_index_absent test xs (omega arith))
  ]

  pub find_index_unique :
      (test : A → Bool) (xs : List A) (index : ℕ) (d : A)
      → count test xs ≤ 1
      → index < length xs
      → test (get_or xs index d) ≡ true
      → find_index test xs ≡ some index
  unfolding find_index count
  find_index_unique test [] index d once short holds = absurd (omega arith)
  find_index_unique test (x ∷ xs) zero d once short holds = rw holds
  find_index_unique test (x ∷ xs) (suc index) d once short holds =
      let later = count_positive test xs index d (omega arith) holds in
      elim (Bool-cases (test x)) [
        | inl first ↦ absurd (ground (arith, first, later))
        | inr fails ↦
            rw (fails, find_index_unique test xs index d (omega arith) (omega arith) holds)
      ]

  pub count-append :
      (test : A → Bool) (xs ys : List A) → count test (xs ++ ys) ≡ count test xs + count test ys
  unfolding count
  count-append test [] ys = omega arith
  count-append test (x ∷ xs) ys = omega (arith, count-append test xs ys)
