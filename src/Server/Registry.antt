-- ===== src/Server/Registry.antt =====
-- The list of categories.
use can_lite.Base.{
  ℕ, ◌≤◌, ◌≡◌, refl, ◌∙◌, true, false, some, List, [], ◌∷◌, ◌++◌, if◌then◌else◌, leb, ◌==◌, ◌||◌,
  Bool-cases, inl, inr, arith, tests, length, length-append,
}
use can_lite.Protocol.{can_max_registered_categories}
use can_lite.Server.{Server, Category, has_id, find_category, register_category, system_category}

-- No two categories have one identifier.
unfoldable pub Distinct : List Category → Type 0
Distinct [] = true ≡ true
Distinct (category ∷ categories) = (has_id category.id categories ≡ false) × Distinct categories

has_id-append :
    (id : ℕ) (categories : List Category) (category : Category)
    → has_id id (categories ++ category ∷ []) ≡ (has_id id categories || (category.id == id))
unfolding has_id
has_id-append id [] category = ground arith
has_id-append id (existing ∷ categories) category =
    ground (arith, has_id-append id categories category)

Distinct-append :
    (categories : List Category) (category : Category)
    → Distinct categories
    → has_id category.id categories ≡ false
    → Distinct (categories ++ category ∷ [])
unfolding Distinct has_id
Distinct-append [] category d fresh = (refl, refl)
Distinct-append (existing ∷ categories) category d fresh = (
  has_id-append existing.id categories category ∙ ground (arith, d.0),
  Distinct-append categories category d.1 (ground arith),
)

find_fresh :
    (id : ℕ) (categories : List Category) (category : Category)
    → has_id category.id categories ≡ false
    → find_category id (categories ++ category ∷ [])
      ≡ (if category.id == id then some category else find_category id categories)
unfolding has_id find_category
find_fresh id [] category fresh = ground arith
find_fresh id (existing ∷ categories) category fresh =
    ground (arith, find_fresh id categories category (ground arith))

find_older :
    (id : ℕ) (categories : List Category) (category found : Category)
    → find_category id categories ≡ some found
    → find_category id (categories ++ category ∷ []) ≡ some found
unfolding find_category
find_older id [] category found e = absurd cc
find_older id (existing ∷ categories) category found e = elim (Bool-cases (existing.id == id)) [
  | inl same ↦ ground arith
  | inr other ↦ ground (arith, find_older id categories category found (ground arith))
]

module _ {Ident App State : Type 0} where
  pub record IsValid (s : Server Ident App State) : Type 0 where
    pub bounded : length s.categories ≤ can_max_registered_categories
    pub distinct : Distinct s.categories
    pub system : find_category system_category.id s.categories ≡ some system_category

  -- Registering a category keeps at most eight of them, all with different identifiers, the
  -- system category among them. Directly after it is registered, the search finds it under its
  -- identifier, with the server as its acknowledger, and under every other identifier what it found
  -- before; where it is not registered, nothing changes.
  pub register_category-IsValid :
      (s : Server Ident App State) (category : Category) (id : ℕ)
      → IsValid s
      → let (s', registered) = register_category s category in
        IsValid s'
        × (if registered
            then find_category id s'.categories ≡ (
                if category.id == id
                then some (record category { has_acknowledger = true })
                else find_category id s.categories)
            else s' ≡ s)
  unfolding register_category
  register_category-IsValid s category id v =
      elim (Bool-cases (leb can_max_registered_categories (length s.categories))) [
        | inl full ↦ rw full (v, refl)
        | inr room ↦ elim (Bool-cases (has_id category.id s.categories)) [
          | inl taken ↦ rw (room, taken) (v, refl)
          | inr fresh ↦
              rw (room, fresh)
                (
                  record {
                    bounded = omega (
                      arith,
                      length-append s.categories (record category { has_acknowledger = true } ∷ []),
                      tests,
                      room,
                    );
                    distinct =
                        Distinct-append s.categories (record category { has_acknowledger = true })
                          v.distinct fresh;
                    system = find_older system_category.id s.categories _ _ v.system;
                  },
                  find_fresh id s.categories (record category { has_acknowledger = true }) fresh,
                )
        ]
      ]
