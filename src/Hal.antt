-- ===== src/Hal.antt =====
-- `hal::Can::Id` of the embedded-infra-lib submodule, as far as can-lite relies on it: an
-- identifier has 11 or 29 bits, and one created with 29 bits gives them back.
use can_lite.Base.{ℕ, Bool, true, ◌≡◌, refl}

pub record CanIds : Type 1 where
  pub Ident : Type 0
  pub is_29_bit_id : Ident → Bool
  pub get_29_bit_id : Ident → ℕ
  pub create_29_bit_id : ℕ → Ident
  pub created_is_29_bit : (raw_id : ℕ) → is_29_bit_id (create_29_bit_id raw_id) ≡ true
  pub created_get : (raw_id : ℕ) → get_29_bit_id (create_29_bit_id raw_id) ≡ raw_id

-- Identifiers as a flag and a number meet these laws.
abbrev pub tagged_ids : CanIds
tagged_ids = record {
  Ident = Bool × ℕ;
  is_29_bit_id = λ id. id.0;
  get_29_bit_id = λ id. id.1;
  create_29_bit_id = λ raw_id. (true, raw_id);
  created_is_29_bit = λ raw_id. refl;
  created_get = λ raw_id. refl;
}
