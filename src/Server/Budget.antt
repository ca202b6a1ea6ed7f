-- ===== src/Server/Budget.antt =====
-- The two rate budgets: between two resets, who gets through.
use can_lite.Base.{
  ℕ, ◌+◌, ◌≤◌, ◌<◌, ◌≡◌, Bool, true, false, List, [], ◌∷◌, if◌then◌else◌, arith, min,
}
use can_lite.Server.{Server, consume_budget, is_emergency, check_and_increment_rate}

-- How many of these identifiers have emergency priority (`true`) or another one (`false`).
unfoldable pub of_class : Bool → List ℕ → ℕ
of_class emergency [] = 0
of_class emergency (raw_id ∷ raw_ids) =
    let rest = of_class emergency raw_ids in
    if is_emergency raw_id
    then (if emergency then rest + 1 else rest)
    else (if emergency then rest else rest + 1)

module _ {Ident App State : Type 0} where
  -- The identifiers that are let through, of those received one after the other.
  unfoldable pub passed : Server Ident App State → List ℕ → List ℕ
  passed s [] = []
  passed s (raw_id ∷ raw_ids) =
      let (s', room) = check_and_increment_rate s raw_id in
      let rest = passed s' raw_ids in if room then raw_id ∷ rest else rest

  -- The limits are 16-bit numbers, and the counts are within them.
  pub record WithinBudget (s : Server Ident App State) : Type 0 where
    pub ordinary_used : s.message_count_this_period ≤ s.config.max_messages_per_second
    pub ordinary_limit : s.config.max_messages_per_second < 65536
    pub emergency_used :
        s.emergency_message_count_this_period ≤ s.config.max_emergency_messages_per_second
    pub emergency_limit : s.config.max_emergency_messages_per_second < 65536

  check-WithinBudget :
      (s : Server Ident App State) (raw_id : ℕ)
      → WithinBudget s
      → WithinBudget (check_and_increment_rate s raw_id).0
  unfolding check_and_increment_rate consume_budget
  check-WithinBudget s raw_id w = record {
    ordinary_used = ground (arith, w.ordinary_used, w.ordinary_limit);
    ordinary_limit = ground (arith, w.ordinary_limit);
    emergency_used = ground (arith, w.emergency_used, w.emergency_limit);
    emergency_limit = ground (arith, w.emergency_limit);
  }

  -- Of the frames received since the counts were last reset, exactly as many ordinary frames are
  -- let through as arrive, up to their limit, and likewise for emergency frames: the two budgets
  -- do not draw on each other.
  pub passed_lem :
      (s : Server Ident App State) (raw_ids : List ℕ)
      → WithinBudget s
      → (of_class false (passed s raw_ids) + s.message_count_this_period
          ≡ min s.config.max_messages_per_second
              (s.message_count_this_period + of_class false raw_ids))
        × (of_class true (passed s raw_ids) + s.emergency_message_count_this_period
            ≡ min s.config.max_emergency_messages_per_second
                (s.emergency_message_count_this_period + of_class true raw_ids))
  unfolding passed of_class check_and_increment_rate consume_budget
  passed_lem s [] w = (ground (arith, w.ordinary_used), ground (arith, w.emergency_used))
  passed_lem s (raw_id ∷ raw_ids) w =
      let (ordinary, emergency) =
        passed_lem (check_and_increment_rate s raw_id).0 raw_ids (check-WithinBudget s raw_id w) in
      (
        ground (arith, w.ordinary_used, w.ordinary_limit),
        ground (arith, w.emergency_used, w.emergency_limit),
      )
