-- ===== src/Slcan/Adapter/Tests.antt =====
-- can-lite/drivers/implementation/SlcanAdapter.cpp: a connection at 500 kbit/s whose three commands
-- are acknowledged in one read, a frame, and a port that disappears.
use can_lite.Base.{ℕ, refl, true, false, none, some, List, [], ◌∷◌}
use can_lite.Hal.{tagged_ids}
use can_lite.Slcan.Adapter.{Adapter, closed_link, opened}
use can_lite.Slcan.Adapter.Link.{IsValid, Kept}
use can_lite.Slcan.Adapter.Invariant.{Input, connecting, sending, reading, run, run-Kept}

abbrev fresh : Adapter ℕ
fresh = record {
  decoder = record { line = []; discarding = false };
  state = closed_link;
  replies_received = 0;
  handshake_timer = false;
  has_receive_callback = true;
  pending_completion = none;
}

fresh-IsValid : IsValid fresh
fresh-IsValid = record { timer = refl; replies = λ opening. absurd cc }

abbrev inputs : List (Input (tagged_ids.Ident) ℕ)
inputs =
    connecting 500000 opened true
    ∷ reading (some (13 ∷ 13 ∷ 13 ∷ []) ∷ [])
    ∷ sending (true, 0x123) (1 ∷ 2 ∷ []) 7 true
    ∷ reading (none ∷ [])
    ∷ []

run-Kept_example : Kept fresh (run tagged_ids fresh inputs).0 (run tagged_ids fresh inputs).1
run-Kept_example = run-Kept tagged_ids inputs fresh fresh-IsValid
