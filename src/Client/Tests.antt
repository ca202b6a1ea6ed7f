-- ===== src/Client/Tests.antt =====
-- A client that waits for node 5 and has seven free slots.
use can_lite.Base.{zero, suc, ◌≡◌, ◌+◌, refl, true, none, some, [], ◌∷◌, arith}
use can_lite.Base.Bits.{u8}
use can_lite.Client.{PerServerState, empty_state, Sequences, reserve_sequence, cancel_reservation}
use can_lite.Client.Reservations.{TimersValid, cancel_reservation-reserve_sequence}
use can_lite.Client.Counting.{SlotsValid, reserve_sequence-reserve_sequence}

abbrev waiting : PerServerState
waiting = record {
  node_id = 5;
  sequence_counter = 9;
  occupied = true;
  awaiting_ack = true;
  awaiting_category = 2;
  awaiting_message_type = 3;
  ack_timer = some 700;
}

abbrev client : Sequences
client = record {
  server_states =
      waiting ∷ empty_state ∷ empty_state ∷ empty_state ∷ empty_state ∷ empty_state ∷ empty_state
      ∷ empty_state ∷ [];
  next_sequence_evict_index = 3;
  last_reservation = none;
}

client-TimersValid : TimersValid client
client-TimersValid zero e = absurd cc
client-TimersValid (suc zero) e = refl
client-TimersValid (suc (suc zero)) e = refl
client-TimersValid (suc (suc (suc zero))) e = refl
client-TimersValid (suc (suc (suc (suc zero)))) e = refl
client-TimersValid (suc (suc (suc (suc (suc zero))))) e = refl
client-TimersValid (suc (suc (suc (suc (suc (suc zero)))))) e = refl
client-TimersValid (suc (suc (suc (suc (suc (suc (suc zero))))))) e = refl
client-TimersValid (suc (suc (suc (suc (suc (suc (suc (suc index)))))))) e = refl

cancel_reservation-reserve_sequence_example :
    cancel_reservation (reserve_sequence client 6 2 3 900).0
    ≡ record client { last_reservation = none }
cancel_reservation-reserve_sequence_example =
    cancel_reservation-reserve_sequence client 6 2 3 900 client-TimersValid

client-SlotsValid : SlotsValid client
client-SlotsValid = record { eight = refl; evictable = omega arith }

reserve_sequence-reserve_sequence_example :
    let (c', sequence) = reserve_sequence client 6 2 3 900 in
    (reserve_sequence c' 6 2 4 950).1 ≡ u8 (sequence + 1)
reserve_sequence-reserve_sequence_example =
    reserve_sequence-reserve_sequence client 6 2 3 900 2 4 950 client-SlotsValid
