-- ===== src/Client/Liveness/Tests.antt =====
-- Eight servers online, and a ninth one.
use can_lite.Base.{ℕ, true, some, [], ◌∷◌, refl, arith}
use can_lite.Client.Liveness.{ServerLiveness, Servers, mark_server_alive, handle_server_timeout}
use can_lite.Client.Liveness.Observed.{
  EntriesValid, Told, mark_server_alive-Told, handle_server_timeout-Told,
}

abbrev alive : ℕ → ServerLiveness
alive node_id = record { node_id = node_id; occupied = true; timeout_timer = some 3000 }

abbrev eight_servers : Servers
eight_servers = record {
  server_liveness =
      alive 1 ∷ alive 2 ∷ alive 3 ∷ alive 4 ∷ alive 5 ∷ alive 6 ∷ alive 7 ∷ alive 8 ∷ [];
  next_liveness_evict_index = 2;
}

eight_servers-EntriesValid : EntriesValid eight_servers
eight_servers-EntriesValid = record { eight = refl; evictable = omega arith }

mark_server_alive-Told_example :
    Told 3 eight_servers
      (mark_server_alive eight_servers 9 3000).0
      (mark_server_alive eight_servers 9 3000).1
mark_server_alive-Told_example =
    mark_server_alive-Told 3 eight_servers 9 3000 eight_servers-EntriesValid

handle_server_timeout-Told_example :
    Told 3 eight_servers
      (handle_server_timeout eight_servers 3).0
      (handle_server_timeout eight_servers 3).1
handle_server_timeout-Told_example =
    handle_server_timeout-Told 3 eight_servers 3 eight_servers-EntriesValid
