-- ===== src/Client/Liveness.antt =====
-- can-lite/client/CanProtocolClient.cpp: which servers are online. A timer is the delay that it was
-- started with, or `none`.
pub mod Observed
mod Tests
use can_lite.Base.{
  ℕ, zero, suc, ◌+◌, ◌%◌, Bool, true, false, not, ◌&&◌, Option, none, some, List, [], ◌∷◌, ◌==◌,
  if◌then◌else◌, get_or, set,
}
use can_lite.Base.Bits.{u8}
use can_lite.Client.{max_servers, Event, server_online, server_offline}

pub record ServerLiveness : Type 0 where
  pub node_id : ℕ
  pub occupied : Bool
  pub timeout_timer : Option ℕ

pub record Servers : Type 0 where
  pub server_liveness : List ServerLiveness
  pub next_liveness_evict_index : ℕ

abbrev pub no_entry : ServerLiveness
no_entry = record { node_id = 0; occupied = false; timeout_timer = none }

abbrev pub is_entry_of : ℕ → ServerLiveness → Bool
is_entry_of node_id entry = entry.occupied && (entry.node_id == node_id)

abbrev pub behind : ServerLiveness → Option (List ServerLiveness) → Option (List ServerLiveness)
behind entry none = none
behind entry (some entries) = some (entry ∷ entries)

-- The list in which the first entry that the test holds for is changed, if there is one.
unfoldable pub change_first :
    (ServerLiveness → Bool)
    → (ServerLiveness → ServerLiveness)
    → List ServerLiveness
    → Option (List ServerLiveness)
change_first test change [] = none
change_first test change (entry ∷ entries) =
    let rest = change_first test change entries in
    if test entry then some (change entry ∷ entries) else behind entry rest

abbrev pub started : ℕ → ℕ → ServerLiveness
started node_id server_timeout = record {
  node_id = node_id;
  occupied = true;
  timeout_timer = some server_timeout;
}

unfoldable pub evict_server : Servers → ℕ → ℕ → Servers × List Event
evict_server c node_id server_timeout =
    let evicted = get_or c.server_liveness c.next_liveness_evict_index no_entry in
    (
      record {
        server_liveness =
            set c.server_liveness c.next_liveness_evict_index (started node_id server_timeout);
        next_liveness_evict_index = u8 ((c.next_liveness_evict_index + 1) % max_servers);
      },
      server_offline evicted.node_id ∷ server_online node_id ∷ [],
    )

-- The entry of the node, else a free one, else the one whose turn it is.
unfoldable pub choose_entry :
    Servers
    → ℕ
    → ℕ
    → Option (List ServerLiveness)
    → Option (List ServerLiveness)
    → Servers × List Event
choose_entry c node_id server_timeout (some entries) free =
    (record c { server_liveness = entries }, [])
choose_entry c node_id server_timeout none (some entries) =
    (record c { server_liveness = entries }, server_online node_id ∷ [])
choose_entry c node_id server_timeout none none = evict_server c node_id server_timeout

unfoldable pub mark_server_alive : Servers → ℕ → ℕ → Servers × List Event
unfolding choose_entry
mark_server_alive c node_id server_timeout =
    choose_entry c node_id server_timeout
      (change_first (is_entry_of node_id) (λ entry. started node_id server_timeout)
        c.server_liveness)
      (change_first (λ entry. not entry.occupied) (λ entry. started node_id server_timeout)
        c.server_liveness)

unfoldable pub silence : Servers → ℕ → Option (List ServerLiveness) → Servers × List Event
silence c node_id (some entries) =
    (record c { server_liveness = entries }, server_offline node_id ∷ [])
silence c node_id none = (c, [])

-- The timer of the node's entry runs out.
unfoldable pub handle_server_timeout : Servers → ℕ → Servers × List Event
unfolding silence
handle_server_timeout c node_id = silence c node_id (
    change_first (is_entry_of node_id)
      (λ entry. record entry { occupied = false; timeout_timer = none }) c.server_liveness)
