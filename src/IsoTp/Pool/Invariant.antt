-- ===== src/IsoTp/Pool/Invariant.antt =====
-- can-lite/transport/IsoTpTransportImpl.cpp: every identifier belongs to one open connection at most,
-- and a connection has two identifiers.
use can_lite.Base.{
  ℕ, ◌≤◌, ◌<◌, ◌≡◌, ◌≢◌, refl, ◌∙◌, inl, inr, Bool, false, not, ◌&&◌, Option, none, some, List,
  ◌==◌, set, length, Bool-cases, Option-cases, arith,
}
use can_lite.Base.Search.{
  count, count-set, count-set_same, count-set_below, find_index-some, find_index-none,
}
use can_lite.Codec.{Message}
use can_lite.IsoTp.Channel.{
  Channel, Closure, of_sender, of_receiver, from_sender, from_receiver, configure, set_parameters,
  release, process_channel_frame, send_channel_pdu, on_closure,
}
use can_lite.IsoTp.Pool.{
  Pool, no_channel, channel, uses, find_channel, allocate_free_channel, configure_channel,
  open_connection, release_found,
}

-- A connection whose two identifiers are one.
abbrev pub loops : Channel → Bool
loops c = c.occupied && (c.rx_id == c.tx_id)

pub record IsValid (p : Pool) : Type 0 where
  pub one_owner : (can_id : ℕ) → count (uses can_id) p.channels ≤ 1
  pub two_ends : count loops p.channels ≡ 0

-- What a step of a channel's sender or receiver leaves as it is.
pub record SameEnds (c c' : Channel) : Type 0 where
  pub rx : c'.rx_id ≡ c.rx_id
  pub tx : c'.tx_id ≡ c.tx_id
  pub in_use : c'.occupied ≡ c.occupied

pub same_ends : (c : Channel) → SameEnds c c
same_ends c = record { rx = refl; tx = refl; in_use = refl }

pub uses_same : (c c' : Channel) (can_id : ℕ) → SameEnds c c' → uses can_id c' ≡ uses can_id c
uses_same c c' can_id same = rw (same.rx, same.tx, same.in_use)

pub loops_same : (c c' : Channel) → SameEnds c c' → loops c' ≡ loops c
loops_same c c' same = rw (same.rx, same.tx, same.in_use)

abbrev pub store : Pool → ℕ → Channel → Pool
store p index c = record p { channels = set p.channels index c }

pub store_same :
    (p : Pool) (index : ℕ) (c : Channel)
    → SameEnds (channel index p) c
    → IsValid p
    → IsValid (store p index c)
store_same p index c same valid = record {
  one_owner = λ can_id. omega (
    arith,
    valid.one_owner can_id,
    count-set_same (uses can_id) p.channels index c no_channel (uses_same _ c can_id same),
  );
  two_ends =
      count-set_same loops p.channels index c no_channel (loops_same _ c same) ∙ valid.two_ends;
}

pub send_channel_pdu-SameEnds :
    (c : Channel) (pdu : List ℕ) (on_done : ℕ) → SameEnds c (send_channel_pdu c pdu on_done).0
unfolding send_channel_pdu from_sender
send_channel_pdu-SameEnds c pdu on_done = record { rx = refl; tx = refl; in_use = refl }

pub on_closure-SameEnds :
    (c : Channel) (closure : Closure) (success : Bool) → SameEnds c (on_closure c closure success).0
unfolding on_closure from_sender from_receiver
on_closure-SameEnds c (of_sender sent) success = record { rx = refl; tx = refl; in_use = refl }
on_closure-SameEnds c (of_receiver status reception) success = record {
  rx = refl;
  tx = refl;
  in_use = refl;
}

pub process_channel_frame-SameEnds :
    (c : Channel) (can_id : ℕ) (frame : Message)
    → SameEnds c (process_channel_frame c can_id frame).0
unfolding process_channel_frame from_sender from_receiver
process_channel_frame-SameEnds c can_id frame = record {
  rx = ground arith;
  tx = ground arith;
  in_use = ground arith;
}

free_slot :
    (p : Pool) (index : ℕ)
    → allocate_free_channel p ≡ some index
    → (index < length p.channels) × ((channel index p).occupied ≡ false)
unfolding allocate_free_channel
free_slot p index e =
    let (short, free) = find_index-some (λ c. not c.occupied) p.channels no_channel index e in
    (short, ground (arith, free))

-- A free channel takes two identifiers that no connection uses.
configure_channel-IsValid :
    (p : Pool) (rx_id tx_id : ℕ)
    → rx_id ≢ tx_id
    → find_channel p rx_id ≡ none
    → find_channel p tx_id ≡ none
    → (found : Option ℕ) → allocate_free_channel p ≡ found
    → IsValid p
    → IsValid (configure_channel p rx_id tx_id found).0
unfolding configure_channel configure set_parameters find_channel
configure_channel-IsValid p rx_id tx_id differ no_rx no_tx none e valid = valid
configure_channel-IsValid p rx_id tx_id differ no_rx no_tx (some index) e valid =
    let (short, free) = free_slot p index e in
    let opened =
      set_parameters (configure (channel index p) rx_id tx_id) p.block_size p.separation_time in
    record {
      one_owner = λ can_id. ground (
        arith,
        valid.one_owner can_id,
        find_index-none (uses can_id) p.channels,
        count-set (uses can_id) p.channels index opened no_channel short,
      );
      two_ends =
          ground (arith, valid.two_ends, count-set loops p.channels index opened no_channel short);
    }

-- `OpenConnection` keeps every identifier in one connection at most, whatever it is asked for.
pub open_connection-IsValid :
    (p : Pool) (rx_id tx_id : ℕ) → IsValid p → IsValid (open_connection p rx_id tx_id).0
unfolding open_connection
open_connection-IsValid p rx_id tx_id valid = elim (Bool-cases (rx_id == tx_id)) [
  | inl same ↦ rw same valid
  | inr differ ↦ elim (Option-cases (find_channel p rx_id)) [
    | inl no_rx ↦ elim (Option-cases (find_channel p tx_id)) [
      | inl no_tx ↦
          rw (differ, no_rx, no_tx)
            (configure_channel-IsValid p rx_id tx_id (ground arith) no_rx no_tx _ refl valid)
      | inr (i, taken) ↦ rw (differ, no_rx, taken) valid
    ]
    | inr (i, taken) ↦ rw (differ, taken) valid
  ]
]

-- A channel that is given up has no identifier.
pub release_found-IsValid :
    (p : Pool) (found : Option ℕ) → IsValid p → IsValid (release_found p found)
unfolding release_found release
release_found-IsValid p none valid = valid
release_found-IsValid p (some index) valid = record {
  one_owner = λ can_id. omega (
    arith,
    valid.one_owner can_id,
    count-set_below (uses can_id) p.channels index (release (channel index p)) refl,
  );
  two_ends = omega (
    arith,
    valid.two_ends,
    count-set_below loops p.channels index (release (channel index p)) refl,
  );
}
