-- ===== src/IsoTp/Pool/Connections.antt =====
-- can-lite/transport/IsoTpTransportImpl.cpp: which connections are found after one was opened,
-- registered or released.
use can_lite.Base.{
  ℕ, ◌<◌, ◌≡◌, refl, sym, ap, ◌∙◌, inl, inr, true, not, ◌&&◌, ◌||◌, Option, none, some, ◌==◌,
  if◌then◌else◌, set, length, get_or-set, length-set, Bool-cases, subst, arith,
}
use can_lite.Base.Search.{count-set, find_index-some, find_index_absent, find_index_unique}
use can_lite.IsoTp.Channel.{Channel, configure, enable_reception, set_parameters, release}
use can_lite.IsoTp.Pool.{
  Pool, no_channel, channel, uses, is_none, find_channel, checked_connection, find_connection,
  allocate_free_channel, configure_channel, open_connection, enable_opened, register_found,
  register_receive_channel, release_found, release_channel,
}
use can_lite.IsoTp.Pool.Invariant.{IsValid, store, store_same, open_connection-IsValid}

-- The channel at an index is the open connection of two identifiers.
pub record IsOpen (p : Pool) (rx_id tx_id index : ℕ) : Type 0 where
  pub short : index < length p.channels
  pub taken : (channel index p).occupied ≡ true
  pub receives : (channel index p).rx_id ≡ rx_id
  pub sends : (channel index p).tx_id ≡ tx_id

find_connection_lem :
    (p : Pool) (rx_id tx_id index : ℕ)
    → IsValid p
    → IsOpen p rx_id tx_id index
    → find_connection p rx_id tx_id ≡ some index
unfolding find_connection checked_connection find_channel
find_connection_lem p rx_id tx_id index valid opened =
    let there = opened.taken in
    let rx = opened.receives in
    let tx = opened.sends in
    let first =
      find_index_unique (uses rx_id) p.channels index no_channel (valid.one_owner rx_id)
        opened.short (ground arith) in
    ground (arith, first, rx, tx)

checked_connection-IsOpen :
    (p : Pool) (rx_id tx_id index : ℕ) (found : Option ℕ)
    → find_channel p rx_id ≡ found
    → checked_connection p rx_id tx_id found ≡ some index
    → IsOpen p rx_id tx_id index
unfolding checked_connection find_channel
checked_connection-IsOpen p rx_id tx_id index none found e = absurd cc
checked_connection-IsOpen p rx_id tx_id index (some first) found e =
    let (short, holds) = find_index-some (uses rx_id) p.channels no_channel first found in
    let c : Channel = channel first p in
    elim (Bool-cases ((c.rx_id == rx_id) && (c.tx_id == tx_id))) [
      | inl matches ↦
          let same : first ≡ index = ground (arith, matches) in
          rw (sym same) (record {
            short = short;
            taken = ground (arith, holds);
            receives = ground (arith, matches);
            sends = ground (arith, matches);
          })
      | inr other ↦ let bad : none ≡ some index = ground (arith, other) in absurd cc
    ]

IsOpen-of :
    (p : Pool) (rx_id tx_id index : ℕ)
    → find_connection p rx_id tx_id ≡ some index
    → IsOpen p rx_id tx_id index
unfolding find_connection
IsOpen-of p rx_id tx_id index e = checked_connection-IsOpen p rx_id tx_id index _ refl e

-- A channel that keeps its ends stays the open connection of them.
enabled-IsOpen :
    (p : Pool) (rx_id tx_id index : ℕ)
    → IsOpen p rx_id tx_id index
    → IsOpen (store p index (enable_reception (channel index p))) rx_id tx_id index
unfolding enable_reception
enabled-IsOpen p rx_id tx_id index opened =
    let same =
      get_or-set p.channels index (enable_reception (channel index p)) no_channel opened.short in
    record {
      short =
          omega
            (arith, length-set p.channels index (enable_reception (channel index p)), opened.short);
      taken = ap (λ (c : Channel). c.occupied) same ∙ opened.taken;
      receives = ap (λ (c : Channel). c.rx_id) same ∙ opened.receives;
      sends = ap (λ (c : Channel). c.tx_id) same ∙ opened.sends;
    }

-- What registering a pair of identifiers achieves.
pub Registered : Pool → ℕ → ℕ → Type 0
Registered p data_id fc_id =
    (index : ℕ) × (find_connection p data_id fc_id ≡ some index)
    × ((channel index p).reception_enabled ≡ true)

enable_opened-Registered :
    (p : Pool) (rx_id tx_id index : ℕ)
    → IsValid p
    → IsOpen p rx_id tx_id index
    → Registered (enable_opened (p, some index)).0 rx_id tx_id
unfolding enable_opened enable_reception Registered
enable_opened-Registered p rx_id tx_id index valid opened =
    let same =
      get_or-set p.channels index (enable_reception (channel index p)) no_channel opened.short in
    (
      index,
      find_connection_lem _ rx_id tx_id index
          (store_same p index _ (record { rx = refl; tx = refl; in_use = refl }) valid)
          (enabled-IsOpen p rx_id tx_id index opened),
      ap (λ (c : Channel). c.reception_enabled) same,
    )

register_opened :
    (p : Pool) (data_id fc_id : ℕ) (opened : Option ℕ)
    → IsValid p
    → ((index : ℕ) → opened ≡ some index → IsOpen p data_id fc_id index)
    → (enable_opened (p, opened)).1 ≡ true
    → Registered (enable_opened (p, opened)).0 data_id fc_id
unfolding enable_opened
register_opened p data_id fc_id none valid at e = absurd cc
register_opened p data_id fc_id (some index) valid at e =
    enable_opened-Registered p data_id fc_id index valid (at index refl)

configure_channel-IsOpen :
    (p : Pool) (rx_id tx_id : ℕ) (free : Option ℕ)
    → allocate_free_channel p ≡ free
    → (index : ℕ) → (configure_channel p rx_id tx_id free).1 ≡ some index
    → IsOpen (configure_channel p rx_id tx_id free).0 rx_id tx_id index
unfolding configure_channel configure set_parameters allocate_free_channel
configure_channel-IsOpen p rx_id tx_id none found index e = absurd cc
configure_channel-IsOpen p rx_id tx_id (some first) found index e =
    let (short, holds) = find_index-some (λ c. not c.occupied) p.channels no_channel first found in
    let opened =
      set_parameters (configure (channel first p) rx_id tx_id) p.block_size p.separation_time in
    let same = get_or-set p.channels first opened no_channel short in
    let here : first ≡ index = ground (arith, e) in
    subst (λ i. IsOpen (store p first opened) rx_id tx_id i) here
      (record {
        short = omega (arith, length-set p.channels first opened, short);
        taken = ap (λ (c : Channel). c.occupied) same;
        receives = ap (λ (c : Channel). c.rx_id) same;
        sends = ap (λ (c : Channel). c.tx_id) same;
      })

open_connection-IsOpen :
    (p : Pool) (rx_id tx_id index : ℕ)
    → (open_connection p rx_id tx_id).1 ≡ some index
    → IsOpen (open_connection p rx_id tx_id).0 rx_id tx_id index
unfolding open_connection
open_connection-IsOpen p rx_id tx_id index e =
    elim (Bool-cases (
      (rx_id == tx_id)
      || not (is_none (find_channel p rx_id))
      || not (is_none (find_channel p tx_id)))) [
        | inl refused ↦ let bad : none ≡ some index = ground (arith, refused) in absurd cc
        | inr free ↦ rw free (
            configure_channel-IsOpen p rx_id tx_id _ refl index (
              subst
                (λ b.
                  (if b
                    then (p, none)
                    else configure_channel p rx_id tx_id (allocate_free_channel p)).1
                  ≡ some index)
                free e))
      ]

register_found-Registered :
    (p : Pool) (data_id fc_id : ℕ) (found : Option ℕ)
    → IsValid p
    → find_connection p data_id fc_id ≡ found
    → (register_found p data_id fc_id found).1 ≡ true
    → Registered (register_found p data_id fc_id found).0 data_id fc_id
unfolding register_found
register_found-Registered p data_id fc_id none valid found e =
    register_opened _ data_id fc_id _ (open_connection-IsValid p data_id fc_id valid)
      (open_connection-IsOpen p data_id fc_id) e
register_found-Registered p data_id fc_id (some index) valid found e =
    elim (Bool-cases (channel index p).reception_enabled) [
      | inl enabled ↦ absurd (ground (arith, enabled))
      | inr idle ↦ rw idle (
          enable_opened-Registered p data_id fc_id index valid
            (IsOpen-of p data_id fc_id index found))
    ]

-- In a pool in which every identifier belongs to one open channel at most: when
-- `RegisterReceiveChannel` returns true, `FindConnection` finds the channel of the two identifiers,
-- and it is enabled for reception.
pub register_receive_channel-find_connection :
    (p : Pool) (data_id fc_id : ℕ)
    → IsValid p
    → (register_receive_channel p data_id fc_id).1 ≡ true
    → Registered (register_receive_channel p data_id fc_id).0 data_id fc_id
unfolding register_receive_channel
register_receive_channel-find_connection p data_id fc_id valid e =
    register_found-Registered p data_id fc_id _ valid refl e

released-unused :
    (p : Pool) (index can_id : ℕ)
    → IsValid p
    → index < length p.channels
    → uses can_id (channel index p) ≡ true
    → find_channel (release_found p (some index)) can_id ≡ none
unfolding find_channel release_found release
released-unused p index can_id valid short holds =
    find_index_absent (uses can_id) (set p.channels index (release (channel index p))) (
      ground (
        arith,
        valid.one_owner can_id,
        holds,
        count-set (uses can_id) p.channels index (release (channel index p)) no_channel short,
      ))

-- In a pool in which every identifier belongs to one open channel at most: `ReleaseChannel` under the
-- receiving identifier of an open connection leaves both of its identifiers without a channel.
pub release_channel-find_channel :
    (p : Pool) (data_id fc_id index : ℕ)
    → IsValid p
    → find_connection p data_id fc_id ≡ some index
    → (find_channel (release_channel p data_id) data_id ≡ none)
      × (find_channel (release_channel p data_id) fc_id ≡ none)
unfolding release_channel find_channel
release_channel-find_channel p data_id fc_id index valid found =
    let opened = IsOpen-of p data_id fc_id index found in
    let there = opened.taken in
    let rx = opened.receives in
    let tx = opened.sends in
    let first : find_channel p data_id ≡ some index =
      find_index_unique (uses data_id) p.channels index no_channel (valid.one_owner data_id)
        opened.short (ground arith) in
    rw first (
      released-unused p index data_id valid opened.short (ground arith),
      released-unused p index fc_id valid opened.short (ground arith),
    )
