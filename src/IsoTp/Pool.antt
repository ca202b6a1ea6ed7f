-- ===== src/IsoTp/Pool.antt =====
-- can-lite/transport/IsoTpTransportImpl.cpp: the pool of channels. A pointer to a channel is its
-- index. `OnRawSend`, `OnPduReady` and `OnAbort` pass on what a channel calls, to the frame
-- transport and to the callbacks that are set, so they are the channel's events.
pub mod Invariant
pub mod Connections
pub mod Reachable
mod Tests
use can_lite.Base.{
  ℕ, Bool, true, false, not, ◌&&◌, ◌||◌, Option, none, some, List, [], ◌∷◌, ◌==◌, if◌then◌else◌,
  get_or, set,
}
use can_lite.Base.Search.{find_index}
use can_lite.Codec.{Message}
use can_lite.IsoTp.Sender.{new_sender}
use can_lite.IsoTp.Receiver.{new_receiver}
use can_lite.IsoTp.Channel.{
  Channel, Event, configure, enable_reception, set_parameters, release, process_channel_frame,
  send_channel_pdu,
}

pub record Pool : Type 0 where
  pub channels : List Channel
  pub block_size : ℕ
  pub separation_time : ℕ

-- A channel of which nothing is read.
abbrev pub no_channel : Channel
no_channel = record {
  rx_id = 0;
  tx_id = 0;
  occupied = false;
  reception_enabled = false;
  sender = new_sender 0;
  receiver = new_receiver 0;
}

abbrev pub channel : ℕ → Pool → Channel
channel index p = get_or p.channels index no_channel

abbrev pub uses : ℕ → Channel → Bool
uses can_id c = c.occupied && ((c.rx_id == can_id) || (c.tx_id == can_id))

unfoldable pub find_channel : Pool → ℕ → Option ℕ
find_channel p can_id = find_index (uses can_id) p.channels

-- The second half of `FindConnection`.
unfoldable pub checked_connection : Pool → ℕ → ℕ → Option ℕ → Option ℕ
checked_connection p rx_id tx_id none = none
checked_connection p rx_id tx_id (some index) =
    if ((channel index p).rx_id == rx_id) && ((channel index p).tx_id == tx_id)
    then some index
    else none

unfoldable pub find_connection : Pool → ℕ → ℕ → Option ℕ
unfolding checked_connection
find_connection p rx_id tx_id = checked_connection p rx_id tx_id (find_channel p rx_id)

unfoldable pub allocate_free_channel : Pool → Option ℕ
allocate_free_channel p = find_index (λ c. not c.occupied) p.channels

abbrev pub is_none : Option ℕ → Bool
is_none none = true
is_none (some index) = false

-- The second half of `OpenConnection`.
unfoldable pub configure_channel : Pool → ℕ → ℕ → Option ℕ → Pool × Option ℕ
unfolding configure set_parameters
configure_channel p rx_id tx_id none = (p, none)
configure_channel p rx_id tx_id (some index) =
    let opened =
      set_parameters (configure (channel index p) rx_id tx_id) p.block_size p.separation_time in
    (record p { channels = set p.channels index opened }, some index)

unfoldable pub open_connection : Pool → ℕ → ℕ → Pool × Option ℕ
unfolding configure_channel
open_connection p rx_id tx_id =
    if (rx_id == tx_id)
      || not (is_none (find_channel p rx_id))
      || not (is_none (find_channel p tx_id))
    then (p, none)
    else configure_channel p rx_id tx_id (allocate_free_channel p)

-- `EnableReception` on the channel that was opened, if one was.
unfoldable pub enable_opened : Pool × Option ℕ → Pool × Bool
unfolding enable_reception
enable_opened (p, none) = (p, false)
enable_opened (p, some index) =
    (record p { channels = set p.channels index (enable_reception (channel index p)) }, true)

unfoldable pub register_found : Pool → ℕ → ℕ → Option ℕ → Pool × Bool
unfolding enable_opened open_connection
register_found p data_id fc_id none = enable_opened (open_connection p data_id fc_id)
register_found p data_id fc_id (some index) =
    if (channel index p).reception_enabled then (p, false) else enable_opened (p, some index)

unfoldable pub register_receive_channel : Pool → ℕ → ℕ → Pool × Bool
unfolding register_found
register_receive_channel p data_id fc_id =
    register_found p data_id fc_id (find_connection p data_id fc_id)

unfoldable pub release_found : Pool → Option ℕ → Pool
unfolding release
release_found p none = p
release_found p (some index) = record p {
  channels = set p.channels index (release (channel index p));
}

unfoldable pub release_channel : Pool → ℕ → Pool
unfolding release_found
release_channel p data_id = release_found p (find_channel p data_id)

unfoldable pub send_on : Pool → ℕ → List ℕ → ℕ → Pool × List Event × Bool
unfolding send_channel_pdu
send_on p index pdu on_done =
    let (c, events, accepted) = send_channel_pdu (channel index p) pdu on_done in
    (record p { channels = set p.channels index c }, events, accepted)

-- A connection that was opened for a PDU and does not accept it is released again.
unfoldable pub send_on_opened : Pool × Option ℕ → List ℕ → ℕ → Pool × List Event × Bool
unfolding send_on release_found
send_on_opened (p, none) pdu on_done = (p, [], false)
send_on_opened (p, some index) pdu on_done =
    let (p', events, accepted) = send_on p index pdu on_done in
    if accepted then (p', events, true) else (release_found p' (some index), events, false)

unfoldable pub send_found : Pool → ℕ → ℕ → List ℕ → ℕ → Option ℕ → Pool × List Event × Bool
unfolding send_on send_on_opened open_connection
send_found p data_id fc_id pdu on_done (some index) = send_on p index pdu on_done
send_found p data_id fc_id pdu on_done none =
    send_on_opened (open_connection p fc_id data_id) pdu on_done

unfoldable pub send_pdu : Pool → ℕ → ℕ → List ℕ → ℕ → Pool × List Event × Bool
unfolding send_found
send_pdu p data_id fc_id pdu on_done =
    send_found p data_id fc_id pdu on_done (find_connection p fc_id data_id)

-- The loop of `ProcessFrame` over the channels.
unfoldable pub process_in : List Channel → ℕ → Message → List Channel × List Event × Bool
unfolding process_channel_frame
process_in [] can_id frame = ([], [], false)
process_in (c ∷ channels) can_id frame =
    let (rest, more, taken_later) = process_in channels can_id frame in
    let (c', events, taken) = process_channel_frame c can_id frame in
    if c.occupied && taken then (c' ∷ channels, events, true) else (c ∷ rest, more, taken_later)

unfoldable pub process_frame : Pool → ℕ → Message → Pool × List Event × Bool
unfolding process_in
process_frame p can_id frame =
    let (channels, events, taken) = process_in p.channels can_id frame in
    (record p { channels = channels }, events, taken)
