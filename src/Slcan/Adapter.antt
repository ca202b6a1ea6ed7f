-- ===== src/Slcan/Adapter.antt =====
-- can-lite/drivers/implementation/SlcanAdapter.cpp: the handshake with an slcan device and the frames
-- after it. The serial port is outside: what `Open`, `Write` and `Read` return is an argument, and
-- the calls of it are events, in order. The text of an error is its reason; a completion handler of
-- the type `App` is kept until the event dispatcher runs.
pub mod Link
pub mod Invariant
mod Tests
use can_lite.Base.{
  ℕ, zero, suc, ◌+◌, Bool, true, false, not, ◌&&◌, ◌||◌, Option, none, some, List, [], ◌∷◌, ◌++◌,
  ◌==◌, if◌then◌else◌, length,
}
use can_lite.Base.Bits.{u8}
use can_lite.Codec.{Message}
use can_lite.Hal.{CanIds}
use can_lite.Slcan
use can_lite.Slcan.{
  SlcanDecoder, SlcanFrame, Item, frame, acknowledged, error, feed, slcan_bitrate_code,
  slcan_open_commands, slcan_close_command, encode_slcan_frame,
}

abbrev pub read_chunk_size : ℕ
read_chunk_size = 128

abbrev pub max_read_chunks : ℕ
max_read_chunks = 16

abbrev pub close_reply : ℕ
close_reply = 1

abbrev pub open_command_replies : ℕ
open_command_replies = 3

pub data SerialPortOpenResult : Type 0 where
  opened not_found access_denied in_use failed : SerialPortOpenResult

pub data LinkState : Type 0 where
  closed_link opening_link open_link : LinkState

pub data Reason : Type 0 where
  unsupported_bitrate not_configured no_answer not_sent command_rejected open_rejected
        disconnected :
      Reason
  not_opened : SerialPortOpenResult → Reason

pub data Event (Ident : Type 0) : Type 0 where
  port_opened port_closed : Event Ident
  written : List ℕ → Event Ident
  reported : Reason → Event Ident
  connection_changed : Bool → Event Ident
  frame_logged : Bool → ℕ → Message → Event Ident
  delivered : Ident → Message → Event Ident

pub record Adapter (App : Type 0) : Type 0 where
  pub decoder : SlcanDecoder
  pub state : LinkState
  pub replies_received : ℕ
  pub handshake_timer : Bool
  pub has_receive_callback : Bool
  pub pending_completion : Option (App × Bool)

abbrev pub is_open : LinkState → Bool
is_open open_link = true
is_open _ = false

abbrev pub is_closed : LinkState → Bool
is_closed closed_link = true
is_closed _ = false

abbrev pub is_opened : SerialPortOpenResult → Bool
is_opened opened = true
is_opened _ = false

abbrev pub is_event : Slcan.Event → Slcan.Event → Bool
is_event frame frame = true
is_event acknowledged acknowledged = true
is_event error error = true
is_event _ _ = false

module _ (hal : CanIds) {App : Type 0} where
  unfoldable pub close :
      Adapter App → List (Event (hal.Ident)) → Adapter App × List (Event (hal.Ident))
  close a reports = (
    record a { handshake_timer = false; state = closed_link },
    port_closed ∷ reports ++ connection_changed false ∷ [],
  )

  unfoldable pub disconnect : Adapter App → Adapter App × List (Event (hal.Ident))
  unfolding close
  disconnect a =
      let (a', out) = close a [] in
      if is_closed a.state then (a, []) else (a', written slcan_close_command ∷ out)

  -- `Connect` after the disconnection, with the code of the bitrate.
  unfoldable pub connect_closed :
      Adapter App
      → Option ℕ
      → SerialPortOpenResult
      → Bool
      → Adapter App × List (Event (hal.Ident)) × Bool
  connect_closed a none result taken = (a, reported unsupported_bitrate ∷ [], false)
  connect_closed a (some code) result taken =
      if not (is_opened result)
      then (a, port_opened ∷ reported (not_opened result) ∷ [], false)
      else (if not taken
          then (
            a,
            port_opened
                ∷ written (slcan_open_commands code)
                ∷ port_closed
                ∷ reported not_configured
                ∷ [],
            false,
          )
          else (
            record a {
              decoder = Slcan.reset a.decoder;
              state = opening_link;
              replies_received = 0;
              handshake_timer = true;
            },
            port_opened ∷ written (slcan_open_commands code) ∷ [],
            true,
          ))

  -- `if (IsConnected()) Disconnect()`
  unfoldable pub drop_link : Adapter App → Adapter App × List (Event (hal.Ident))
  unfolding disconnect
  drop_link a = if is_open a.state then disconnect a else (a, [])

  unfoldable pub connect :
      Adapter App → ℕ → SerialPortOpenResult → Bool → Adapter App × List (Event (hal.Ident)) × Bool
  unfolding drop_link connect_closed
  connect a bitrate result taken =
      let (a1, out) = drop_link a in
      let (a2, more, connected) = connect_closed a1 (slcan_bitrate_code bitrate) result taken in
      (a2, out ++ more, connected)

  abbrev pub schedule_completion : Adapter App → App → Bool → Adapter App
  schedule_completion a action result = record a { pending_completion = some (action, result) }

  unfoldable pub send_data :
      Adapter App → hal.Ident → Message → App → Bool → Adapter App × List (Event (hal.Ident))
  unfolding encode_slcan_frame
  send_data a id content action taken =
      let raw_id = hal.get_29_bit_id id in
      if not (is_open a.state) || not (hal.is_29_bit_id id)
      then (schedule_completion a action false, [])
      else (
        schedule_completion a action taken,
        written (encode_slcan_frame raw_id true content)
            ∷ (if taken then frame_logged true raw_id content else reported not_sent)
            ∷ [],
      )

  unfoldable pub receive_data : Adapter App → Bool → Adapter App
  receive_data a has_action = record a { has_receive_callback = has_action }

  unfoldable pub complete_handshake : Adapter App → Adapter App × List (Event (hal.Ident))
  complete_handshake a =
      (record a { handshake_timer = false; state = open_link }, connection_changed true ∷ [])

  unfoldable pub handshake : Adapter App → Item → Adapter App × List (Event (hal.Ident))
  unfolding complete_handshake close
  handshake a item =
      let counted = record a { replies_received = u8 (a.replies_received + 1) } in
      if is_event item.event frame
      then (a, [])
      else (if counted.replies_received == close_reply
          then (counted, [])
          else (if is_event item.event error
              then close counted (reported open_rejected ∷ [])
              else (if counted.replies_received == open_command_replies
                  then complete_handshake counted
                  else (counted, []))))

  unfoldable pub deliver : Adapter App → SlcanFrame → List (Event (hal.Ident))
  deliver a received =
      frame_logged false received.id received.content
      ∷ (if a.has_receive_callback
          then delivered (hal.create_29_bit_id received.id) received.content ∷ []
          else [])

  unfoldable pub dispatch_running : Adapter App → Item → Adapter App × List (Event (hal.Ident))
  unfolding deliver
  dispatch_running a item =
      if is_event item.event error
      then (a, reported command_rejected ∷ [])
      else (if is_event item.event frame && item.item_frame.extended && not item.item_frame.remote
          then (a, deliver a item.item_frame)
          else (a, []))

  -- `Dispatch` in each state of the link.
  unfoldable pub dispatch_in :
      LinkState → Adapter App → Item → Adapter App × List (Event (hal.Ident))
  unfolding handshake dispatch_running
  dispatch_in opening_link a item = handshake a item
  dispatch_in _ a item = dispatch_running a item

  unfoldable pub dispatch : Adapter App → Option Item → Adapter App × List (Event (hal.Ident))
  unfolding dispatch_in
  dispatch a none = (a, [])
  dispatch a (some item) = dispatch_in a.state a item

  -- The loop over the bytes that were read, while the link is not closed.
  unfoldable pub feed_bytes : Adapter App → List ℕ → Adapter App × List (Event (hal.Ident))
  unfolding dispatch feed
  feed_bytes a [] = (a, [])
  feed_bytes a (byte ∷ bytes) =
      let (decoder, item) = feed a.decoder byte in
      let (a1, out) = dispatch (record a { decoder = decoder }) item in
      let (a2, more) = feed_bytes a1 bytes in
      if is_closed a.state then (a, []) else (a2, out ++ more)

  -- `ReadAvailable`, with what `Read` returns; `none` is a port that is gone.
  unfoldable pub read_available :
      Adapter App → Option (List ℕ) → Adapter App × List (Event (hal.Ident)) × Bool
  unfolding feed_bytes close
  read_available a none = let (a', out) = close a (reported disconnected ∷ []) in (a', out, false)
  read_available a (some bytes) =
      let (a', out) = feed_bytes a bytes in (a', out, length bytes == read_chunk_size)

  -- `ProcessReadEvent`: at most so many chunks, from the answers that `Read` gives in turn.
  unfoldable pub read_chunks :
      ℕ → Adapter App → List (Option (List ℕ)) → Adapter App × List (Event (hal.Ident))
  unfolding read_available
  read_chunks zero a answers = (a, [])
  read_chunks (suc chunks) a [] = (a, [])
  read_chunks (suc chunks) a (answer ∷ answers) =
      let (a1, out, full) = read_available a answer in
      let (a2, more) = read_chunks chunks a1 answers in
      if is_closed a.state then (a, []) else (if full then (a2, out ++ more) else (a1, out))

  unfoldable pub process_read_event :
      Adapter App → List (Option (List ℕ)) → Adapter App × List (Event (hal.Ident))
  unfolding read_chunks
  process_read_event a answers = read_chunks max_read_chunks a answers

  -- The handshake's timer runs out.
  unfoldable pub handle_handshake_timeout : Adapter App → Adapter App × List (Event (hal.Ident))
  unfolding close
  handle_handshake_timeout a = close a (reported no_answer ∷ [])
