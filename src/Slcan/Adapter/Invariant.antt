-- ===== src/Slcan/Adapter/Invariant.antt =====
-- can-lite/drivers/implementation/SlcanAdapter.cpp: runs of the adapter, and what its observers are
-- told of the link.
use can_lite.Base.{ℕ, refl, Bool, Option, List, [], ◌∷◌, ◌++◌, if◌then◌else◌}
use can_lite.Codec.{Message}
use can_lite.Hal.{CanIds}
use can_lite.Slcan.Adapter.{
  Adapter, Event, reported, SerialPortOpenResult, disconnect, connect, send_data, receive_data,
  process_read_event, handle_handshake_timeout, max_read_chunks, no_answer,
}
use can_lite.Slcan.Adapter.Link.{
  IsValid, Kept, then-Kept, either-Kept, idle-Kept, close-Kept, disconnect-Kept, read_chunks-Kept,
  send_data-Kept, connect-Kept,
}

-- What happens to the adapter; the port's answers come with it.
pub data Input (Ident App : Type 0) : Type 0 where
  connecting : ℕ → SerialPortOpenResult → Bool → Input Ident App
  disconnecting timed_out : Input Ident App
  sending : Ident → Message → App → Bool → Input Ident App
  reading : List (Option (List ℕ)) → Input Ident App
  receiving : Bool → Input Ident App

module _ (hal : CanIds) {App : Type 0} where
  -- The timer's handler is called only while the timer runs.
  unfoldable pub step : Adapter App → Input (hal.Ident) App → Adapter App × List (Event (hal.Ident))
  unfolding connect disconnect send_data process_read_event receive_data handle_handshake_timeout
  step a (connecting bitrate result taken) =
      let (a', out, connected) = connect hal a bitrate result taken in (a', out)
  step a disconnecting = disconnect hal a
  step a timed_out = if a.handshake_timer then handle_handshake_timeout hal a else (a, [])
  step a (sending id content action taken) = send_data hal a id content action taken
  step a (reading answers) = process_read_event hal a answers
  step a (receiving has_action) = (receive_data hal a has_action, [])

  unfoldable pub run :
      Adapter App → List (Input (hal.Ident) App) → Adapter App × List (Event (hal.Ident))
  unfolding step
  run a [] = (a, [])
  run a (input ∷ inputs) =
      let (a1, out) = step a input in let (a2, more) = run a1 inputs in (a2, out ++ more)

  step-Kept :
      (a : Adapter App) (input : Input (hal.Ident) App)
      → IsValid a
      → Kept a (step a input).0 (step a input).1
  unfolding step send_data receive_data process_read_event handle_handshake_timeout
  step-Kept a (connecting bitrate result taken) valid =
      connect-Kept hal a bitrate result taken valid
  step-Kept a disconnecting valid = disconnect-Kept hal a valid
  step-Kept a timed_out valid =
      either-Kept a a.handshake_timer (handle_handshake_timeout hal a) (a, [])
        (close-Kept hal a (reported no_answer ∷ [])) (idle-Kept a valid)
  step-Kept a (sending id content action taken) valid =
      send_data-Kept hal a id content action taken valid
  step-Kept a (reading answers) valid = read_chunks-Kept hal max_read_chunks answers a valid
  step-Kept a (receiving has_action) valid = record {
    valid = record { timer = valid.timer; replies = valid.replies };
    known = refl;
  }

  -- Over any run of an adapter, whatever the port answers: when its timer ran exactly while the link
  -- opened, with two replies at most by then, it still does, and what the observers were told last of
  -- the connection, from what was true at the start, is whether the link is open at the end.
  pub run-Kept :
      (inputs : List (Input (hal.Ident) App)) (a : Adapter App)
      → IsValid a
      → Kept a (run a inputs).0 (run a inputs).1
  unfolding run
  run-Kept [] a valid = idle-Kept a valid
  run-Kept (input ∷ inputs) a valid =
      let (a1, out) = step a input in
      let first = step-Kept a input valid in
      then-Kept a a1 (run a1 inputs).0 out (run a1 inputs).1 first (run-Kept inputs a1 first.valid)
