-- ===== src/Firmware/Session.antt =====
-- can-lite/categories/firmware_upgrade/FirmwareUpgradeCategoryServer.cpp: which messages are refused,
-- and runs of the category: how many acknowledgements are sent and how many commands the observer is
-- told of.
use can_lite.Base.{
  ℕ, ◌+◌, ◌≡◌, refl, Bool, true, false, ◌&&◌, ◌||◌, List, [], ◌∷◌, ◌++◌, ◌==◌, leb, if◌then◌else◌,
  length, arith,
}
use can_lite.Base.Search.{count, count-append}
use can_lite.Codec.{Message}
use can_lite.Payload.{reader, read_uint16, read_uint32, read_remaining, take_bytes}
use can_lite.Server.{command_ack}
use can_lite.Firmware.{
  fwu_begin_upgrade_id, fwu_data_block_id, fwu_verify_id, fwu_query_progress_id,
}
use can_lite.Firmware.Server.{
  Upgrade, Output, reply, on_session_timeout, handle, handle_begin_upgrade, handle_data_block,
  handle_verify, handle_activate, handle_abort, handle_query_progress, handle_session_timeout,
  complete_begin_upgrade, complete_data_block, complete_verify, complete_activate,
  complete_with_status, complete_query_progress, respond, start_session_timer, stop_session_timer,
}
use can_lite.Firmware.RoundTrip.{
  Result, begun, block_stored, verified, activated, progress, aborted, completed,
}

-- The bytes that a command's fields take.
abbrev pub needed : ℕ → ℕ
needed message_type =
    if message_type == fwu_data_block_id
    then 2
    else (if (message_type == fwu_begin_upgrade_id) || (message_type == fwu_verify_id)
        then 4
        else 0)

abbrev pub accepts : ℕ → Message → Bool
accepts message_type content =
    leb message_type fwu_query_progress_id && leb (needed message_type) (length content)

read_uint32_valid :
    (content : Message) → (read_uint32 (reader content)).0.valid ≡ leb 4 (length content)
unfolding read_uint32 take_bytes reader
read_uint32_valid content = ground arith

read_uint16_valid :
    (content : Message)
    → (read_remaining (read_uint16 (reader content)).0).0.valid ≡ leb 2 (length content)
unfolding read_uint16 read_remaining take_bytes reader
read_uint16_valid content = ground arith

-- Whether or not there is an observer: a message is handled exactly when its type is one of the six
-- commands and it is long enough for the command's fields; what is not handled changes nothing, sends
-- nothing and tells the observer nothing.
pub handle-accepts :
    (max_size : ℕ) (u : Upgrade) (message_type : ℕ) (content : Message)
    → let outcome = handle max_size u message_type content in
      (outcome.2 ≡ accepts message_type content)
      × (accepts message_type content ≡ false → outcome ≡ (u, [], false))
unfolding handle handle_begin_upgrade handle_data_block handle_verify handle_activate handle_abort
    handle_query_progress
handle-accepts max_size u message_type content =
    let r32 = read_uint32_valid content in
    let r16 = read_uint16_valid content in
    (ground (arith, r32, r16), λ refused. ground (arith, r32, r16, refused))

-- What happens to the category: a message arrives, the observer is done with a command, or the
-- session timer runs out.
pub data Input : Type 0 where
  received : ℕ → Message → Input
  finished : Result → Input
  timer_expired : Input

abbrev completed_state : ℕ → Upgrade → Result → Upgrade
completed_state max_size u (begun status page_size) =
    (complete_begin_upgrade max_size u status page_size).0
completed_state max_size u (block_stored block_index status) =
    (complete_data_block max_size u block_index status).0
completed_state max_size u _ = u

unfoldable pub step : ℕ → Upgrade → Input → Upgrade × List Output
unfolding handle complete_begin_upgrade complete_data_block complete_verify complete_activate
    complete_query_progress handle_session_timeout
step max_size u (received message_type content) =
    let (u', out, taken) = handle max_size u message_type content in (u', out)
step max_size u (finished result) = (completed_state max_size u result, completed max_size u result)
step max_size u timer_expired = handle_session_timeout u

-- All outputs, in order.
unfoldable pub run : ℕ → Upgrade → List Input → List Output
unfolding step
run max_size u [] = []
run max_size u (input ∷ inputs) =
    let (u', out) = step max_size u input in out ++ run max_size u' inputs

abbrev pub is_ack : Output → Bool
is_ack (reply (command_ack command_id status)) = true
is_ack _ = false

-- A command that was handed to the observer.
abbrev pub is_call : Output → Bool
is_call (reply r) = false
is_call on_session_timeout = false
is_call _ = true

abbrev pub is_command : Input → Bool
is_command (received message_type content) = accepts message_type content
is_command _ = false

abbrev pub is_completion : Input → Bool
is_completion (finished result) = true
is_completion _ = false

abbrev tally : Bool → ℕ
tally b = if b then 1 else 0

completed_lem :
    (max_size : ℕ) (u : Upgrade) (result : Result)
    → (count is_ack (completed max_size u result) ≡ 1)
      × (count is_call (completed max_size u result) ≡ 0)
      × ((completed_state max_size u result).has_observer ≡ u.has_observer)
unfolding complete_begin_upgrade complete_data_block complete_verify complete_activate
    complete_with_status complete_query_progress respond start_session_timer count
completed_lem max_size u (begun status page_size) = (ground arith, ground arith, ground arith)
completed_lem max_size u (block_stored block_index status) =
    (ground arith, ground arith, ground arith)
completed_lem max_size u (verified status) = (ground arith, ground arith, refl)
completed_lem max_size u (activated status) = (ground arith, ground arith, refl)
completed_lem max_size u (progress state blocks_received total_blocks) =
    (ground arith, ground arith, refl)
completed_lem max_size u aborted = (refl, refl, refl)

handle_lem :
    (max_size : ℕ) (u : Upgrade) (message_type : ℕ) (content : Message)
    → let (u', out, taken) = handle max_size u message_type content in
      let accepted = tally (accepts message_type content) in
      (count is_ack out ≡ (if u.has_observer then 0 else accepted))
      × (count is_call out ≡ (if u.has_observer then accepted else 0))
      × (u'.has_observer ≡ u.has_observer)
unfolding handle handle_begin_upgrade handle_data_block handle_verify handle_activate handle_abort
    handle_query_progress complete_begin_upgrade complete_data_block complete_verify
    complete_activate complete_with_status complete_query_progress respond start_session_timer
    stop_session_timer count
handle_lem max_size u message_type content =
    let r32 = read_uint32_valid content in
    let r16 = read_uint16_valid content in
    (ground (arith, r32, r16), ground (arith, r32, r16), ground (arith, r32, r16))

-- The acknowledgements and the calls of a step, by what the input is and whether there is an observer.
record Tallied (before after : Upgrade) (out : List Output) (commands completions : ℕ)
    : Type 0 where
  acks : count is_ack out ≡ completions + (if before.has_observer then 0 else commands)
  calls : count is_call out ≡ (if before.has_observer then commands else 0)
  observed : after.has_observer ≡ before.has_observer

step-Tallied :
    (max_size : ℕ) (u : Upgrade) (input : Input)
    → let (u', out) = step max_size u input in
      Tallied u u' out (tally (is_command input)) (tally (is_completion input))
unfolding step handle_session_timeout count
step-Tallied max_size u (received message_type content) =
    let (acks, calls, same) = handle_lem max_size u message_type content in
    record { acks = omega (arith, acks); calls = calls; observed = same }
step-Tallied max_size u (finished result) =
    let (acks, calls, same) = completed_lem max_size u result in
    record { acks = ground (arith, acks); calls = ground (arith, calls); observed = same }
step-Tallied max_size u timer_expired = record {
  acks = ground arith;
  calls = ground arith;
  observed = refl;
}

-- Over any run of a category with an observer: it is told of as many commands as were accepted, and
-- as many acknowledgements are sent as completions were reported. Without an observer nothing is told,
-- and each accepted command adds an acknowledgement to those of the reported completions.
pub run-acknowledges :
    (max_size : ℕ) (u : Upgrade) (inputs : List Input)
    → (count is_ack (run max_size u inputs)
        ≡ count is_completion inputs + (if u.has_observer then 0 else count is_command inputs))
      × (count is_call (run max_size u inputs)
          ≡ (if u.has_observer then count is_command inputs else 0))
unfolding run count
run-acknowledges max_size u [] = (ground arith, ground arith)
run-acknowledges max_size u (input ∷ inputs) =
    let (u', out) = step max_size u input in
    let here = step-Tallied max_size u input in
    let (acks, calls) = run-acknowledges max_size u' inputs in
    let joined_acks = count-append is_ack out (run max_size u' inputs) in
    let joined_calls = count-append is_call out (run max_size u' inputs) in
    (
      ground (arith, here.acks, here.observed, acks, joined_acks),
      ground (arith, here.calls, here.observed, calls, joined_calls),
    )
