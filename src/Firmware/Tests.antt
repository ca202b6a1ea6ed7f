-- ===== src/Firmware/Tests.antt =====
-- can-lite/categories/firmware_upgrade: an upgrade in frames of eight bytes.
use can_lite.Base.{◌+◌, ◌≡◌, refl, true, false, List, [], ◌∷◌, arith, if◌then◌else◌}
use can_lite.Base.Search.{count}
use can_lite.Firmware.{
  ok, crc_mismatch, receiving, fwu_begin_upgrade_id, fwu_data_block_id, fwu_verify_id,
}
use can_lite.Firmware.Server.{Upgrade, handle}
use can_lite.Firmware.RoundTrip.{
  Command, data_block, type_of, payload_of, call_of, after, handle-payload_of, begun, verified,
  progress, completed, Answered, completed-Answered,
}
use can_lite.Firmware.Session.{
  accepts, handle-accepts, Input, received, finished, timer_expired, run, is_ack, is_call,
  is_command, is_completion, run-acknowledges,
}

abbrev in_session : Upgrade
in_session = record { has_observer = true; session_timer = true }

abbrev block : Command
block = data_block 300 (1 ∷ 2 ∷ 3 ∷ 4 ∷ 5 ∷ 6 ∷ [])

handle-payload_of_example :
    let w = payload_of 8 block in
    (w.valid ≡ true)
    × (handle 8 in_session (type_of block) w.message
        ≡ (after block in_session, call_of block ∷ [], true))
handle-payload_of_example = handle-payload_of 8 8 in_session block (omega arith, omega arith) refl

completed-Answered_example :
    Answered (completed 8 in_session (progress receiving 300 1000)) (progress receiving 300 1000)
completed-Answered_example =
    completed-Answered 8 in_session (progress receiving 300 1000) (omega arith)
      (omega arith, omega arith)

-- A verification without its checksum.
handle-accepts_example :
    let outcome = handle 8 in_session fwu_verify_id (1 ∷ 2 ∷ []) in
    (outcome.2 ≡ accepts fwu_verify_id (1 ∷ 2 ∷ []))
    × (accepts fwu_verify_id (1 ∷ 2 ∷ []) ≡ false → outcome ≡ (in_session, [], false))
handle-accepts_example = handle-accepts 8 in_session fwu_verify_id (1 ∷ 2 ∷ [])

abbrev inputs : List Input
inputs =
    received fwu_begin_upgrade_id (0 ∷ 0 ∷ 4 ∷ 0 ∷ [])
    ∷ finished (begun ok 256)
    ∷ received fwu_data_block_id (0 ∷ [])
    ∷ received fwu_verify_id (1 ∷ 2 ∷ 3 ∷ 4 ∷ [])
    ∷ timer_expired
    ∷ finished (verified crc_mismatch)
    ∷ []

run-acknowledges_example :
    (count is_ack (run 8 in_session inputs)
      ≡ count is_completion inputs + (if true then 0 else count is_command inputs))
    × (count is_call (run 8 in_session inputs) ≡ (if true then count is_command inputs else 0))
run-acknowledges_example = run-acknowledges 8 in_session inputs
