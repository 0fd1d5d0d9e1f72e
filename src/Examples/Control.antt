-- ===== src/Examples/Control.antt =====
-- The gate, the queues and the contracts at concrete inputs.
use translator.Prelude.{◌≡◌, ◌≤◌, ◌+◌, if◌then◌else◌, List, [], ◌∷◌, ok, some, ◌↔◌, true}
use translator.Contracts.{
  microphone, speaker, balanced, s16_le, UncheckedPcmFormat, deserialize_format, LatencyPolicyState,
  new_policy_state, deserialize_policy_state,
}
use translator.Contracts.Laws.{
  IsSupported, checked, deserialize_format_iff, deserialize_policy_state_iff,
}
use translator.Queues.{
  capture, playback, accepted, default_queues, state, push, valid_frame_duration,
}
use translator.Queues.Accounting.{
  Operation, pushes, consumes, run, total_gained, total_given, run-accounts, push-accepted_iff,
}
use translator.Gate.{stopping}
use translator.Gate.Clients as Clients
use translator.Gate.Clients.{
  Call, call_production, call_manual, call_stop, call_round_trip, call_release, System, step, start,
  is_operation, holders,
}
use translator.Gate.Exclusion.{run-holders, run-stopped}

abbrev stereo_input : UncheckedPcmFormat
stereo_input = record {
  sample_rate_hz = 48000;
  channels = 2;
  sample_format = s16_le;
  frame_duration_ms = 20;
}

deserialize_format_iff_example :
    (deserialize_format stereo_input ≡ ok (checked stereo_input))
    ↔ (IsSupported stereo_input × (checked stereo_input ≡ checked stereo_input))
deserialize_format_iff_example = deserialize_format_iff stereo_input (checked stereo_input)

abbrev balanced_state : LatencyPolicyState
balanced_state =
    new_policy_state speaker balanced 2100 2900 120 (some "60000ms") (some "window_breach")

deserialize_policy_state_iff_example :
    (deserialize_policy_state balanced_state ≡ ok balanced_state) ↔ (
      (balanced_state ≡ balanced_state)
      × (balanced_state
          ≡ new_policy_state balanced_state.direction_id balanced_state.current_mode
              balanced_state.p95_first_audio_ms balanced_state.p95_last_audio_ms
              balanced_state.p95_queue_lag_ms balanced_state.last_mode_change_at
              balanced_state.reason))
deserialize_policy_state_iff_example = deserialize_policy_state_iff balanced_state balanced_state

abbrev some_operations : List Operation
some_operations =
    pushes microphone capture 100
    ∷ pushes speaker playback 40
    ∷ pushes microphone capture 50
    ∷ consumes microphone capture 20
    ∷ []

run-accounts_example :
    ((state (run default_queues some_operations) microphone capture).buffered_ms
        + total_given microphone capture default_queues some_operations
      ≡ total_gained microphone capture default_queues some_operations)
    × ((state (run default_queues some_operations) microphone capture).buffered_ms ≤ 400)
run-accounts_example = run-accounts microphone capture some_operations

push-accepted_iff_example : ((push default_queues speaker capture 60).1 ≡ accepted) ↔ (
    (valid_frame_duration 60 ≡ true)
    × ((state default_queues speaker capture).buffered_ms + 60 ≤ 400))
push-accepted_iff_example = push-accepted_iff default_queues speaker capture 60

-- A second operation while one runs, a stale lease, and the stop.
abbrev some_calls : List Call
some_calls =
    call_production ∷ call_round_trip 7 ∷ call_release 0 ∷ call_round_trip 8 ∷ call_release 1 ∷ []

run-holders_example :
    holders (Clients.run start some_calls).gate (Clients.run start some_calls).leases
    ≡ (if is_operation (Clients.run start some_calls).gate.state then 1 else 0)
run-holders_example = run-holders some_calls

run-stopped_example :
    let s = step (Clients.run start some_calls) call_stop in
    (s.gate.state ≡ stopping) × ((Clients.run s (call_manual ∷ call_release 0 ∷ [])).gate ≡ s.gate)
run-stopped_example = run-stopped some_calls (call_manual ∷ call_release 0 ∷ [])
