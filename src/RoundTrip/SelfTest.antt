-- ===== src/RoundTrip/SelfTest.antt =====
-- crates/translator-daemon/src/round_trip.rs: the methods of `RoundTripSelfTest`.
use translator.Prelude.{
  ℕ, ◌-◌, Bool, true, false, ◌&&◌, ◌||◌, not, ◌==◌, ltb, if◌then◌else◌, Option, none, some, is_none,
  some_and, Result, ok, err, saturating_add32,
}
use translator.RoundTrip.{
  max_session_ms, RoundTripPreconditions, RoundTripCheckpoint, waiting_for_speech,
  english_first_audio, virtual_peer_reinjecting, failed, stopped, is_terminal, next,
  same_checkpoint, RoundTripLatency, default_latency, RoundTripErrorCode, already_running,
  not_running, session_mismatch, invalid_checkpoint, exact_pcm_mismatch, timeout,
  RoundTripDebugText, RoundTripStatus, Session, RoundTripSelfTest, validate_preconditions,
  merge_latency,
}
use translator.RoundTrip.Evidence.{ExactPcmProof}

unfoldable pub start :
    RoundTripSelfTest
    → RoundTripPreconditions
    → ℕ
    → ℕ
    → RoundTripSelfTest × Result ℕ RoundTripErrorCode
unfolding is_terminal validate_preconditions
start t preconditions at_ms fresh =
    if some_and t (λ session. not (is_terminal session.checkpoint))
    then (t, err already_running)
    else elim (validate_preconditions preconditions) [
      | err e ↦ (t, err e)
      | ok _ ↦ (
        some (record {
          id = fresh;
          started_at_ms = at_ms;
          checkpoint = waiting_for_speech;
          recursion_count = 0;
          latency = default_latency;
          safe_error = none;
          debug_text = none;
          exact_pcm = none;
        }),
        ok fresh,
      )
    ]

unfoldable pub active_session : RoundTripSelfTest → ℕ → Result Session RoundTripErrorCode
unfolding is_terminal
active_session none session_id = err not_running
active_session (some session) session_id =
    if not (session.id == session_id)
    then err session_mismatch
    else if is_terminal session.checkpoint
    then err not_running
    else ok session

-- `session.checkpoint.next() != Some(checkpoint)`, negated.
abbrev pub follows : Option RoundTripCheckpoint → RoundTripCheckpoint → Bool
follows none checkpoint = false
follows (some c) checkpoint = same_checkpoint c checkpoint

unfoldable pub may_advance : Session → RoundTripCheckpoint → RoundTripLatency → Bool
unfolding next same_checkpoint
may_advance session checkpoint latency = not (
    not (follows (next session.checkpoint) checkpoint)
    || (same_checkpoint checkpoint virtual_peer_reinjecting
        && (is_none latency.english_monitor_complete_ms
            || not (some_and session.exact_pcm (λ p. p.exact_match)))))

unfoldable pub advance :
    RoundTripSelfTest
    → ℕ
    → RoundTripCheckpoint
    → RoundTripLatency
    → RoundTripSelfTest × Result (Unit {0}) RoundTripErrorCode
unfolding active_session may_advance merge_latency
advance t session_id checkpoint latency = elim (active_session t session_id) [
  | err e ↦ (t, err e)
  | ok session ↦
      if not (may_advance session checkpoint latency) then (t, err invalid_checkpoint) else (
        some (record session {
          checkpoint = checkpoint;
          latency = merge_latency session.latency latency;
        }),
        ok tt,
      )
]

unfoldable pub record_recursion_trigger :
    RoundTripSelfTest → ℕ → RoundTripSelfTest × Result (Unit {0}) RoundTripErrorCode
record_recursion_trigger none session_id = (none, err not_running)
record_recursion_trigger (some session) session_id =
    if not (session.id == session_id) then (some session, err session_mismatch) else (
      some (record session { recursion_count = saturating_add32 session.recursion_count 1 }),
      ok tt,
    )

unfoldable pub set_exact_pcm_proof :
    RoundTripSelfTest → ℕ → ExactPcmProof → RoundTripSelfTest × Result (Unit {0}) RoundTripErrorCode
unfolding active_session same_checkpoint
set_exact_pcm_proof t session_id proof = elim (active_session t session_id) [
  | err e ↦ (t, err e)
  | ok session ↦
      if not (same_checkpoint session.checkpoint english_first_audio) || not proof.exact_match
      then (t, err exact_pcm_mismatch)
      else (some (record session { exact_pcm = some proof }), ok tt)
]

unfoldable pub set_debug_text :
    RoundTripSelfTest
    → ℕ
    → RoundTripDebugText
    → RoundTripSelfTest × Result (Unit {0}) RoundTripErrorCode
unfolding active_session
set_debug_text t session_id text = elim (active_session t session_id) [
  | err e ↦ (t, err e)
  | ok session ↦ (some (record session { debug_text = some text }), ok tt)
]

unfoldable pub stop : RoundTripSelfTest → ℕ → RoundTripSelfTest × Bool
unfolding is_terminal
stop none session_id = (none, false)
stop (some session) session_id =
    if not (session.id == session_id) || is_terminal session.checkpoint
    then (some session, false)
    else (some (record session { checkpoint = stopped; debug_text = none }), true)

unfoldable pub fail : RoundTripSelfTest → ℕ → RoundTripErrorCode → RoundTripSelfTest × Bool
unfolding active_session
fail t session_id error = elim (active_session t session_id) [
  | err e ↦ (t, false)
  | ok session ↦ (
    some (record session { checkpoint = failed; safe_error = some error; debug_text = none }),
    true,
  )
]

unfoldable pub expire : RoundTripSelfTest → ℕ → RoundTripSelfTest × Bool
unfolding is_terminal
expire none at_ms = (none, false)
expire (some session) at_ms =
    if is_terminal session.checkpoint || ltb (at_ms - session.started_at_ms) max_session_ms
    then (some session, false)
    else (
      some (record session { checkpoint = stopped; safe_error = some timeout; debug_text = none }),
      true,
    )

unfoldable pub status : RoundTripSelfTest → Bool → RoundTripStatus
status none include_debug_text = record {
  session_id = none;
  checkpoint = none;
  recursion_count = 0;
  latency = default_latency;
  exact_pcm = none;
  safe_error = none;
  debug_text = none;
}
status (some session) include_debug_text = record {
  session_id = some session.id;
  checkpoint = some session.checkpoint;
  recursion_count = session.recursion_count;
  latency = session.latency;
  exact_pcm = session.exact_pcm;
  safe_error = session.safe_error;
  debug_text = if include_debug_text then session.debug_text else none;
}
