-- ===== src/Watchdog/Finals.antt =====
-- crates/translator-daemon/src/provider_audio_watchdog.rs: the ends of utterances and of the session.
use translator.Prelude.{
  ℕ, Bool, true, false, not, ◌==◌, leb, if◌then◌else◌, [], none, some, ok, err, ◌>>=◌, ◌>>◌, ensure,
  length, saturating_add64,
}
use translator.Prelude.Map.{get, remove}
use translator.Validation.Messages.{UtteranceOutcome, completed, cancelled, dropped}
use translator.Watchdog.{
  cancel_final_timeout_ns, WatchdogAction, cancel_utterance, stream_mismatch, input_not_complete,
  cancel_is_pending, expected_cancelled_final, deadline_expired, UtterancePhase, collecting_input,
  awaiting_first_audio, streaming_audio, cancel_pending, terminal, ProviderAudioWatchdog, Watched,
  require_active_session, lookup_utterance, set_phase, updated,
}

-- The `match` of `check_final`.
unfoldable pub final_verdict : UtterancePhase → UtteranceOutcome → ℕ → Watched (Unit {0})
final_verdict (collecting_input d) outcome now_ns = err input_not_complete
final_verdict (cancel_pending d) cancelled now_ns =
    if leb now_ns d then ok tt else err expected_cancelled_final
final_verdict (cancel_pending d) _ now_ns = err expected_cancelled_final
final_verdict (awaiting_first_audio d) completed now_ns =
    if leb now_ns d then ok tt else err deadline_expired
final_verdict (awaiting_first_audio d) dropped now_ns =
    if leb now_ns d then ok tt else err deadline_expired
final_verdict (awaiting_first_audio d) cancelled now_ns = err expected_cancelled_final
final_verdict (awaiting_first_audio d) UtteranceOutcome.unspecified now_ns = err deadline_expired
final_verdict (streaming_audio d) completed now_ns =
    if leb now_ns d then ok tt else err deadline_expired
final_verdict (streaming_audio d) dropped now_ns =
    if leb now_ns d then ok tt else err deadline_expired
final_verdict (streaming_audio d) cancelled now_ns = err expected_cancelled_final
final_verdict (streaming_audio d) UtteranceOutcome.unspecified now_ns = err deadline_expired

unfoldable pub check_final :
    ProviderAudioWatchdog → ℕ → ℕ → UtteranceOutcome → ℕ → Watched (Unit {0})
unfolding lookup_utterance final_verdict
check_final w stream utterance outcome now_ns = do
  require_active_session w
  watched ← lookup_utterance w stream utterance
  final_verdict watched.phase outcome now_ns

abbrev pub is_cancel_pending : UtterancePhase → Bool
is_cancel_pending (cancel_pending d) = true
is_cancel_pending _ = false

abbrev pub is_collecting : UtterancePhase → Bool
is_collecting (collecting_input d) = true
is_collecting _ = false

abbrev pub same_bool : Bool → Bool → Bool
same_bool true b = b
same_bool false b = not b

unfoldable pub finish_utterance :
    ProviderAudioWatchdog → ℕ → ℕ → Bool → ProviderAudioWatchdog × Watched (Unit {0})
unfolding lookup_utterance
finish_utterance w stream utterance as_cancelled = updated w (do
  require_active_session w
  watched ← lookup_utterance w stream utterance
  ensure (not (is_collecting watched.phase)) input_not_complete
  ensure (same_bool (is_cancel_pending watched.phase) as_cancelled) expected_cancelled_final
  ok (record w { utterances = remove utterance w.utterances }))

unfoldable pub record_completed_final :
    ProviderAudioWatchdog → ℕ → ℕ → ProviderAudioWatchdog × Watched (Unit {0})
unfolding finish_utterance
record_completed_final w stream utterance = finish_utterance w stream utterance false

unfoldable pub record_cancelled_final :
    ProviderAudioWatchdog → ℕ → ℕ → ProviderAudioWatchdog × Watched (Unit {0})
unfolding finish_utterance
record_cancelled_final w stream utterance = finish_utterance w stream utterance true

unfoldable pub disarm_utterance :
    ProviderAudioWatchdog → ℕ → ℕ → ProviderAudioWatchdog × Watched (Unit {0})
unfolding lookup_utterance
disarm_utterance w stream utterance = updated w (do
  _ ← lookup_utterance w stream utterance
  ok (record w { utterances = remove utterance w.utterances }))

unfoldable pub disarm_session : ProviderAudioWatchdog → ProviderAudioWatchdog
disarm_session w = record w { utterances = []; session_phase = terminal }

unfoldable pub record_session_closed :
    ProviderAudioWatchdog → ℕ → ProviderAudioWatchdog × Watched (Unit {0})
unfolding disarm_session
record_session_closed w session =
    if not (session == w.session_id) then (w, err stream_mismatch) else (disarm_session w, ok tt)

abbrev pub active_utterance_count : ProviderAudioWatchdog → ℕ
active_utterance_count w = length w.utterances

-- The query `cancel_pending`.
unfoldable pub awaits_cancelled : ProviderAudioWatchdog → ℕ → ℕ → Bool
awaits_cancelled w stream utterance = elim (get utterance w.utterances) [
  | none ↦ false
  | some watched ↦ if watched.stream_id == stream then is_cancel_pending watched.phase else false
]

-- What the phase says to a cancellation by the daemon itself.
unfoldable pub cancel_verdict : UtterancePhase → Watched (Unit {0})
cancel_verdict (collecting_input d) = err input_not_complete
cancel_verdict (cancel_pending d) = err cancel_is_pending
cancel_verdict (awaiting_first_audio d) = ok tt
cancel_verdict (streaming_audio d) = ok tt

-- The method `cancel_utterance`.
unfoldable pub cancel_watched :
    ProviderAudioWatchdog → ℕ → ℕ → ℕ → ProviderAudioWatchdog × Watched WatchdogAction
unfolding lookup_utterance cancel_verdict
cancel_watched w stream utterance now_ns =
    elim (do
      require_active_session w
      watched ← lookup_utterance w stream utterance
      cancel_verdict watched.phase
      ok (
          set_phase w utterance watched
            (cancel_pending (saturating_add64 now_ns cancel_final_timeout_ns)))) [
              | err e ↦ (w, err e)
              | ok w' ↦ (w', ok (cancel_utterance w.session_id stream utterance true))
            ]
