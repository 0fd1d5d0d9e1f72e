-- ===== src/Watchdog/Polling.antt =====
-- crates/translator-daemon/src/provider_audio_watchdog.rs: `poll`. The loop over the map goes in the
-- order of the list; the source's HashMap leaves the order open.
pub mod Laws
pub mod Escalation
use translator.Prelude.{
  ℕ, Bool, true, false, ◌||◌, ltb, leb, if◌then◌else◌, List, [], ◌∷◌, Option, none, some, map,
  saturating_add64,
}
use translator.Prelude.Map.{Map}
use translator.Watchdog.{
  cancel_final_timeout_ns, close_ack_timeout_ns, WatchdogAction, cancel_utterance,
  close_provider_session, restart_sidecar, UtterancePhase, collecting_input, awaiting_first_audio,
  streaming_audio, cancel_pending, WatchedUtterance, SessionPhase, active, restart_issued,
  close_pending, terminal, ProviderAudioWatchdog,
}

-- What the deadline of an utterance asks for.
pub data Verdict : Type 0 where
  waits cancels closes : Verdict

unfoldable pub verdict : UtterancePhase → ℕ → Verdict
verdict (collecting_input d) now_ns = if ltb d now_ns then cancels else waits
verdict (awaiting_first_audio d) now_ns = if ltb d now_ns then cancels else waits
verdict (streaming_audio d) now_ns = if ltb d now_ns then cancels else waits
verdict (cancel_pending d) now_ns = if ltb d now_ns then closes else waits

unfoldable pub polled : ℕ → WatchedUtterance → WatchedUtterance
unfolding verdict
polled now_ns watched = elim (verdict watched.phase now_ns) [
  | cancels ↦ record watched {
    phase = cancel_pending (saturating_add64 now_ns cancel_final_timeout_ns);
  }
  | _ ↦ watched
]

unfoldable pub poll_utterances : ℕ → Map WatchedUtterance → Map WatchedUtterance
unfolding polled
poll_utterances now_ns [] = []
poll_utterances now_ns ((u, watched) ∷ m) = (u, polled now_ns watched) ∷ poll_utterances now_ns m

unfoldable pub cancel_actions : ℕ → ℕ → Map WatchedUtterance → List WatchdogAction
unfolding verdict
cancel_actions session now_ns [] = []
cancel_actions session now_ns ((u, watched) ∷ m) =
    let rest = cancel_actions session now_ns m in
    elim (verdict watched.phase now_ns) [
      | cancels ↦ cancel_utterance session watched.stream_id u true ∷ rest
      | _ ↦ rest
    ]

abbrev pub is_closes : Verdict → Bool
is_closes closes = true
is_closes _ = false

unfoldable pub close_required : ℕ → Map WatchedUtterance → Bool
unfolding verdict
close_required now_ns [] = false
close_required now_ns ((u, watched) ∷ m) =
    is_closes (verdict watched.phase now_ns) || close_required now_ns m

unfoldable pub poll_active : ProviderAudioWatchdog → ℕ → ProviderAudioWatchdog × List WatchdogAction
unfolding poll_utterances cancel_actions close_required
poll_active w now_ns =
    let w' = record w { utterances = poll_utterances now_ns w.utterances } in
    if close_required now_ns w.utterances
    then (
      record w' { session_phase = close_pending (saturating_add64 now_ns close_ack_timeout_ns) },
      close_provider_session w.session_id ∷ [],
    )
    else (w', cancel_actions w.session_id now_ns w.utterances)

unfoldable pub poll_phase :
    SessionPhase → ProviderAudioWatchdog → ℕ → ProviderAudioWatchdog × List WatchdogAction
unfolding poll_active
poll_phase active w now_ns = poll_active w now_ns
poll_phase (close_pending d) w now_ns =
    if leb d now_ns
    then (record w { session_phase = restart_issued }, restart_sidecar w.session_id ∷ [])
    else (w, [])
poll_phase restart_issued w now_ns = (w, [])
poll_phase terminal w now_ns = (w, [])

unfoldable pub poll : ProviderAudioWatchdog → ℕ → ProviderAudioWatchdog × List WatchdogAction
unfolding poll_phase
poll w now_ns = poll_phase w.session_phase w now_ns
