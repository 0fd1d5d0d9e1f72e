-- ===== src/Watchdog.antt =====
-- crates/translator-daemon/src/provider_audio_watchdog.rs: `ProviderAudioWatchdog`, the deadlines of
-- the utterances of a session. Times are nanoseconds.
pub mod Finals
pub mod Polling
pub mod Coordinator
use translator.Prelude.{
  ℕ, Bool, true, false, not, ◌==◌, ltb, leb, if◌then◌else◌, List, [], ◌∷◌, Option, none, some,
  Result, ok, err, ◌>>=◌, ◌>>◌, ensure, ok_or, saturating_add64,
}
use translator.Prelude.Map.{Map, get, contains_key, insert, remove}
use translator.Validation.Messages.{UtteranceOutcome, unspecified, completed, cancelled, dropped}

abbrev pub inter_audio_delta_timeout_ns : ℕ
inter_audio_delta_timeout_ns = 250000000

abbrev pub cancel_final_timeout_ns : ℕ
cancel_final_timeout_ns = 250000000

abbrev pub collecting_input_timeout_ns : ℕ
collecting_input_timeout_ns = 12000000000

abbrev pub first_audio_after_eou_timeout_ns : ℕ
first_audio_after_eou_timeout_ns = 6000000000

-- `CLOSE_ACK_TIMEOUT` of the sidecar supervisor.
abbrev pub close_ack_timeout_ns : ℕ
close_ack_timeout_ns = 2000000000

pub data WatchdogAction : Type 0 where
  -- session, stream, utterance, whether the receive buffer is purged
  cancel_utterance : ℕ → ℕ → ℕ → Bool → WatchdogAction
  close_provider_session restart_sidecar : ℕ → WatchdogAction

pub data WatchdogError : Type 0 where
  unknown_utterance duplicate_utterance stream_mismatch cancel_is_pending : WatchdogError
  input_not_complete input_already_complete expected_cancelled_final : WatchdogError
  session_terminal deadline_expired : WatchdogError

-- Each phase with its deadline.
pub data UtterancePhase : Type 0 where
  collecting_input awaiting_first_audio streaming_audio cancel_pending : ℕ → UtterancePhase

pub record WatchedUtterance : Type 0 where
  pub stream_id : ℕ
  pub phase : UtterancePhase

pub data SessionPhase : Type 0 where
  active restart_issued terminal : SessionPhase
  close_pending : ℕ → SessionPhase

pub record ProviderAudioWatchdog : Type 0 where
  pub session_id : ℕ
  pub utterances : Map WatchedUtterance
  pub session_phase : SessionPhase

abbrev pub Watched : Type 0 → Type 0
Watched A = Result A WatchdogError

unfoldable pub new_watchdog : ℕ → ProviderAudioWatchdog
new_watchdog session_id = record {
  session_id = session_id;
  utterances = [];
  session_phase = active;
}

-- `session_accepts_events`.
abbrev pub is_active : SessionPhase → Bool
is_active active = true
is_active _ = false

abbrev pub require_active_session : ProviderAudioWatchdog → Watched (Unit {0})
require_active_session w = ensure (is_active w.session_phase) session_terminal

-- The utterance, if it is known and belongs to the stream.
unfoldable pub lookup_utterance : ProviderAudioWatchdog → ℕ → ℕ → Watched WatchedUtterance
lookup_utterance w stream utterance = elim (get utterance w.utterances) [
  | none ↦ err unknown_utterance
  | some watched ↦ if not (watched.stream_id == stream) then err stream_mismatch else ok watched
]

-- The write through `get_mut`.
abbrev pub set_phase :
    ProviderAudioWatchdog → ℕ → WatchedUtterance → UtterancePhase → ProviderAudioWatchdog
set_phase w utterance watched phase = record w {
  utterances = insert utterance (record watched { phase = phase }) w.utterances;
}

-- A method's change, if it gives one.
abbrev pub updated :
    ProviderAudioWatchdog
    → Watched ProviderAudioWatchdog
    → ProviderAudioWatchdog × Watched (Unit {0})
updated w (ok w') = (w', ok tt)
updated w (err e) = (w, err e)

unfoldable pub start_utterance :
    ProviderAudioWatchdog → ℕ → ℕ → ℕ → ProviderAudioWatchdog × Watched (Unit {0})
start_utterance w stream utterance capture_ns = updated w (do
  require_active_session w
  ensure (not (contains_key utterance w.utterances)) duplicate_utterance
  ok (record w {
    utterances =
        insert utterance
          (record {
            stream_id = stream;
            phase = collecting_input (saturating_add64 capture_ns collecting_input_timeout_ns);
          })
          w.utterances;
  }))

unfoldable pub end_phase : UtterancePhase → ℕ → Watched UtterancePhase
end_phase (collecting_input deadline) now_ns =
    if leb now_ns deadline
    then ok (awaiting_first_audio (saturating_add64 now_ns first_audio_after_eou_timeout_ns))
    else err deadline_expired
end_phase (awaiting_first_audio deadline) now_ns = err input_already_complete
end_phase (streaming_audio deadline) now_ns = err input_already_complete
end_phase (cancel_pending deadline) now_ns = err cancel_is_pending

unfoldable pub record_end_of_utterance :
    ProviderAudioWatchdog → ℕ → ℕ → ℕ → ProviderAudioWatchdog × Watched (Unit {0})
unfolding lookup_utterance end_phase
record_end_of_utterance w stream utterance now_ns = updated w (do
  require_active_session w
  watched ← lookup_utterance w stream utterance
  phase ← end_phase watched.phase now_ns
  ok (set_phase w utterance watched phase))

-- The deadline by which audio has to come.
unfoldable pub audio_deadline : UtterancePhase → Watched ℕ
audio_deadline (collecting_input deadline) = err input_not_complete
audio_deadline (awaiting_first_audio deadline) = ok deadline
audio_deadline (streaming_audio deadline) = ok deadline
audio_deadline (cancel_pending deadline) = err cancel_is_pending

-- `check_audio_delta`, with the utterance that it finds.
unfoldable pub timely_audio : ProviderAudioWatchdog → ℕ → ℕ → ℕ → Watched WatchedUtterance
unfolding lookup_utterance audio_deadline
timely_audio w stream utterance now_ns = do
  require_active_session w
  watched ← lookup_utterance w stream utterance
  deadline ← audio_deadline watched.phase
  ensure (not (ltb deadline now_ns)) deadline_expired
  ok watched

unfoldable pub check_audio_delta : ProviderAudioWatchdog → ℕ → ℕ → ℕ → Watched (Unit {0})
unfolding timely_audio
check_audio_delta w stream utterance now_ns = do _ ← timely_audio w stream utterance now_ns; ok tt

unfoldable pub record_audio_delta :
    ProviderAudioWatchdog → ℕ → ℕ → ℕ → ProviderAudioWatchdog × Watched (Unit {0})
unfolding timely_audio
record_audio_delta w stream utterance now_ns = updated w (do
  watched ← timely_audio w stream utterance now_ns
  ok (
      set_phase w utterance watched
        (streaming_audio (saturating_add64 now_ns inter_audio_delta_timeout_ns))))
