-- ===== src/Watchdog/Coordinator/Soundness.antt =====
-- crates/translator-daemon/src/provider_audio_watchdog.rs: panics of the coordinator's methods, the
-- validator's invariant and the keys of the watchdog.
pub mod Calls
pub mod Events
use Prim.Native.String.{String}
use translator.Prelude.{
  ℕ, saturating_add64, ok_or, ensure, ◌≡◌, refl, Bool, true, false, if◌then◌else◌, List, [], ◌∷◌,
  Option, none, some, Result, ok, err, arith, Option-cases, Result-cases, inl, inr, subst,
}
use translator.Prelude.Effects.{◌>>=◌, ◌>>◌, lift, pure}
use translator.Prelude.PairMap.{get_pair}
use translator.Prelude as Base
use translator.Prelude.Map.{Map, insert, remove, Distinct, insert-Distinct, remove-Distinct}
use translator.Validation.Messages.{
  Event, audio_delta, utterance_final, session_closed, ProviderAudioDelta, ProviderUtteranceFinal,
  CommonFields, outcome_of, UtteranceOutcome, completed, cancelled, dropped,
}
use translator.Validation.State as Validator
use translator.Validation.State.{
  invalid_outcome, ProviderSessionContract, ProviderEventValidator, record_input,
  record_cancel_requested,
}
use translator.Validation.Validate.{validate}
use translator.Validation.Invariant.{
  new_validator-Inv, record_input-Inv, record_end-Inv, record_cancel-Inv,
}
use translator.Validation.Parts.{Good, Fine}
use translator.Validation.Totality.{validate-Fine}
use translator.Watchdog as Deadlines
use translator.Watchdog.{
  collecting_input, awaiting_first_audio, streaming_audio, cancel_pending,
  collecting_input_timeout_ns, first_audio_after_eou_timeout_ns, inter_audio_delta_timeout_ns,
  cancel_final_timeout_ns, WatchdogAction, cancel_utterance, close_provider_session,
  restart_sidecar, WatchedUtterance, ProviderAudioWatchdog, Watched, timely_audio, is_active,
  session_terminal, check_audio_delta, record_audio_delta, updated, lookup_utterance,
  require_active_session,
}
use translator.Watchdog.Finals.{
  check_final, awaits_cancelled, finish_utterance, disarm_utterance, record_session_closed,
  cancel_watched, record_completed_final, record_cancelled_final,
}
use translator.Watchdog.Polling as Polling
use translator.Watchdog.Polling.{poll_utterances, cancel_actions, close_required}
use translator.Watchdog.Polling.Laws.{poll_utterances-Distinct}
use translator.Watchdog.Coordinator.{
  watched, validated, watchdog_error, Coordinator, Coordinating, CoordinatorError, new_coordinator,
  on_watchdog, on_validator, start_validated, start_utterance, record_end_of_utterance,
  buffer_receive_audio, can_buffer_receive_audio, projected_ms, buffer_or_empty, drop_buffer,
  drop_buffers,
}
use translator.Watchdog.Coordinator.Buffers.{
  BuffersOk, BufferOk, no_buffers-BuffersOk, refused-BuffersOk, pushed-BuffersOk, remove-BuffersOk,
}
use translator.Watchdog.Coordinator.Events.{
  parse_uuid, is_completed, is_closed_event, validates, accept_audio, validate_audio_event,
  record_final, validate_final_event, validate_closed_event, validate_kind, validate_event, reads,
  changes, apply_action, apply_actions, poll, cancel_expired_utterance, check_actions,
}

pub record Sound (c : Coordinator) : Type 0 where
  pub valid : Good c.validator
  pub distinct : Distinct c.watchdog.utterances
  pub buffers : BuffersOk c.receive_buffers

-- No panic, and a sound state after it.
abbrev pub SoundAfter : {A : Type 0} → Option (Coordinator × Result A CoordinatorError) → Type 0
SoundAfter none = ⊥
SoundAfter (some (c, r)) = Sound c

abbrev pub Preserves : {A : Type 0} → Coordinating A → Type 0
Preserves m = (c : Coordinator) → Sound c → SoundAfter (m c)

pub bind-Preserves :
    {A B : Type 0} (m : Coordinating A) (f : A → Coordinating B)
    → Preserves m
    → ((a : A) → Preserves (f a))
    → Preserves (m >>= f)
bind-Preserves m f p q c s = elim (Option-cases (m c)) [
  | inl e ↦ absurd (subst SoundAfter e (p c s))
  | inr ((d, ok a), e) ↦ rw (e, ◌>>=◌) (q a d (subst SoundAfter e (p c s)))
  | inr ((d, err x), e) ↦ rw (e, ◌>>=◌) (subst SoundAfter e (p c s))
]

pub on_watchdog-Preserves :
    {A : Type 0} (f : ProviderAudioWatchdog → ProviderAudioWatchdog × Watched A)
    → ((w : ProviderAudioWatchdog) → Distinct w.utterances → Distinct (f w).0.utterances)
    → Preserves (on_watchdog f)
on_watchdog-Preserves f p c s = record {
  valid = s.valid;
  distinct = p c.watchdog s.distinct;
  buffers = s.buffers;
}

pub on_validator-Preserves :
    {A : Type 0} (f : ProviderEventValidator → ProviderEventValidator × Validator.Checked A)
    → ((v : ProviderEventValidator) → Good v → Good (f v).0)
    → Preserves (on_validator f)
on_validator-Preserves f p c s = record {
  valid = p c.validator s.valid;
  distinct = s.distinct;
  buffers = s.buffers;
}

pub reads-Preserves :
    {A : Type 0} (f : Coordinator → Result A CoordinatorError) → Preserves (reads f)
reads-Preserves f c s = s

-- The watchdog's methods keep one entry per utterance.
abbrev pub KeepsDistinct :
    {A : Type 0} → (ProviderAudioWatchdog → ProviderAudioWatchdog × Watched A) → Type 0
KeepsDistinct f = (w : ProviderAudioWatchdog) → Distinct w.utterances → Distinct (f w).0.utterances

pub start-KeepsDistinct :
    (stream u ns : ℕ) → KeepsDistinct (λ w. Deadlines.start_utterance w stream u ns)
unfolding Deadlines.start_utterance
start-KeepsDistinct stream u ns w d = ground (
  arith,
  d,
  insert-Distinct u
      (record {
        stream_id = stream;
        phase = collecting_input (saturating_add64 ns collecting_input_timeout_ns);
      })
      w.utterances d,
)

pub end-KeepsDistinct :
    (stream u ns : ℕ) → KeepsDistinct (λ w. Deadlines.record_end_of_utterance w stream u ns)
unfolding Deadlines.record_end_of_utterance
end-KeepsDistinct stream u ns w d = ground (
  arith,
  d,
  insert-Distinct u
      (record {
        stream_id = stream;
        phase = awaiting_first_audio (saturating_add64 ns first_audio_after_eou_timeout_ns);
      })
      w.utterances d,
)

pub audio-KeepsDistinct : (stream u ns : ℕ) → KeepsDistinct (λ w. record_audio_delta w stream u ns)
unfolding record_audio_delta
audio-KeepsDistinct stream u ns w d = ground (
  arith,
  d,
  insert-Distinct u
      (record {
        stream_id = stream;
        phase = streaming_audio (saturating_add64 ns inter_audio_delta_timeout_ns);
      })
      w.utterances d,
)

pub finish-KeepsDistinct :
    (stream u : ℕ) (as_cancelled : Bool)
    → KeepsDistinct (λ w. finish_utterance w stream u as_cancelled)
unfolding finish_utterance
finish-KeepsDistinct stream u as_cancelled w d = ground (arith, d, remove-Distinct u w.utterances d)

pub disarm-KeepsDistinct : (stream u : ℕ) → KeepsDistinct (λ w. disarm_utterance w stream u)
unfolding disarm_utterance
disarm-KeepsDistinct stream u w d = ground (arith, d, remove-Distinct u w.utterances d)

pub closed-KeepsDistinct : (session : ℕ) → KeepsDistinct (λ w. record_session_closed w session)
unfolding record_session_closed
closed-KeepsDistinct session w d = ground (arith, d)

pub cancel-KeepsDistinct : (stream u ns : ℕ) → KeepsDistinct (λ w. cancel_watched w stream u ns)
unfolding cancel_watched
cancel-KeepsDistinct stream u ns w d = ground (
  arith,
  d,
  insert-Distinct u
      (record {
        stream_id = stream;
        phase = cancel_pending (saturating_add64 ns cancel_final_timeout_ns);
      })
      w.utterances d,
)

pub poll-KeepsDistinct :
    (w : ProviderAudioWatchdog) (ns : ℕ)
    → Distinct w.utterances
    → Distinct (Polling.poll w ns).0.utterances
unfolding Polling.poll Polling.poll_phase Polling.poll_active
poll-KeepsDistinct w ns d = ground (arith, d, poll_utterances-Distinct ns w.utterances d)
