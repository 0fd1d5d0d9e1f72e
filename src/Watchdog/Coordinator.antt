-- ===== src/Watchdog/Coordinator.antt =====
-- crates/translator-daemon/src/provider_audio_watchdog.rs: `ProviderStreamCoordinator`, which keeps the
-- watchdog, the validator of provider events and the received audio in step.
use Prim.Native.String.{String}
pub mod Events
pub mod Agreement
pub mod Buffers
pub mod Atomic
pub mod Soundness
pub mod History
use translator.Prelude.{
  ℕ, ◌-◌, ltb, Bool, true, false, not, ◌&&◌, if◌then◌else◌, List, [], ◌∷◌, ◌++◌, Option, none, some,
  Result, ok, err, length, is_ok, checked_add32, ensure,
}
use translator.Prelude.Effects.{Effect, ◌>>=◌, ◌>>◌, pure, fails, lift}
use translator.Prelude.PairMap.{PairMap, get_pair, insert_pair, remove_pair}
use translator.Validation.Messages.{
  Event, audio_delta, utterance_final, session_closed, ProviderAudioDelta, ProviderUtteranceFinal,
  CommonFields, UtteranceOutcome, outcome_of, completed, cancelled, dropped,
}
use translator.Validation.State as Validator
use translator.Validation.State.{
  ProviderSessionContract, ProviderEventValidator, new_validator, ProviderValidationError,
  missing_event, invalid_outcome, can_record_cancel_requested, record_input,
  record_cancel_requested,
}
use translator.Validation.Validate.{validate}
use translator.Watchdog as Deadlines
use translator.Watchdog.{
  WatchdogAction, cancel_utterance, close_provider_session, restart_sidecar, WatchdogError,
  session_terminal, ProviderAudioWatchdog, Watched, new_watchdog, is_active, check_audio_delta,
  record_audio_delta,
}
use translator.Watchdog.Finals.{
  check_final, record_completed_final, record_cancelled_final, disarm_utterance,
  record_session_closed, awaits_cancelled, cancel_watched,
}
use translator.Watchdog.Polling as Polling

abbrev pub max_receive_buffered_ms : ℕ
max_receive_buffered_ms = 400

pub data CoordinatorError : Type 0 where
  watchdog_error : WatchdogError → CoordinatorError
  validation_error : ProviderValidationError → CoordinatorError
  receive_buffer_full receive_buffer_empty invalid_identifier : CoordinatorError

pub record BufferedFrame : Type 0 where
  pub pcm : List ℕ
  pub duration_ms : ℕ

pub record ReceiveBuffer : Type 0 where
  pub frames : List BufferedFrame  -- oldest first
  pub buffered_ms : ℕ  -- u32

pub record Coordinator : Type 0 where
  pub watchdog : ProviderAudioWatchdog
  pub validator : ProviderEventValidator
  pub receive_buffers : PairMap ReceiveBuffer

abbrev pub Coordinating : Type 0 → Type 0
Coordinating = Effect Coordinator CoordinatorError

unfoldable pub new_coordinator : ProviderSessionContract → Coordinator
unfolding new_watchdog new_validator
new_coordinator contract = record {
  watchdog = new_watchdog contract.session_id;
  validator = new_validator contract;
  receive_buffers = [];
}

-- The `?` on a result of the watchdog, or of the validator.
abbrev pub watched : {A : Type 0} → Watched A → Result A CoordinatorError
watched (ok a) = ok a
watched (err e) = err (watchdog_error e)

abbrev pub validated : {A : Type 0} → Validator.Checked A → Result A CoordinatorError
validated (ok a) = ok a
validated (err e) = err (validation_error e)

-- A method of the watchdog, or of the validator, on its part of the state.
abbrev pub on_watchdog :
    {A : Type 0} → (ProviderAudioWatchdog → ProviderAudioWatchdog × Watched A) → Coordinating A
on_watchdog f c = let (w, r) = f c.watchdog in some (record c { watchdog = w }, watched r)

abbrev pub on_validator :
    {A : Type 0}
    → (ProviderEventValidator → ProviderEventValidator × Validator.Checked A)
    → Coordinating A
on_validator f c = let (v, r) = f c.validator in some (record c { validator = v }, validated r)

-- The other refusal is passed on once the utterance is disarmed again.
unfoldable pub start_validated :
    Coordinator
    → ℕ
    → ℕ
    → ProviderEventValidator × Validator.Checked (Unit {0})
    → Coordinator × Result (Unit {0}) CoordinatorError
unfolding disarm_utterance
start_validated c stream utterance (v, ok _) = (record c { validator = v }, ok tt)
start_validated c stream utterance (v, err e) = (
  record c { validator = v; watchdog = (disarm_utterance c.watchdog stream utterance).0 },
  err (validation_error e),
)

unfoldable pub start_utterance : ℕ → ℕ → ℕ → Coordinating (Unit {0})
unfolding Deadlines.start_utterance start_validated record_input
start_utterance stream utterance capture_ns = do
  on_watchdog (λ w. Deadlines.start_utterance w stream utterance capture_ns)
  λ c. some (start_validated c stream utterance (record_input c.validator utterance capture_ns))

unfoldable pub record_end_of_utterance : ℕ → ℕ → ℕ → Coordinating (Unit {0})
unfolding Deadlines.record_end_of_utterance Validator.record_end_of_utterance
record_end_of_utterance stream utterance now_ns = do
  on_watchdog (λ w. Deadlines.record_end_of_utterance w stream utterance now_ns)
  on_validator (λ v. Validator.record_end_of_utterance v utterance now_ns)

-- `entry(..).or_default()`, or `map_or(0, ..)`.
abbrev pub buffer_or_empty : Option ReceiveBuffer → ReceiveBuffer
buffer_or_empty none = record { frames = []; buffered_ms = 0 }
buffer_or_empty (some b) = b

-- The milliseconds that the buffer holds with the frame, if it has room for it.
unfoldable pub projected_ms : ReceiveBuffer → ℕ → Option ℕ
projected_ms b duration = elim (checked_add32 b.buffered_ms duration) [
  | none ↦ none
  | some projected ↦ if ltb max_receive_buffered_ms projected then none else some projected
]

-- The entry of the map is made before the frame is refused.
unfoldable pub buffer_receive_audio : ℕ → ℕ → List ℕ → ℕ → Coordinating (Unit {0})
unfolding projected_ms
buffer_receive_audio stream utterance pcm duration c =
    let buffer = buffer_or_empty (get_pair (stream, utterance) c.receive_buffers) in
    let put = λ (b : ReceiveBuffer). record c {
      receive_buffers = insert_pair (stream, utterance) b c.receive_buffers;
    } in
    elim (projected_ms buffer duration) [
      | none ↦ some (put buffer, err receive_buffer_full)
      | some projected ↦ some (
        put (record {
          frames = buffer.frames ++ record { pcm = pcm; duration_ms = duration } ∷ [];
          buffered_ms = projected;
        }),
        ok tt,
      )
    ]

unfoldable pub can_buffer_receive_audio : ℕ → ℕ → ℕ → Coordinating (Unit {0})
unfolding projected_ms
can_buffer_receive_audio stream utterance duration c =
    elim (projected_ms (buffer_or_empty (get_pair (stream, utterance) c.receive_buffers))
      duration) [ none ↦ some (c, err receive_buffer_full) | some projected ↦ some (c, ok tt) ]

-- An empty buffer leaves the map, and otherwise the rest is written back.
unfoldable pub put_rest : ℕ × ℕ → ReceiveBuffer → PairMap ReceiveBuffer → PairMap ReceiveBuffer
put_rest key b m = elim b.frames [ [] ↦ remove_pair key m | f ∷ fs ↦ insert_pair key b m ]

unfoldable pub pop_frame : List BufferedFrame → Option (BufferedFrame × List BufferedFrame)
pop_frame [] = none
pop_frame (f ∷ fs) = some (f, fs)

unfoldable pub consume_receive_audio : ℕ → ℕ → Coordinating (List ℕ)
unfolding put_rest pop_frame
consume_receive_audio stream utterance c = elim (get_pair (stream, utterance) c.receive_buffers) [
  | none ↦ some (c, err receive_buffer_empty)
  | some buffer ↦ elim (pop_frame buffer.frames) [
    | none ↦ some (c, err receive_buffer_empty)
    | some (frame, rest) ↦ some (
      record c {
        receive_buffers =
            put_rest (stream, utterance)
              (record { frames = rest; buffered_ms = buffer.buffered_ms - frame.duration_ms })
              c.receive_buffers;
      },
      ok frame.pcm,
    )
  ]
]

unfoldable pub receive_buffered_frames : Coordinator → ℕ → ℕ → ℕ
receive_buffered_frames c stream utterance =
    length (buffer_or_empty (get_pair (stream, utterance) c.receive_buffers)).frames

abbrev pub drop_buffer : ℕ → ℕ → Coordinator → Coordinator
drop_buffer stream utterance c = record c {
  receive_buffers = remove_pair (stream, utterance) c.receive_buffers;
}

abbrev pub drop_buffers : Coordinator → Coordinator
drop_buffers c = record c { receive_buffers = [] }
