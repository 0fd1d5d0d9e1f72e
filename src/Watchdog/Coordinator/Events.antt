-- ===== src/Watchdog/Coordinator/Events.antt =====
-- crates/translator-daemon/src/provider_audio_watchdog.rs: the coordinator's `validate_event`, `poll`
-- and `cancel_expired_utterance`.
use Prim.Native.String.{String}
use translator.Prelude.{
  ℕ, Bool, true, false, if◌then◌else◌, List, [], ◌∷◌, Option, none, some, Result, ok, err, ok_or,
  ensure,
}
use translator.Prelude.Effects.{◌>>=◌, ◌>>◌, pure, fails, lift}
use translator.Validation.Messages.{
  Event, audio_delta, utterance_final, session_closed, ProviderAudioDelta, ProviderUtteranceFinal,
  CommonFields, UtteranceOutcome, outcome_of, completed, cancelled, dropped,
}
use translator.Validation.State.{
  ProviderEventValidator, missing_event, invalid_outcome, can_record_cancel_requested,
  record_cancel_requested, Checked,
}
use translator.Validation.Validate.{validate}
use translator.Watchdog.{
  WatchdogAction, cancel_utterance, close_provider_session, restart_sidecar, session_terminal,
  is_active, check_audio_delta, record_audio_delta,
}
use translator.Watchdog.Finals.{
  check_final, record_completed_final, record_cancelled_final, record_session_closed,
  awaits_cancelled, cancel_watched,
}
use translator.Watchdog.Polling as Polling
use translator.Watchdog.Coordinator.{
  Coordinator, Coordinating, CoordinatorError, watchdog_error, validation_error, invalid_identifier,
  watched, validated, on_watchdog, on_validator, buffer_receive_audio, can_buffer_receive_audio,
  drop_buffer, drop_buffers,
}

abbrev pub is_closed_event : Event → Bool
is_closed_event (session_closed c) = true
is_closed_event _ = false

abbrev pub is_completed : UtteranceOutcome → Bool
is_completed completed = true
is_completed _ = false

-- A result that only reads the state.
abbrev pub reads : {A : Type 0} → (Coordinator → Result A CoordinatorError) → Coordinating A
reads f c = some (c, f c)

abbrev pub changes : (Coordinator → Coordinator) → Coordinating (Unit {0})
changes f c = some (f c, ok tt)

module _ (parse : String → Option ℕ) where
  -- The file's own `parse_uuid`.
  abbrev pub parse_uuid : String → Result ℕ CoordinatorError
  parse_uuid value = ok_or (parse value) invalid_identifier

  -- `self.validator.validate(event, now_ns)?`
  unfoldable pub validates : Event → ℕ → Coordinating (Unit {0})
  validates event now_ns c = elim (validate parse c.validator (some event) now_ns) [
    | none ↦ none
    | some (v, r) ↦ some (record c { validator = v }, validated r)
  ]

  unfoldable pub accept_audio : ProviderAudioDelta → ℕ → ℕ → ℕ → Coordinating (Unit {0})
  unfolding check_audio_delta can_buffer_receive_audio validates record_audio_delta
      buffer_receive_audio
  accept_audio m stream utterance now_ns = do
    reads (λ c. watched (check_audio_delta c.watchdog stream utterance now_ns))
    can_buffer_receive_audio stream utterance m.format.frame_duration_ms
    validates (audio_delta m) now_ns
    on_watchdog (λ w. record_audio_delta w stream utterance now_ns)
    buffer_receive_audio stream utterance m.pcm m.format.frame_duration_ms

  -- Audio of an utterance whose cancellation is pending goes to the validator alone.
  unfoldable pub validate_audio_event : ProviderAudioDelta → ℕ → Coordinating (Unit {0})
  unfolding accept_audio awaits_cancelled validates
  validate_audio_event m now_ns = do
    stream ← lift (parse_uuid m.stream_id)
    utterance ← lift (parse_uuid m.utterance_id)
    pending ← reads (λ c. ok (awaits_cancelled c.watchdog stream utterance))
    if pending then validates (audio_delta m) now_ns else accept_audio m stream utterance now_ns

  unfoldable pub record_final : UtteranceOutcome → ℕ → ℕ → Coordinating (Unit {0})
  unfolding record_completed_final record_cancelled_final
  record_final cancelled stream utterance =
      on_watchdog (λ w. record_cancelled_final w stream utterance)
  record_final completed stream utterance =
      on_watchdog (λ w. record_completed_final w stream utterance)
  record_final dropped stream utterance =
      on_watchdog (λ w. record_completed_final w stream utterance)
  record_final UtteranceOutcome.unspecified stream utterance = pure tt

  unfoldable pub validate_final_event : ProviderUtteranceFinal → ℕ → Coordinating (Unit {0})
  unfolding check_final validates record_final outcome_of
  validate_final_event m now_ns = do
    stream ← lift (parse_uuid m.stream_id)
    utterance ← lift (parse_uuid m.utterance_id)
    outcome ← lift (validated (ok_or (outcome_of m.outcome) invalid_outcome))
    reads (λ c. watched (check_final c.watchdog stream utterance outcome now_ns))
    validates (utterance_final m) now_ns
    record_final outcome stream utterance
    changes (λ c. if is_completed outcome then c else drop_buffer stream utterance c)

  unfoldable pub validate_closed_event : CommonFields → ℕ → Coordinating (Unit {0})
  unfolding validates record_session_closed
  validate_closed_event m now_ns = do
    validates (session_closed m) now_ns
    session ← lift (parse_uuid m.session_id)
    on_watchdog (λ w. record_session_closed w session)
    changes drop_buffers

  unfoldable pub validate_kind : Event → ℕ → Coordinating (Unit {0})
  unfolding validate_audio_event validate_final_event validate_closed_event validates
  validate_kind (audio_delta m) now_ns = validate_audio_event m now_ns
  validate_kind (utterance_final m) now_ns = validate_final_event m now_ns
  validate_kind (session_closed m) now_ns = validate_closed_event m now_ns
  validate_kind event now_ns = validates event now_ns

  unfoldable pub validate_event : Option Event → ℕ → Coordinating (Unit {0})
  unfolding validate_kind
  validate_event none now_ns = fails (validation_error missing_event)
  validate_event (some event) now_ns = do
    accepts ← reads (λ c. ok (is_active c.watchdog.session_phase))
    lift
        (ensure (if accepts then true else is_closed_event event) (watchdog_error session_terminal))
    validate_kind event now_ns

-- The first refusal among the cancellations that are asked for.
unfoldable pub check_actions : ProviderEventValidator → List WatchdogAction → Checked (Unit {0})
unfolding can_record_cancel_requested
check_actions v [] = ok tt
check_actions v (cancel_utterance session stream utterance purge ∷ actions) =
    let rest = check_actions v actions in
    elim (can_record_cancel_requested v utterance) [ err e ↦ err e | ok _ ↦ rest ]
check_actions v (close_provider_session session ∷ actions) = check_actions v actions
check_actions v (restart_sidecar session ∷ actions) = check_actions v actions

unfoldable pub apply_action : WatchdogAction → Coordinating (Unit {0})
unfolding record_cancel_requested
apply_action (cancel_utterance session stream utterance purge) = do
  on_validator (λ v. record_cancel_requested v utterance)
  changes (λ c. if purge then drop_buffer stream utterance c else c)
apply_action (close_provider_session session) = changes drop_buffers
apply_action (restart_sidecar session) = changes drop_buffers

unfoldable pub apply_actions : List WatchdogAction → Coordinating (Unit {0})
unfolding apply_action
apply_actions [] = pure tt
apply_actions (a ∷ actions) = do apply_action a; apply_actions actions

-- A refused cancellation leaves the watchdog as it was before the poll.
unfoldable pub poll : ℕ → Coordinating (List WatchdogAction)
unfolding Polling.poll check_actions apply_actions
poll now_ns c =
    let (w, actions) = Polling.poll c.watchdog now_ns in
    elim (check_actions c.validator actions) [
      | err e ↦ some (c, err (validation_error e))
      | ok _ ↦ (do apply_actions actions; pure actions) (record c { watchdog = w })
    ]

-- The same for a refusal of the cancellation after expired audio.
unfoldable pub cancel_expired_utterance : ℕ → ℕ → ℕ → Coordinating WatchdogAction
unfolding cancel_watched record_cancel_requested
cancel_expired_utterance stream utterance now_ns c =
    let (w, r) = cancel_watched c.watchdog stream utterance now_ns in
    elim r [
      | err e ↦ some (record c { watchdog = w }, err (watchdog_error e))
      | ok action ↦
          let (v, q) = record_cancel_requested c.validator utterance in
          elim q [
            | err e ↦ some (record c { validator = v }, err (validation_error e))
            | ok _ ↦
                some (
                  drop_buffer stream utterance (record c { watchdog = w; validator = v }),
                  ok action,
                )
          ]
    ]
