-- ===== src/Watchdog/Coordinator/Soundness/Events.antt =====
-- crates/translator-daemon/src/provider_audio_watchdog.rs: the same, over the provider's events.
use Prim.Native.String.{String}
use translator.Prelude.{
  ℕ, ok_or, ensure, true, false, if◌then◌else◌, Option, none, some, ok, Option-cases, inl, inr,
  subst,
}
use translator.Prelude.Effects.{lift}
use translator.Validation.Messages.{
  Event, audio_delta, utterance_final, session_closed, ProviderAudioDelta, ProviderUtteranceFinal,
  CommonFields, outcome_of, UtteranceOutcome, completed, cancelled, dropped,
}
use translator.Validation.State.{invalid_outcome}
use translator.Validation.Validate.{validate}
use translator.Validation.Parts.{Fine}
use translator.Validation.Totality.{validate-Fine}
use translator.Watchdog.{is_active, session_terminal, check_audio_delta, record_audio_delta}
use translator.Watchdog.Finals.{
  check_final, awaits_cancelled, finish_utterance, record_session_closed, record_completed_final,
  record_cancelled_final,
}
use translator.Watchdog.Coordinator.{
  watched, validated, watchdog_error, on_watchdog, can_buffer_receive_audio, drop_buffer,
  drop_buffers,
}
use translator.Watchdog.Coordinator.Buffers.{no_buffers-BuffersOk}
use translator.Watchdog.Coordinator.Events.{
  parse_uuid, is_completed, is_closed_event, validates, accept_audio, validate_audio_event,
  record_final, validate_final_event, validate_closed_event, validate_kind, validate_event, reads,
  changes,
}
use translator.Watchdog.Coordinator.Soundness.{
  Preserves, Sound, audio-KeepsDistinct, bind-Preserves, closed-KeepsDistinct, finish-KeepsDistinct,
  on_watchdog-Preserves,
}
use translator.Watchdog.Coordinator.Soundness.Calls.{
  buffer-Preserves, can_buffer-Preserves, purge-Sound,
}

module _ (parse : String → Option ℕ) where
  validates-Preserves : (e : Event) (now_ns : ℕ) → Preserves (validates parse e now_ns)
  unfolding validates
  validates-Preserves e now_ns c s =
      let f = validate-Fine parse c.validator (some e) now_ns s.valid in
      elim (Option-cases (validate parse c.validator (some e) now_ns)) [
        | inl q ↦ absurd (subst Fine q f)
        | inr ((v, r), q) ↦
            rw (q, validates)
              (record { valid = subst Fine q f; distinct = s.distinct; buffers = s.buffers })
      ]

  accept-Preserves :
      (m : ProviderAudioDelta) (stream u now_ns : ℕ)
      → Preserves (accept_audio parse m stream u now_ns)
  unfolding accept_audio
  accept-Preserves m stream u now_ns =
      bind-Preserves (reads (λ c. watched (check_audio_delta c.watchdog stream u now_ns))) _
        (λ c s. s)
        (λ _.
          bind-Preserves (can_buffer_receive_audio stream u m.format.frame_duration_ms) _
            (can_buffer-Preserves stream u m.format.frame_duration_ms)
            (λ _.
              bind-Preserves (validates parse (audio_delta m) now_ns) _
                (validates-Preserves (audio_delta m) now_ns)
                (λ _.
                  bind-Preserves (on_watchdog (λ w. record_audio_delta w stream u now_ns)) _
                    (on_watchdog-Preserves (λ w. record_audio_delta w stream u now_ns)
                      (audio-KeepsDistinct stream u now_ns))
                    (λ _. buffer-Preserves stream u m.pcm m.format.frame_duration_ms))))

  audio-Preserves :
      (m : ProviderAudioDelta) (now_ns : ℕ) → Preserves (validate_audio_event parse m now_ns)
  unfolding validate_audio_event
  audio-Preserves m now_ns =
      bind-Preserves (lift (parse_uuid parse m.stream_id)) _ (λ c s. s)
        (λ stream.
          bind-Preserves (lift (parse_uuid parse m.utterance_id)) _ (λ c s. s)
            (λ u.
              bind-Preserves (reads (λ c. ok (awaits_cancelled c.watchdog stream u))) _ (λ c s. s)
                (λ p.
                  elim p
                    as (λ b. Preserves (
                      if b
                      then validates parse (audio_delta m) now_ns
                      else accept_audio parse m stream u now_ns)) [
                        | true ↦ validates-Preserves (audio_delta m) now_ns
                        | false ↦ accept-Preserves m stream u now_ns
                      ])))

  record_final-Preserves :
      (outcome : UtteranceOutcome) (stream u : ℕ) → Preserves (record_final parse outcome stream u)
  unfolding record_final record_cancelled_final record_completed_final
  record_final-Preserves cancelled stream u =
      on_watchdog-Preserves (λ w. finish_utterance w stream u true)
        (finish-KeepsDistinct stream u true)
  record_final-Preserves completed stream u =
      on_watchdog-Preserves (λ w. finish_utterance w stream u false)
        (finish-KeepsDistinct stream u false)
  record_final-Preserves dropped stream u =
      on_watchdog-Preserves (λ w. finish_utterance w stream u false)
        (finish-KeepsDistinct stream u false)
  record_final-Preserves UtteranceOutcome.unspecified stream u = λ c s. s

  final-Preserves :
      (m : ProviderUtteranceFinal) (now_ns : ℕ) → Preserves (validate_final_event parse m now_ns)
  unfolding validate_final_event
  final-Preserves m now_ns =
      bind-Preserves (lift (parse_uuid parse m.stream_id)) _ (λ c s. s)
        (λ stream.
          bind-Preserves (lift (parse_uuid parse m.utterance_id)) _ (λ c s. s)
            (λ u.
              bind-Preserves (lift (validated (ok_or (outcome_of m.outcome) invalid_outcome))) _
                (λ c s. s)
                (λ outcome.
                  bind-Preserves
                    (reads (λ c. watched (check_final c.watchdog stream u outcome now_ns))) _
                    (λ c s. s)
                    (λ _.
                      bind-Preserves (validates parse (utterance_final m) now_ns) _
                        (validates-Preserves (utterance_final m) now_ns)
                        (λ _.
                          bind-Preserves (record_final parse outcome stream u) _
                            (record_final-Preserves outcome stream u)
                            (λ _ c s.
                              elim (is_completed outcome)
                                as (λ b. Sound (if b then c else drop_buffer stream u c)) [
                                  | true ↦ s
                                  | false ↦ purge-Sound stream u true c s
                                ]))))))

  closed-Preserves :
      (m : CommonFields) (now_ns : ℕ) → Preserves (validate_closed_event parse m now_ns)
  unfolding validate_closed_event
  closed-Preserves m now_ns =
      bind-Preserves (validates parse (session_closed m) now_ns) _
        (validates-Preserves (session_closed m) now_ns)
        (λ _.
          bind-Preserves (lift (parse_uuid parse m.session_id)) _ (λ c s. s)
            (λ session.
              bind-Preserves (on_watchdog (λ w. record_session_closed w session))
                (λ _. changes drop_buffers)
                (on_watchdog-Preserves (λ w. record_session_closed w session)
                  (closed-KeepsDistinct session))
                (λ _ c s. record {
                  valid = s.valid;
                  distinct = s.distinct;
                  buffers = no_buffers-BuffersOk;
                })))

  kind-Preserves : (e : Event) (now_ns : ℕ) → Preserves (validate_kind parse e now_ns)
  unfolding validate_kind
  kind-Preserves (audio_delta m) now_ns = audio-Preserves m now_ns
  kind-Preserves (utterance_final m) now_ns = final-Preserves m now_ns
  kind-Preserves (session_closed m) now_ns = closed-Preserves m now_ns
  kind-Preserves e now_ns = validates-Preserves e now_ns

  pub event-Preserves : (e : Option Event) (now_ns : ℕ) → Preserves (validate_event parse e now_ns)
  unfolding validate_event
  event-Preserves none now_ns = λ c s. s
  event-Preserves (some e) now_ns =
      bind-Preserves (reads (λ c. ok (is_active c.watchdog.session_phase))) _ (λ c s. s)
        (λ a.
          bind-Preserves
            (lift
              (ensure (if a then true else is_closed_event e) (watchdog_error session_terminal)))
            _ (λ c s. s) (λ _. kind-Preserves e now_ns))
