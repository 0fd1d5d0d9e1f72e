-- ===== src/Watchdog/Coordinator/Agreement/Events.antt =====
-- crates/translator-daemon/src/provider_audio_watchdog.rs: the same, over `validate_event`.
use Prim.Native.String.{String}
use translator.Prelude.{
  if◌then◌else◌, ensure, ℕ, ◌≡◌, refl, true, Option, none, some, Result, ok, err, arith,
  Result-cases, Option-cases, Bool-cases, inl, inr, saturating_add64,
}
use translator.Prelude.Map.{remove, get-insert, get-remove}
use translator.Validation.Messages.{
  Event, session_opened, audio_delta, transcript_delta, translation_delta, utterance_final,
  session_closed, health, latency, error, ProviderUtteranceFinal, ProviderAudioDelta, CommonFields,
  UtteranceOutcome, outcome_of,
}
use translator.Validation.State.{ProviderEventValidator}
use translator.Validation.Validate.{validate}
use translator.Validation.Finals.{refused_final-Kept, accepted_final-Ends}
use translator.Validation.Unended.{Kept, not_final, validate-Kept}
use translator.Prelude.Effects.{◌>>◌}
use translator.Watchdog.{
  session_terminal, WatchedUtterance, ProviderAudioWatchdog, inter_audio_delta_timeout_ns,
  streaming_audio, is_active,
}
use translator.Watchdog.Finals.{check_final, record_session_closed, awaits_cancelled}
use translator.Watchdog.Coordinator.{Coordinator, CoordinatorError, watchdog_error, drop_buffer}
use translator.Watchdog.Coordinator.Events.{
  validates, accept_audio, validate_audio_event, record_final, validate_final_event,
  validate_closed_event, changes, is_completed, is_closed_event, validate_kind, validate_event,
}
use translator.Watchdog.Coordinator.Agreement.{Agrees, LinkedAt, LinkedAfter}

abbrev with_validator : ProviderEventValidator → Coordinator → Coordinator
with_validator v c = record c { validator = v }

-- A validator that keeps its utterances stays in step.
Kept-LinkedAt :
    (c : Coordinator) (v : ProviderEventValidator) (k : ℕ)
    → Kept c.validator v
    → LinkedAt c k
    → LinkedAt (with_validator v c) k
Kept-LinkedAt c v k h l = ground (arith, h, l)

abbrev admitted : ProviderAudioWatchdog → Event → Result (Unit {0}) CoordinatorError
admitted w e =
    ensure (if is_active w.session_phase then true else is_closed_event e)
      (watchdog_error session_terminal)

module _ (parse : String → Option ℕ) where
  validates-Linked :
      (c : Coordinator) (e : Event) (now_ns k : ℕ)
      → not_final e ≡ true
      → Agrees c
      → LinkedAfter (validates parse e now_ns c) k
  unfolding validates Agrees
  validates-Linked c e now_ns k n a =
      elim (Option-cases (validate parse c.validator (some e) now_ns)) [
        | inl q ↦ rw (q, validates) tt
        | inr ((v, r), q) ↦
            rw (q, validates)
              (Kept-LinkedAt c v k (validate-Kept parse c.validator v e now_ns r q n) (a k))
      ]

  accept-Linked :
      (c : Coordinator) (m : ProviderAudioDelta) (stream u now_ns k : ℕ)
      → Agrees c
      → LinkedAfter (accept_audio parse m stream u now_ns c) k
  unfolding accept_audio validates Agrees
  accept-Linked c m stream u now_ns k a =
      elim (Option-cases (validate parse c.validator (some (audio_delta m)) now_ns)) [
        | inl q ↦ ground (arith, q, a k)
        | inr ((v, r), q) ↦
            let kept =
              Kept-LinkedAt c v k
                (validate-Kept parse c.validator v (audio_delta m) now_ns r q refl) (a k) in
            let streaming : WatchedUtterance = record {
              stream_id = stream;
              phase = streaming_audio (saturating_add64 now_ns inter_audio_delta_timeout_ns);
            } in
            ground (arith, q, a k, kept, get-insert u k streaming c.watchdog.utterances)
      ]

  audio-Linked :
      (c : Coordinator) (m : ProviderAudioDelta) (now_ns k : ℕ)
      → Agrees c
      → LinkedAfter (validate_audio_event parse m now_ns c) k
  unfolding validate_audio_event Agrees
  audio-Linked c m now_ns k a = elim (Option-cases (parse m.stream_id)) [
    | inl p ↦ rw p (a k)
    | inr (stream, p) ↦ rw p (elim (Option-cases (parse m.utterance_id)) [
      | inl q ↦ rw q (a k)
      | inr (u, q) ↦ rw q (elim (Bool-cases (awaits_cancelled c.watchdog stream u)) [
        | inl w ↦ rw w (validates-Linked c (audio_delta m) now_ns k refl a)
        | inr w ↦ rw w (accept-Linked c m stream u now_ns k a)
      ])
    ])
  ]

  closed-Linked :
      (c : Coordinator) (m : CommonFields) (now_ns k : ℕ)
      → Agrees c
      → LinkedAfter (validate_closed_event parse m now_ns c) k
  unfolding validate_closed_event validates record_session_closed Agrees
  closed-Linked c m now_ns k a =
      elim (Option-cases (validate parse c.validator (some (session_closed m)) now_ns)) [
        | inl q ↦ ground (arith, q, a k)
        | inr ((v, r), q) ↦
            let kept =
              Kept-LinkedAt c v k
                (validate-Kept parse c.validator v (session_closed m) now_ns r q refl) (a k) in
            ground (arith, q, a k, kept)
      ]

  -- Once the validator accepts the terminal, the watchdog does too, and both forget the utterance.
  ended-Linked :
      (c : Coordinator) (v : ProviderEventValidator) (m : ProviderUtteranceFinal)
      (outcome : UtteranceOutcome) (stream u now_ns k : ℕ)
      → parse m.utterance_id ≡ some u
      → validate parse c.validator (some (utterance_final m)) now_ns ≡ some (v, ok tt)
      → check_final c.watchdog stream u outcome now_ns ≡ ok tt
      → Agrees c
      → LinkedAfter
          ((do
            record_final parse outcome stream u
            changes (λ d. if is_completed outcome then d else drop_buffer stream u d))
            (with_validator v c))
          k
  unfolding check_final record_final Agrees
  ended-Linked c v m outcome stream u now_ns k p q f a = ground (
    arith,
    f,
    accepted_final-Ends parse c.validator m u p v now_ns q,
    a k,
    get-remove u k c.watchdog.utterances,
    get-remove u k c.validator.input_capture_ns,
    get-remove u k c.validator.cancel_pending,
    get-remove u k (remove u c.validator.cancel_pending),
  )

  checked_final-Linked :
      (c : Coordinator) (m : ProviderUtteranceFinal) (outcome : UtteranceOutcome)
      (stream u now_ns k : ℕ)
      → parse m.utterance_id ≡ some u
      → check_final c.watchdog stream u outcome now_ns ≡ ok tt
      → Agrees c
      → LinkedAfter
          ((do
            validates parse (utterance_final m) now_ns
            record_final parse outcome stream u
            changes (λ d. if is_completed outcome then d else drop_buffer stream u d))
            c)
          k
  unfolding validates Agrees
  checked_final-Linked c m outcome stream u now_ns k q f a =
      elim (Option-cases (validate parse c.validator (some (utterance_final m)) now_ns)) [
        | inl h ↦ rw (h, LinkedAfter) tt
        | inr ((v, ok _), h) ↦
            rw (h, LinkedAfter) (ended-Linked c v m outcome stream u now_ns k q h f a)
        | inr ((v, err x), h) ↦
            rw (h, LinkedAfter)
              (Kept-LinkedAt c v k (refused_final-Kept parse c.validator m u q v now_ns x h) (a k))
      ]

  final-Linked :
      (c : Coordinator) (m : ProviderUtteranceFinal) (now_ns k : ℕ)
      → Agrees c
      → LinkedAfter (validate_final_event parse m now_ns c) k
  unfolding validate_final_event validates Agrees
  final-Linked c m now_ns k a = elim (Option-cases (parse m.stream_id)) [
    | inl p ↦ rw p (a k)
    | inr (stream, p) ↦ rw p (elim (Option-cases (parse m.utterance_id)) [
      | inl q ↦ rw q (a k)
      | inr (u, q) ↦ rw q (elim (Option-cases (outcome_of m.outcome)) [
        | inl o ↦ rw o (a k)
        | inr (outcome, o) ↦
            rw o (elim (Result-cases (check_final c.watchdog stream u outcome now_ns)) [
              | inr (x, f) ↦ rw (f, LinkedAfter) (a k)
              | inl (_, f) ↦
                  rw (f, LinkedAfter) (checked_final-Linked c m outcome stream u now_ns k q f a)
            ])
      ])
    ])
  ]

  kind-Linked :
      (c : Coordinator) (e : Event) (now_ns k : ℕ)
      → Agrees c
      → LinkedAfter (validate_kind parse e now_ns c) k
  unfolding validate_kind
  kind-Linked c (audio_delta m) now_ns k a = audio-Linked c m now_ns k a
  kind-Linked c (utterance_final m) now_ns k a = final-Linked c m now_ns k a
  kind-Linked c (session_closed m) now_ns k a = closed-Linked c m now_ns k a
  kind-Linked c (session_opened m) now_ns k a =
      validates-Linked c (session_opened m) now_ns k refl a
  kind-Linked c (transcript_delta m) now_ns k a =
      validates-Linked c (transcript_delta m) now_ns k refl a
  kind-Linked c (translation_delta m) now_ns k a =
      validates-Linked c (translation_delta m) now_ns k refl a
  kind-Linked c (health m) now_ns k a = validates-Linked c (health m) now_ns k refl a
  kind-Linked c (latency m) now_ns k a = validates-Linked c (latency m) now_ns k refl a
  kind-Linked c (error m) now_ns k a = validates-Linked c (error m) now_ns k refl a

  pub validate_event-Linked :
      (c : Coordinator) (e : Option Event) (now_ns k : ℕ)
      → Agrees c
      → LinkedAfter (validate_event parse e now_ns c) k
  unfolding validate_event Agrees
  validate_event-Linked c none now_ns k a = a k
  validate_event-Linked c (some e) now_ns k a = elim (Result-cases (admitted c.watchdog e)) [
    | inr (x, p) ↦ rw p (a k)
    | inl (_, p) ↦ rw p (kind-Linked c e now_ns k a)
  ]
