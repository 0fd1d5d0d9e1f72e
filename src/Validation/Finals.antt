-- ===== src/Validation/Finals.antt =====
-- crates/translator-ipc/src/validation.rs: which utterances are active or being cancelled after a
-- terminal, accepted or refused.
use Prim.Native.String.{String}
use translator.Prelude.{
  ℕ, ◌≡◌, refl, ◌⊎◌, Option, none, some, arith, ok, err, Option-cases, Result-cases, Bool-cases,
  inl, inr, subst,
}
use translator.Prelude.Map.{contains_key, remove}
use translator.Validation.Messages.{utterance_final, ProviderUtteranceFinal, common_fields}
use translator.Validation.State.{ProviderEventValidator, ProviderValidationError, Checked}
use translator.Validation.Audio.{event_utterance_id}
use translator.Validation.Kinds.{Outcome}
use translator.Validation.Terminals.{
  validate_overflow_terminal, validate_no_speech_terminal, validate_cancelled_terminal,
}
use translator.Validation.Unended.{Kept}
use translator.Validation.Validate.{
  validate_final, validate_event, validate_cancelled, validate_pending, validate_kind,
  validate_common, validate, note_sequence,
}

abbrev pub Ends : ProviderEventValidator → ℕ → ProviderEventValidator → Type 0
Ends v u v' =
    (v'.input_capture_ns ≡ remove u v.input_capture_ns)
    × ((v'.cancel_pending ≡ remove u v.cancel_pending)
        ⊎ (v'.cancel_pending ≡ remove u (remove u v.cancel_pending)))
    × (v'.closed ≡ v.closed)
    × (v'.opened ≡ v.opened)

unfoldable pub FinalBy :
    ProviderEventValidator → ℕ → ProviderEventValidator × Checked (Unit {0}) → Type 0
FinalBy v u (v', ok _) = Ends v u v'
FinalBy v u (v', err x) = Kept v v'

abbrev FinalBy? : ProviderEventValidator → ℕ → Outcome → Type 0
FinalBy? v u none = Unit {0}
FinalBy? v u (some r) = FinalBy v u r

abbrev Same : ProviderEventValidator → ProviderEventValidator → Type 0
Same v v' =
    (v'.input_capture_ns ≡ v.input_capture_ns)
    × (v'.cancel_pending ≡ v.cancel_pending)
    × (v'.closed ≡ v.closed)
    × (v'.opened ≡ v.opened)

module _ (parse : String → Option ℕ) (v₀ : ProviderEventValidator) (m : ProviderUtteranceFinal)
    (u : ℕ) (named : parse m.utterance_id ≡ some u) where
  overflow-FinalBy :
      (v : ProviderEventValidator) (expected : ℕ)
      → Same v₀ v
      → FinalBy v₀ u (validate_overflow_terminal parse v (utterance_final m) expected)
  unfolding validate_overflow_terminal FinalBy
  overflow-FinalBy v expected s = ground (arith, named)

  no_speech-FinalBy :
      (v : ProviderEventValidator) (expected : ℕ)
      → Same v₀ v
      → FinalBy v₀ u (validate_no_speech_terminal parse v (utterance_final m) expected)
  unfolding validate_no_speech_terminal FinalBy
  no_speech-FinalBy v expected s = ground (arith, named)

  cancelled-FinalBy :
      (v : ProviderEventValidator)
      → Same v₀ v
      → FinalBy v₀ u (validate_cancelled_terminal parse v (utterance_final m) u)
  unfolding validate_cancelled_terminal FinalBy
  cancelled-FinalBy v s = ground arith

  final-FinalBy : (v : ProviderEventValidator) → Same v₀ v → FinalBy v₀ u (validate_final parse v m)
  unfolding validate_final FinalBy
  final-FinalBy v s = ground (arith, named)

  pending-FinalBy :
      (v : ProviderEventValidator) (now_ns : ℕ)
      → Same v₀ v
      → FinalBy? v₀ u (validate_pending parse v (utterance_final m) now_ns)
  unfolding validate_pending validate_event
  pending-FinalBy v now_ns s = elim (Option-cases v.pending_overflow_terminal) [
    | inr (x, o) ↦ rw (o, validate_pending) (overflow-FinalBy v x s)
    | inl o ↦ elim (Option-cases v.pending_no_speech_terminal) [
      | inr (x, q) ↦ rw (o, q, validate_pending) (no_speech-FinalBy v x s)
      | inl q ↦
          rw (o, q, validate_pending)
            (final-FinalBy (record v { pending_no_speech_latency = none }) s)
    ]
  ]

  event_id : event_utterance_id parse (utterance_final m) ≡ ok (some u)
  unfolding event_utterance_id
  event_id = ground (arith, named)

  kind-FinalBy :
      (v : ProviderEventValidator) (now_ns : ℕ)
      → Same v₀ v
      → FinalBy? v₀ u (validate_kind parse v (utterance_final m) now_ns)
  unfolding validate_kind validate_cancelled
  kind-FinalBy v now_ns s =
      rw (event_id, validate_kind)
        (elim (Bool-cases (contains_key u v.cancel_pending)) [
          | inl c ↦ rw c (cancelled-FinalBy v s)
          | inr c ↦ rw c (pending-FinalBy v now_ns s)
        ])

  sequence-FinalBy :
      (sequence : ℕ) (o : Outcome) (r : ProviderEventValidator × Checked (Unit {0}))
      → o ≡ some r
      → FinalBy? v₀ u o
      → FinalBy v₀ u (note_sequence sequence r)
  unfolding note_sequence FinalBy
  sequence-FinalBy sequence o (v, ok _) e k = ground arith
  sequence-FinalBy sequence o (v, err x) e k = ground arith

  validate-FinalBy :
      (now_ns : ℕ) → FinalBy? v₀ u (validate parse v₀ (some (utterance_final m)) now_ns)
  unfolding validate FinalBy
  validate-FinalBy now_ns = elim (Result-cases (validate_common parse v₀ (utterance_final m))) [
    | inr (x, f) ↦ rw (f, validate) (inr (refl, refl, refl, inl refl))
    | inl (_, f) ↦
        rw (f, validate)
          (elim (Option-cases (validate_kind parse v₀ (utterance_final m) now_ns)) [
            | inl o ↦ rw o tt
            | inr (r, o) ↦ rw o (
                sequence-FinalBy (common_fields (utterance_final m)).event_sequence
                  (validate_kind parse v₀ (utterance_final m) now_ns) r o
                  (kind-FinalBy v₀ now_ns (refl, refl, refl, refl)))
          ])
  ]

  pub refused_final-Kept :
      (v : ProviderEventValidator) (now_ns : ℕ) (x : ProviderValidationError)
      → validate parse v₀ (some (utterance_final m)) now_ns ≡ some (v, err x)
      → Kept v₀ v
  unfolding FinalBy
  refused_final-Kept v now_ns x h = subst (FinalBy? v₀ u) h (validate-FinalBy now_ns)

  pub accepted_final-Ends :
      (v : ProviderEventValidator) (now_ns : ℕ)
      → validate parse v₀ (some (utterance_final m)) now_ns ≡ some (v, ok tt)
      → Ends v₀ u v
  unfolding FinalBy
  accepted_final-Ends v now_ns h = subst (FinalBy? v₀ u) h (validate-FinalBy now_ns)
