-- ===== src/Validation/Unended.antt =====
-- crates/translator-ipc/src/validation.rs: which utterances are active or being cancelled after an
-- event that is no terminal.
use Prim.Native.String.{String}
use translator.Prelude.{
  ℕ, ◌≡◌, refl, Bool, true, false, ◌⊎◌, Option, none, some, arith, ok, err, Option-cases,
  Result-cases, Bool-cases, inl, inr, subst,
}
use translator.Prelude.Map.{contains_key}
use translator.Validation.Messages.{
  Event, session_opened, audio_delta, transcript_delta, translation_delta, utterance_final,
  session_closed, health, latency, error, ProviderAudioDelta, ProviderError, ProviderLatency,
  ProviderSessionOpened, common_fields,
}
use translator.Validation.State.{ProviderEventValidator, Checked}
use translator.Validation.Audio.{validate_wire_audio, active_utterance, event_utterance_id}
use translator.Validation.Kinds.{Outcome, validate_opened, validate_playable}
use translator.Validation.Reports.{validate_audio, after_wire, validate_latency, validate_error}
use translator.Validation.Terminals.{
  validate_overflow_terminal, validate_no_speech_terminal, validate_cancelled_terminal,
}
use translator.Validation.Validate.{
  validate_event, validate_cancelled, validate_pending, validate_kind, validate_common, validate,
  note_sequence, refuse_cancelled, keeps_latency,
}

abbrev pub not_final : Event → Bool
not_final (utterance_final m) = false
not_final _ = true

abbrev pub Kept : ProviderEventValidator → ProviderEventValidator → Type 0
Kept v v' =
    (v'.closed ≡ true)
    ⊎ ((v'.input_capture_ns ≡ v.input_capture_ns)
        × (v'.cancel_pending ≡ v.cancel_pending)
        × (v'.closed ≡ v.closed)
        × ((v'.opened ≡ v.opened) ⊎ (v'.opened ≡ true)))

unfoldable pub KeptBy : ProviderEventValidator → ProviderEventValidator → Type 0
KeptBy v v' = Kept v v'

abbrev pub KeptBy? : ProviderEventValidator → Outcome → Type 0
KeptBy? v none = Unit {0}
KeptBy? v (some (v', r)) = KeptBy v v'

module _ (v₀ : ProviderEventValidator) where
  opened-KeptBy :
      (v : ProviderEventValidator) (m : ProviderSessionOpened)
      → KeptBy v₀ v
      → KeptBy v₀ (validate_opened v m).0
  unfolding validate_opened KeptBy
  opened-KeptBy v m k = ground arith

  latency_set-KeptBy :
      (v : ProviderEventValidator) (l : Option ℕ)
      → KeptBy v₀ v
      → KeptBy v₀ (record v { pending_no_speech_latency = l })
  unfolding KeptBy
  latency_set-KeptBy v l k = k

  wire-KeptBy :
      (v : ProviderEventValidator) (m : ProviderAudioDelta) (u : ℕ)
      → KeptBy v₀ v
      → KeptBy v₀ (validate_wire_audio v m u).0
  unfolding validate_wire_audio KeptBy
  wire-KeptBy v m u k = ground arith

  playable-KeptBy :
      (v : ProviderEventValidator) (m : ProviderAudioDelta) (u now_ns : ℕ)
      → KeptBy v₀ v
      → KeptBy? v₀ (validate_playable v m u now_ns)
  unfolding validate_playable KeptBy
  playable-KeptBy v m u now_ns k = ground arith

  after_wire-KeptBy :
      (r : ProviderEventValidator × Checked (Unit {0})) (m : ProviderAudioDelta) (u now_ns : ℕ)
      → KeptBy v₀ r.0
      → KeptBy? v₀ (after_wire r m u now_ns)
  unfolding after_wire
  after_wire-KeptBy (v, err e) m u now_ns k = k
  after_wire-KeptBy (v, ok _) m u now_ns k = playable-KeptBy v m u now_ns k

  refuse-KeptBy :
      (r : ProviderEventValidator × Checked (Unit {0}))
      → KeptBy v₀ r.0
      → KeptBy v₀ (refuse_cancelled r).0
  unfolding refuse_cancelled
  refuse-KeptBy (v, err e) k = k
  refuse-KeptBy (v, ok _) k = k

  module _ (parse : String → Option ℕ) where
    audio-KeptBy :
        (v : ProviderEventValidator) (m : ProviderAudioDelta) (now_ns : ℕ)
        → KeptBy v₀ v
        → KeptBy? v₀ (validate_audio parse v m now_ns)
    unfolding validate_audio
    audio-KeptBy v m now_ns k = elim (Result-cases (active_utterance parse v m.utterance_id)) [
      | inr (x, e) ↦ rw (e, validate_audio) k
      | inl (u, e) ↦
          rw (e, validate_audio)
            (after_wire-KeptBy (validate_wire_audio v m u) m u now_ns (wire-KeptBy v m u k))
    ]

    latency-KeptBy :
        (v : ProviderEventValidator) (m : ProviderLatency)
        → KeptBy v₀ v
        → KeptBy v₀ (validate_latency parse v m).0
    unfolding validate_latency KeptBy
    latency-KeptBy v m k = ground arith

    error-KeptBy :
        (v : ProviderEventValidator) (m : ProviderError)
        → KeptBy v₀ v
        → KeptBy v₀ (validate_error parse v m).0
    unfolding validate_error KeptBy
    error-KeptBy v m k = ground arith

    event-KeptBy :
        (v : ProviderEventValidator) (e : Event) (now_ns : ℕ)
        → not_final e ≡ true
        → KeptBy v₀ v
        → KeptBy? v₀ (validate_event parse v e now_ns)
    unfolding validate_event KeptBy
    event-KeptBy v (session_opened m) now_ns n k = opened-KeptBy v m k
    event-KeptBy v (audio_delta m) now_ns n k = audio-KeptBy v m now_ns k
    event-KeptBy v (transcript_delta m) now_ns n k = k
    event-KeptBy v (translation_delta m) now_ns n k = k
    event-KeptBy v (latency m) now_ns n k = latency-KeptBy v m k
    event-KeptBy v (health m) now_ns n k = k
    event-KeptBy v (error m) now_ns n k = error-KeptBy v m k
    event-KeptBy v (utterance_final m) now_ns n k = cc
    event-KeptBy v (session_closed c) now_ns n k = inl refl

    terminals-KeptBy :
        (v : ProviderEventValidator) (e : Event) (u : ℕ)
        → not_final e ≡ true
        → KeptBy v₀ v
        → KeptBy v₀ (validate_overflow_terminal parse v e u).0
          × KeptBy v₀ (validate_no_speech_terminal parse v e u).0
          × KeptBy v₀ (validate_cancelled_terminal parse v e u).0
    unfolding validate_overflow_terminal validate_no_speech_terminal validate_cancelled_terminal
    terminals-KeptBy v (utterance_final m) u n k = cc
    terminals-KeptBy v e u n k = (k, k, k)

    cancelled-KeptBy :
        (v : ProviderEventValidator) (e : Event) (u : ℕ)
        → not_final e ≡ true
        → KeptBy v₀ v
        → KeptBy v₀ (validate_cancelled parse v e u).0
    unfolding validate_cancelled
    cancelled-KeptBy v (audio_delta m) u n k =
        refuse-KeptBy (validate_wire_audio v m u) (wire-KeptBy v m u k)
    cancelled-KeptBy v e u n k = (terminals-KeptBy v e u n k).2

    pending-KeptBy :
        (v : ProviderEventValidator) (e : Event) (now_ns : ℕ)
        → not_final e ≡ true
        → KeptBy v₀ v
        → KeptBy? v₀ (validate_pending parse v e now_ns)
    unfolding validate_pending
    pending-KeptBy v e now_ns n k = elim (Option-cases v.pending_overflow_terminal) [
      | inr (u, o) ↦ rw (o, validate_pending) (terminals-KeptBy v e u n k).0
      | inl o ↦ elim (Option-cases v.pending_no_speech_terminal) [
        | inr (u, q) ↦ rw (o, q, validate_pending) (terminals-KeptBy v e u n k).1
        | inl q ↦
            rw (o, q, validate_pending)
              (elim (Bool-cases (keeps_latency e)) [
                | inl l ↦ rw l (event-KeptBy v e now_ns n k)
                | inr l ↦ rw l (event-KeptBy _ e now_ns n (latency_set-KeptBy v none k))
              ])
      ]
    ]

    kind-KeptBy :
        (v : ProviderEventValidator) (e : Event) (now_ns : ℕ)
        → not_final e ≡ true
        → KeptBy v₀ v
        → KeptBy? v₀ (validate_kind parse v e now_ns)
    unfolding validate_kind
    kind-KeptBy v e now_ns n k = elim (Result-cases (event_utterance_id parse e)) [
      | inr (x, f) ↦ rw (f, validate_kind) k
      | inl (none, f) ↦ rw (f, validate_kind) (pending-KeptBy v e now_ns n k)
      | inl (some u, f) ↦
          rw (f, validate_kind)
            (elim (Bool-cases (contains_key u v.cancel_pending)) [
              | inl c ↦ rw c (cancelled-KeptBy v e u n k)
              | inr c ↦ rw c (pending-KeptBy v e now_ns n k)
            ])
    ]

    sequence-KeptBy :
        (sequence : ℕ) (o : Outcome) (v : ProviderEventValidator) (r : Checked (Unit {0}))
        → o ≡ some (v, r)
        → KeptBy? v₀ o
        → KeptBy v₀ (note_sequence sequence (v, r)).0
    unfolding note_sequence KeptBy
    sequence-KeptBy sequence o v r e k = ground arith

    validate-KeptBy :
        (v : ProviderEventValidator) (e : Event) (now_ns : ℕ)
        → not_final e ≡ true
        → KeptBy v₀ v
        → KeptBy? v₀ (validate parse v (some e) now_ns)
    unfolding validate
    validate-KeptBy v e now_ns n k = elim (Result-cases (validate_common parse v e)) [
      | inr (x, f) ↦ rw (f, validate) k
      | inl (_, f) ↦
          rw (f, validate)
            (elim (Option-cases (validate_kind parse v e now_ns)) [
              | inl o ↦ rw o tt
              | inr ((w, r), o) ↦ rw o (
                  sequence-KeptBy (common_fields e).event_sequence (validate_kind parse v e now_ns)
                    w r o (kind-KeptBy v e now_ns n k))
            ])
    ]

pub validate-Kept :
    (parse : String → Option ℕ) (v v' : ProviderEventValidator) (e : Event) (now_ns : ℕ)
    (r : Checked (Unit {0}))
    → validate parse v (some e) now_ns ≡ some (v', r)
    → not_final e ≡ true
    → Kept v v'
unfolding KeptBy
validate-Kept parse v v' e now_ns r h n =
    subst (KeptBy? v) h (validate-KeptBy v parse v e now_ns n (inr (refl, refl, refl, inl refl)))
