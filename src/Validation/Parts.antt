-- ===== src/Validation/Parts.antt =====
-- crates/translator-ipc/src/validation.rs: the invariant over the parts of `validate` that end or note
-- an utterance.
use Prim.Native.String.{String}
use text.Mathlib.Text.{◌==◌ as str_eq}
use translator.Prelude.{
  ℕ, ◌≡◌, Bool, true, is_some, Option, none, some, ok, arith, Option-cases, Result-cases, inl, inr,
  not, ◌||◌, Bool-cases, opt_eq,
}
use translator.Prelude.Map.{get, remove, get-remove}
use translator.Validation.Messages.{
  Event, utterance_final, safe_error_of, ProviderAudioDelta, SafeErrorCode, queue_overflow,
  no_speech, ProviderUtteranceFinal, ProviderLatency, ProviderError, ProviderSessionOpened,
}
use translator.Validation.State.{ProviderEventValidator, terminalize}
use translator.Validation.Audio.{validate_wire_audio, active_utterance}
use translator.Validation.Kinds.{Outcome, safe_error_message, validate_opened}
use translator.Validation.Terminals.{
  validate_overflow_terminal, validate_no_speech_terminal, validate_cancelled_terminal,
}
use translator.Validation.Reports.{
  validate_latency, validate_error, note_error, active_optional, is_unspecified,
}
use translator.Validation.Validate.{validate_final}
use translator.Validation.Invariant.{Inv, terminalize-Inv, validate_wire_audio-Inv}

-- The invariant as a whole, for the tactics.
unfoldable pub Good : ProviderEventValidator → Type 0
Good v = Inv v

abbrev pub Fine : Outcome → Type 0
Fine none = ⊥
Fine (some (v, r)) = Good v

pub terminalize-Good : (v : ProviderEventValidator) (u : ℕ) → Good v → Good (terminalize v u).0
unfolding Good
terminalize-Good v u g = terminalize-Inv v u g

-- A change of the fields that the invariant does not mention.
pub pending-Good :
    (v : ProviderEventValidator) (o n l : Option ℕ) (opened closed : Bool) (s : Option ℕ)
    → Good v
    → Good (record v {
      pending_overflow_terminal = o;
      pending_no_speech_terminal = n;
      pending_no_speech_latency = l;
      opened = opened;
      closed = closed;
      last_event_sequence = s;
    })
unfolding Good
pending-Good v o n l opened closed s g = record {
  keys = g.keys;
  active = g.active;
  terminal = g.terminal;
}

pub uncancel-Good :
    (v : ProviderEventValidator) (u : ℕ)
    → Good v
    → Good (record v { cancel_pending = remove u v.cancel_pending })
unfolding Good
uncancel-Good v u g = record {
  keys = λ k. ground (arith, g.keys k, get-remove u k v.cancel_pending);
  active = g.active;
  terminal = g.terminal;
}

-- Only the pending lack of speech changes, or the overflow.
pub latency_set-Good :
    (v : ProviderEventValidator) (l : Option ℕ)
    → Good v
    → Good (record v { pending_no_speech_latency = l })
unfolding Good
latency_set-Good v l g = record { keys = g.keys; active = g.active; terminal = g.terminal }

pub opened_set-Good :
    (v : ProviderEventValidator) (opened closed : Bool)
    → Good v
    → Good (record v { opened = opened; closed = closed })
unfolding Good
opened_set-Good v opened closed g = record {
  keys = g.keys;
  active = g.active;
  terminal = g.terminal;
}

pub note_error-Good :
    (parse : String → Option ℕ) (v : ProviderEventValidator) (c : SafeErrorCode) (u : Option ℕ)
    → Good v
    → Good (note_error parse v c u).0
unfolding note_error Good
note_error-Good parse v queue_overflow none g = g
note_error-Good parse v queue_overflow (some u) g = record {
  keys = g.keys;
  active = g.active;
  terminal = g.terminal;
}
note_error-Good parse v no_speech none g = g
note_error-Good parse v no_speech (some u) g =
    elim (Bool-cases (not (opt_eq v.pending_no_speech_latency (some u)))) [
      | inl e ↦ rw (e, note_error) g
      | inr e ↦
          rw (e, note_error) (record { keys = g.keys; active = g.active; terminal = g.terminal })
    ]
note_error-Good parse v _ u g = g

module _ (parse : String → Option ℕ) where
  pub overflow-Good :
      (v : ProviderEventValidator) (e : Event) (u : ℕ)
      → Good v
      → Good (validate_overflow_terminal parse v e u).0
  unfolding validate_overflow_terminal
  overflow-Good v (utterance_final m) u g = ground (
    arith,
    pending-Good v none v.pending_no_speech_terminal v.pending_no_speech_latency v.opened v.closed
        v.last_event_sequence,
    terminalize-Good (record v { pending_overflow_terminal = none }) u,
  )
  overflow-Good v _ u g = g

  pub no_speech-Good :
      (v : ProviderEventValidator) (e : Event) (u : ℕ)
      → Good v
      → Good (validate_no_speech_terminal parse v e u).0
  unfolding validate_no_speech_terminal
  no_speech-Good v (utterance_final m) u g = ground (
    arith,
    pending-Good v v.pending_overflow_terminal none v.pending_no_speech_latency v.opened v.closed
        v.last_event_sequence,
    terminalize-Good (record v { pending_no_speech_terminal = none }) u,
  )
  no_speech-Good v _ u g = g

  pub cancelled_terminal-Good :
      (v : ProviderEventValidator) (e : Event) (u : ℕ)
      → Good v
      → Good (validate_cancelled_terminal parse v e u).0
  unfolding validate_cancelled_terminal
  cancelled_terminal-Good v (utterance_final m) u g = ground (
    arith,
    uncancel-Good v u,
    terminalize-Good (record v { cancel_pending = remove u v.cancel_pending }) u,
  )
  cancelled_terminal-Good v _ u g = g

  pub final-Good :
      (v : ProviderEventValidator) (m : ProviderUtteranceFinal)
      → Good v
      → Good (validate_final parse v m).0
  unfolding validate_final
  final-Good v m g = elim (Result-cases (active_utterance parse v m.utterance_id)) [
    | inl (u, e) ↦ ground (arith, terminalize-Good v u)
    | inr (x, e) ↦ ground arith
  ]

  pub latency-Good :
      (v : ProviderEventValidator) (m : ProviderLatency)
      → Good v
      → Good (validate_latency parse v m).0
  unfolding validate_latency
  latency-Good v m g = elim (Result-cases (active_optional parse v m.utterance_id)) [
    | inl (u, e) ↦ rw (e, validate_latency) (latency_set-Good v _ g)
    | inr (x, e) ↦ rw (e, validate_latency) g
  ]

  pub error-Good :
      (v : ProviderEventValidator) (m : ProviderError) → Good v → Good (validate_error parse v m).0
  unfolding validate_error
  error-Good v m g = elim (Option-cases (safe_error_of m.code)) [
    | inl e ↦ rw (e, validate_error) g
    | inr (c, e) ↦
        rw (e, validate_error)
          (elim (Bool-cases
            (is_unspecified c || not (str_eq m.safe_message (safe_error_message c)))) [
              | inl bad ↦ rw bad g
              | inr fine ↦ rw fine (elim (Result-cases (active_optional parse v m.utterance_id)) [
                | inr (x, f) ↦ rw f g
                | inl (u, f) ↦ rw f (note_error-Good parse v c u g)
              ])
            ])
  ]

pub opened-Good :
    (v : ProviderEventValidator) (m : ProviderSessionOpened) → Good v → Good (validate_opened v m).0
unfolding validate_opened
opened-Good v m g = ground (arith, opened_set-Good v true v.closed g)

pub active_utterance-active :
    (parse : String → Option ℕ) (v : ProviderEventValidator) (value : String) (u : ℕ)
    → active_utterance parse v value ≡ ok u
    → is_some (get u v.input_capture_ns) ≡ true
unfolding active_utterance
active_utterance-active parse v value u e = ground arith

pub wire-Good :
    (v : ProviderEventValidator) (m : ProviderAudioDelta) (u : ℕ)
    → is_some (get u v.input_capture_ns) ≡ true
    → Good v
    → Good (validate_wire_audio v m u).0
unfolding Good
wire-Good v m u a g = validate_wire_audio-Inv v m u a g
