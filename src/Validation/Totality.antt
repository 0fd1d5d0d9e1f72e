-- ===== src/Validation/Totality.antt =====
-- crates/translator-ipc/src/validation.rs: `validate` on every path, refusals and panics included.
use Prim.Native.String.{String}
use translator.Prelude.{
  ℕ, ◌≡◌, refl, sym, true, is_some, Option, none, some, List, [], ◌∷◌, ok, err, is_ok, arith,
  Option-cases, Result-cases, inl, inr, Bool-cases, subst,
}
use translator.Prelude.Map.{get, insert, contains_key, get-insert}
use translator.Validation.Messages.{
  Event, session_opened, audio_delta, transcript_delta, translation_delta, utterance_final,
  session_closed, health, latency, error, common_fields, ProviderAudioDelta,
}
use translator.Validation.State.{
  ProviderSessionContract, ProviderEventValidator, Checked, new_validator, set_debug_text_enabled,
}
use translator.Validation.Audio.{validate_wire_audio, active_utterance, event_utterance_id}
use translator.Validation.Kinds.{validate_playable}
use translator.Validation.Reports.{after_wire, validate_audio}
use translator.Validation.Validate.{
  validate_event, validate_cancelled, validate_pending, validate_kind, validate_common, validate,
  note_sequence, refuse_cancelled, keeps_latency, counts,
}
use translator.Validation.History.{Call, inputs, ends, cancels, debugs, event, step, validated}
use translator.Validation.Invariant.{
  Inv, new_validator-Inv, record_input-Inv, record_end-Inv, record_cancel-Inv,
}
use translator.Validation.Parts.{
  Good, Fine, latency_set-Good, opened_set-Good, overflow-Good, no_speech-Good,
  cancelled_terminal-Good, final-Good, latency-Good, error-Good, opened-Good,
  active_utterance-active, wire-Good,
}

-- What audio on record leaves: the utterance is still active, and its audio is on record.
wire-keeps :
    (v : ProviderEventValidator) (m : ProviderAudioDelta) (u : ℕ)
    → let (w, r) = validate_wire_audio v m u in
      (w.input_capture_ns ≡ v.input_capture_ns)
      × (is_ok r ≡ true → is_some (get u w.last_wire_audio_sequence) ≡ true)
unfolding validate_wire_audio
wire-keeps v m u = ground (arith, get-insert u u m.sequence v.last_wire_audio_sequence)

complete_active :
    (v : ProviderEventValidator) (u : ℕ)
    → is_some (get u v.input_capture_ns) ≡ true
    → Good v
    → is_some (get u v.input_complete_ns) ≡ true
unfolding Good
complete_active v u a g = ground (arith, g.keys u)

playable_set-Good :
    (v : ProviderEventValidator) (u sequence : ℕ)
    → is_some (get u v.last_wire_audio_sequence) ≡ true
    → Good v
    → Good (record v {
      last_playable_audio_sequence = insert u sequence v.last_playable_audio_sequence;
    })
unfolding Good
playable_set-Good v u sequence w g = record {
  keys = λ k. ground (arith, g.keys k, get-insert u k sequence v.last_playable_audio_sequence);
  active = g.active;
  terminal = g.terminal;
}

playable-Fine :
    (v : ProviderEventValidator) (m : ProviderAudioDelta) (u now_ns : ℕ)
    → is_some (get u v.input_capture_ns) ≡ true
    → is_some (get u v.last_wire_audio_sequence) ≡ true
    → Good v
    → Fine (validate_playable v m u now_ns)
unfolding validate_playable
playable-Fine v m u now_ns a w g =
    ground (arith, complete_active v u a g, playable_set-Good v u m.sequence w g)

after_wire-Fine :
    (r : ProviderEventValidator × Checked (Unit {0})) (m : ProviderAudioDelta) (u now_ns : ℕ)
    → is_some (get u r.0.input_capture_ns) ≡ true
    → (is_ok r.1 ≡ true → is_some (get u r.0.last_wire_audio_sequence) ≡ true)
    → Good r.0
    → Fine (after_wire r m u now_ns)
unfolding after_wire
after_wire-Fine (v, err e) m u now_ns a w g = g
after_wire-Fine (v, ok _) m u now_ns a w g = playable-Fine v m u now_ns a (w refl) g

audio-Fine :
    (parse : String → Option ℕ) (v : ProviderEventValidator) (m : ProviderAudioDelta) (now_ns : ℕ)
    → Good v
    → Fine (validate_audio parse v m now_ns)
unfolding validate_audio
audio-Fine parse v m now_ns g = elim (Result-cases (active_utterance parse v m.utterance_id)) [
  | inr (x, e) ↦ rw (e, validate_audio) g
  | inl (u, e) ↦
      let a = active_utterance-active parse v m.utterance_id u e in
      let kept = wire-keeps v m u in
      rw (e, validate_audio)
        (after_wire-Fine (validate_wire_audio v m u) m u now_ns
          (subst (λ c. is_some (get u c) ≡ true) (sym kept.0) a) kept.1 (wire-Good v m u a g))
]

event-Fine :
    (parse : String → Option ℕ) (v : ProviderEventValidator) (e : Event) (now_ns : ℕ)
    → Good v
    → Fine (validate_event parse v e now_ns)
unfolding validate_event
event-Fine parse v (session_opened m) now_ns g = opened-Good v m g
event-Fine parse v (audio_delta m) now_ns g = audio-Fine parse v m now_ns g
event-Fine parse v (transcript_delta m) now_ns g = g
event-Fine parse v (translation_delta m) now_ns g = g
event-Fine parse v (latency m) now_ns g = latency-Good parse v m g
event-Fine parse v (health m) now_ns g = g
event-Fine parse v (error m) now_ns g = error-Good parse v m g
event-Fine parse v (utterance_final m) now_ns g = final-Good parse v m g
event-Fine parse v (session_closed c) now_ns g = opened_set-Good v v.opened true g

refuse-Good :
    (r : ProviderEventValidator × Checked (Unit {0})) → Good r.0 → Good (refuse_cancelled r).0
unfolding refuse_cancelled
refuse-Good (v, err e) g = g
refuse-Good (v, ok _) g = g

cancelling_active :
    (v : ProviderEventValidator) (u : ℕ)
    → contains_key u v.cancel_pending ≡ true
    → Good v
    → is_some (get u v.input_capture_ns) ≡ true
unfolding Good
cancelling_active v u c g = ground (arith, g.keys u)

cancelled-Good :
    (parse : String → Option ℕ) (v : ProviderEventValidator) (e : Event) (u : ℕ)
    → contains_key u v.cancel_pending ≡ true
    → Good v
    → Good (validate_cancelled parse v e u).0
unfolding validate_cancelled
cancelled-Good parse v (audio_delta m) u c g =
    refuse-Good (validate_wire_audio v m u) (wire-Good v m u (cancelling_active v u c g) g)
cancelled-Good parse v e u c g = cancelled_terminal-Good parse v e u g

pending-Fine :
    (parse : String → Option ℕ) (v : ProviderEventValidator) (e : Event) (now_ns : ℕ)
    → Good v
    → Fine (validate_pending parse v e now_ns)
unfolding validate_pending
pending-Fine parse v e now_ns g = elim (Option-cases v.pending_overflow_terminal) [
  | inr (u, o) ↦ rw (o, validate_pending) (overflow-Good parse v e u g)
  | inl o ↦ elim (Option-cases v.pending_no_speech_terminal) [
    | inr (u, n) ↦ rw (o, n, validate_pending) (no_speech-Good parse v e u g)
    | inl n ↦
        rw (o, n, validate_pending)
          (elim (Bool-cases (keeps_latency e)) [
            | inl k ↦ rw k (event-Fine parse v e now_ns g)
            | inr k ↦ rw k (event-Fine parse _ e now_ns (latency_set-Good v none g))
          ])
  ]
]

kind-Fine :
    (parse : String → Option ℕ) (v : ProviderEventValidator) (e : Event) (now_ns : ℕ)
    → Good v
    → Fine (validate_kind parse v e now_ns)
unfolding validate_kind
kind-Fine parse v e now_ns g = elim (Result-cases (event_utterance_id parse e)) [
  | inr (x, f) ↦ rw (f, validate_kind) g
  | inl (none, f) ↦ rw (f, validate_kind) (pending-Fine parse v e now_ns g)
  | inl (some u, f) ↦
      rw (f, validate_kind)
        (elim (Bool-cases (contains_key u v.cancel_pending)) [
          | inl c ↦ rw c (cancelled-Good parse v e u c g)
          | inr c ↦ rw c (pending-Fine parse v e now_ns g)
        ])
]

sequence-Good :
    (sequence : ℕ) (r : ProviderEventValidator × Checked (Unit {0}))
    → Good r.0
    → Good (note_sequence sequence r).0
unfolding note_sequence Good
sequence-Good sequence (v, r) g = elim (Bool-cases (counts r)) [
  | inl c ↦ rw c (record { keys = g.keys; active = g.active; terminal = g.terminal })
  | inr c ↦ rw c g
]

pub validate-Fine :
    (parse : String → Option ℕ) (v : ProviderEventValidator) (e : Option Event) (now_ns : ℕ)
    → Good v
    → Fine (validate parse v e now_ns)
unfolding validate
validate-Fine parse v none now_ns g = g
validate-Fine parse v (some e) now_ns g = elim (Result-cases (validate_common parse v e)) [
  | inr (x, f) ↦ rw (f, validate) g
  | inl (_, f) ↦
      rw (f, validate)
        (elim (Option-cases (validate_kind parse v e now_ns)) [
          | inl k ↦ absurd (subst Fine k (kind-Fine parse v e now_ns g))
          | inr (r, k) ↦ rw k (
              sequence-Good (common_fields e).event_sequence r
                (subst Fine k (kind-Fine parse v e now_ns g)))
        ])
]

step-Fine :
    (parse : String → Option ℕ) (v : ProviderEventValidator) (c : Call)
    → Good v
    → Fine (step parse v c)
unfolding step Good
step-Fine parse v (inputs u ns) g = record_input-Inv v u ns g
step-Fine parse v (ends u ns) g = record_end-Inv v u ns g
step-Fine parse v (cancels u) g = record_cancel-Inv v u g
step-Fine parse v (debugs b) g =
    unfold set_debug_text_enabled in
    record { keys = g.keys; active = g.active; terminal = g.terminal }
step-Fine parse v (event e now_ns) g = validate-Fine parse v e now_ns g

pub validated-Inv_from :
    (parse : String → Option ℕ) (v : ProviderEventValidator) (cs : List Call)
    → Good v
    → (w : ProviderEventValidator) × (validated parse v cs ≡ some w) × Good w
unfolding validated
validated-Inv_from parse v [] g = (v, refl, g)
validated-Inv_from parse v (c ∷ cs) g = elim (Option-cases (step parse v c)) [
  | inl e ↦ absurd (subst Fine e (step-Fine parse v c g))
  | inr ((w, r), e) ↦
      let (x, f, h) = validated-Inv_from parse w cs (subst Fine e (step-Fine parse v c g)) in
      (x, rw (e, validated) f, h)
]

-- Whatever the daemon records and the provider sends, in any order, the validator never panics, and
-- afterwards: at most 64 utterances are active and 4096 ended, no ended one is active, and every time,
-- audio sequence and pending cancellation on record is that of an active utterance.
pub validated-Inv :
    (parse : String → Option ℕ) (c : ProviderSessionContract) (cs : List Call)
    → (w : ProviderEventValidator) × (validated parse (new_validator c) cs ≡ some w) × Inv w
unfolding Good
validated-Inv parse c cs = validated-Inv_from parse (new_validator c) cs (new_validator-Inv c)
