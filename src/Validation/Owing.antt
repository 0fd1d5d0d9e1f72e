-- ===== src/Validation/Owing.antt =====
-- crates/translator-ipc/src/validation.rs: calls and events while the dropped terminal of an utterance is
-- owed.
use Prim.Native.String.{String}
use translator.Prelude.{
  ℕ, ◌≡◌, refl, ◌==◌, ◌&&◌, not, Bool, true, false, List, [], ◌∷◌, some, none, Option, arith,
  opt_eq, Result-cases, Option-cases, Bool-cases, inl, inr, subst,
}
use translator.Prelude.Map.{contains_key}
use translator.Validation.Messages.{
  Event, utterance_final, common_fields, audio_delta, ProviderAudioDelta,
}
use translator.Validation.State.{
  ProviderEventValidator, Checked, record_input, record_end_of_utterance, record_cancel_requested,
  set_debug_text_enabled,
}
use translator.Validation.Audio.{event_utterance_id, validate_wire_audio}
use translator.Validation.Kinds.{Outcome}
use translator.Validation.Terminals.{
  dropped_code, validate_overflow_terminal, validate_cancelled_terminal,
}
use translator.Validation.Validate.{
  validate, validate_common, validate_kind, validate_cancelled, validate_pending, note_sequence,
  refuse_cancelled,
}
use translator.Validation.History.{Call, inputs, ends, cancels, debugs, event, step, validated}

abbrev pub Owes : ℕ → ProviderEventValidator → Type 0
Owes u v = v.pending_overflow_terminal ≡ some u

abbrev Owes? : ℕ → Outcome → Type 0
Owes? u none = Unit {0}
Owes? u (some (v, r)) = Owes u v

module _ (parse : String → Option ℕ) (u : ℕ) where
  -- The event is the dropped terminal of `u`.
  unfoldable pub drops : Event → Bool
  drops (utterance_final m) = opt_eq (parse m.utterance_id) (some u) && m.outcome == dropped_code
  drops _ = false

  -- No event of the calls is the dropped terminal of `u`.
  unfoldable pub spares : List Call → Bool
  unfolding drops
  spares [] = true
  spares (event (some e) now_ns ∷ cs) = not (drops e) && spares cs
  spares (_ ∷ cs) = spares cs

  overflow-Owes :
      (v : ProviderEventValidator) (e : Event)
      → drops e ≡ false
      → Owes u v
      → Owes u (validate_overflow_terminal parse v e u).0
  unfolding validate_overflow_terminal drops
  overflow-Owes v e d o = ground (arith, o)

  wire-Owes :
      (v : ProviderEventValidator) (m : ProviderAudioDelta) (k : ℕ)
      → Owes u v
      → Owes u (refuse_cancelled (validate_wire_audio v m k)).0
  unfolding validate_wire_audio refuse_cancelled
  wire-Owes v m k o = ground (arith, o)

  terminal-Owes :
      (v : ProviderEventValidator) (e : Event) (k : ℕ)
      → Owes u v
      → Owes u (validate_cancelled_terminal parse v e k).0
  unfolding validate_cancelled_terminal
  terminal-Owes v e k o = ground (arith, o)

  cancelled-Owes :
      (v : ProviderEventValidator) (e : Event) (k : ℕ)
      → Owes u v
      → Owes u (validate_cancelled parse v e k).0
  unfolding validate_cancelled
  cancelled-Owes v (audio_delta m) k o = wire-Owes v m k o
  cancelled-Owes v e k o = terminal-Owes v e k o

  pending-Owes :
      (v : ProviderEventValidator) (e : Event) (now_ns : ℕ)
      → drops e ≡ false
      → Owes u v
      → Owes? u (validate_pending parse v e now_ns)
  unfolding validate_pending
  pending-Owes v e now_ns d o = rw (o, validate_pending) (overflow-Owes v e d o)

  kind-Owes :
      (v : ProviderEventValidator) (e : Event) (now_ns : ℕ)
      → drops e ≡ false
      → Owes u v
      → Owes? u (validate_kind parse v e now_ns)
  unfolding validate_kind
  kind-Owes v e now_ns d o = elim (Result-cases (event_utterance_id parse e)) [
    | inr (x, f) ↦ rw (f, validate_kind) o
    | inl (none, f) ↦ rw (f, validate_kind) (pending-Owes v e now_ns d o)
    | inl (some k, f) ↦
        rw (f, validate_kind)
          (elim (Bool-cases (contains_key k v.cancel_pending)) [
            | inl c ↦ rw c (cancelled-Owes v e k o)
            | inr c ↦ rw c (pending-Owes v e now_ns d o)
          ])
  ]

  sequence-Owes :
      (sequence : ℕ) (x : Outcome) (v : ProviderEventValidator) (r : Checked (Unit {0}))
      → x ≡ some (v, r)
      → Owes? u x
      → Owes u (note_sequence sequence (v, r)).0
  unfolding note_sequence
  sequence-Owes sequence x v r e o = ground arith

  event-Owes :
      (v : ProviderEventValidator) (e : Event) (now_ns : ℕ)
      → drops e ≡ false
      → Owes u v
      → Owes? u (validate parse v (some e) now_ns)
  unfolding validate
  event-Owes v e now_ns d o = elim (Result-cases (validate_common parse v e)) [
    | inr (x, f) ↦ rw (f, validate) o
    | inl (_, f) ↦
        rw (f, validate)
          (elim (Option-cases (validate_kind parse v e now_ns)) [
            | inl g ↦ rw g tt
            | inr ((w, r), g) ↦ rw g (
                sequence-Owes (common_fields e).event_sequence (validate_kind parse v e now_ns) w r
                  g (kind-Owes v e now_ns d o))
          ])
  ]

  step-Owes :
      (v : ProviderEventValidator) (c : Call)
      → spares (c ∷ []) ≡ true
      → Owes u v
      → Owes? u (step parse v c)
  unfolding step spares validate record_input record_end_of_utterance record_cancel_requested
      set_debug_text_enabled
  step-Owes v (inputs k ns) s o = ground (arith, o)
  step-Owes v (ends k ns) s o = ground (arith, o)
  step-Owes v (cancels k) s o = ground (arith, o)
  step-Owes v (debugs b) s o = o
  step-Owes v (event none now_ns) s o = o
  step-Owes v (event (some e) now_ns) s o = event-Owes v e now_ns (ground (arith, s)) o

  spares-cons :
      (c : Call) (cs : List Call)
      → spares (c ∷ cs) ≡ true
      → (spares (c ∷ []) ≡ true) × (spares cs ≡ true)
  unfolding spares
  spares-cons (inputs k ns) cs s = (refl, s)
  spares-cons (ends k ns) cs s = (refl, s)
  spares-cons (cancels k) cs s = (refl, s)
  spares-cons (debugs b) cs s = (refl, s)
  spares-cons (event none now_ns) cs s = (refl, s)
  spares-cons (event (some e) now_ns) cs s = ground (arith, s)

  pub validated-Owes :
      (v x : ProviderEventValidator) (cs : List Call)
      → spares cs ≡ true
      → Owes u v
      → validated parse v cs ≡ some x
      → Owes u x
  unfolding validated
  validated-Owes v x [] s o e = ground (arith, o, e)
  validated-Owes v x (c ∷ cs) s o e =
      let (first, rest) = spares-cons c cs s in
      elim (Option-cases (step parse v c)) [
        | inl p ↦ ground (arith, p, e)
        | inr ((w, r), p) ↦
            validated-Owes w x cs rest (subst (Owes? u) p (step-Owes v c first o))
              (ground (arith, p, e))
      ]
