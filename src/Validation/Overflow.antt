-- ===== src/Validation/Overflow.antt =====
-- crates/translator-ipc/src/validation.rs: an utterance that owes a dropped terminal after an overflow, and
-- is cancelled before it comes.
use Prim.Native.String.{String}
use translator.Prelude.{
  ℕ, ◌≡◌, ◌<◌, true, List, some, Option, ok, err, arith, opt_eq, Result-cases, inl, inr, length,
  subst,
}
use translator.Prelude.Map.{contains_key, insert, get}
use translator.Validation.Messages.{
  ProviderUtteranceFinal, utterance_final, session_closed, CommonFields,
}
use translator.Validation.State.{
  ProviderEventValidator, ProviderValidationError, expected_overflow_terminal,
  max_terminal_utterances,
}
use translator.Validation.Audio.{event_utterance_id}
use translator.Validation.Terminals.{cancelled_code, validate_cancelled_terminal}
use translator.Validation.Validate.{
  validate, validate_common, validate_kind, validate_cancelled, note_sequence,
}
use translator.Validation.History.{Call, validated}
use translator.Validation.Owing.{Owes, spares, validated-Owes}
use translator.Validation.Invariant.{Inv}
use translator.Validation.Totality.{validate-Fine, validated-Inv_from}
use translator.Validation.Parts.{Good, Fine}

module _ (parse : String → Option ℕ) (u : ℕ) where
  closed_refused :
      (v : ProviderEventValidator) (c : CommonFields) (now_ns : ℕ)
      → Owes u v
      → (e : ProviderValidationError) × (validate parse v (some (session_closed c)) now_ns
          ≡ some (v, err e))
  unfolding validate
  closed_refused v c now_ns h = elim (Result-cases (validate_common parse v (session_closed c))) [
    | inl (_, e) ↦ (expected_overflow_terminal, ground arith)
    | inr (x, e) ↦ (x, ground arith)
  ]

  opt_eq_refl : (x : Option ℕ) → opt_eq x x ≡ true
  opt_eq_refl x = ground arith

  cancel_ends :
      (v : ProviderEventValidator) (m : ProviderUtteranceFinal)
      → m.outcome ≡ cancelled_code
      → m.final_audio_sequence ≡ get u v.last_wire_audio_sequence
      → length v.terminal_utterances < max_terminal_utterances
      → let (w, r) = validate_cancelled_terminal parse v (utterance_final m) u in
        (r ≡ ok tt)
        × (w.terminal_utterances ≡ insert u tt v.terminal_utterances)
        × (w.pending_overflow_terminal ≡ v.pending_overflow_terminal)
  unfolding validate_cancelled_terminal
  cancel_ends v m o f l = ground (arith, o, f, l, opt_eq_refl (get u v.last_wire_audio_sequence))

  cancel_kind :
      (v : ProviderEventValidator) (m : ProviderUtteranceFinal) (now_ns : ℕ)
      → parse m.utterance_id ≡ some u
      → contains_key u v.cancel_pending ≡ true
      → validate_kind parse v (utterance_final m) now_ns
        ≡ some (validate_cancelled_terminal parse v (utterance_final m) u)
  unfolding validate_kind validate_cancelled event_utterance_id
  cancel_kind v m now_ns p k = ground (arith, p, k)

  cancel_accepted :
      (v : ProviderEventValidator) (m : ProviderUtteranceFinal) (now_ns : ℕ)
      → Owes u v
      → parse m.utterance_id ≡ some u
      → contains_key u v.cancel_pending ≡ true
      → validate_common parse v (utterance_final m) ≡ ok tt
      → m.outcome ≡ cancelled_code
      → m.final_audio_sequence ≡ get u v.last_wire_audio_sequence
      → length v.terminal_utterances < max_terminal_utterances
      → (w : ProviderEventValidator) × (validate parse v (some (utterance_final m)) now_ns
          ≡ some (w, ok tt))
        × (w.terminal_utterances ≡ insert u tt v.terminal_utterances)
        × Owes u w
  unfolding validate note_sequence
  cancel_accepted v m now_ns o p k c out final room =
      let a = cancel_ends v m out final room in
      let r = validate_cancelled_terminal parse v (utterance_final m) u in
      (
        (note_sequence m.common.event_sequence r).0,
        ground (arith, c, a, cancel_kind v m now_ns p k),
        ground (arith, a),
        ground (arith, a, o),
      )

  accepted-Good :
      (v w : ProviderEventValidator) (m : ProviderUtteranceFinal) (now_ns : ℕ)
      → Inv v
      → validate parse v (some (utterance_final m)) now_ns ≡ some (w, ok tt)
      → Good w
  unfolding Good
  accepted-Good v w m now_ns i a =
      subst Fine a (validate-Fine parse v (some (utterance_final m)) now_ns i)

  -- In a validator that satisfies its invariant, while the dropped terminal of an utterance is owed
  -- after an overflow and the daemon has cancelled the utterance, the terminal of the cancellation is
  -- accepted and ends it, if it passes the checks common to all events, names the last audio of the
  -- utterance, and fewer than 4096 utterances have ended. But the dropped terminal is owed still:
  -- after any calls and events that do not hold a dropped terminal of the ended utterance, the close
  -- of the session is refused and changes nothing.
  pub overflow_cancelled-blocks :
      (v : ProviderEventValidator) (m : ProviderUtteranceFinal) (now_ns : ℕ) (cs : List Call)
      (c : CommonFields) (later_ns : ℕ)
      → Inv v
      → v.pending_overflow_terminal ≡ some u
      → parse m.utterance_id ≡ some u
      → contains_key u v.cancel_pending ≡ true
      → validate_common parse v (utterance_final m) ≡ ok tt
      → m.outcome ≡ cancelled_code
      → m.final_audio_sequence ≡ get u v.last_wire_audio_sequence
      → length v.terminal_utterances < max_terminal_utterances
      → spares parse u cs ≡ true
      → (w : ProviderEventValidator) × (validate parse v (some (utterance_final m)) now_ns
          ≡ some (w, ok tt))
        × (w.terminal_utterances ≡ insert u tt v.terminal_utterances)
        × ((x : ProviderEventValidator) × (validated parse w cs ≡ some x)
            × (x.pending_overflow_terminal ≡ some u)
            × ((e : ProviderValidationError) × (validate parse x (some (session_closed c)) later_ns
                  ≡ some (x, err e))))
  overflow_cancelled-blocks v m now_ns cs c later_ns i o p k common out final room s =
      let (w, a, ended, owed) = cancel_accepted v m now_ns o p k common out final room in
      let (x, run, _) = validated-Inv_from parse w cs (accepted-Good v w m now_ns i a) in
      let owes = validated-Owes parse u w x cs s owed run in
      (w, a, ended, (x, run, owes, closed_refused x c later_ns owes))
