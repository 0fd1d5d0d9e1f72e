-- ===== src/Validation/Ended.antt =====
-- crates/translator-ipc/src/validation.rs: what an accepted terminal ends.
use Prim.Native.String.{String}
use translator.Prelude.{
  ℕ, ◌≡◌, false, some, Option, ok, arith, Option-cases, inl, inr, ◌⊎◌, ◌<◌, length,
}
use translator.Prelude.Map.{contains_key, insert, remove, get-remove}
use translator.Validation.Messages.{ProviderUtteranceFinal, utterance_final}
use translator.Validation.State.{ProviderEventValidator}
use translator.Validation.Validate.{validate}
use translator.Validation.Invariant.{Inv}

-- The utterance is among the ended ones, and no map of the active ones has it any more.
pub record IsEnded (v w : ProviderEventValidator) (u : ℕ) : Type 0 where
  pub marked : w.terminal_utterances ≡ insert u tt v.terminal_utterances
  pub room : length v.terminal_utterances < 4096
  pub input : contains_key u w.input_capture_ns ≡ false
  pub complete : contains_key u w.input_complete_ns ≡ false
  pub wire : contains_key u w.last_wire_audio_sequence ≡ false
  pub playable : contains_key u w.last_playable_audio_sequence ≡ false
  pub cancel : contains_key u w.cancel_pending ≡ false

abbrev pub EndedOnce : ProviderEventValidator → ℕ → Type 0
EndedOnce v u =
    (contains_key u v.terminal_utterances ≡ false)
    ⊎ (v.pending_overflow_terminal ≡ some u)
    ⊎ (v.pending_no_speech_terminal ≡ some u)

module _ (parse : String → Option ℕ) where
  validate-IsEnded :
      (v w : ProviderEventValidator) (m : ProviderUtteranceFinal) (now_ns u : ℕ)
      → Inv v
      → parse m.utterance_id ≡ some u
      → validate parse v (some (utterance_final m)) now_ns ≡ some (w, ok tt)
      → IsEnded v w u × EndedOnce v u
  unfolding validate
  validate-IsEnded v w m now_ns u i e a = ground (
    arith,
    i.keys u,
    get-remove u u v.input_capture_ns,
    get-remove u u v.input_complete_ns,
    get-remove u u v.last_wire_audio_sequence,
    get-remove u u v.last_playable_audio_sequence,
    get-remove u u v.cancel_pending,
    get-remove u u (remove u v.cancel_pending),
  )

  -- A terminal that is accepted ends its utterance: afterwards it is among the ended ones, of which
  -- there were fewer than 4096, and none of the maps of active utterances holds it. It had not ended
  -- before, unless it is one whose dropped terminal was owed.
  pub accepted-ends :
      (v w : ProviderEventValidator) (m : ProviderUtteranceFinal) (now_ns : ℕ)
      → Inv v
      → validate parse v (some (utterance_final m)) now_ns ≡ some (w, ok tt)
      → (u : ℕ) × (parse m.utterance_id ≡ some u) × IsEnded v w u × EndedOnce v u
  unfolding validate
  accepted-ends v w m now_ns i a = elim (Option-cases (parse m.utterance_id)) [
    | inl e ↦ ground arith
    | inr (u, e) ↦ let (x, y) = validate-IsEnded v w m now_ns u i e a in (u, e, x, y)
  ]
