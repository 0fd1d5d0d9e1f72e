-- ===== src/Validation/History.antt =====
-- crates/translator-ipc/src/validation.rs: the validator under any calls of the daemon and any events
-- of the provider.
use Prim.Native.String.{String}
use translator.Prelude.{ℕ, Bool, List, [], ◌∷◌, Option, none, some, ok}
use translator.Validation.Messages.{Event}
use translator.Validation.State.{
  ProviderEventValidator, Checked, record_input, record_end_of_utterance, record_cancel_requested,
  set_debug_text_enabled,
}
use translator.Validation.Validate.{validate}

pub data Call : Type 0 where
  inputs ends : ℕ → ℕ → Call
  cancels : ℕ → Call
  debugs : Bool → Call
  event : Option Event → ℕ → Call

module _ (parse : String → Option ℕ) where
  unfoldable pub step :
      ProviderEventValidator → Call → Option (ProviderEventValidator × Checked (Unit {0}))
  step v (inputs utterance ns) = some (record_input v utterance ns)
  step v (ends utterance ns) = some (record_end_of_utterance v utterance ns)
  step v (cancels utterance) = some (record_cancel_requested v utterance)
  step v (debugs enabled) = some (set_debug_text_enabled v enabled, ok tt)
  step v (event e now_ns) = validate parse v e now_ns

  unfoldable pub validated : ProviderEventValidator → List Call → Option ProviderEventValidator
  validated v [] = some v
  validated v (c ∷ cs) = elim (step v c) [ none ↦ none | some (w, r) ↦ validated w cs ]
