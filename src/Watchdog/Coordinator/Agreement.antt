-- ===== src/Watchdog/Coordinator/Agreement.antt =====
-- crates/translator-daemon/src/provider_audio_watchdog.rs: the utterances of the watchdog against
-- those of the validator.
pub mod Polls
pub mod Events
use Prim.Native.String.{String}
use translator.Prelude.{
  ℕ, ◌≡◌, Bool, true, false, ◌&&◌, not, ◌⊎◌, Option, none, some, is_some, List, [], ◌∷◌, arith,
  Result, ok, err, saturating_add64, Option-cases, inl, inr,
}
use translator.Prelude.Map.{get, insert, remove, get-insert, get-remove}
use translator.Validation.Messages.{
  Event, session_opened, audio_delta, transcript_delta, translation_delta, utterance_final,
  session_closed, health, latency, error, ProviderUtteranceFinal, ProviderAudioDelta, ProviderError,
  safe_error_of,
}
use translator.Validation.State as Validator
use translator.Validation.State.{
  ProviderSessionContract, ProviderValidationError, ProviderEventValidator,
}
use translator.Validation.Validate.{validate}
use translator.Validation.Invariant.{Inv}
use translator.Validation.Reports.{validate_error}
use translator.Watchdog.{
  awaiting_first_audio, first_audio_after_eou_timeout_ns, collecting_input,
  collecting_input_timeout_ns, WatchedUtterance, ProviderAudioWatchdog, is_active,
}
use translator.Watchdog.Finals.{is_cancel_pending}
use translator.Watchdog.Coordinator.{
  Coordinator, CoordinatorError, new_coordinator, start_utterance, record_end_of_utterance,
}

-- What the watchdog and the validator have on one utterance.
abbrev pub Linked : Bool → Option WatchedUtterance → Option ℕ → Option (Unit {0}) → Type 0
Linked opened none none c = c ≡ none
Linked opened (some w) (some t) c = (is_cancel_pending w.phase ≡ is_some c) × (opened ≡ true)
Linked opened none (some t) c = ⊥
Linked opened (some w) none c = ⊥

abbrev pub When : Bool → Type 0 → Type 0
When true P = P
When false P = Unit {0}

-- While the session goes on, for both.
abbrev pub is_live : Coordinator → Bool
is_live c = is_active c.watchdog.session_phase && not c.validator.closed

abbrev pub LinkedAt : Coordinator → ℕ → Type 0
LinkedAt c k = When (is_live c) (
    Linked c.validator.opened (get k c.watchdog.utterances) (get k c.validator.input_capture_ns)
      (get k c.validator.cancel_pending))

-- All utterances, for the tactics one at a time.
unfoldable pub Agrees : Coordinator → Type 0
Agrees c = (k : ℕ) → LinkedAt c k

pub new_coordinator-Agrees :
    (contract : ProviderSessionContract) → Agrees (new_coordinator contract)
unfolding new_coordinator Agrees get
new_coordinator-Agrees contract k = ground arith

abbrev pub LinkedAfter :
    {A : Type 0} → Option (Coordinator × Result A CoordinatorError) → ℕ → Type 0
LinkedAfter none k = Unit {0}
LinkedAfter (some (c, r)) k = LinkedAt c k

pub start_utterance-Linked :
    (c : Coordinator) (stream u ns k : ℕ)
    → Inv c.validator
    → Agrees c
    → LinkedAfter (start_utterance stream u ns c) k
unfolding start_utterance Agrees
start_utterance-Linked c stream u ns k i a =
    let begun : WatchedUtterance = record {
      stream_id = stream;
      phase = collecting_input (saturating_add64 ns collecting_input_timeout_ns);
    } in
    ground (
      arith,
      a k,
      a u,
      i.keys u,
      get-insert u k ns c.validator.input_capture_ns,
      get-remove u k (insert u begun c.watchdog.utterances),
      get-insert u k begun c.watchdog.utterances,
      get-insert u u begun c.watchdog.utterances,
    )

pub record_end-Linked :
    (c : Coordinator) (stream u ns k : ℕ)
    → Agrees c
    → LinkedAfter (record_end_of_utterance stream u ns c) k
unfolding record_end_of_utterance Agrees
record_end-Linked c stream u ns k a = ground (
  arith,
  a k,
  a u,
  get-insert u k
      (record {
        stream_id = stream;
        phase = awaiting_first_audio (saturating_add64 ns first_audio_after_eou_timeout_ns);
      })
      c.watchdog.utterances,
)
