-- ===== src/Validation/State.antt =====
-- crates/translator-ipc/src/validation.rs: the validator's state, and the calls by which the daemon
-- tells it of its own input and cancellations. A call returns the state beside its result, since a
-- refusal may come after a change.
use translator.Prelude.{
  ℕ, Bool, true, false, not, ◌&&◌, leb, if◌then◌else◌, Option, none, Result, ok, err, length, [],
}
use translator.Prelude.Map.{Map, Set, contains_key, insert, remove, or_insert}
use translator.Validation.Messages.{
  WireDirection, WireLanguage, WireMode, quality_first, balanced, streaming_first, unspecified,
  ProviderId, WireFormat,
}

abbrev pub max_active_utterances : ℕ
max_active_utterances = 64

abbrev pub max_terminal_utterances : ℕ
max_terminal_utterances = 4096

pub record ProviderSessionContract : Type 0 where
  pub session_id : ℕ
  pub stream_id : ℕ
  pub provider_id : ProviderId
  pub direction_id : WireDirection
  pub source_language : WireLanguage
  pub target_language : WireLanguage
  pub mode : WireMode
  pub input_format : WireFormat
  pub output_format : WireFormat
  pub debug_text_enabled : Bool

pub data ProviderValidationError : Type 0 where
  missing_event open_required duplicate_open schema_mismatch : ProviderValidationError
  session_mismatch direction_mismatch provider_mismatch stream_mismatch : ProviderValidationError
  invalid_identifier duplicate_sequence stale_sequence sequence_gap : ProviderValidationError
  duplicate_audio_sequence stale_audio_sequence audio_sequence_gap : ProviderValidationError
  missing_session_contract negotiated_format_mismatch : ProviderValidationError
  output_format_mismatch pcm_length_mismatch unknown_utterance : ProviderValidationError
  utterance_terminal utterance_capacity_exceeded : ProviderValidationError
  terminal_capacity_exceeded session_terminal debug_text_disabled : ProviderValidationError
  unsafe_error_message expired_audio cancelled_audio : ProviderValidationError
  final_audio_sequence_mismatch expected_overflow_terminal : ProviderValidationError
  expected_no_speech_terminal expected_no_speech_latency : ProviderValidationError
  expected_cancelled_terminal invalid_outcome : ProviderValidationError

abbrev pub Checked {ℓ} : Type ℓ → Type ℓ
Checked A = Result A ProviderValidationError

pub record ProviderEventValidator : Type 0 where
  pub contract : ProviderSessionContract
  pub opened : Bool
  pub closed : Bool
  pub last_event_sequence : Option ℕ
  pub input_capture_ns : Map ℕ
  pub input_complete_ns : Map ℕ
  pub last_wire_audio_sequence : Map ℕ
  pub last_playable_audio_sequence : Map ℕ
  pub terminal_utterances : Set
  pub pending_overflow_terminal : Option ℕ
  pub pending_no_speech_terminal : Option ℕ
  pub pending_no_speech_latency : Option ℕ
  pub cancel_pending : Set
  pub debug_text_enabled : Bool

unfoldable pub new_validator : ProviderSessionContract → ProviderEventValidator
new_validator contract = record {
  contract = contract;
  opened = false;
  closed = false;
  last_event_sequence = none;
  input_capture_ns = [];
  input_complete_ns = [];
  last_wire_audio_sequence = [];
  last_playable_audio_sequence = [];
  terminal_utterances = [];
  pending_overflow_terminal = none;
  pending_no_speech_terminal = none;
  pending_no_speech_latency = none;
  cancel_pending = [];
  debug_text_enabled = contract.debug_text_enabled;
}

unfoldable pub record_input :
    ProviderEventValidator → ℕ → ℕ → ProviderEventValidator × Checked (Unit {0})
record_input v utterance ns =
    if not v.opened
    then (v, err open_required)
    else if v.closed
    then (v, err session_terminal)
    else if contains_key utterance v.terminal_utterances
    then (v, err utterance_terminal)
    else if not (contains_key utterance v.input_capture_ns)
        && leb max_active_utterances (length v.input_capture_ns)
    then (v, err utterance_capacity_exceeded)
    else (
      record v {
        input_capture_ns = or_insert utterance ns v.input_capture_ns;
        input_complete_ns = or_insert utterance ns v.input_complete_ns;
      },
      ok tt,
    )

unfoldable pub record_end_of_utterance :
    ProviderEventValidator → ℕ → ℕ → ProviderEventValidator × Checked (Unit {0})
record_end_of_utterance v utterance ns =
    if not v.opened
    then (v, err open_required)
    else if v.closed
    then (v, err session_terminal)
    else if not (contains_key utterance v.input_complete_ns)
    then (v, err unknown_utterance)
    else (record v { input_complete_ns = insert utterance ns v.input_complete_ns }, ok tt)

unfoldable pub set_debug_text_enabled : ProviderEventValidator → Bool → ProviderEventValidator
set_debug_text_enabled v enabled = record v { debug_text_enabled = enabled }

unfoldable pub can_record_cancel_requested : ProviderEventValidator → ℕ → Checked (Unit {0})
can_record_cancel_requested v utterance =
    if not v.opened
    then err open_required
    else if v.closed
    then err session_terminal
    else if contains_key utterance v.terminal_utterances
    then err utterance_terminal
    else if not (contains_key utterance v.input_capture_ns)
    then err unknown_utterance
    else ok tt

unfoldable pub record_cancel_requested :
    ProviderEventValidator → ℕ → ProviderEventValidator × Checked (Unit {0})
unfolding can_record_cancel_requested
record_cancel_requested v utterance = elim (can_record_cancel_requested v utterance) [
  | err e ↦ (v, err e)
  | ok _ ↦ (record v { cancel_pending = insert utterance tt v.cancel_pending }, ok tt)
]

unfoldable pub terminalize :
    ProviderEventValidator → ℕ → ProviderEventValidator × Checked (Unit {0})
terminalize v utterance =
    if leb max_terminal_utterances (length v.terminal_utterances)
    then (record v { closed = true }, err terminal_capacity_exceeded)
    else (
      record v {
        terminal_utterances = insert utterance tt v.terminal_utterances;
        input_capture_ns = remove utterance v.input_capture_ns;
        input_complete_ns = remove utterance v.input_complete_ns;
        last_wire_audio_sequence = remove utterance v.last_wire_audio_sequence;
        last_playable_audio_sequence = remove utterance v.last_playable_audio_sequence;
        cancel_pending = remove utterance v.cancel_pending;
      },
      ok tt,
    )

unfoldable pub max_age_ms : WireMode → ℕ
max_age_ms quality_first = 3000
max_age_ms balanced = 2000
max_age_ms streaming_first = 1000
max_age_ms unspecified = 0
