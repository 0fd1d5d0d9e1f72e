-- ===== src/Validation/Kinds.antt =====
-- crates/translator-ipc/src/validation.rs, `validate_kind`: what each kind of event must satisfy, and
-- the terminal that an utterance owes after a cancellation, an overflow or a lack of speech.
use Prim.Native.String.{String}
use text.Mathlib.Text.{◌==◌ as str_eq}
use translator.Prelude.{
  ℕ, ◌-◌, ◌*◌, Bool, true, false, not, ◌&&◌, ◌==◌, ltb, if◌then◌else◌, Option, none, some, is_some,
  is_none, ok, err,
}
use translator.Prelude.Map.{get, contains_key, insert}
use translator.Validation.Messages.{
  WireFormat, ProviderCapabilities, ProviderAudioDelta, ProviderId, openai, provider_code,
  ProviderSessionOpened, ProviderHealth, ProviderLatency, SafeErrorCode, provider_unavailable,
  model_not_loaded, unsupported_language_pair, queue_overflow, code_cancelled, cloud_not_enabled,
  provider_auth_failed, no_speech,
}
use translator.Validation.State.{
  ProviderEventValidator, Checked, max_age_ms, missing_session_contract, negotiated_format_mismatch,
  provider_mismatch, unsafe_error_message, expired_audio,
}
use translator.Validation.Audio.{same_format}

-- A result without a panic, which is `none`.
abbrev pub Outcome : Type 0
Outcome = Option (ProviderEventValidator × Checked (Unit {0}))

abbrev pub ns_per_ms : ℕ
ns_per_ms = 1000000

unfoldable pub is_openai : ProviderId → Bool
is_openai openai = true
is_openai _ = false

-- `bool != bool`, negated.
unfoldable pub same_bool : Bool → Bool → Bool
same_bool true b = b
same_bool false b = not b

unfoldable pub safe_error_message : SafeErrorCode → String
safe_error_message provider_unavailable = "Provider is unavailable"
safe_error_message model_not_loaded = "Required model is not loaded"
safe_error_message unsupported_language_pair = "Language pair is not supported"
safe_error_message queue_overflow = "Provider queue limit was reached"
safe_error_message code_cancelled = "Provider operation was cancelled"
safe_error_message no_speech = "No speech was detected"
safe_error_message cloud_not_enabled = "Cloud provider is not enabled"
safe_error_message provider_auth_failed = "Provider authentication failed"
safe_error_message _ = ""

unfoldable pub safe_health_message : String → Option String
safe_health_message code =
    if str_eq code "provider_unavailable"
    then some "Provider is unavailable"
    else if str_eq code "model_not_loaded"
    then some "Required model is not loaded"
    else if str_eq code "unsupported_language_pair"
    then some "Language pair is not supported"
    else if str_eq code "queue_overflow"
    then some "Provider queue limit was reached"
    else if str_eq code "cancelled"
    then some "Provider operation was cancelled"
    else if str_eq code "no_speech"
    then some "No speech was detected"
    else if str_eq code "cloud_not_enabled"
    then some "Cloud provider is not enabled"
    else if str_eq code "provider_auth_failed"
    then some "Provider authentication failed"
    else none

-- The formats and the capabilities that the provider offers, once all three are there.
check_offer : ProviderEventValidator → WireFormat → WireFormat → ProviderCapabilities → Bool
unfolding same_format is_openai same_bool
check_offer v input output offer =
    same_format input v.contract.input_format
    && same_format output v.contract.output_format
    && offer.audio_output
    && offer.cancellation
    && same_bool offer.cloud_egress (is_openai v.contract.provider_id)

unfoldable pub validate_opened :
    ProviderEventValidator → ProviderSessionOpened → ProviderEventValidator × Checked (Unit {0})
unfolding check_offer
validate_opened v m = elim m.negotiated_input_format [
  | none ↦ (v, err missing_session_contract)
  | some input ↦ elim m.negotiated_output_format [
    | none ↦ (v, err missing_session_contract)
    | some output ↦ elim m.capabilities [
      | none ↦ (v, err missing_session_contract)
      | some offer ↦
          if check_offer v input output offer
          then (record v { opened = true }, ok tt)
          else (v, err negotiated_format_mismatch)
    ]
  ]
]

-- Audio that has passed the wire checks: too old, if it is the first of its utterance, or playable.
-- `self.input_complete_ns[&utterance_id]` panics where the key is missing.
unfoldable pub validate_playable : ProviderEventValidator → ProviderAudioDelta → ℕ → ℕ → Outcome
unfolding max_age_ms
validate_playable v m utterance now_ns = elim (get utterance v.input_complete_ns) [
  | none ↦ none
  | some capture_ns ↦
      if not (contains_key utterance v.last_playable_audio_sequence)
        && ltb (max_age_ms v.contract.mode * ns_per_ms) (now_ns - capture_ns)
      then some (v, err expired_audio)
      else some (
        record v {
          last_playable_audio_sequence = insert utterance m.sequence v.last_playable_audio_sequence;
        },
        ok tt,
      )
]

unfoldable pub validate_health : ProviderEventValidator → ProviderHealth → Checked (Unit {0})
unfolding safe_health_message provider_code
validate_health v m =
    if not (m.provider_id == provider_code v.contract.provider_id)
    then err provider_mismatch
    else if not m.has_queues
    then err missing_session_contract
    else elim m.safe_error [
      | none ↦ ok tt
      | some summary ↦ elim (safe_health_message summary.code) [
        | none ↦ err unsafe_error_message
        | some message ↦ if str_eq message summary.message then ok tt else err unsafe_error_message
      ]
    ]

-- The latency report that has to come before a lack of speech: text, and nothing after it.
unfoldable pub reports_no_speech : ProviderLatency → Bool
reports_no_speech m =
    is_some m.asr_first_text_ms
    && is_some m.asr_final_text_ms
    && is_none m.mt_first_text_ms
    && is_none m.tts_first_audio_ms
