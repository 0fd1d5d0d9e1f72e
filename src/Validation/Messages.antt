-- ===== src/Validation/Messages.antt =====
-- The provider's messages, from proto/translator/provider/v1/provider.proto, as the build turns them
-- into Rust: identifiers are texts, an enum field is an i32 (here by its bit pattern, a number), an
-- optional field and a message field are options. Fields that neither the validator nor the daemon's session reads are left out.
use Prim.Native.String.{String}
use translator.Prelude.{ℕ, Bool, List, Option, none, some, ◌==◌, if◌then◌else◌}

pub data WireDirection : Type 0 where
  unspecified microphone speaker : WireDirection

-- `as i32`.
unfoldable pub direction_code : WireDirection → ℕ
direction_code unspecified = 0
direction_code microphone = 1
direction_code speaker = 2

pub data WireMode : Type 0 where
  unspecified quality_first balanced streaming_first : WireMode

pub data WireLanguage : Type 0 where
  unspecified ru en : WireLanguage

pub data ProviderId : Type 0 where
  unspecified local openai : ProviderId

unfoldable pub provider_code : ProviderId → ℕ
provider_code unspecified = 0
provider_code local = 1
provider_code openai = 2

pub data UtteranceOutcome : Type 0 where
  unspecified completed cancelled dropped : UtteranceOutcome

-- `UtteranceOutcome::try_from(i32)`.
unfoldable pub outcome_of : ℕ → Option UtteranceOutcome
outcome_of n =
    if n == 0
    then some UtteranceOutcome.unspecified
    else if n == 1
    then some completed
    else if n == 2
    then some cancelled
    else if n == 3
    then some dropped
    else none

pub data SafeErrorCode : Type 0 where
  unspecified provider_unavailable model_not_loaded unsupported_language_pair : SafeErrorCode
  queue_overflow code_cancelled cloud_not_enabled provider_auth_failed no_speech : SafeErrorCode

-- `SafeErrorCode::try_from(i32)`.
unfoldable pub safe_error_of : ℕ → Option SafeErrorCode
safe_error_of n =
    if n == 0
    then some SafeErrorCode.unspecified
    else if n == 1
    then some provider_unavailable
    else if n == 2
    then some model_not_loaded
    else if n == 3
    then some unsupported_language_pair
    else if n == 4
    then some queue_overflow
    else if n == 5
    then some code_cancelled
    else if n == 6
    then some cloud_not_enabled
    else if n == 7
    then some provider_auth_failed
    else if n == 8
    then some no_speech
    else none

pub record WireFormat : Type 0 where
  pub sample_rate_hz : ℕ
  pub channels : ℕ
  pub sample_format : ℕ
  pub frame_duration_ms : ℕ

pub record ProviderCapabilities : Type 0 where
  pub audio_output : Bool
  pub transcript_delta : Bool
  pub translation_delta : Bool
  pub cancellation : Bool
  pub cloud_egress : Bool

-- The four fields that all events have: `CommonFields`.
pub record CommonFields : Type 0 where
  pub schema_version : String
  pub session_id : String
  pub direction_id : ℕ
  pub event_sequence : ℕ

pub record ProviderSessionOpened : Type 0 where
  pub common : CommonFields
  pub negotiated_input_format : Option WireFormat
  pub negotiated_output_format : Option WireFormat
  pub capabilities : Option ProviderCapabilities

pub record ProviderAudioDelta : Type 0 where
  pub common : CommonFields
  pub stream_id : String
  pub utterance_id : String
  pub sequence : ℕ
  pub format : WireFormat  -- the four format fields of the message
  pub provider_monotonic_ns : ℕ
  pub pcm : List ℕ

-- A transcript or a translation delta.
pub record ProviderTextDelta : Type 0 where
  pub common : CommonFields
  pub stream_id : String
  pub utterance_id : String
  pub is_final : Bool

pub record ProviderUtteranceFinal : Type 0 where
  pub common : CommonFields
  pub stream_id : String
  pub utterance_id : String
  pub final_audio_sequence : Option ℕ
  pub outcome : ℕ

pub record SafeErrorSummary : Type 0 where
  pub code : String
  pub message : String

pub record ProviderHealth : Type 0 where
  pub common : CommonFields
  pub provider_id : ℕ
  pub has_queues : Bool  -- `queues.is_some()`
  pub safe_error : Option SafeErrorSummary

pub record ProviderLatency : Type 0 where
  pub common : CommonFields
  pub stream_id : String
  pub utterance_id : Option String
  pub asr_first_text_ms : Option ℕ
  pub asr_final_text_ms : Option ℕ
  pub mt_first_text_ms : Option ℕ
  pub tts_first_audio_ms : Option ℕ
  pub provider_total_ms : Option ℕ

pub record ProviderError : Type 0 where
  pub common : CommonFields
  pub stream_id : Option String
  pub code : ℕ
  pub retryable : Bool
  pub safe_message : String
  pub utterance_id : Option String

pub data Event : Type 0 where
  session_opened : ProviderSessionOpened → Event
  audio_delta : ProviderAudioDelta → Event
  transcript_delta translation_delta : ProviderTextDelta → Event
  utterance_final : ProviderUtteranceFinal → Event
  session_closed : CommonFields → Event
  health : ProviderHealth → Event
  latency : ProviderLatency → Event
  error : ProviderError → Event

unfoldable pub common_fields : Event → CommonFields
common_fields (session_opened m) = m.common
common_fields (audio_delta m) = m.common
common_fields (transcript_delta m) = m.common
common_fields (translation_delta m) = m.common
common_fields (utterance_final m) = m.common
common_fields (session_closed c) = c
common_fields (health m) = m.common
common_fields (latency m) = m.common
common_fields (error m) = m.common

unfoldable pub expected_schema : Event → String
expected_schema (session_opened m) = "translator.provider.session_opened.v1"
expected_schema (audio_delta m) = "translator.provider.audio_delta.v1"
expected_schema (transcript_delta m) = "translator.provider.transcript_delta.v1"
expected_schema (translation_delta m) = "translator.provider.translation_delta.v1"
expected_schema (utterance_final m) = "translator.provider.utterance_final.v1"
expected_schema (session_closed c) = "translator.provider.session_closed.v1"
expected_schema (health m) = "translator.provider.health.v1"
expected_schema (latency m) = "translator.provider.latency.v1"
expected_schema (error m) = "translator.provider.error.v1"
