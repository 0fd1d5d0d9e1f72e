-- ===== src/Session/Requests.antt =====
-- The requests to the provider, from proto/translator/provider/v1/provider.proto: enum fields are
-- numbers, identifiers are texts.
use Prim.Native.String.{String}
use translator.Prelude.{ℕ, Bool, List, Option}
use translator.Validation.Messages.{WireLanguage, WireMode, WireFormat}

unfoldable pub language_code : WireLanguage → ℕ
language_code WireLanguage.unspecified = 0
language_code WireLanguage.ru = 1
language_code WireLanguage.en = 2

unfoldable pub mode_code : WireMode → ℕ
mode_code WireMode.unspecified = 0
mode_code WireMode.quality_first = 1
mode_code WireMode.balanced = 2
mode_code WireMode.streaming_first = 3

pub data WireGender : Type 0 where
  unspecified male female : WireGender

unfoldable pub gender_code : WireGender → ℕ
gender_code WireGender.unspecified = 0
gender_code male = 1
gender_code female = 2

pub data WireEngine : Type 0 where
  unspecified piper silero openai : WireEngine

unfoldable pub engine_code : WireEngine → ℕ
engine_code WireEngine.unspecified = 0
engine_code piper = 1
engine_code silero = 2
engine_code openai = 3

pub data CancelReason : Type 0 where
  unspecified latency_policy route_removed user_interrupt queue_overflow : CancelReason

unfoldable pub cancel_code : CancelReason → ℕ
cancel_code CancelReason.unspecified = 0
cancel_code latency_policy = 1
cancel_code CancelReason.route_removed = 2
cancel_code user_interrupt = 3
cancel_code queue_overflow = 4

pub data CloseRequestReason : Type 0 where
  unspecified user_stop route_removed device_unavailable : CloseRequestReason
  provider_switch daemon_shutdown : CloseRequestReason

unfoldable pub close_code : CloseRequestReason → ℕ
close_code CloseRequestReason.unspecified = 0
close_code user_stop = 1
close_code CloseRequestReason.route_removed = 2
close_code device_unavailable = 3
close_code provider_switch = 4
close_code daemon_shutdown = 5

-- `SampleFormat::S16le as i32`.
abbrev pub s16le_code : ℕ
s16le_code = 1

pub record WireVoiceProfile : Type 0 where
  pub language : ℕ
  pub gender : ℕ
  pub engine : ℕ
  pub model_path : Option String
  pub provider_voice_id : Option String

pub record OpenProviderSession : Type 0 where
  pub schema_version : String
  pub session_id : String
  pub provider_id : ℕ
  pub direction_id : ℕ
  pub source_language : ℕ
  pub target_language : ℕ
  pub mode : ℕ
  pub requested_input_format : Option WireFormat
  pub requested_output_format : Option WireFormat
  pub voice_profile : Option WireVoiceProfile
  pub debug_text_enabled : Bool

pub record ProviderInputFrame : Type 0 where
  pub schema_version : String
  pub session_id : String
  pub direction_id : ℕ
  pub stream_id : String
  pub utterance_id : String
  pub sequence : ℕ
  pub capture_monotonic_ns : ℕ
  pub sample_rate_hz : ℕ
  pub channels : ℕ
  pub sample_format : ℕ
  pub frame_duration_ms : ℕ
  pub source_language : ℕ
  pub target_language : ℕ
  pub mode : ℕ
  pub pcm : List ℕ
  pub end_of_utterance : Bool

pub record CancelUtterance : Type 0 where
  pub schema_version : String
  pub session_id : String
  pub direction_id : ℕ
  pub utterance_id : String
  pub reason : ℕ

pub record CloseProviderSession : Type 0 where
  pub schema_version : String
  pub session_id : String
  pub reason : ℕ

pub data ProviderRequest : Type 0 where
  open_session : OpenProviderSession → ProviderRequest
  input_frame : ProviderInputFrame → ProviderRequest
  cancel_utterance : CancelUtterance → ProviderRequest
  close_session : CloseProviderSession → ProviderRequest
