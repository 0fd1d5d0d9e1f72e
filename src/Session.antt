-- ===== src/Session.antt =====
-- crates/translator-daemon/src/direction_session.rs: the session of one direction with a provider. It
-- turns captured speech into requests and provider events into effects. The session's and the stream's
-- fresh uuids are arguments, and `print` is `Uuid::to_string`.
pub mod Requests
pub mod Handlers
pub mod Playing
pub mod Numbering
use Prim.Native.String.{String}
use translator.Prelude.{
  ℕ, Bool, not, ◌==◌, if◌then◌else◌, List, [], Option, none, some, Result, ok, err,
}
use translator.Prelude.Map.{Set}
use translator.Prelude.Effects.{Effect}
use translator.Contracts as Core
use translator.Contracts.{
  AudioDirection, Language, ProviderId, TranslationMode, VoiceEngine, VoiceGender,
}
use translator.Pcm.Frame.{PcmFrame}
use translator.Validation.Messages as Wire
use translator.Validation.Messages.{
  WireFormat, WireDirection, WireLanguage, WireMode, direction_code, provider_code,
}
use translator.Validation.State.{ProviderSessionContract}
use translator.Watchdog.Coordinator.{Coordinator, CoordinatorError, new_coordinator}
use Requests.{
  WireGender, WireEngine, language_code, mode_code, gender_code, engine_code, cancel_code,
  close_code, CancelReason, CloseRequestReason, latency_policy, s16le_code, ProviderRequest,
  open_session, cancel_utterance, close_session,
}

pub record DirectionRuntimeConfig : Type 0 where
  pub provider_id : ProviderId
  pub direction : AudioDirection
  pub source_language : Language
  pub target_language : Language
  pub mode : TranslationMode
  pub voice_gender : VoiceGender
  pub voice_engine : VoiceEngine
  pub debug_text_enabled : Bool

pub data SafeProviderErrorCode : Type 0 where
  provider_unavailable model_not_loaded unsupported_language_pair : SafeProviderErrorCode
  queue_overflow cancelled cloud_not_enabled provider_auth_failed no_speech : SafeProviderErrorCode

pub data TerminalOutcome : Type 0 where
  completed cancelled dropped : TerminalOutcome

pub data DirectionEffect : Type 0 where
  -- stream, utterance, frame
  playback : ℕ → ℕ → PcmFrame → DirectionEffect
  transcript_final translation_final : ℕ → DirectionEffect
  -- utterance, first audio, total
  latency : Option ℕ → Option ℕ → Option ℕ → DirectionEffect
  -- utterance, code, whether a retry can help
  provider_error : Option ℕ → SafeProviderErrorCode → Bool → DirectionEffect
  utterance_terminal_outcome : ℕ → TerminalOutcome → DirectionEffect
  utterance_terminal : ℕ → DirectionEffect
  expired_audio : ℕ → ProviderRequest → DirectionEffect
  session_ended : DirectionEffect

pub data DirectionWatchdogEffect : Type 0 where
  send purge_and_send : ProviderRequest → DirectionWatchdogEffect
  restart : DirectionWatchdogEffect

pub data DirectionSessionError : Type 0 where
  capture_stream_mismatch invalid_capture_state : DirectionSessionError
  invalid_provider_audio invalid_provider_metadata : DirectionSessionError
  coordinator_error : CoordinatorError → DirectionSessionError

pub record DirectionSession : Type 0 where
  pub config : DirectionRuntimeConfig
  pub contract : ProviderSessionContract
  pub coordinator : Coordinator
  pub next_input_sequence : ℕ  -- u64
  pub collecting_utterance : Option ℕ
  pub active_utterances : Set

abbrev pub Directing : Type 0 → Type 0
Directing = Effect DirectionSession DirectionSessionError

abbrev pub provider_pcm_format : WireFormat
provider_pcm_format = record {
  sample_rate_hz = 16000;
  channels = 1;
  sample_format = s16le_code;
  frame_duration_ms = 20;
}

unfoldable pub provider_direction : AudioDirection → WireDirection
provider_direction AudioDirection.microphone = WireDirection.microphone
provider_direction AudioDirection.speaker = WireDirection.speaker

unfoldable pub provider_id : ProviderId → Wire.ProviderId
provider_id ProviderId.local = Wire.local
provider_id ProviderId.openai = Wire.openai

unfoldable pub provider_language : Language → WireLanguage
provider_language Language.ru = WireLanguage.ru
provider_language Language.en = WireLanguage.en

unfoldable pub provider_mode : TranslationMode → WireMode
provider_mode TranslationMode.quality_first = WireMode.quality_first
provider_mode TranslationMode.balanced = WireMode.balanced
provider_mode TranslationMode.streaming_first = WireMode.streaming_first

unfoldable pub provider_voice_gender : VoiceGender → WireGender
provider_voice_gender VoiceGender.male = WireGender.male
provider_voice_gender VoiceGender.female = WireGender.female

unfoldable pub provider_voice_engine : VoiceEngine → WireEngine
provider_voice_engine VoiceEngine.piper = WireEngine.piper
provider_voice_engine VoiceEngine.silero = WireEngine.silero
provider_voice_engine VoiceEngine.openai = WireEngine.openai

unfoldable pub new_contract : DirectionRuntimeConfig → ℕ → ℕ → ProviderSessionContract
unfolding provider_direction provider_id provider_language provider_mode
new_contract config session stream = record {
  session_id = session;
  stream_id = stream;
  provider_id = provider_id config.provider_id;
  direction_id = provider_direction config.direction;
  source_language = provider_language config.source_language;
  target_language = provider_language config.target_language;
  mode = provider_mode config.mode;
  input_format = provider_pcm_format;
  output_format = provider_pcm_format;
  debug_text_enabled = config.debug_text_enabled;
}

unfoldable pub new_session : DirectionRuntimeConfig → ℕ → ℕ → DirectionSession
unfolding new_contract new_coordinator
new_session config session stream =
    let contract = new_contract config session stream in
    record {
      config = config;
      contract = contract;
      coordinator = new_coordinator contract;
      next_input_sequence = 0;
      collecting_utterance = none;
      active_utterances = [];
    }

module _ (print : ℕ → String) where
  unfoldable pub open_request : DirectionSession → ProviderRequest
  unfolding provider_voice_gender provider_voice_engine language_code mode_code gender_code
      engine_code direction_code provider_code
  open_request s = open_session (record {
    schema_version = "translator.provider.open_session.v1";
    session_id = print s.contract.session_id;
    provider_id = provider_code s.contract.provider_id;
    direction_id = direction_code s.contract.direction_id;
    source_language = language_code s.contract.source_language;
    target_language = language_code s.contract.target_language;
    mode = mode_code s.contract.mode;
    requested_input_format = some s.contract.input_format;
    requested_output_format = some s.contract.output_format;
    voice_profile = some (record {
      language = language_code s.contract.target_language;
      gender = gender_code (provider_voice_gender s.config.voice_gender);
      engine = engine_code (provider_voice_engine s.config.voice_engine);
      model_path = none;
      provider_voice_id = none;
    });
    debug_text_enabled = s.config.debug_text_enabled;
  })

  unfoldable pub cancel_request : DirectionSession → ℕ → ProviderRequest
  unfolding direction_code cancel_code
  cancel_request s utterance = cancel_utterance (record {
    schema_version = "translator.provider.cancel_utterance.v1";
    session_id = print s.contract.session_id;
    direction_id = direction_code s.contract.direction_id;
    utterance_id = print utterance;
    reason = cancel_code latency_policy;
  })

  unfoldable pub close_request : DirectionSession → CloseRequestReason → ProviderRequest
  unfolding close_code
  close_request s reason = close_session (record {
    schema_version = "translator.provider.close_session.v1";
    session_id = print s.contract.session_id;
    reason = close_code reason;
  })
