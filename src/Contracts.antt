-- ===== src/Contracts.antt =====
-- crates/translator-core/src/contracts.rs: the vocabulary that the crates share, the checked PCM
-- format and the latency policy state with its fixed constants.
use translator.Prelude.{
  ℕ, Bool, true, false, ◌&&◌, ◌||◌, Option, none, some, Result, ok, err, ◌==◌, if◌then◌else◌, not,
}
use Prim.Native.String.{String}
pub mod Laws

pub data AudioDirection : Type 0 where
  microphone speaker : AudioDirection

pub data TranslationMode : Type 0 where
  quality_first balanced streaming_first : TranslationMode

pub data Language : Type 0 where
  ru en : Language

pub data VoiceGender : Type 0 where
  male female : VoiceGender

pub data VoiceEngine : Type 0 where
  piper silero openai : VoiceEngine

pub record VoiceProfile : Type 0 where
  pub language : Language
  pub gender : VoiceGender
  pub engine : VoiceEngine
  pub model_path : Option String
  pub provider_voice_id : Option String

pub data ProviderId : Type 0 where
  local openai : ProviderId

pub data SampleFormat : Type 0 where
  s16_le : SampleFormat

pub data PcmFormatError : Type 0 where
  sample_rate channel_count frame_duration : PcmFormatError

pub record PcmFormat : Type 0 where
  pub sample_rate_hz : ℕ  -- u32
  pub channels : ℕ  -- u8
  pub sample_format : SampleFormat
  pub frame_duration_ms : ℕ  -- u16

-- The struct that serde fills before the check has the same fields.
pub record UncheckedPcmFormat : Type 0 where
  pub sample_rate_hz : ℕ
  pub channels : ℕ
  pub sample_format : SampleFormat
  pub frame_duration_ms : ℕ

pub try_new : ℕ → ℕ → SampleFormat → ℕ → Result PcmFormat PcmFormatError
try_new rate channels format duration =
    if not (rate == 16000 || rate == 24000 || rate == 48000)
    then err sample_rate
    else if not (channels == 1 || channels == 2)
    then err channel_count
    else if not
        (duration == 20 || duration == 40 || duration == 60 || duration == 80 || duration == 100)
    then err frame_duration
    else ok (record {
      sample_rate_hz = rate;
      channels = channels;
      sample_format = format;
      frame_duration_ms = duration;
    })

-- `Deserialize for PcmFormat`, after serde has read the unchecked fields.
pub deserialize_format : UncheckedPcmFormat → Result PcmFormat PcmFormatError
unfolding try_new
deserialize_format u = try_new u.sample_rate_hz u.channels u.sample_format u.frame_duration_ms

pub record LatencyPolicyState : Type 0 where
  pub direction_id : AudioDirection
  pub current_mode : TranslationMode
  pub rolling_window_seconds : ℕ
  pub minimum_samples : ℕ
  pub degrade_after_consecutive_windows : ℕ
  pub recover_after_consecutive_windows : ℕ
  pub cooldown_seconds_after_change : ℕ
  pub p95_first_audio_ms : ℕ
  pub p95_last_audio_ms : ℕ
  pub p95_queue_lag_ms : ℕ
  pub last_mode_change_at : Option String
  pub reason : Option String

-- `LatencyPolicyState::new`.
unfoldable pub new_policy_state :
    AudioDirection
    → TranslationMode
    → ℕ
    → ℕ
    → ℕ
    → Option String
    → Option String
    → LatencyPolicyState
new_policy_state direction mode first last queue changed why = record {
  direction_id = direction;
  current_mode = mode;
  rolling_window_seconds = 60;
  minimum_samples = 20;
  degrade_after_consecutive_windows = 2;
  recover_after_consecutive_windows = 5;
  cooldown_seconds_after_change = 120;
  p95_first_audio_ms = first;
  p95_last_audio_ms = last;
  p95_queue_lag_ms = queue;
  last_mode_change_at = changed;
  reason = why;
}

-- `Deserialize for LatencyPolicyState`: the unchecked struct has the fields of the state itself, and
-- is passed on if the five constants are those of the contract. The error is a message for serde.
pub deserialize_policy_state : LatencyPolicyState → Result LatencyPolicyState String
deserialize_policy_state u =
    if u.rolling_window_seconds == 60
      && u.minimum_samples == 20
      && u.degrade_after_consecutive_windows == 2
      && u.recover_after_consecutive_windows == 5
      && u.cooldown_seconds_after_change == 120
    then ok u
    else err "latency policy constants do not match the contract"
