-- ===== src/RoundTrip.antt =====
-- crates/translator-daemon/src/round_trip.rs: the self test that sends a phrase out and back. A fresh
-- uuid is an argument of `start`.
pub mod Evidence
pub mod SelfTest
pub mod Checkpoints
pub mod Ends
pub mod Replay
use Prim.Native.String.{String}
use translator.Prelude.{
  ℕ, ◌-◌, Bool, true, false, ◌&&◌, ◌||◌, not, ◌==◌, ltb, if◌then◌else◌, Option, none, some, is_none,
  some_and, Result, ok, err, saturating_add32,
}
use Evidence.{ExactPcmProof}

abbrev pub max_session_ms : ℕ
max_session_ms = 300000

pub record RoundTripPreconditions : Type 0 where
  pub headphones : Bool
  pub outgoing_provider_ready : Bool
  pub incoming_provider_ready : Bool
  pub virtual_graph_ready : Bool
  pub incoming_route_idle : Bool

pub data RoundTripCheckpoint : Type 0 where
  waiting_for_speech outgoing_vad outgoing_asr_final : RoundTripCheckpoint
  outgoing_translation_final english_first_audio : RoundTripCheckpoint
  virtual_peer_reinjecting incoming_asr_final : RoundTripCheckpoint
  incoming_translation_final russian_first_audio : RoundTripCheckpoint
  completed failed stopped : RoundTripCheckpoint

unfoldable pub is_terminal : RoundTripCheckpoint → Bool
is_terminal completed = true
is_terminal failed = true
is_terminal stopped = true
is_terminal _ = false

unfoldable pub next : RoundTripCheckpoint → Option RoundTripCheckpoint
next waiting_for_speech = some outgoing_vad
next outgoing_vad = some outgoing_asr_final
next outgoing_asr_final = some outgoing_translation_final
next outgoing_translation_final = some english_first_audio
next english_first_audio = some virtual_peer_reinjecting
next virtual_peer_reinjecting = some incoming_asr_final
next incoming_asr_final = some incoming_translation_final
next incoming_translation_final = some russian_first_audio
next russian_first_audio = some completed
next completed = none
next failed = none
next stopped = none

-- The derived `PartialEq`.
unfoldable pub same_checkpoint : RoundTripCheckpoint → RoundTripCheckpoint → Bool
same_checkpoint waiting_for_speech waiting_for_speech = true
same_checkpoint outgoing_vad outgoing_vad = true
same_checkpoint outgoing_asr_final outgoing_asr_final = true
same_checkpoint outgoing_translation_final outgoing_translation_final = true
same_checkpoint english_first_audio english_first_audio = true
same_checkpoint virtual_peer_reinjecting virtual_peer_reinjecting = true
same_checkpoint incoming_asr_final incoming_asr_final = true
same_checkpoint incoming_translation_final incoming_translation_final = true
same_checkpoint russian_first_audio russian_first_audio = true
same_checkpoint completed completed = true
same_checkpoint failed failed = true
same_checkpoint stopped stopped = true
same_checkpoint _ _ = false

pub record RoundTripLatency : Type 0 where
  pub outgoing_first_audio_ms : Option ℕ
  pub english_monitor_complete_ms : Option ℕ
  pub incoming_first_audio_ms : Option ℕ
  pub physical_mic_onset_to_returned_ru_first_audible_ms : Option ℕ

abbrev pub default_latency : RoundTripLatency
default_latency = record {
  outgoing_first_audio_ms = none;
  english_monitor_complete_ms = none;
  incoming_first_audio_ms = none;
  physical_mic_onset_to_returned_ru_first_audible_ms = none;
}

pub data RoundTripErrorCode : Type 0 where
  headphones_required provider_unavailable virtual_graph_unavailable : RoundTripErrorCode
  incoming_route_conflict already_running not_running : RoundTripErrorCode
  session_mismatch invalid_checkpoint exact_pcm_mismatch : RoundTripErrorCode
  runtime_failed timeout : RoundTripErrorCode

pub record RoundTripDebugText : Type 0 where
  pub transcript : String
  pub translation : String

pub record RoundTripStatus : Type 0 where
  pub session_id : Option ℕ
  pub checkpoint : Option RoundTripCheckpoint
  pub recursion_count : ℕ
  pub latency : RoundTripLatency
  pub exact_pcm : Option ExactPcmProof
  pub safe_error : Option RoundTripErrorCode
  pub debug_text : Option RoundTripDebugText

pub record Session : Type 0 where
  pub id : ℕ
  pub started_at_ms : ℕ  -- u64
  pub checkpoint : RoundTripCheckpoint
  pub recursion_count : ℕ  -- u32
  pub latency : RoundTripLatency
  pub safe_error : Option RoundTripErrorCode
  pub debug_text : Option RoundTripDebugText
  pub exact_pcm : Option ExactPcmProof

-- The self test holds one session, or none.
abbrev pub RoundTripSelfTest : Type 0
RoundTripSelfTest = Option Session

unfoldable pub validate_preconditions :
    RoundTripPreconditions → Result (Unit {0}) RoundTripErrorCode
validate_preconditions p =
    if not p.headphones
    then err headphones_required
    else if not p.outgoing_provider_ready || not p.incoming_provider_ready
    then err provider_unavailable
    else if not p.virtual_graph_ready
    then err virtual_graph_unavailable
    else if not p.incoming_route_idle
    then err incoming_route_conflict
    else ok tt

unfoldable pub newer : Option ℕ → Option ℕ → Option ℕ
newer current none = current
newer current (some update) = some update

unfoldable pub merge_latency : RoundTripLatency → RoundTripLatency → RoundTripLatency
unfolding newer
merge_latency current update = record {
  outgoing_first_audio_ms = newer current.outgoing_first_audio_ms update.outgoing_first_audio_ms;
  english_monitor_complete_ms =
      newer current.english_monitor_complete_ms update.english_monitor_complete_ms;
  incoming_first_audio_ms = newer current.incoming_first_audio_ms update.incoming_first_audio_ms;
  physical_mic_onset_to_returned_ru_first_audible_ms =
      newer current.physical_mic_onset_to_returned_ru_first_audible_ms
        update.physical_mic_onset_to_returned_ru_first_audible_ms;
}
