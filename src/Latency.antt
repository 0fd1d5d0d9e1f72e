-- ===== src/Latency.antt =====
-- crates/translator-daemon/src/latency.rs: the latency policy of the duplex pair, over those of its two
-- directions (Policy, Signals, Epochs) and the percentile that they use.
pub mod Percentile
pub mod Policy
pub mod Signals
pub mod Epochs
pub mod History
pub mod Panics
pub mod Ladder
pub mod Alarm
pub mod Counters
pub mod Duplex
use translator.Prelude.{ℕ, Option, none, some}
use translator.Contracts.{AudioDirection, microphone, speaker, TranslationMode, LatencyPolicyState}
use Policy.{LatencySample, LatencyTransition, DirectionPolicy, new_policy, force_mode}
use Signals.{record_utterance, observe_queue_lag}
use Epochs.{evaluate_epoch}

pub record DuplexLatencyPolicy : Type 0 where
  pub microphone_policy : DirectionPolicy
  pub speaker_policy : DirectionPolicy

unfoldable pub default_duplex : DuplexLatencyPolicy
default_duplex = record {
  microphone_policy = new_policy microphone;
  speaker_policy = new_policy speaker;
}

-- `policy_mut`, read and written.
unfoldable pub policy : DuplexLatencyPolicy → AudioDirection → DirectionPolicy
policy d microphone = d.microphone_policy
policy d speaker = d.speaker_policy

unfoldable pub set_policy :
    DuplexLatencyPolicy → AudioDirection → DirectionPolicy → DuplexLatencyPolicy
set_policy d microphone p = record d { microphone_policy = p }
set_policy d speaker p = record d { speaker_policy = p }

unfoldable pub duplex_state : DuplexLatencyPolicy → AudioDirection → LatencyPolicyState
unfolding policy
duplex_state d direction = (policy d direction).state

-- A method of the chosen direction's policy, with its result put back.
abbrev pub on :
    DuplexLatencyPolicy
    → AudioDirection
    → DirectionPolicy × Option LatencyTransition
    → DuplexLatencyPolicy × Option LatencyTransition
on d direction (p, t) = (set_policy d direction p, t)

unfoldable pub duplex_record_utterance :
    DuplexLatencyPolicy
    → AudioDirection
    → ℕ
    → LatencySample
    → DuplexLatencyPolicy × Option LatencyTransition
unfolding policy set_policy
duplex_record_utterance d direction at_ms s =
    on d direction (record_utterance (policy d direction) at_ms s)

unfoldable pub duplex_observe_queue_lag :
    DuplexLatencyPolicy
    → AudioDirection
    → ℕ
    → Option ℕ
    → DuplexLatencyPolicy × Option LatencyTransition
unfolding policy set_policy
duplex_observe_queue_lag d direction at_ms lag =
    on d direction (observe_queue_lag (policy d direction) at_ms lag)

unfoldable pub duplex_evaluate_epoch :
    DuplexLatencyPolicy
    → AudioDirection
    → ℕ
    → Option (DuplexLatencyPolicy × Option LatencyTransition)
unfolding policy set_policy
duplex_evaluate_epoch d direction end_ms = elim (evaluate_epoch (policy d direction) end_ms) [
  | none ↦ none
  | some r ↦ some (on d direction r)
]

unfoldable pub duplex_force_mode :
    DuplexLatencyPolicy
    → AudioDirection
    → ℕ
    → TranslationMode
    → DuplexLatencyPolicy × Option LatencyTransition
unfolding policy set_policy
duplex_force_mode d direction at_ms mode =
    on d direction (force_mode (policy d direction) at_ms mode)
