-- ===== src/Latency/Policy.antt =====
-- crates/translator-daemon/src/latency.rs: the state of one direction, the modes, and the two ways
-- to change the mode. Each method returns the new policy and the transition, if it makes one.
use Prim.Native.String.{String}
use Prim.Native.String.{◌++◌ as str_append}
use translator.Prelude.{
  ℕ, zero, suc, ◌/◌, ◌%◌, Bool, true, false, ◌==◌, ltb, if◌then◌else◌, List, [], Option, none, some,
  saturating_add64,
}
use translator.Contracts.{
  AudioDirection, TranslationMode, quality_first, balanced, streaming_first, LatencyPolicyState,
  new_policy_state,
}

abbrev pub epoch_ms : ℕ
epoch_ms = 60000

abbrev pub required_samples : ℕ
required_samples = 20

abbrev pub degrade_windows : ℕ
degrade_windows = 2

abbrev pub recover_windows : ℕ
recover_windows = 5

abbrev pub cooldown_ms : ℕ
cooldown_ms = 120000

abbrev pub queue_tripwire_ms : ℕ
queue_tripwire_ms = 500

abbrev pub queue_tripwire_duration_ms : ℕ
queue_tripwire_duration_ms = 2000

pub record LatencySample : Type 0 where
  pub first_audio_ms : ℕ  -- u32
  pub last_audio_ms : ℕ  -- u32
  pub queue_lag_ms : ℕ  -- u32

pub data LatencyTransitionReason : Type 0 where
  window_breach stable_recovery consecutive_utterances : LatencyTransitionReason
  sustained_queue_lag manual_policy_change : LatencyTransitionReason

unfoldable pub as_str : LatencyTransitionReason → String
as_str window_breach = "window_breach"
as_str stable_recovery = "stable_recovery"
as_str consecutive_utterances = "consecutive_utterances"
as_str sustained_queue_lag = "sustained_queue_lag"
as_str manual_policy_change = "manual_policy_change"

pub record LatencyTransition : Type 0 where
  pub direction : AudioDirection
  pub source : TranslationMode  -- `from`
  pub target : TranslationMode  -- `to`
  pub reason : LatencyTransitionReason
  pub at_ms : ℕ

pub record TimedSample : Type 0 where
  pub at_ms : ℕ
  pub value : LatencySample

pub record DirectionPolicy : Type 0 where
  pub state : LatencyPolicyState
  pub samples : List TimedSample
  pub last_evaluated_end_ms : ℕ  -- u64
  pub breach_windows : ℕ  -- u32
  pub recovery_windows : ℕ  -- u32
  pub consecutive_utterance_breaches : ℕ  -- u32
  pub queue_breach_started_ms : Option ℕ
  pub cooldown_until_ms : ℕ
  pub last_utterance_at_ms : Option ℕ
  pub last_queue_observation_at_ms : Option ℕ

-- `DirectionPolicy::new`.
unfoldable pub new_policy : AudioDirection → DirectionPolicy
unfolding new_policy_state
new_policy direction = record {
  state = new_policy_state direction quality_first 0 0 0 none none;
  samples = [];
  last_evaluated_end_ms = 0;
  breach_windows = 0;
  recovery_windows = 0;
  consecutive_utterance_breaches = 0;
  queue_breach_started_ms = none;
  cooldown_until_ms = 0;
  last_utterance_at_ms = none;
  last_queue_observation_at_ms = none;
}

unfoldable pub thresholds : TranslationMode → ℕ × ℕ
thresholds quality_first = (3000, 500)
thresholds balanced = (2000, 350)
thresholds streaming_first = (1000, 250)

unfoldable pub next_degraded_mode : TranslationMode → Option TranslationMode
next_degraded_mode quality_first = some balanced
next_degraded_mode balanced = some streaming_first
next_degraded_mode streaming_first = none

unfoldable pub next_recovered_mode : TranslationMode → Option TranslationMode
next_recovered_mode quality_first = none
next_recovered_mode balanced = some quality_first
next_recovered_mode streaming_first = some balanced

-- The derived `PartialEq`.
unfoldable pub same_mode : TranslationMode → TranslationMode → Bool
same_mode quality_first quality_first = true
same_mode balanced balanced = true
same_mode streaming_first streaming_first = true
same_mode _ _ = false

-- `format!("{at_ms}ms")`: decimal digits, most significant first.
unfoldable pub digit : ℕ → String
digit d =
    if d == 0
    then "0"
    else if d == 1
    then "1"
    else if d == 2
    then "2"
    else if d == 3
    then "3"
    else if d == 4
    then "4"
    else if d == 5
    then "5"
    else if d == 6
    then "6"
    else if d == 7
    then "7"
    else if d == 8
    then "8"
    else "9"

-- A number has no more digits than its value and one, which is the fuel.
unfoldable pub decimal : ℕ → ℕ → String
unfolding digit
decimal zero n = ""
decimal (suc f) n =
    let more = str_append (decimal f (n / 10)) (digit (n % 10)) in
    if ltb n 10 then digit n else more

unfoldable pub format_ms : ℕ → String
unfolding decimal
format_ms at_ms = str_append (decimal (suc at_ms) at_ms) "ms"

-- The common end of `transition` and `force_mode`: the mode changes, every counter starts anew and
-- the cooldown is armed.
unfoldable pub change_mode :
    DirectionPolicy
    → TranslationMode
    → LatencyTransitionReason
    → ℕ
    → DirectionPolicy × Option LatencyTransition
unfolding new_policy_state
change_mode p to why at_ms = (
  record p {
    state =
        new_policy_state p.state.direction_id to p.state.p95_first_audio_ms
          p.state.p95_last_audio_ms p.state.p95_queue_lag_ms (some (format_ms at_ms))
          (some (as_str why));
    samples = [];
    breach_windows = 0;
    recovery_windows = 0;
    consecutive_utterance_breaches = 0;
    queue_breach_started_ms = none;
    cooldown_until_ms = saturating_add64 at_ms cooldown_ms;
  },
  some (record {
    direction = p.state.direction_id;
    source = p.state.current_mode;
    target = to;
    reason = why;
    at_ms = at_ms;
  }),
)

unfoldable pub transition :
    DirectionPolicy
    → ℕ
    → LatencyTransitionReason
    → Bool
    → DirectionPolicy × Option LatencyTransition
unfolding next_degraded_mode next_recovered_mode change_mode
transition p at_ms why degrade =
    let from = p.state.current_mode in
    elim (if degrade then next_degraded_mode from else next_recovered_mode from) [
      | none ↦ (p, none)
      | some to ↦ change_mode p to why at_ms
    ]

unfoldable pub force_mode :
    DirectionPolicy → ℕ → TranslationMode → DirectionPolicy × Option LatencyTransition
unfolding same_mode change_mode
force_mode p at_ms mode =
    if same_mode p.state.current_mode mode
    then (p, none)
    else change_mode p mode manual_policy_change at_ms
