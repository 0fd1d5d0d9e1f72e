-- ===== src/Latency/Signals.antt =====
-- crates/translator-daemon/src/latency.rs: `record_utterance` and `observe_queue_lag`.
use translator.Prelude.{
  ℕ, ◌+◌, ◌-◌, Bool, true, ltb, leb, if◌then◌else◌, [], ◌∷◌, ◌++◌, Option, none, some, some_and,
  is_none, u32,
}
use translator.Latency.Policy.{
  queue_tripwire_ms, queue_tripwire_duration_ms, LatencySample, LatencyTransition, DirectionPolicy,
  thresholds, next_degraded_mode, transition, consecutive_utterances, sustained_queue_lag,
}

-- `self.consecutive_utterance_breaches += 1`, or its reset.
unfoldable pub count_utterance : DirectionPolicy → LatencySample → DirectionPolicy
unfolding thresholds
count_utterance p sample = record p {
  consecutive_utterance_breaches =
      if ltb (thresholds p.state.current_mode).0 sample.first_audio_ms
      then u32 (p.consecutive_utterance_breaches + 1)
      else 0;
}

unfoldable pub judge_utterance :
    DirectionPolicy → ℕ → LatencySample → DirectionPolicy × Option LatencyTransition
unfolding next_degraded_mode count_utterance transition
judge_utterance p at_ms sample =
    if is_none (next_degraded_mode p.state.current_mode)
    then (record p { consecutive_utterance_breaches = 0 }, none)
    else (let q = count_utterance p sample in
        if leb 3 q.consecutive_utterance_breaches
        then transition q at_ms consecutive_utterances true
        else (q, none))

unfoldable pub record_utterance :
    DirectionPolicy → ℕ → LatencySample → DirectionPolicy × Option LatencyTransition
unfolding judge_utterance
record_utterance p at_ms sample =
    if some_and p.last_utterance_at_ms (λ last. leb at_ms last)
    then (p, none)
    else judge_utterance
        (record p {
          last_utterance_at_ms = some at_ms;
          samples = p.samples ++ record { at_ms = at_ms; value = sample } ∷ [];
        })
        at_ms sample

-- `queue_lag_ms.is_none_or(|lag| lag <= QUEUE_TRIPWIRE_MS)`.
unfoldable pub within_tripwire : Option ℕ → Bool
within_tripwire none = true
within_tripwire (some lag) = leb lag queue_tripwire_ms

-- `*self.queue_breach_started_ms.get_or_insert(at_ms)`.
abbrev pub started_or : Option ℕ → ℕ → ℕ
started_or none at_ms = at_ms
started_or (some started) at_ms = started

-- `at_ms.saturating_sub(started)` is the subtraction that stops at 0.
unfoldable pub judge_queue :
    DirectionPolicy → ℕ → Option ℕ → DirectionPolicy × Option LatencyTransition
unfolding next_degraded_mode within_tripwire transition
judge_queue p at_ms lag =
    if is_none (next_degraded_mode p.state.current_mode)
    then (record p { queue_breach_started_ms = none }, none)
    else if within_tripwire lag
    then (record p { queue_breach_started_ms = none }, none)
    else (let started = started_or p.queue_breach_started_ms at_ms in
        let q = record p { queue_breach_started_ms = some started } in
        if leb queue_tripwire_duration_ms (at_ms - started)
        then transition q at_ms sustained_queue_lag true
        else (q, none))

unfoldable pub observe_queue_lag :
    DirectionPolicy → ℕ → Option ℕ → DirectionPolicy × Option LatencyTransition
unfolding judge_queue
observe_queue_lag p at_ms lag =
    if some_and p.last_queue_observation_at_ms (λ last. leb at_ms last)
    then (p, none)
    else judge_queue (record p { last_queue_observation_at_ms = some at_ms }) at_ms lag
