-- ===== src/Latency/Epochs.antt =====
-- crates/translator-daemon/src/latency.rs: `evaluate_epoch`.
use translator.Prelude.{
  ℕ, ◌+◌, ◌-◌, ◌%◌, Bool, true, false, not, ◌&&◌, ◌||◌, ◌==◌, ltb, leb, if◌then◌else◌, List, map,
  retain, length, Option, none, some, is_some, u32,
}
use translator.Latency.Policy.{
  epoch_ms, required_samples, degrade_windows, recover_windows, LatencySample, LatencyTransition,
  TimedSample, DirectionPolicy, thresholds, next_degraded_mode, next_recovered_mode, transition,
  window_breach, stable_recovery,
}
use translator.Latency.Percentile.{nearest_rank_p95}

-- The windows are counted once the percentiles of the epoch are in the state.
unfoldable pub judge_epoch : DirectionPolicy → ℕ → DirectionPolicy × Option LatencyTransition
unfolding thresholds next_degraded_mode next_recovered_mode transition
judge_epoch p epoch_end =
    let (first_limit, queue_limit) = thresholds p.state.current_mode in
    let breached =
      ltb first_limit p.state.p95_first_audio_ms || ltb queue_limit p.state.p95_queue_lag_ms in
    if breached && is_some (next_degraded_mode p.state.current_mode)
    then (let q = record p { breach_windows = u32 (p.breach_windows + 1); recovery_windows = 0 } in
        if leb degrade_windows q.breach_windows
        then transition q epoch_end window_breach true
        else (q, none))
    else if not breached && is_some (next_recovered_mode p.state.current_mode)
    then (let q = record p {
      recovery_windows = u32 (p.recovery_windows + 1);
      breach_windows = 0;
    } in
        if leb recover_windows q.recovery_windows && leb p.cooldown_until_ms epoch_end
        then transition q epoch_end stable_recovery false
        else (q, none))
    else (record p { breach_windows = 0; recovery_windows = 0 }, none)

-- The values of the samples of the minute that ends at `epoch_end`.
unfoldable pub epoch_values : List TimedSample → ℕ → List LatencySample
epoch_values samples epoch_end =
    map (λ s. s.value)
      (retain (λ s. leb (epoch_end - epoch_ms) s.at_ms && ltb s.at_ms epoch_end) samples)

-- `none` is a panic of one of the three percentiles, with the policy lost.
unfoldable pub with_percentiles :
    DirectionPolicy
    → ℕ
    → Option ℕ
    → Option ℕ
    → Option ℕ
    → Option (DirectionPolicy × Option LatencyTransition)
unfolding judge_epoch
with_percentiles p epoch_end (some first) (some last) (some queue) = some (
    judge_epoch
      (record p {
        state = record (p.state) {
          p95_first_audio_ms = first;
          p95_last_audio_ms = last;
          p95_queue_lag_ms = queue;
        };
      })
      epoch_end)
with_percentiles p epoch_end _ _ _ = none

unfoldable pub measure_epoch :
    DirectionPolicy → ℕ → List LatencySample → Option (DirectionPolicy × Option LatencyTransition)
unfolding with_percentiles
measure_epoch p epoch_end epoch =
    with_percentiles p epoch_end (nearest_rank_p95 (map (λ s. s.first_audio_ms) epoch))
      (nearest_rank_p95 (map (λ s. s.last_audio_ms) epoch))
      (nearest_rank_p95 (map (λ s. s.queue_lag_ms) epoch))

-- The epoch is taken out of the samples.
unfoldable pub enter_epoch : DirectionPolicy → ℕ → DirectionPolicy
enter_epoch p epoch_end = record p {
  last_evaluated_end_ms = epoch_end;
  samples = retain (λ s. leb epoch_end s.at_ms) p.samples;
}

-- The three guards, of which the source returns on the negation.
unfoldable pub is_due : DirectionPolicy → ℕ → Bool
is_due p epoch_end =
    not (epoch_end == 0 || not (epoch_end % epoch_ms == 0) || leb epoch_end p.last_evaluated_end_ms)

-- The epoch end is a multiple of the epoch and not 0, so `epoch_end_ms - EPOCH_MS` is exact.
unfoldable pub evaluate_epoch :
    DirectionPolicy → ℕ → Option (DirectionPolicy × Option LatencyTransition)
unfolding measure_epoch epoch_values enter_epoch
evaluate_epoch p epoch_end =
    if not (is_due p epoch_end)
    then some (p, none)
    else (let epoch = epoch_values p.samples epoch_end in
        let q = enter_epoch p epoch_end in
        if ltb (length epoch) required_samples
        then some (record q { breach_windows = 0; recovery_windows = 0 }, none)
        else measure_epoch q epoch_end epoch)
