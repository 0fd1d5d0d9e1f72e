-- ===== src/Latency/Panics.antt =====
-- crates/translator-daemon/src/latency.rs: where an epoch could make the policy panic.
use translator.Prelude.{
  ℕ, ◌<◌, ◌≡◌, Option, some, none, map, length, length-map, arith, List, inl, inr, Bool-cases, ltb,
}
use translator.Latency.Policy.{LatencySample, LatencyTransition, DirectionPolicy, required_samples}
use translator.Latency.Epochs.{
  measure_epoch, evaluate_epoch, epoch_values, judge_epoch, enter_epoch, is_due,
}
use translator.Latency.Percentile.{nearest_rank_p95}
use translator.Latency.Percentile.Bounds.{nearest_rank_p95-returns}

p95_map :
    (f : LatencySample → ℕ) (epoch : List LatencySample)
    → 0 < length epoch
    → (v : ℕ) × (nearest_rank_p95 (map f epoch) ≡ some v)
p95_map f epoch h = nearest_rank_p95-returns (map f epoch) (omega (arith, length-map f epoch))

measure_epoch-returns :
    (p : DirectionPolicy) (end_ms : ℕ) (epoch : List LatencySample)
    → 0 < length epoch
    → (r : DirectionPolicy × Option LatencyTransition) × (measure_epoch p end_ms epoch ≡ some r)
unfolding measure_epoch
measure_epoch-returns p end_ms epoch h =
    let first = p95_map (λ s. s.first_audio_ms) epoch h in
    let last = p95_map (λ s. s.last_audio_ms) epoch h in
    let queue = p95_map (λ s. s.queue_lag_ms) epoch h in
    (
      judge_epoch
          (record p {
            state = record (p.state) {
              p95_first_audio_ms = first.0;
              p95_last_audio_ms = last.0;
              p95_queue_lag_ms = queue.0;
            };
          })
          end_ms,
      rw (first.1, last.1, queue.1),
    )

-- Every call of `evaluate_epoch` returns, whatever the policy and the epoch's end.
pub evaluate_epoch-returns :
    (p : DirectionPolicy) (end_ms : ℕ)
    → (r : DirectionPolicy × Option LatencyTransition) × (evaluate_epoch p end_ms ≡ some r)
unfolding evaluate_epoch
evaluate_epoch-returns p end_ms = elim (Bool-cases (is_due p end_ms)) [
  | inl due ↦ elim (Bool-cases (ltb (length (epoch_values p.samples end_ms)) required_samples)) [
    | inl few ↦ (
      (record (enter_epoch p end_ms) { breach_windows = 0; recovery_windows = 0 }, none),
      rw (due, few),
    )
    | inr enough ↦
        rw (due, enough)
          (measure_epoch-returns (enter_epoch p end_ms) end_ms (epoch_values p.samples end_ms)
            (ground arith))
  ]
  | inr skip ↦ ((p, none), rw skip)
]
