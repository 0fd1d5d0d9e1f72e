-- ===== src/Latency/Counters.antt =====
-- crates/translator-daemon/src/latency.rs: the counters of a direction's policy, after any calls.
use translator.Prelude.{
  ℕ, ◌≤◌, ◌<◌, ◌≡◌, refl, Option, some, none, List, [], ◌∷◌, arith, Bool-cases, inl, inr, ◌⊎◌, ltb,
  length, map, subst,
}
use translator.Contracts.{TranslationMode, quality_first, streaming_first, AudioDirection}
use translator.Latency.Policy.{
  LatencySample, LatencyTransition, DirectionPolicy, force_mode, required_samples, new_policy,
}
use translator.Latency.Signals.{record_utterance, observe_queue_lag}
use translator.Latency.Epochs.{
  evaluate_epoch, judge_epoch, with_percentiles, enter_epoch, is_due, epoch_values,
}
use translator.Latency.Percentile.{nearest_rank_p95}
use translator.Latency.History.{Call, utterance, queue_lag, epoch, force, step, after}
use translator.Latency.Panics.{evaluate_epoch-returns}

abbrev Started : Option ℕ → Option ℕ → Type 0
Started none seen = Unit {0}
Started (some started) none = ⊥
Started (some started) (some seen) = started ≤ seen

pub record Counted (p : DirectionPolicy) : Type 0 where
  pub breaches : p.breach_windows < 2
  pub utterances : p.consecutive_utterance_breaches < 3
  -- A run of breaches and a run of clean windows exclude one another.
  pub exclusive : (p.breach_windows ≡ 0) ⊎ (p.recovery_windows ≡ 0)
  -- At the bottom nothing is counted towards going down, at the top nothing towards going up.
  pub floor :
      p.state.current_mode ≡ streaming_first
      → (p.breach_windows ≡ 0) × (p.consecutive_utterance_breaches ≡ 0)
  pub ceiling : p.state.current_mode ≡ quality_first → p.recovery_windows ≡ 0
  pub queue : Started p.queue_breach_started_ms p.last_queue_observation_at_ms

pub record Inv (p : DirectionPolicy) : Type 0 where
  pub counted : Counted p
  -- Clean windows are only counted past their number while the cooldown runs.
  pub recovery : (p.recovery_windows < 5) ⊎ (p.last_evaluated_end_ms < p.cooldown_until_ms)

abbrev Inv? : Option (DirectionPolicy × Option LatencyTransition) → Type 0
Inv? none = Unit {0}
Inv? (some (q, t)) = Inv q

pub new_policy-Inv : (d : AudioDirection) → Inv (new_policy d)
unfolding new_policy
new_policy-Inv d = ground arith

record_utterance-Inv :
    (p : DirectionPolicy) (at_ms : ℕ) (s : LatencySample)
    → Inv p
    → Inv? (some (record_utterance p at_ms s))
unfolding record_utterance
record_utterance-Inv p at_ms s v = ground arith

observe_queue_lag-Inv :
    (p : DirectionPolicy) (at_ms : ℕ) (lag : Option ℕ)
    → Inv p
    → Inv? (some (observe_queue_lag p at_ms lag))
unfolding observe_queue_lag
observe_queue_lag-Inv p at_ms lag v = ground arith

force_mode-Inv :
    (p : DirectionPolicy) (at_ms : ℕ) (mode : TranslationMode)
    → Inv p
    → Inv? (some (force_mode p at_ms mode))
unfolding force_mode
force_mode-Inv p at_ms mode v = ground arith

judge_epoch-Inv :
    (p : DirectionPolicy) (end_ms : ℕ)
    → Counted p
    → p.last_evaluated_end_ms ≡ end_ms
    → Inv? (some (judge_epoch p end_ms))
unfolding judge_epoch
judge_epoch-Inv p end_ms v last = ground arith

with_percentiles-Inv :
    (p : DirectionPolicy) (end_ms : ℕ) (first last queue : Option ℕ)
    → Counted p
    → p.last_evaluated_end_ms ≡ end_ms
    → Inv? (with_percentiles p end_ms first last queue)
unfolding with_percentiles
with_percentiles-Inv p end_ms (some first) (some last) (some queue) v last_end =
    judge_epoch-Inv
      (record p {
        state = record (p.state) {
          p95_first_audio_ms = first;
          p95_last_audio_ms = last;
          p95_queue_lag_ms = queue;
        };
      })
      end_ms (ground arith) last_end
with_percentiles-Inv p end_ms _ _ _ v last_end = tt

evaluate_epoch-Inv : (p : DirectionPolicy) (end_ms : ℕ) → Inv p → Inv? (evaluate_epoch p end_ms)
unfolding evaluate_epoch
evaluate_epoch-Inv p end_ms v = elim (Bool-cases (is_due p end_ms)) [
  | inl due ↦ elim (Bool-cases (ltb (length (epoch_values p.samples end_ms)) required_samples)) [
    | inl few ↦ rw (due, few) (ground arith)
    | inr enough ↦
        rw (due, enough)
          (with_percentiles-Inv (enter_epoch p end_ms) end_ms (p95 (λ s. s.first_audio_ms))
            (p95 (λ s. s.last_audio_ms)) (p95 (λ s. s.queue_lag_ms)) (ground arith) refl)
  ]
  | inr skip ↦ rw skip v
]
  where
    p95 : (LatencySample → ℕ) → Option ℕ
    p95 f = nearest_rank_p95 (map f (epoch_values p.samples end_ms))

step-Inv : (p : DirectionPolicy) (c : Call) → Inv p → Inv? (step p c)
unfolding step
step-Inv p (utterance at_ms s) v = record_utterance-Inv p at_ms s v
step-Inv p (queue_lag at_ms lag) v = observe_queue_lag-Inv p at_ms lag v
step-Inv p (force at_ms mode) v = force_mode-Inv p at_ms mode v
step-Inv p (epoch end_ms) v = evaluate_epoch-Inv p end_ms v

pub step-returns :
    (p : DirectionPolicy) (c : Call)
    → (q : DirectionPolicy) × (t : Option LatencyTransition) × (step p c ≡ some (q, t))
unfolding step
step-returns p (utterance at_ms s) =
    ((record_utterance p at_ms s).0, (record_utterance p at_ms s).1, refl)
step-returns p (queue_lag at_ms lag) =
    ((observe_queue_lag p at_ms lag).0, (observe_queue_lag p at_ms lag).1, refl)
step-returns p (force at_ms mode) = ((force_mode p at_ms mode).0, (force_mode p at_ms mode).1, refl)
step-returns p (epoch end_ms) = let r = evaluate_epoch-returns p end_ms in (r.0.0, r.0.1, r.1)

after-Inv_from :
    (p : DirectionPolicy) (cs : List Call)
    → Inv p
    → (q : DirectionPolicy) × (after p cs ≡ some q) × Inv q
unfolding after
after-Inv_from p [] v = (p, refl, v)
after-Inv_from p (c ∷ cs) v =
    let (q, t, e) = step-returns p c in
    let (r, f, w) = after-Inv_from q cs (subst Inv? e (step-Inv p c v)) in (r, rw (e, after) f, w)

-- From a new policy any calls leave a policy, without a panic. Its counts of breached epochs and of slow
-- utterances are below the numbers that trigger a transition, 2 and 3, and its count of clean epochs is
-- below its number, 5, unless the last epoch evaluated ended before the end of the cooldown. One of the
-- two counts of epochs is 0; at the lowest mode the counts of breached epochs and slow utterances are 0,
-- at the highest that of clean epochs; and a queue that is late has been so since a time not after the
-- last observation.
pub after-Inv :
    (d : AudioDirection) (cs : List Call)
    → (q : DirectionPolicy) × (after (new_policy d) cs ≡ some q) × Inv q
after-Inv d cs = after-Inv_from (new_policy d) cs (new_policy-Inv d)
