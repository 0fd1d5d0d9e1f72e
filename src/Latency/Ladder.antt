-- ===== src/Latency/Ladder.antt =====
-- crates/translator-daemon/src/latency.rs: the transitions that a direction logs, over any calls.
use mathlib.Core.Path.{subst₃}
use translator.Prelude.{
  ℕ, ◌≤◌, ◌≡◌, refl, ◌≢◌, Option, some, none, List, [], ◌∷◌, arith, saturating_add64, Option-cases,
  Bool-cases, ltb, length, map, inl, inr,
}
use translator.Contracts.{AudioDirection, TranslationMode, quality_first, balanced, streaming_first}
use translator.Latency.Policy.{
  LatencySample, LatencyTransition, LatencyTransitionReason, DirectionPolicy, window_breach,
  stable_recovery, consecutive_utterances, sustained_queue_lag, manual_policy_change, force_mode,
  new_policy, cooldown_ms, required_samples,
}
use translator.Latency.Signals.{record_utterance, observe_queue_lag}
use translator.Latency.Epochs.{
  evaluate_epoch, judge_epoch, is_due, enter_epoch, epoch_values, with_percentiles,
}
use translator.Latency.Percentile.{nearest_rank_p95}
use translator.Latency.History.{Call, utterance, queue_lag, epoch, force, step, log, logged}

-- The rungs, from the best quality down to the fastest.
pub data Below : TranslationMode → TranslationMode → Type 0 where
  balanced_below : Below balanced quality_first
  streaming_below : Below streaming_first balanced

-- What a transition's reason allows, given the time at which the cooldown ends.
abbrev pub Allowed : LatencyTransitionReason → ℕ → LatencyTransition → Type 0
Allowed window_breach until t = Below t.target t.source
Allowed consecutive_utterances until t = Below t.target t.source
Allowed sustained_queue_lag until t = Below t.target t.source
Allowed stable_recovery until t = Below t.source t.target × (until ≤ t.at_ms)
Allowed manual_policy_change until t = t.target ≢ t.source

-- A log that starts at a direction and a mode, with a cooldown until some time.
abbrev pub Chained : AudioDirection → TranslationMode → ℕ → List LatencyTransition → Type 0
Chained d mode until [] = Unit {0}
Chained d mode until (t ∷ ts) =
    (t.direction ≡ d)
    × (t.source ≡ mode)
    × Allowed t.reason until t
    × Chained d t.target (saturating_add64 t.at_ms cooldown_ms) ts

abbrev Follows : DirectionPolicy → DirectionPolicy → Option LatencyTransition → Type 0
Follows p q none =
    (q.state.direction_id ≡ p.state.direction_id)
    × (q.state.current_mode ≡ p.state.current_mode)
    × (q.cooldown_until_ms ≡ p.cooldown_until_ms)
Follows p q (some t) =
    (q.state.direction_id ≡ p.state.direction_id)
    × (t.direction ≡ p.state.direction_id)
    × (t.source ≡ p.state.current_mode)
    × (q.state.current_mode ≡ t.target)
    × (q.cooldown_until_ms ≡ saturating_add64 t.at_ms cooldown_ms)
    × Allowed t.reason p.cooldown_until_ms t

abbrev Follows? : DirectionPolicy → Option (DirectionPolicy × Option LatencyTransition) → Type 0
Follows? p none = Unit {0}
Follows? p (some (q, t)) = Follows p q t

record_utterance-Follows :
    (p : DirectionPolicy) (at_ms : ℕ) (s : LatencySample)
    → Follows? p (some (record_utterance p at_ms s))
unfolding record_utterance
record_utterance-Follows p at_ms s = ground (arith, balanced_below, streaming_below)

observe_queue_lag-Follows :
    (p : DirectionPolicy) (at_ms : ℕ) (lag : Option ℕ)
    → Follows? p (some (observe_queue_lag p at_ms lag))
unfolding observe_queue_lag
observe_queue_lag-Follows p at_ms lag = ground (arith, balanced_below, streaming_below)

force_mode-Follows :
    (p : DirectionPolicy) (at_ms : ℕ) (mode : TranslationMode)
    → Follows? p (some (force_mode p at_ms mode))
unfolding force_mode
force_mode-Follows p at_ms mode = ground arith

judge_epoch-Follows : (p : DirectionPolicy) (end_ms : ℕ) → Follows? p (some (judge_epoch p end_ms))
unfolding judge_epoch
judge_epoch-Follows p end_ms = ground (arith, balanced_below, streaming_below)

with_percentiles-Follows :
    (p : DirectionPolicy) (end_ms : ℕ) (first last queue : Option ℕ)
    → Follows? p (with_percentiles p end_ms first last queue)
unfolding with_percentiles
with_percentiles-Follows p end_ms (some first) (some last) (some queue) =
    judge_epoch-Follows
      (record p {
        state = record (p.state) {
          p95_first_audio_ms = first;
          p95_last_audio_ms = last;
          p95_queue_lag_ms = queue;
        };
      })
      end_ms
with_percentiles-Follows p end_ms _ _ _ = tt

evaluate_epoch-Follows : (p : DirectionPolicy) (end_ms : ℕ) → Follows? p (evaluate_epoch p end_ms)
unfolding evaluate_epoch
evaluate_epoch-Follows p end_ms = elim (Bool-cases (is_due p end_ms)) [
  | inl due ↦ elim (Bool-cases (ltb (length (epoch_values p.samples end_ms)) required_samples)) [
    | inl few ↦ rw (due, few) (refl, refl, refl)
    | inr enough ↦
        rw (due, enough)
          (with_percentiles-Follows (enter_epoch p end_ms) end_ms (p95 (λ s. s.first_audio_ms))
            (p95 (λ s. s.last_audio_ms)) (p95 (λ s. s.queue_lag_ms)))
  ]
  | inr skip ↦ rw skip (refl, refl, refl)
]
  where
    p95 : (LatencySample → ℕ) → Option ℕ
    p95 f = nearest_rank_p95 (map f (epoch_values p.samples end_ms))

step-Follows : (p : DirectionPolicy) (c : Call) → Follows? p (step p c)
unfolding step
step-Follows p (utterance at_ms s) = record_utterance-Follows p at_ms s
step-Follows p (queue_lag at_ms lag) = observe_queue_lag-Follows p at_ms lag
step-Follows p (force at_ms mode) = force_mode-Follows p at_ms mode
step-Follows p (epoch end_ms) = evaluate_epoch-Follows p end_ms

Chained-subst :
    {d d' : AudioDirection} {m m' : TranslationMode} {u u' : ℕ} (ts : List LatencyTransition)
    → d ≡ d'
    → m ≡ m'
    → u ≡ u'
    → Chained d m u ts
    → Chained d' m' u' ts
Chained-subst ts e f g h = subst₃ (λ d m u. Chained d m u ts) e f g h

chain_step :
    (p q : DirectionPolicy) (t : Option LatencyTransition) (rest : List LatencyTransition)
    → Follows p q t
    → Chained q.state.direction_id q.state.current_mode q.cooldown_until_ms rest
    → Chained p.state.direction_id p.state.current_mode p.cooldown_until_ms (logged t rest)
unfolding logged
chain_step p q none rest f h = Chained-subst rest f.0 f.1 f.2 h
chain_step p q (some t) rest f h = (f.1, f.2, f.5, Chained-subst rest f.0 f.3 f.4 h)

log-Chained_from :
    (p : DirectionPolicy) (cs : List Call)
    → Chained p.state.direction_id p.state.current_mode p.cooldown_until_ms (log p cs)
unfolding log
log-Chained_from p [] = tt
log-Chained_from p (c ∷ cs) = elim (Option-cases (step p c)) [
  | inl e ↦ rw (e, log) tt
  | inr ((q, t), e) ↦
      rw (e, log) (chain_step p q t (log q cs) (rw e at (step-Follows p c)) (log-Chained_from q cs))
]

-- From a new policy, whatever is called: the transitions of the log are for its direction and chain
-- from mode to mode, starting at the best quality. Automatic ones move one rung, down on a breach and
-- up on a stable recovery; a recovery never comes before the cooldown of the transition before it has
-- run out; a forced one changes the mode.
pub log-Chained :
    (d : AudioDirection) (cs : List Call) → Chained d quality_first 0 (log (new_policy d) cs)
unfolding new_policy
log-Chained d cs = log-Chained_from (new_policy d) cs
