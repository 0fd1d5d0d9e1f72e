-- ===== src/Latency/History.antt =====
-- crates/translator-daemon/src/latency.rs: a direction's latency policy driven by any calls: the step
-- on one call, and the log of transitions. `none` stands for a panic.
use translator.Prelude.{ℕ, List, [], ◌∷◌, Option, none, some}
use translator.Contracts.{TranslationMode}
use translator.Latency.Policy.{LatencySample, LatencyTransition, DirectionPolicy, force_mode}
use translator.Latency.Signals.{record_utterance, observe_queue_lag}
use translator.Latency.Epochs.{evaluate_epoch}

pub data Call : Type 0 where
  utterance : ℕ → LatencySample → Call
  queue_lag : ℕ → Option ℕ → Call
  epoch : ℕ → Call
  force : ℕ → TranslationMode → Call

unfoldable pub step : DirectionPolicy → Call → Option (DirectionPolicy × Option LatencyTransition)
step p (utterance at_ms sample) = some (record_utterance p at_ms sample)
step p (queue_lag at_ms lag) = some (observe_queue_lag p at_ms lag)
step p (epoch end_ms) = evaluate_epoch p end_ms
step p (force at_ms mode) = some (force_mode p at_ms mode)

unfoldable pub logged : Option LatencyTransition → List LatencyTransition → List LatencyTransition
logged none rest = rest
logged (some t) rest = t ∷ rest

unfoldable pub log : DirectionPolicy → List Call → List LatencyTransition
unfolding logged
log p [] = []
log p (c ∷ cs) = elim (step p c) [ none ↦ [] | some (q, t) ↦ logged t (log q cs) ]

-- The policy that a list of calls leaves.
unfoldable pub after : DirectionPolicy → List Call → Option DirectionPolicy
after p [] = some p
after p (c ∷ cs) = elim (step p c) [ none ↦ none | some (q, t) ↦ after q cs ]
