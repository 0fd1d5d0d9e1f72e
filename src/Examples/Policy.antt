-- ===== src/Examples/Policy.antt =====
-- The latency policy at concrete inputs.
use translator.Prelude.{ℕ, ◌≡◌, refl, ◌≤◌, ◌<◌, ◌*◌, List, [], ◌∷◌, some, arith, length}
use translator.Contracts.{AudioDirection, microphone, speaker, quality_first, balanced}
use translator.Latency.{DuplexLatencyPolicy, default_duplex}
use translator.Latency.Policy.{
  LatencySample, DirectionPolicy, new_policy, format_ms, consecutive_utterances,
  sustained_queue_lag,
}
use translator.Latency.History.{Call, utterance, queue_lag, epoch, force, log, after, step}
use translator.Latency.Signals.{record_utterance}
use translator.Latency.Percentile.{nearest_rank_p95}
use translator.Latency.Percentile.Bounds.{count_le, count_lt, nearest_rank_p95_percentile}
use translator.Latency.Ladder.{Chained, log-Chained}
use translator.Latency.Counters.{Inv, after-Inv, new_policy-Inv}
use translator.Latency.Alarm.{DegradesOnce, log-slow_utterances, log-late_queue}
use translator.Latency.Duplex.{duplex_after, calls_for, duplex_after-independent}

abbrev slow : LatencySample
slow = record { first_audio_ms = 3100; last_audio_ms = 4000; queue_lag_ms = 10 }

abbrev slow_calls : List Call
slow_calls = utterance 10 slow ∷ utterance 20 slow ∷ utterance 30 slow ∷ []

log-Chained_example : Chained speaker quality_first 0 (log (new_policy speaker) slow_calls)
log-Chained_example = log-Chained speaker slow_calls

after-Inv_example : (q : DirectionPolicy) × (after (new_policy speaker) slow_calls ≡ some q) × Inv q
after-Inv_example = after-Inv speaker slow_calls

log-slow_utterances_example : DegradesOnce consecutive_utterances (new_policy speaker) slow_calls
unfolding new_policy
log-slow_utterances_example =
    log-slow_utterances (new_policy speaker) 10 20 30 slow slow slow (new_policy-Inv speaker)
      (λ e. ground arith) tt (omega arith) (omega arith) (omega arith) (omega arith) (omega arith)

log-late_queue_example :
    DegradesOnce sustained_queue_lag
      (new_policy microphone)
      (queue_lag 1000 (some 501) ∷ queue_lag 3000 (some 900) ∷ [])
unfolding new_policy
log-late_queue_example =
    log-late_queue (new_policy microphone) 1000 3000 501 900 (new_policy-Inv microphone)
      (λ e. ground arith) tt (omega arith) (omega arith) (omega arith)

abbrev duplex_calls : List (AudioDirection × Call)
duplex_calls =
    (microphone, utterance 10 slow) ∷ (speaker, force 20 balanced) ∷ (microphone, epoch 60000) ∷ []

duplex_after-independent_example :
    (q : DuplexLatencyPolicy) × (duplex_after default_duplex duplex_calls ≡ some q)
    × (after (new_policy microphone) (calls_for microphone duplex_calls) ≡ some q.microphone_policy)
    × (after (new_policy speaker) (calls_for speaker duplex_calls) ≡ some q.speaker_policy)
duplex_after-independent_example = duplex_after-independent duplex_calls

abbrev four_values : List ℕ
four_values = 40 ∷ 10 ∷ 30 ∷ 20 ∷ []

p95_of_four : nearest_rank_p95 four_values ≡ some 40
unfolding nearest_rank_p95
p95_of_four = refl

nearest_rank_p95_percentile_example :
    (95 * length four_values ≤ 100 * count_le 40 four_values)
    × (100 * count_lt 40 four_values < 95 * length four_values)
nearest_rank_p95_percentile_example =
    nearest_rank_p95_percentile four_values 40 (omega arith) p95_of_four

-- The third slow utterance changes the mode, and the time of the change is written in digits.
slow_log :
    log (new_policy speaker) slow_calls
    ≡ record {
      direction = speaker;
      source = quality_first;
      target = balanced;
      reason = consecutive_utterances;
      at_ms = 30;
    }
      ∷ []
unfolding log step record_utterance new_policy
slow_log = refl

format_ms_1203 : format_ms 1203 ≡ "1203ms"
unfolding format_ms
format_ms_1203 = refl
