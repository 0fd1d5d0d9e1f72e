-- ===== src/Latency/Alarm.antt =====
-- crates/translator-daemon/src/latency.rs: a run of slow utterances and a queue that stays late, as
-- `record_utterance` and `observe_queue_lag` see them.
use translator.Prelude.{
  ℕ, ◌+◌, ◌≤◌, ◌<◌, ◌≡◌, ◌≢◌, refl, Option, some, none, List, [], ◌∷◌, arith, ◌⊎◌, inl, inr,
}
use translator.Contracts.{streaming_first}
use translator.Latency.Policy.{
  LatencySample, LatencyTransition, LatencyTransitionReason, DirectionPolicy, next_degraded_mode,
  consecutive_utterances, sustained_queue_lag,
}
use translator.Latency.Signals.{record_utterance, observe_queue_lag}
use translator.Latency.History.{Call, utterance, queue_lag, step, log, after}
use translator.Latency.Counters.{Inv}

-- The time lies after the one last seen.
abbrev pub IsLater : ℕ → Option ℕ → Type 0
IsLater at_ms none = Unit {0}
IsLater at_ms (some last) = last < at_ms

-- The transition one rung down, and the policy that it leaves.
abbrev Lowers :
    LatencyTransitionReason → DirectionPolicy → DirectionPolicy → Option LatencyTransition → Type 0
Lowers why p q none = ⊥
Lowers why p q (some t) =
    (t.reason ≡ why)
    × (t.source ≡ p.state.current_mode)
    × (t.target ≡ q.state.current_mode)
    × (next_degraded_mode p.state.current_mode ≡ some q.state.current_mode)

abbrev Keeps : DirectionPolicy → DirectionPolicy → Option LatencyTransition → Type 0
Keeps p q t = (t ≡ none) × (q.state.current_mode ≡ p.state.current_mode)

-- The calls log one transition, for the reason, from the mode before them one rung down to the mode
-- after them.
abbrev pub DegradesOnce : LatencyTransitionReason → DirectionPolicy → List Call → Type 0
DegradesOnce why p cs =
    (q : DirectionPolicy) × (t : LatencyTransition) × (after p cs ≡ some q)
    × (log p cs ≡ t ∷ [])
    × (t.reason ≡ why)
    × (t.source ≡ p.state.current_mode)
    × (t.target ≡ q.state.current_mode)
    × (next_degraded_mode p.state.current_mode ≡ some q.state.current_mode)

third_utterance :
    (p : DirectionPolicy) (at_ms : ℕ) (s : LatencySample)
    → p.consecutive_utterance_breaches ≡ 2
    → p.state.current_mode ≢ streaming_first
    → 3000 < s.first_audio_ms
    → IsLater at_ms p.last_utterance_at_ms
    → let (q, t) = record_utterance p at_ms s in
      Lowers consecutive_utterances p q t
      × (q.consecutive_utterance_breaches ≡ 0)
      × (q.last_utterance_at_ms ≡ some at_ms)
unfolding record_utterance
third_utterance p at_ms s two high slow later = ground arith

counted_utterance :
    (p : DirectionPolicy) (at_ms : ℕ) (s : LatencySample)
    → p.consecutive_utterance_breaches < 2
    → p.state.current_mode ≢ streaming_first
    → 3000 < s.first_audio_ms
    → IsLater at_ms p.last_utterance_at_ms
    → let (q, t) = record_utterance p at_ms s in
      Keeps p q t
      × (q.consecutive_utterance_breaches ≡ p.consecutive_utterance_breaches + 1)
      × (q.last_utterance_at_ms ≡ some at_ms)
unfolding record_utterance
counted_utterance p at_ms s few high slow later = ground arith

-- Whatever the mode and the sample.
quiet_utterance :
    (p : DirectionPolicy) (at_ms : ℕ) (s : LatencySample)
    → p.consecutive_utterance_breaches < 2
    → let (q, t) = record_utterance p at_ms s in
      Keeps p q t × (q.consecutive_utterance_breaches ≤ p.consecutive_utterance_breaches + 1)
unfolding record_utterance
quiet_utterance p at_ms s few = ground arith

lowered_once :
    (why : LatencyTransitionReason) (p q : DirectionPolicy) (t : Option LatencyTransition)
    (cs : List Call)
    → Lowers why p q t
    → ((u : LatencyTransition) → t ≡ some u → log p cs ≡ u ∷ [])
    → (r : DirectionPolicy) → r.state.current_mode ≡ q.state.current_mode
    → after p cs ≡ some r
    → DegradesOnce why p cs
lowered_once why p q none cs l f r m a = absurd l
lowered_once why p q (some t) cs l f r m a =
    (r, t, a, f t refl, l.0, l.1, ground (arith, l, m), ground (arith, l, m))

-- Three utterances in a row whose first audio takes more than three seconds, at later and later times,
-- lower the mode of a policy that is not at its lowest and whose counters satisfy their invariant: the
-- three log one transition, for consecutive utterances, and leave the mode one rung below the one
-- before them.
pub log-slow_utterances :
    (p : DirectionPolicy) (t₁ t₂ t₃ : ℕ) (s₁ s₂ s₃ : LatencySample)
    → Inv p
    → p.state.current_mode ≢ streaming_first
    → IsLater t₁ p.last_utterance_at_ms
    → t₁ < t₂
    → t₂ < t₃
    → 3000 < s₁.first_audio_ms
    → 3000 < s₂.first_audio_ms
    → 3000 < s₃.first_audio_ms
    → DegradesOnce consecutive_utterances p
        (utterance t₁ s₁ ∷ utterance t₂ s₂ ∷ utterance t₃ s₃ ∷ [])
unfolding log after step
log-slow_utterances p t₁ t₂ t₃ s₁ s₂ s₃ v high l₁ l₂ l₃ h₁ h₂ h₃ =
    let q₁ = (record_utterance p t₁ s₁).0 in
    let q₂ = (record_utterance q₁ t₂ s₂).0 in
    let q₃ = (record_utterance q₂ t₃ s₃).0 in
    let cs = utterance t₁ s₁ ∷ utterance t₂ s₂ ∷ utterance t₃ s₃ ∷ [] in
    elim (count_cases p.consecutive_utterance_breaches v.counted.utterances) [
      | inl c ↦
          let a = counted_utterance p t₁ s₁ (ground (arith, c)) high h₁ l₁ in
          let b =
            counted_utterance q₁ t₂ s₂ (ground (arith, a, c)) (ground (arith, a, high)) h₂
              (ground (arith, a, l₂)) in
          let d =
            third_utterance q₂ t₃ s₃ (ground (arith, a, b, c)) (ground (arith, a, b, high)) h₃
              (ground (arith, b, l₃)) in
          lowered_once consecutive_utterances p q₃ (record_utterance q₂ t₃ s₃).1 cs
            (ground (arith, a, b, d)) (λ u e. ground (arith, a, b, e)) q₃ refl refl
      | inr (inl c) ↦
          let a = counted_utterance p t₁ s₁ (ground (arith, c)) high h₁ l₁ in
          let b =
            third_utterance q₁ t₂ s₂ (ground (arith, a, c)) (ground (arith, a, high)) h₂
              (ground (arith, a, l₂)) in
          let d = quiet_utterance q₂ t₃ s₃ (ground (arith, b)) in
          lowered_once consecutive_utterances p q₂ (record_utterance q₁ t₂ s₂).1 cs
            (ground (arith, a, b)) (λ u e. ground (arith, a, d, e)) q₃ (d.0.1) refl
      | inr (inr c) ↦
          let a = third_utterance p t₁ s₁ c high h₁ l₁ in
          let b = quiet_utterance q₁ t₂ s₂ (ground (arith, a)) in
          let d = quiet_utterance q₂ t₃ s₃ (ground (arith, a, b)) in
          lowered_once consecutive_utterances p q₁ (record_utterance p t₁ s₁).1 cs a.0
            (λ u e. ground (arith, b, d, e)) q₃ (ground (arith, b, d)) refl
    ]
  where
    count_cases : (n : ℕ) → n < 3 → (n ≡ 0) ⊎ (n ≡ 1) ⊎ (n ≡ 2)
    count_cases n h = ground arith

abbrev StartedBy : Option ℕ → ℕ → Type 0
StartedBy none at_ms = ⊥
StartedBy (some started) at_ms = started ≤ at_ms

-- The first of two late observations lowers the mode, and the clock starts anew, or it starts the clock.
late_queue :
    (p : DirectionPolicy) (at_ms lag : ℕ)
    → Inv p
    → p.state.current_mode ≢ streaming_first
    → 500 < lag
    → IsLater at_ms p.last_queue_observation_at_ms
    → let (q, t) = observe_queue_lag p at_ms (some lag) in
      (Lowers sustained_queue_lag p q t × (q.queue_breach_started_ms ≡ none))
      ⊎ (Keeps p q t
          × (q.last_queue_observation_at_ms ≡ some at_ms)
          × StartedBy q.queue_breach_started_ms at_ms)
unfolding observe_queue_lag
late_queue p at_ms lag v high late later = ground arith

late_again :
    (p : DirectionPolicy) (at_ms t₂ lag : ℕ)
    → StartedBy p.queue_breach_started_ms at_ms
    → p.state.current_mode ≢ streaming_first
    → 500 < lag
    → p.last_queue_observation_at_ms ≡ some at_ms
    → at_ms + 2000 ≤ t₂
    → let (q, t) = observe_queue_lag p t₂ (some lag) in Lowers sustained_queue_lag p q t
unfolding observe_queue_lag
late_again p at_ms t₂ lag st high late seen later = ground arith

started_anew :
    (p : DirectionPolicy) (at_ms : ℕ) (lag : Option ℕ)
    → p.queue_breach_started_ms ≡ none
    → let (q, t) = observe_queue_lag p at_ms lag in Keeps p q t
unfolding observe_queue_lag
started_anew p at_ms lag e = ground arith

-- Two observations in a row of a queue that is more than 500 ms late, two seconds or more apart, lower
-- the mode of a policy that is not at its lowest and whose counters satisfy their invariant: the two
-- log one transition, for the queue's lag, and leave the mode one rung below the one before them.
pub log-late_queue :
    (p : DirectionPolicy) (t₁ t₂ lag₁ lag₂ : ℕ)
    → Inv p
    → p.state.current_mode ≢ streaming_first
    → IsLater t₁ p.last_queue_observation_at_ms
    → t₁ + 2000 ≤ t₂
    → 500 < lag₁
    → 500 < lag₂
    → DegradesOnce sustained_queue_lag p (queue_lag t₁ (some lag₁) ∷ queue_lag t₂ (some lag₂) ∷ [])
unfolding log after step
log-late_queue p t₁ t₂ lag₁ lag₂ v high l₁ l₂ h₁ h₂ =
    let q₁ = (observe_queue_lag p t₁ (some lag₁)).0 in
    let q₂ = (observe_queue_lag q₁ t₂ (some lag₂)).0 in
    let cs = queue_lag t₁ (some lag₁) ∷ queue_lag t₂ (some lag₂) ∷ [] in
    elim (late_queue p t₁ lag₁ v high h₁ l₁) [
      | inl (a, n) ↦
          let b = started_anew q₁ t₂ (some lag₂) n in
          lowered_once sustained_queue_lag p q₁ (observe_queue_lag p t₁ (some lag₁)).1 cs a
            (λ u e. ground (arith, b, e)) q₂ b.1 refl
      | inr (a, seen, st) ↦
          let b = late_again q₁ t₁ t₂ lag₂ st (ground (arith, a, high)) h₂ seen l₂ in
          lowered_once sustained_queue_lag p q₂ (observe_queue_lag q₁ t₂ (some lag₂)).1 cs
            (ground (arith, a, b)) (λ u e. ground (arith, a, e)) q₂ refl refl
    ]
