-- ===== src/Watchdog/Polling/Laws.antt =====
-- crates/translator-daemon/src/provider_audio_watchdog.rs: the map of utterances and the actions after
-- a poll.
use translator.Prelude.{
  ℕ, ◌≡◌, ◌⊎◌, inl, inr, refl, Bool, true, false, ◌||◌, ◌==◌, ltb, List, [], ◌∷◌, Option, none,
  some, arith,
}
use translator.Prelude.Map.{Map, get, Distinct}
use translator.Watchdog.{
  WatchdogAction, cancel_utterance, close_provider_session, restart_sidecar, UtterancePhase,
  collecting_input, awaiting_first_audio, streaming_audio, cancel_pending, WatchedUtterance,
}
use translator.Watchdog.Polling.{
  waits, cancels, closes, verdict, polled, poll_utterances, cancel_actions,
}

abbrev pub polled? : ℕ → Option WatchedUtterance → Option WatchedUtterance
polled? now_ns none = none
polled? now_ns (some w) = some (polled now_ns w)

pub get-poll_utterances :
    (k now_ns : ℕ) (m : Map WatchedUtterance)
    → get k (poll_utterances now_ns m) ≡ polled? now_ns (get k m)
unfolding get poll_utterances
get-poll_utterances k now_ns [] = refl
get-poll_utterances k now_ns ((u, w) ∷ m) = ground (arith, get-poll_utterances k now_ns m)

pub poll_utterances-Distinct :
    (now_ns : ℕ) (m : Map WatchedUtterance) → Distinct m → Distinct (poll_utterances now_ns m)
unfolding poll_utterances
poll_utterances-Distinct now_ns [] d = d
poll_utterances-Distinct now_ns ((u, w) ∷ m) d =
    ground (arith, get-poll_utterances u now_ns m, poll_utterances-Distinct now_ns m)

-- Some action cancels the utterance.
unfoldable pub cancels_in : ℕ → List WatchdogAction → Bool
cancels_in k [] = false
cancels_in k (cancel_utterance session stream u purge ∷ actions) = (u == k) || cancels_in k actions
cancels_in k (close_provider_session session ∷ actions) = cancels_in k actions
cancels_in k (restart_sidecar session ∷ actions) = cancels_in k actions

-- The deadline of an utterance that is not being cancelled has passed.
unfoldable pub late_phase : UtterancePhase → ℕ → Bool
late_phase (collecting_input d) now_ns = ltb d now_ns
late_phase (awaiting_first_audio d) now_ns = ltb d now_ns
late_phase (streaming_audio d) now_ns = ltb d now_ns
late_phase (cancel_pending d) now_ns = false

abbrev pub is_late : ℕ → Option WatchedUtterance → Bool
is_late now_ns none = false
is_late now_ns (some w) = late_phase w.phase now_ns

-- The three verdicts, with what they say of the deadline.
pub verdict_late :
    (phase : UtterancePhase) (now_ns : ℕ)
    → ((verdict phase now_ns ≡ cancels) × (late_phase phase now_ns ≡ true))
      ⊎ ((verdict phase now_ns ≡ waits) × (late_phase phase now_ns ≡ false))
      ⊎ ((verdict phase now_ns ≡ closes) × (late_phase phase now_ns ≡ false))
unfolding verdict late_phase
verdict_late (collecting_input d) now_ns = ground arith
verdict_late (awaiting_first_audio d) now_ns = ground arith
verdict_late (streaming_audio d) now_ns = ground arith
verdict_late (cancel_pending d) now_ns = ground arith

-- The actions cancel exactly the utterances that are late.
pub cancels_in-cancel_actions :
    (k session now_ns : ℕ) (m : Map WatchedUtterance)
    → Distinct m
    → cancels_in k (cancel_actions session now_ns m) ≡ is_late now_ns (get k m)
unfolding get cancels_in cancel_actions
cancels_in-cancel_actions k session now_ns [] d = refl
cancels_in-cancel_actions k session now_ns ((u, w) ∷ m) (n, d) =
    let rest = cancels_in-cancel_actions k session now_ns m d in
    elim (verdict_late w.phase now_ns) [
      | inl (v, l) ↦ rw (v, cancel_actions) (ground (arith, rest))
      | inr (inl (v, l)) ↦ rw (v, cancel_actions) (ground (arith, rest))
      | inr (inr (v, l)) ↦ rw (v, cancel_actions) (ground (arith, rest))
    ]
