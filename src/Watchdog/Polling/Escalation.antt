-- ===== src/Watchdog/Polling/Escalation.antt =====
-- crates/translator-daemon/src/provider_audio_watchdog.rs: the polls of a session with an utterance that
-- is left alone.
use translator.Prelude.{
  ℕ, ◌≡◌, ◌⊎◌, ◌<◌, leb, saturating_add64, ◌≤◌, ◌+◌, Bool, true, false, [], ◌∷◌, Option, none, some,
  arith, List, ◌++◌, refl,
}
use translator.Prelude.Map.{Map, get}
use translator.Watchdog.{
  WatchdogAction, cancel_utterance, close_provider_session, restart_sidecar,
  cancel_final_timeout_ns, close_ack_timeout_ns, UtterancePhase, collecting_input,
  awaiting_first_audio, streaming_audio, cancel_pending, WatchedUtterance, ProviderAudioWatchdog,
  active, close_pending, restart_issued,
}
use translator.Watchdog.Polling.{
  closes, poll_phase, poll_active, cancel_actions, polled, verdict, close_required, poll,
}
use translator.Watchdog.Polling.Laws.{get-poll_utterances}

abbrev pub deadline : UtterancePhase → ℕ
deadline (collecting_input d) = d
deadline (awaiting_first_audio d) = d
deadline (streaming_audio d) = d
deadline (cancel_pending d) = d

unfoldable pub pending_phase : ℕ → UtterancePhase → Bool
pending_phase d (cancel_pending u) = leb u d
pending_phase d _ = false

abbrev pending_by : ℕ → Option WatchedUtterance → Bool
pending_by d none = false
pending_by d (some w) = pending_phase d w.phase

late_verdict :
    (phase : UtterancePhase) (d now_ns : ℕ)
    → pending_phase d phase ≡ true
    → d < now_ns
    → verdict phase now_ns ≡ closes
unfolding verdict pending_phase
late_verdict phase d now_ns p l = ground arith

-- A late cancellation in the map closes the session.
late_close :
    (k d now_ns : ℕ) (m : Map WatchedUtterance)
    → pending_by d (get k m) ≡ true
    → d < now_ns
    → close_required now_ns m ≡ true
unfolding get close_required
late_close k d now_ns [] p l = ground arith
late_close k d now_ns ((u, w) ∷ m) p l =
    ground (arith, late_verdict w.phase d now_ns, late_close k d now_ns m)

-- An utterance past its deadline is cancelled, if its cancellation is not what it waits for.
late_polled :
    (x : WatchedUtterance) (now_ns : ℕ)
    → deadline x.phase < now_ns
    → (verdict x.phase now_ns ≡ closes)
      ⊎ (pending_phase (now_ns + cancel_final_timeout_ns) (polled now_ns x).phase ≡ true)
unfolding verdict polled pending_phase
late_polled x now_ns l = ground arith

closing :
    (k now_ns : ℕ) (m : Map WatchedUtterance) (x : WatchedUtterance)
    → get k m ≡ some x
    → verdict x.phase now_ns ≡ closes
    → close_required now_ns m ≡ true
unfolding get close_required
closing k now_ns [] x g v = ground arith
closing k now_ns ((u, w) ∷ m) x g v = ground (arith, closing k now_ns m x)

first_poll :
    (w : ProviderAudioWatchdog) (k t : ℕ) (x : WatchedUtterance)
    → w.session_phase ≡ active
    → get k w.utterances ≡ some x
    → deadline x.phase < t
    → ((poll w t).0.session_phase ≡ close_pending (saturating_add64 t close_ack_timeout_ns))
      ⊎ (((poll w t).0.session_phase ≡ active)
          × (pending_by (t + cancel_final_timeout_ns) (get k (poll w t).0.utterances) ≡ true))
unfolding poll poll_phase poll_active
first_poll w k t x a g l =
    ground
      (arith, closing k t w.utterances x, late_polled x t l, get-poll_utterances k t w.utterances)

second_poll :
    (w : ProviderAudioWatchdog) (k d t : ℕ)
    → w.session_phase ≡ active
    → pending_by d (get k w.utterances) ≡ true
    → d < t
    → (poll w t).0.session_phase ≡ close_pending (saturating_add64 t close_ack_timeout_ns)
unfolding poll poll_phase poll_active
second_poll w k d t a p l = ground (arith, late_close k d t w.utterances)

-- The actions that are no cancellations.
unfoldable pub escalations : List WatchdogAction → List WatchdogAction
escalations [] = []
escalations (cancel_utterance session stream u purge ∷ actions) = escalations actions
escalations (a ∷ actions) = a ∷ escalations actions

escalations-cancel_actions :
    (session now_ns : ℕ) (m : Map WatchedUtterance)
    → escalations (cancel_actions session now_ns m) ≡ []
unfolding escalations cancel_actions
escalations-cancel_actions session now_ns [] = refl
escalations-cancel_actions session now_ns ((u, w) ∷ m) =
    ground (arith, escalations-cancel_actions session now_ns m)

-- What the polls of an active session, of one that is closing, and of one that is restarted ask for.
active_asks :
    (w : ProviderAudioWatchdog) (t : ℕ)
    → w.session_phase ≡ active
    → let (w', actions) = poll w t in
      ((w'.session_phase ≡ active) × (escalations actions ≡ []))
      ⊎ ((w'.session_phase ≡ close_pending (saturating_add64 t close_ack_timeout_ns))
          × (escalations actions ≡ close_provider_session w.session_id ∷ []))
unfolding poll poll_phase poll_active escalations
active_asks w t a = ground (arith, escalations-cancel_actions w.session_id t w.utterances)

closing_asks :
    (w : ProviderAudioWatchdog) (d t : ℕ)
    → w.session_phase ≡ close_pending d
    → let (w', actions) = poll w t in
      ((w'.session_phase ≡ restart_issued)
        × (escalations actions ≡ restart_sidecar w.session_id ∷ []))
      ⊎ ((t < d) × (w'.session_phase ≡ close_pending d) × (escalations actions ≡ []))
unfolding poll poll_phase escalations
closing_asks w d t p = ground arith

restarted_asks :
    (w : ProviderAudioWatchdog) (t : ℕ)
    → w.session_phase ≡ restart_issued
    → let (w', actions) = poll w t in
      (w'.session_phase ≡ restart_issued) × (escalations actions ≡ [])
unfolding poll poll_phase escalations
restarted_asks w t p = ground arith

session_id-poll : (w : ProviderAudioWatchdog) (t : ℕ) → (poll w t).0.session_id ≡ w.session_id
unfolding poll poll_phase poll_active
session_id-poll w t = ground arith

-- Three polls in a row, with no other call between them, of an active session that watches an
-- utterance, whatever its other utterances are: the first after the utterance's deadline, the second
-- more than 250 ms after the first, and the third at least 2 s after the second. Cancellations
-- aside, they ask in all for the close of the session and then for the restart of the sidecar, once
-- each, and the restart is on record afterwards.
pub poll-restart :
    (w : ProviderAudioWatchdog) (k t₁ t₂ t₃ : ℕ) (x : WatchedUtterance)
    → w.session_phase ≡ active
    → get k w.utterances ≡ some x
    → deadline x.phase < t₁
    → t₁ + cancel_final_timeout_ns < t₂
    → t₂ + close_ack_timeout_ns ≤ t₃
    → let (w₁, a₁) = poll w t₁ in
      let (w₂, a₂) = poll w₁ t₂ in
      let (w₃, a₃) = poll w₂ t₃ in
      (escalations a₁ ++ escalations a₂ ++ escalations a₃
        ≡ close_provider_session w.session_id ∷ restart_sidecar w.session_id ∷ [])
      × (w₃.session_phase ≡ restart_issued)
poll-restart w k t₁ t₂ t₃ x a g l₁ l₂ l₃ =
    let w₁ = (poll w t₁).0 in
    let w₂ = (poll w₁ t₂).0 in
    let end₁ = saturating_add64 t₁ close_ack_timeout_ns in
    let end₂ = saturating_add64 t₂ close_ack_timeout_ns in
    ground (
      arith,
      first_poll w k t₁ x a g l₁,
      second_poll w₁ k (t₁ + cancel_final_timeout_ns) t₂,
      active_asks w t₁ a,
      active_asks w₁ t₂,
      closing_asks w₁ end₁ t₂,
      closing_asks w₂ end₁ t₃,
      closing_asks w₂ end₂ t₃,
      restarted_asks w₂ t₃,
      session_id-poll w t₁,
      session_id-poll w₁ t₂,
    )
