-- ===== src/Watchdog/Coordinator/Agreement/Polls.antt =====
-- crates/translator-daemon/src/provider_audio_watchdog.rs: the same, over `poll` and
-- `cancel_expired_utterance`.
use translator.Prelude.{
  ℕ, ◌≡◌, ◌⊎◌, refl, sym, Bool, true, false, ◌||◌, List, [], ◌∷◌, Option, none, some, is_some, ok,
  arith, Result-cases, inl, inr, saturating_add64,
}
use translator.Prelude.Map.{Map, Set, get, insert, get-insert, Distinct}
use translator.Prelude.PairMap.{PairMap, remove_pair}
use translator.Validation.State.{ProviderEventValidator, can_record_cancel_requested}
use translator.Validation.Invariant.{Inv}
use translator.Watchdog.{
  WatchdogAction, cancel_utterance, close_provider_session, restart_sidecar, WatchedUtterance,
  ProviderAudioWatchdog, cancel_final_timeout_ns, cancel_pending, is_active,
}
use translator.Watchdog.Finals.{is_cancel_pending}
use translator.Watchdog.Polling as Polling
use translator.Watchdog.Polling.{polled, verdict, cancel_actions, close_required, poll_utterances}
use translator.Watchdog.Polling.Laws.{
  cancels_in, cancels_in-cancel_actions, get-poll_utterances, verdict_late, polled?, is_late,
  late_phase,
}
use translator.Watchdog.Coordinator.{Coordinator, ReceiveBuffer, drop_buffer}
use translator.Watchdog.Coordinator.Events.{
  check_actions, apply_actions, poll, cancel_expired_utterance,
}
use translator.Watchdog.Coordinator.Agreement.{Agrees, Linked, LinkedAt, LinkedAfter, is_live}

-- The cancellations on record after the actions, and the receive buffers.
unfoldable pub cancelling_after : List WatchdogAction → Set → Set
cancelling_after [] s = s
cancelling_after (cancel_utterance session stream u purge ∷ actions) s =
    cancelling_after actions (insert u tt s)
cancelling_after (close_provider_session session ∷ actions) s = cancelling_after actions s
cancelling_after (restart_sidecar session ∷ actions) s = cancelling_after actions s

unfoldable pub buffers_after : List WatchdogAction → PairMap ReceiveBuffer → PairMap ReceiveBuffer
buffers_after [] b = b
buffers_after (cancel_utterance session stream u true ∷ actions) b =
    buffers_after actions (remove_pair (stream, u) b)
buffers_after (cancel_utterance session stream u false ∷ actions) b = buffers_after actions b
buffers_after (close_provider_session session ∷ actions) b = buffers_after actions []
buffers_after (restart_sidecar session ∷ actions) b = buffers_after actions []

get-cancelling_after :
    (k : ℕ) (actions : List WatchdogAction) (s : Set)
    → is_some (get k (cancelling_after actions s)) ≡ (cancels_in k actions || is_some (get k s))
unfolding cancelling_after cancels_in
get-cancelling_after k [] s = refl
get-cancelling_after k (cancel_utterance session stream u purge ∷ actions) s =
    ground (arith, get-cancelling_after k actions (insert u tt s), get-insert u k tt s)
get-cancelling_after k (close_provider_session session ∷ actions) s =
    get-cancelling_after k actions s
get-cancelling_after k (restart_sidecar session ∷ actions) s = get-cancelling_after k actions s

-- Whether a cancellation is accepted does not depend on those on record.
check_actions-pending :
    (v : ProviderEventValidator) (s : Set) (actions : List WatchdogAction)
    → check_actions (record v { cancel_pending = s }) actions ≡ check_actions v actions
unfolding check_actions
check_actions-pending v s [] = refl
check_actions-pending v s (cancel_utterance session stream u purge ∷ actions) =
    ground (arith, check_actions-pending v s actions)
check_actions-pending v s (close_provider_session session ∷ actions) =
    check_actions-pending v s actions
check_actions-pending v s (restart_sidecar session ∷ actions) = check_actions-pending v s actions

abbrev with_pending : Set → Coordinator → Coordinator
with_pending s c = record c { validator = record c.validator { cancel_pending = s } }

abbrev purged : ℕ → ℕ → Bool → Coordinator → Coordinator
purged stream u true c = drop_buffer stream u c
purged stream u false c = c

abbrev pub applied : List WatchdogAction → Coordinator → Coordinator
applied actions c = record {
  watchdog = c.watchdog;
  validator = record c.validator {
    cancel_pending = cancelling_after actions c.validator.cancel_pending;
  };
  receive_buffers = buffers_after actions c.receive_buffers;
}

-- Actions that are all accepted are all applied.
pub apply_actions-applied :
    (c : Coordinator) (actions : List WatchdogAction)
    → check_actions c.validator actions ≡ ok tt
    → apply_actions actions c ≡ some (applied actions c, ok tt)
unfolding apply_actions check_actions cancelling_after buffers_after
apply_actions-applied c [] h = refl
apply_actions-applied c (cancel_utterance session stream u purge ∷ actions) h =
    elim (Result-cases (can_record_cancel_requested c.validator u)) [
      | inr (x, e) ↦ cc
      | inl (_, e) ↦
          let pending : Set = insert u tt c.validator.cancel_pending in
          ground (
            arith,
            check_actions-pending c.validator pending actions,
            apply_actions-applied (purged stream u purge (with_pending pending c)) actions,
          )
    ]
apply_actions-applied c (close_provider_session session ∷ actions) h =
    apply_actions-applied (record c { receive_buffers = [] }) actions h
apply_actions-applied c (restart_sidecar session ∷ actions) h =
    apply_actions-applied (record c { receive_buffers = [] }) actions h

-- Cancellations of active utterances are accepted.
check_cancels :
    (v : ProviderEventValidator) (session now_ns : ℕ) (m : Map WatchedUtterance)
    → Distinct m
    → ((k : ℕ) → is_some (get k m) ≡ true → can_record_cancel_requested v k ≡ ok tt)
    → check_actions v (cancel_actions session now_ns m) ≡ ok tt
unfolding check_actions cancel_actions get
check_cancels v session now_ns [] d h = refl
check_cancels v session now_ns ((u, w) ∷ m) (n, d) h =
    let rest = check_cancels v session now_ns m d (λ k i. h k (ground (arith, i))) in
    let first : can_record_cancel_requested v u ≡ ok tt = h u (ground arith) in
    elim (verdict_late w.phase now_ns) [
      | inl (e, l) ↦ rw (e, cancel_actions, first, check_actions) rest
      | inr (inl (e, l)) ↦ rw (e, cancel_actions) rest
      | inr (inr (e, l)) ↦ rw (e, cancel_actions) rest
    ]

live_cancels :
    (c : Coordinator) (k : ℕ)
    → Inv c.validator
    → Agrees c
    → is_live c ≡ true
    → is_some (get k c.watchdog.utterances) ≡ true
    → can_record_cancel_requested c.validator k ≡ ok tt
unfolding can_record_cancel_requested Agrees
live_cancels c k i a l h = ground (arith, a k, i.keys k)

-- A poll closes the session, or cancels the late utterances and leaves the others.
pub poll_ways :
    (w : ProviderAudioWatchdog) (now_ns : ℕ)
    → let (w', actions) = Polling.poll w now_ns in
      (is_active w'.session_phase ≡ false)
      ⊎ ((is_active w.session_phase ≡ true)
          × (w'.utterances ≡ poll_utterances now_ns w.utterances)
          × (actions ≡ cancel_actions w.session_id now_ns w.utterances))
unfolding Polling.poll Polling.poll_phase Polling.poll_active
poll_ways w now_ns = ground arith

polled_pending :
    (w : WatchedUtterance) (now_ns : ℕ)
    → is_cancel_pending (polled now_ns w).phase
      ≡ (late_phase w.phase now_ns || is_cancel_pending w.phase)
unfolding polled verdict late_phase
polled_pending w now_ns = ground arith

-- What the poll makes of one utterance in the watchdog and in the validator.
one_polled-Linked :
    (opened : Bool) (now_ns : ℕ) (watched watched' : Option WatchedUtterance) (capture : Option ℕ)
    (cancel cancel' : Option (Unit {0}))
    → Linked opened watched capture cancel
    → watched' ≡ polled? now_ns watched
    → is_some cancel' ≡ (is_late now_ns watched || is_some cancel)
    → Linked opened watched' capture cancel'
one_polled-Linked opened now_ns none watched' capture cancel cancel' l p c = ground arith
one_polled-Linked opened now_ns (some w) watched' capture cancel cancel' l p c =
    ground (arith, polled_pending w now_ns)

-- An utterance that the poll cancels is cancelled in both, and another one in neither.
cancelled-Linked :
    (c : Coordinator) (w' : ProviderAudioWatchdog) (session now_ns k : ℕ)
    → Distinct c.watchdog.utterances
    → Agrees c
    → is_active c.watchdog.session_phase ≡ true
    → w'.utterances ≡ poll_utterances now_ns c.watchdog.utterances
    → LinkedAt
        (applied (cancel_actions session now_ns c.watchdog.utterances) (record c { watchdog = w' }))
        k
unfolding Agrees
cancelled-Linked c w' session now_ns k d a s e =
    let actions = cancel_actions session now_ns c.watchdog.utterances in
    let step =
      one_polled-Linked c.validator.opened now_ns (get k c.watchdog.utterances)
        (get k w'.utterances) (get k c.validator.input_capture_ns)
        (get k c.validator.cancel_pending)
        (get k (cancelling_after actions c.validator.cancel_pending)) in
    let polled_one : get k w'.utterances ≡ polled? now_ns (get k c.watchdog.utterances) =
      rw e (get-poll_utterances k now_ns c.watchdog.utterances) in
    let cancelled_one : is_some (get k (cancelling_after actions c.validator.cancel_pending)) ≡ (
        is_late now_ns (get k c.watchdog.utterances)
        || is_some (get k c.validator.cancel_pending)) =
      rw (sym (cancels_in-cancel_actions k session now_ns c.watchdog.utterances d))
        (get-cancelling_after k actions c.validator.cancel_pending) in
    ground (arith, a k, step, polled_one, cancelled_one)

-- The poll, when the validator accepts its cancellations.
pub poll-applied :
    (c : Coordinator) (now_ns : ℕ)
    → let (w', actions) = Polling.poll c.watchdog now_ns in
      check_actions c.validator actions ≡ ok tt
      → poll now_ns c ≡ some (applied actions (record c { watchdog = w' }), ok actions)
unfolding poll
poll-applied c now_ns h =
    let (w', actions) = Polling.poll c.watchdog now_ns in
    let step = apply_actions-applied (record c { watchdog = w' }) actions h in
    rw (h, poll) (ground (arith, step))

pub poll-Linked :
    (c : Coordinator) (now_ns k : ℕ)
    → Distinct c.watchdog.utterances
    → Agrees c
    → LinkedAfter (poll now_ns c) k
unfolding poll Agrees
poll-Linked c now_ns k d a =
    let (w', actions) = Polling.poll c.watchdog now_ns in
    elim (Result-cases (check_actions c.validator actions)) [
      | inr (x, e) ↦ rw (e, poll) (a k)
      | inl (_, e) ↦ rw (poll-applied c now_ns e) (elim (poll_ways c.watchdog now_ns) [
        | inl p ↦ ground (arith, p)
        | inr (s, u, q) ↦ rw q (cancelled-Linked c w' c.watchdog.session_id now_ns k d a s u)
      ])
    ]

pub cancel_expired-Linked :
    (c : Coordinator) (stream u now_ns k : ℕ)
    → Agrees c
    → LinkedAfter (cancel_expired_utterance stream u now_ns c) k
unfolding cancel_expired_utterance Agrees
cancel_expired-Linked c stream u now_ns k a = ground (
  arith,
  a k,
  a u,
  get-insert u k tt c.validator.cancel_pending,
  get-insert u k
      (record {
        stream_id = stream;
        phase = cancel_pending (saturating_add64 now_ns cancel_final_timeout_ns);
      })
      c.watchdog.utterances,
)

live_checks :
    (c : Coordinator) (now_ns : ℕ)
    → Inv c.validator
    → Distinct c.watchdog.utterances
    → Agrees c
    → is_live c ≡ true
    → check_actions c.validator (Polling.poll c.watchdog now_ns).1 ≡ ok tt
unfolding Polling.poll Polling.poll_phase Polling.poll_active check_actions
live_checks c now_ns i d a l = ground (
  arith,
  check_cancels c.validator c.watchdog.session_id now_ns c.watchdog.utterances d
      (λ k h. live_cancels c k i a l h),
)

-- A poll in a live state is accepted.
pub live_poll-Accepted :
    (c : Coordinator) (now_ns : ℕ)
    → Inv c.validator
    → Distinct c.watchdog.utterances
    → Agrees c
    → is_live c ≡ true
    → (d : Coordinator) × (poll now_ns c ≡ some (d, ok (Polling.poll c.watchdog now_ns).1))
live_poll-Accepted c now_ns i d a l =
    let (w', actions) = Polling.poll c.watchdog now_ns in
    (
      applied actions (record c { watchdog = w' }),
      poll-applied c now_ns (live_checks c now_ns i d a l),
    )
