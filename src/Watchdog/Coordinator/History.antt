-- ===== src/Watchdog/Coordinator/History.antt =====
-- crates/translator-daemon/src/provider_audio_watchdog.rs: a coordinator under any calls of the daemon
-- and any events of the provider.
use Prim.Native.String.{String}
use translator.Prelude.{
  ℕ, ◌≡◌, refl, List, [], ◌∷◌, Option, none, some, Result, ok, err, Option-cases, inl, inr, subst,
  sym, true,
}
use translator.Prelude.Effects.{◌>>=◌, pure}
use translator.Prelude.PairMap.{get_pair}
use translator.Validation.Messages.{Event}
use translator.Validation.State.{ProviderSessionContract}
use translator.Validation.Invariant.{new_validator-Inv}
use translator.Validation.Parts.{Good}
use translator.Watchdog.Polling as Polling
use translator.Watchdog.Coordinator.{
  Coordinator, Coordinating, CoordinatorError, new_coordinator, start_utterance,
  record_end_of_utterance, consume_receive_audio, pop_frame,
}
use translator.Watchdog.Coordinator.Buffers.{BufferOk, no_buffers-BuffersOk, popped-BuffersOk}
use translator.Watchdog.Coordinator.Events.{validate_event, poll, cancel_expired_utterance}
use translator.Watchdog.Coordinator.Soundness.{Sound, SoundAfter}
use translator.Watchdog.Coordinator.Soundness.Calls.{
  start-Preserves, record_end-Preserves, cancel_expired-Preserves, poll-Preserves,
}
use translator.Watchdog.Coordinator.Soundness.Events.{event-Preserves}
use translator.Watchdog.Coordinator.Agreement.{
  Agrees, LinkedAt, LinkedAfter, is_live, new_coordinator-Agrees, start_utterance-Linked,
  record_end-Linked,
}
use translator.Watchdog.Coordinator.Agreement.Polls.{
  poll-Linked, cancel_expired-Linked, live_poll-Accepted,
}
use translator.Watchdog.Coordinator.Agreement.Events.{validate_event-Linked}

pub data Call : Type 0 where
  -- stream, utterance, time
  starts ends expires consumes : ℕ → ℕ → ℕ → Call
  polls : ℕ → Call
  event : Option Event → ℕ → Call

abbrev discards : {A : Type 0} → Coordinating A → Coordinating (Unit {0})
discards m = do _ ← m; pure tt

abbrev Whole : Coordinator → Type 0
Whole c = Sound c × Agrees c

abbrev WholeAfter : {A : Type 0} → Option (Coordinator × Result A CoordinatorError) → Type 0
WholeAfter none = ⊥
WholeAfter (some (c, r)) = Whole c

abbrev Whole? : Option Coordinator → Type 0
Whole? none = Unit {0}
Whole? (some c) = Whole c

module _ (parse : String → Option ℕ) where
  unfoldable pub step : Call → Coordinating (Unit {0})
  step (starts stream u ns) = start_utterance stream u ns
  step (ends stream u ns) = record_end_of_utterance stream u ns
  step (expires stream u ns) = discards (cancel_expired_utterance stream u ns)
  step (consumes stream u ns) = discards (consume_receive_audio stream u)
  step (polls ns) = discards (poll ns)
  step (event e ns) = validate_event parse e ns

  -- Refusals do not stop the daemon here.
  unfoldable pub coordinated : Coordinator → List Call → Option Coordinator
  coordinated c [] = some c
  coordinated c (x ∷ xs) = elim (step x c) [ none ↦ none | some (d, r) ↦ coordinated d xs ]

  -- One call.
  whole_after :
      {A : Type 0} (o : Option (Coordinator × Result A CoordinatorError))
      → SoundAfter o
      → ((k : ℕ) → LinkedAfter o k)
      → WholeAfter o
  unfolding Agrees
  whole_after none s l = s
  whole_after (some (c, r)) s l = (s, l)

  discards-Whole :
      {A : Type 0} (m : Coordinating A) (c : Coordinator)
      → WholeAfter (m c)
      → WholeAfter (discards m c)
  discards-Whole m c h = elim (Option-cases (m c)) [
    | inl e ↦ absurd (subst WholeAfter e h)
    | inr ((d, ok a), e) ↦ rw (e, ◌>>=◌) (subst WholeAfter e h)
    | inr ((d, err x), e) ↦ rw (e, ◌>>=◌) (subst WholeAfter e h)
  ]

  consume-Whole :
      (c : Coordinator) (stream u : ℕ) → Whole c → WholeAfter (consume_receive_audio stream u c)
  unfolding consume_receive_audio Agrees
  consume-Whole c stream u h = elim (Option-cases (get_pair (stream, u) c.receive_buffers)) [
    | inl e ↦ rw (e, consume_receive_audio) h
    | inr (b, e) ↦
        rw (e, consume_receive_audio)
          (elim (Option-cases (pop_frame b.frames)) [
            | inl f ↦ rw f h
            | inr ((frame, rest), f) ↦ rw f (
              record {
                valid = h.0.valid;
                distinct = h.0.distinct;
                buffers =
                    popped-BuffersOk (stream, u) c.receive_buffers b frame rest e f h.0.buffers;
              },
              h.1,
            )
          ])
  ]

  step-Whole : (c : Coordinator) (x : Call) → Whole c → WholeAfter (step x c)
  unfolding step Good
  step-Whole c (starts stream u ns) (s, a) =
      whole_after (start_utterance stream u ns c) (start-Preserves stream u ns c s)
        (λ k. start_utterance-Linked c stream u ns k s.valid a)
  step-Whole c (ends stream u ns) (s, a) =
      whole_after (record_end_of_utterance stream u ns c) (record_end-Preserves stream u ns c s)
        (λ k. record_end-Linked c stream u ns k a)
  step-Whole c (expires stream u ns) (s, a) =
      discards-Whole (cancel_expired_utterance stream u ns) c (
        whole_after (cancel_expired_utterance stream u ns c)
          (cancel_expired-Preserves stream u ns c s) (λ k. cancel_expired-Linked c stream u ns k a))
  step-Whole c (consumes stream u ns) h =
      discards-Whole (consume_receive_audio stream u) c (consume-Whole c stream u h)
  step-Whole c (polls ns) (s, a) =
      discards-Whole (poll ns) c
        (whole_after (poll ns c) (poll-Preserves ns c s) (λ k. poll-Linked c ns k s.distinct a))
  step-Whole c (event e ns) (s, a) =
      whole_after (validate_event parse e ns c) (event-Preserves parse e ns c s)
        (λ k. validate_event-Linked parse c e ns k a)

  coordinated-Whole_from :
      (c : Coordinator) (xs : List Call)
      → Whole c
      → (d : Coordinator) × (coordinated c xs ≡ some d) × Whole d
  unfolding coordinated
  coordinated-Whole_from c [] h = (c, refl, h)
  coordinated-Whole_from c (x ∷ xs) h = elim (Option-cases (step x c)) [
    | inl e ↦ absurd (subst WholeAfter e (step-Whole c x h))
    | inr ((d, r), e) ↦
        let (z, f, w) = coordinated-Whole_from d xs (subst WholeAfter e (step-Whole c x h)) in
        (z, rw (e, coordinated) f, w)
  ]

  new_coordinator-Sound : (contract : ProviderSessionContract) → Sound (new_coordinator contract)
  unfolding new_coordinator Good
  new_coordinator-Sound contract = record {
    valid = new_validator-Inv contract;
    distinct = tt;
    buffers = no_buffers-BuffersOk;
  }

  coordinated-Whole :
      (contract : ProviderSessionContract) (xs : List Call)
      → (d : Coordinator) × (coordinated (new_coordinator contract) xs ≡ some d) × Whole d
  coordinated-Whole contract xs =
      coordinated-Whole_from (new_coordinator contract) xs
        (new_coordinator-Sound contract, new_coordinator-Agrees contract)

pub coordinated-reached :
    (parse : String → Option ℕ) (contract : ProviderSessionContract) (xs : List Call)
    (d : Coordinator)
    → coordinated parse (new_coordinator contract) xs ≡ some d
    → Agrees d
coordinated-reached parse contract xs d e =
    let (z, f, w) = coordinated-Whole parse contract xs in
    (subst Whole? e (subst Whole? (sym f) w)).1

-- Whatever the daemon calls and the provider sends, in any order, the coordinator does not panic, and
-- while the watchdog is active and the validator open, they have the same utterances: each one that is
-- watched is active in the validator and the other way round, and its cancellation is pending in both or
-- in neither.
pub coordinated-Agrees :
    (parse : String → Option ℕ) (contract : ProviderSessionContract) (xs : List Call)
    → (d : Coordinator) × (coordinated parse (new_coordinator contract) xs ≡ some d)
      × ((k : ℕ) → LinkedAt d k)
unfolding Agrees
coordinated-Agrees parse contract xs =
    let (d, e, (s, a)) = coordinated-Whole parse contract xs in (d, e, a)

-- In a state that calls and events lead to, with the watchdog active and the validator open, a poll is
-- accepted and gives exactly the watchdog's actions: the validator refuses none of its cancellations.
pub coordinated-poll :
    (parse : String → Option ℕ) (contract : ProviderSessionContract) (xs : List Call)
    (d : Coordinator) (now_ns : ℕ)
    → coordinated parse (new_coordinator contract) xs ≡ some d
    → is_live d ≡ true
    → (d' : Coordinator) × (poll now_ns d ≡ some (d', ok (Polling.poll d.watchdog now_ns).1))
unfolding Good
coordinated-poll parse contract xs d now_ns e l =
    let (z, f, (s, a)) = coordinated-Whole parse contract xs in
    let (t, b) : Whole d = subst Whole? e (subst Whole? (sym f) (s, a)) in
    live_poll-Accepted d now_ns t.valid t.distinct b l

-- Whatever the daemon calls and the provider sends, in any order, each receive buffer holds at most
-- 400 ms of audio, and its count is the sum of its frames' durations.
pub coordinated-BufferOk :
    (parse : String → Option ℕ) (contract : ProviderSessionContract) (xs : List Call)
    → (d : Coordinator) × (coordinated parse (new_coordinator contract) xs ≡ some d)
      × ((key : ℕ × ℕ) → BufferOk (get_pair key d.receive_buffers))
coordinated-BufferOk parse contract xs =
    let (d, e, (s, a)) = coordinated-Whole parse contract xs in (d, e, s.buffers)
