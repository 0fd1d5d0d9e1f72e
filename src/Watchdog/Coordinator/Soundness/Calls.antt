-- ===== src/Watchdog/Coordinator/Soundness/Calls.antt =====
-- crates/translator-daemon/src/provider_audio_watchdog.rs: the same, over the calls of the daemon and
-- the poll.
use translator.Prelude.{
  ℕ, Bool, true, false, if◌then◌else◌, List, [], ◌∷◌, some, ok, err, Option-cases, Result-cases,
  inl, inr,
}
use translator.Prelude.Effects.{pure}
use translator.Prelude.PairMap.{get_pair}
use translator.Prelude.Map.{Distinct}
use translator.Validation.State as Validator
use translator.Validation.State.{
  invalid_outcome, ProviderSessionContract, ProviderEventValidator, record_input,
  record_cancel_requested,
}
use translator.Validation.Invariant.{record_input-Inv, record_end-Inv, record_cancel-Inv}
use translator.Validation.Parts.{Good}
use translator.Watchdog as Deadlines
use translator.Watchdog.{
  collecting_input, awaiting_first_audio, streaming_audio, cancel_pending,
  collecting_input_timeout_ns, first_audio_after_eou_timeout_ns, inter_audio_delta_timeout_ns,
  cancel_final_timeout_ns, WatchdogAction, cancel_utterance, close_provider_session,
  restart_sidecar, WatchedUtterance, ProviderAudioWatchdog, Watched, timely_audio, is_active,
  session_terminal, check_audio_delta, record_audio_delta, updated, lookup_utterance,
  require_active_session,
}
use translator.Watchdog.Finals.{cancel_watched}
use translator.Watchdog.Polling as Polling
use translator.Watchdog.Polling.{poll_utterances, cancel_actions, close_required}
use translator.Watchdog.Coordinator.{
  Coordinator, on_watchdog, on_validator, start_validated, start_utterance, record_end_of_utterance,
  buffer_receive_audio, can_buffer_receive_audio, projected_ms, buffer_or_empty, drop_buffer,
}
use translator.Watchdog.Coordinator.Buffers.{
  BuffersOk, no_buffers-BuffersOk, refused-BuffersOk, pushed-BuffersOk, remove-BuffersOk,
}
use translator.Watchdog.Coordinator.Events.{
  changes, apply_action, apply_actions, poll, cancel_expired_utterance, check_actions,
}
use translator.Watchdog.Coordinator.Soundness.{
  Preserves, Sound, bind-Preserves, cancel-KeepsDistinct, disarm-KeepsDistinct, end-KeepsDistinct,
  on_validator-Preserves, on_watchdog-Preserves, poll-KeepsDistinct, start-KeepsDistinct,
}

pub start_validated-Sound :
    (c : Coordinator) (stream u : ℕ) (r : ProviderEventValidator × Validator.Checked (Unit {0}))
    → Good r.0
    → Distinct c.watchdog.utterances
    → BuffersOk c.receive_buffers
    → Sound (start_validated c stream u r).0
unfolding start_validated
start_validated-Sound c stream u (v, ok _) g d b = record { valid = g; distinct = d; buffers = b }
start_validated-Sound c stream u (v, err e) g d b = record {
  valid = g;
  distinct = disarm-KeepsDistinct stream u c.watchdog d;
  buffers = b;
}

pub start-Preserves : (stream u ns : ℕ) → Preserves (start_utterance stream u ns)
unfolding start_utterance Good
start-Preserves stream u ns =
    bind-Preserves (on_watchdog (λ w. Deadlines.start_utterance w stream u ns))
      (λ _ c. some (start_validated c stream u (record_input c.validator u ns)))
      (on_watchdog-Preserves (λ w. Deadlines.start_utterance w stream u ns)
        (start-KeepsDistinct stream u ns))
      (λ _ c s.
        start_validated-Sound c stream u (record_input c.validator u ns)
          (record_input-Inv c.validator u ns s.valid) s.distinct s.buffers)

pub record_end-Preserves : (stream u ns : ℕ) → Preserves (record_end_of_utterance stream u ns)
unfolding record_end_of_utterance Good
record_end-Preserves stream u ns =
    bind-Preserves (on_watchdog (λ w. Deadlines.record_end_of_utterance w stream u ns))
      (λ _. on_validator (λ v. Validator.record_end_of_utterance v u ns))
      (on_watchdog-Preserves (λ w. Deadlines.record_end_of_utterance w stream u ns)
        (end-KeepsDistinct stream u ns))
      (λ _.
        on_validator-Preserves (λ v. Validator.record_end_of_utterance v u ns)
          (λ v g. record_end-Inv v u ns g))

pub buffer-Preserves :
    (stream u : ℕ) (pcm : List ℕ) (duration : ℕ)
    → Preserves (buffer_receive_audio stream u pcm duration)
unfolding buffer_receive_audio
buffer-Preserves stream u pcm duration c s =
    elim (Option-cases
      (projected_ms (buffer_or_empty (get_pair (stream, u) c.receive_buffers)) duration)) [
        | inl e ↦
            rw (e, buffer_receive_audio)
              (record {
                valid = s.valid;
                distinct = s.distinct;
                buffers = refused-BuffersOk (stream, u) c.receive_buffers s.buffers;
              })
        | inr (p, e) ↦
            rw (e, buffer_receive_audio)
              (record {
                valid = s.valid;
                distinct = s.distinct;
                buffers =
                    pushed-BuffersOk (stream, u) c.receive_buffers
                      (record { pcm = pcm; duration_ms = duration }) p e s.buffers;
              })
      ]

pub can_buffer-Preserves :
    (stream u duration : ℕ) → Preserves (can_buffer_receive_audio stream u duration)
unfolding can_buffer_receive_audio
can_buffer-Preserves stream u duration c s =
    elim (Option-cases
      (projected_ms (buffer_or_empty (get_pair (stream, u) c.receive_buffers)) duration)) [
        | inl e ↦ rw (e, can_buffer_receive_audio) s
        | inr (p, e) ↦ rw (e, can_buffer_receive_audio) s
      ]

pub cancel_expired-Preserves : (stream u ns : ℕ) → Preserves (cancel_expired_utterance stream u ns)
unfolding cancel_expired_utterance Good
cancel_expired-Preserves stream u ns c s =
    let d = cancel-KeepsDistinct stream u ns c.watchdog s.distinct in
    let g = record_cancel-Inv c.validator u s.valid in
    elim (Result-cases (cancel_watched c.watchdog stream u ns).1) [
      | inr (x, e) ↦
          rw (e, cancel_expired_utterance)
            (record { valid = s.valid; distinct = d; buffers = s.buffers })
      | inl (a, e) ↦
          rw (e, cancel_expired_utterance)
            (elim (Result-cases (record_cancel_requested c.validator u).1) [
              | inr (x, f) ↦
                  rw (f, cancel_expired_utterance)
                    (record { valid = g; distinct = s.distinct; buffers = s.buffers })
              | inl (_, f) ↦
                  rw (f, cancel_expired_utterance)
                    (record {
                      valid = g;
                      distinct = d;
                      buffers = remove-BuffersOk (stream, u) c.receive_buffers s.buffers;
                    })
            ])
    ]

pub purge-Sound :
    (stream u : ℕ) (purge : Bool) (c : Coordinator)
    → Sound c
    → Sound (if purge then drop_buffer stream u c else c)
purge-Sound stream u true c s = record {
  valid = s.valid;
  distinct = s.distinct;
  buffers = remove-BuffersOk (stream, u) c.receive_buffers s.buffers;
}
purge-Sound stream u false c s = s

pub apply_action-Preserves : (a : WatchdogAction) → Preserves (apply_action a)
unfolding apply_action Good
apply_action-Preserves (cancel_utterance session stream u purge) c s =
    bind-Preserves (on_validator (λ v. record_cancel_requested v u))
      (λ _. changes (λ c. if purge then drop_buffer stream u c else c))
      (on_validator-Preserves (λ v. record_cancel_requested v u) (λ v g. record_cancel-Inv v u g))
      (λ _ c s. purge-Sound stream u purge c s) c s
apply_action-Preserves (close_provider_session session) c s = record {
  valid = s.valid;
  distinct = s.distinct;
  buffers = no_buffers-BuffersOk;
}
apply_action-Preserves (restart_sidecar session) c s = record {
  valid = s.valid;
  distinct = s.distinct;
  buffers = no_buffers-BuffersOk;
}

pub apply_actions-Preserves : (actions : List WatchdogAction) → Preserves (apply_actions actions)
unfolding apply_actions
apply_actions-Preserves [] c s = s
apply_actions-Preserves (a ∷ actions) c s =
    bind-Preserves (apply_action a) (λ _. apply_actions actions) (apply_action-Preserves a)
      (λ _. apply_actions-Preserves actions) c s

pub poll-Preserves : (now_ns : ℕ) → Preserves (poll now_ns)
unfolding poll
poll-Preserves now_ns c s =
    let (w', actions) = Polling.poll c.watchdog now_ns in
    elim (Result-cases (check_actions c.validator actions)) [
      | inr (x, e) ↦ rw (e, poll) s
      | inl (_, e) ↦
          rw (e, poll)
            (bind-Preserves (apply_actions actions) (λ _. pure actions)
              (apply_actions-Preserves actions) (λ _ d t. t) (record c { watchdog = w' })
              (record {
                valid = s.valid;
                distinct = poll-KeepsDistinct c.watchdog now_ns s.distinct;
                buffers = s.buffers;
              }))
    ]
