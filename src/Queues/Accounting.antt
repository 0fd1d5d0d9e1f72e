-- ===== src/Queues/Accounting.antt =====
-- crates/translator-daemon/src/queues.rs: any history of pushes and consumptions, seen from one queue.
use translator.Prelude.{
  ℕ, ◌+◌, ◌≤◌, ◌≡◌, refl, Bool, true, false, List, [], ◌∷◌, arith, if◌then◌else◌, ◌&&◌, ◌↔◌,
}
use translator.Contracts.{AudioDirection, microphone, speaker}
use translator.Queues.{
  QueueKind, capture, playback, QueuePushResult, QueueConsumeResult, accepted, consumed,
  DaemonQueues, default_queues, state, set_state, push, consume, max_buffered_ms,
  valid_frame_duration,
}

pub data Operation : Type 0 where
  pushes consumes : AudioDirection → QueueKind → ℕ → Operation

abbrev same_direction : AudioDirection → AudioDirection → Bool
same_direction microphone microphone = true
same_direction speaker speaker = true
same_direction _ _ = false

abbrev same_kind : QueueKind → QueueKind → Bool
same_kind capture capture = true
same_kind playback playback = true
same_kind _ _ = false

abbrev is_accepted : QueuePushResult → Bool
is_accepted accepted = true
is_accepted _ = false

abbrev is_consumed : QueueConsumeResult → Bool
is_consumed consumed = true
is_consumed _ = false

pub apply : DaemonQueues → Operation → DaemonQueues
apply q (pushes d k ms) = (push q d k ms).0
apply q (consumes d k ms) = (consume q d k ms).0

-- The milliseconds that an operation adds to the queue (d, k), and those that it takes out.
pub gained : AudioDirection → QueueKind → DaemonQueues → Operation → ℕ
gained d k q (pushes d' k' ms) =
    if same_direction d d' && same_kind k k' && is_accepted (push q d' k' ms).1 then ms else 0
gained d k q (consumes d' k' ms) = 0

pub given : AudioDirection → QueueKind → DaemonQueues → Operation → ℕ
given d k q (pushes d' k' ms) = 0
given d k q (consumes d' k' ms) =
    if same_direction d d' && same_kind k k' && is_consumed (consume q d' k' ms).1 then ms else 0

pub run : DaemonQueues → List Operation → DaemonQueues
run q [] = q
run q (o ∷ os) = run (apply q o) os

pub total_gained : AudioDirection → QueueKind → DaemonQueues → List Operation → ℕ
total_gained d k q [] = 0
total_gained d k q (o ∷ os) = gained d k q o + total_gained d k (apply q o) os

pub total_given : AudioDirection → QueueKind → DaemonQueues → List Operation → ℕ
total_given d k q [] = 0
total_given d k q (o ∷ os) = given d k q o + total_given d k (apply q o) os

step_accounts :
    (d : AudioDirection) (k : QueueKind) (q : DaemonQueues) (o : Operation)
    → (state (apply q o) d k).buffered_ms + given d k q o
      ≡ (state q d k).buffered_ms + gained d k q o
unfolding apply gained given push consume state set_state
step_accounts microphone k q (pushes d' k' ms) = ground arith
step_accounts microphone k q (consumes d' k' ms) = ground arith
step_accounts speaker k q (pushes d' k' ms) = ground arith
step_accounts speaker k q (consumes d' k' ms) = ground arith

run_accounts :
    (d : AudioDirection) (k : QueueKind) (q : DaemonQueues) (os : List Operation)
    → (state (run q os) d k).buffered_ms + total_given d k q os
      ≡ (state q d k).buffered_ms + total_gained d k q os
unfolding run total_gained total_given
run_accounts d k q [] = omega arith
run_accounts d k q (o ∷ os) = omega (arith, step_accounts d k q o, run_accounts d k (apply q o) os)

step_bounded :
    (d : AudioDirection) (k : QueueKind) (q : DaemonQueues) (o : Operation)
    → (state q d k).buffered_ms ≤ max_buffered_ms
    → (state (apply q o) d k).buffered_ms ≤ max_buffered_ms
unfolding apply push consume state set_state
step_bounded microphone k q (pushes d' k' ms) h = ground arith
step_bounded microphone k q (consumes d' k' ms) h = ground arith
step_bounded speaker k q (pushes d' k' ms) h = ground arith
step_bounded speaker k q (consumes d' k' ms) h = ground arith

run_bounded :
    (d : AudioDirection) (k : QueueKind) (q : DaemonQueues) (os : List Operation)
    → (state q d k).buffered_ms ≤ max_buffered_ms
    → (state (run q os) d k).buffered_ms ≤ max_buffered_ms
unfolding run
run_bounded d k q [] h = h
run_bounded d k q (o ∷ os) h = run_bounded d k (apply q o) os (step_bounded d k q o h)

start_empty : (d : AudioDirection) (k : QueueKind) → (state default_queues d k).buffered_ms ≡ 0
unfolding state default_queues
start_empty microphone capture = refl
start_empty microphone playback = refl
start_empty speaker capture = refl
start_empty speaker playback = refl

-- From the start, after any operations on any of the four queues, each queue holds the milliseconds
-- of the frames that it accepted less those that were consumed from it, and at most 400.
pub run-accounts :
    (d : AudioDirection) (k : QueueKind) (os : List Operation)
    → ((state (run default_queues os) d k).buffered_ms + total_given d k default_queues os
        ≡ total_gained d k default_queues os)
      × ((state (run default_queues os) d k).buffered_ms ≤ max_buffered_ms)
run-accounts d k os = (
  omega (arith, run_accounts d k default_queues os, start_empty d k),
  run_bounded d k default_queues os (omega (arith, start_empty d k)),
)

-- A push is accepted exactly if the frame length is legal and the frame fits below 400 ms.
pub push-accepted_iff :
    (q : DaemonQueues) (d : AudioDirection) (k : QueueKind) (ms : ℕ)
    → ((push q d k ms).1 ≡ accepted)
      ↔ ((valid_frame_duration ms ≡ true) × ((state q d k).buffered_ms + ms ≤ max_buffered_ms))
unfolding push
push-accepted_iff q d k ms = (λ h. ground arith, λ h. ground arith)
