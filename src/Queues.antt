-- ===== src/Queues.antt =====
-- crates/translator-daemon/src/queues.rs: four counters of buffered milliseconds, one for each audio
-- direction and kind of queue. A method returns the new queues and its result.
pub mod Accounting
use translator.Prelude.{
  ℕ, ◌+◌, ◌-◌, Bool, ◌||◌, Option, none, some, ◌==◌, ltb, if◌then◌else◌, not, List, [], ◌∷◌,
  checked_add32, checked_sub, u64,
}
use translator.Contracts.{AudioDirection, microphone, speaker}

abbrev pub max_buffered_ms : ℕ
max_buffered_ms = 400

pub data QueueKind : Type 0 where
  capture playback : QueueKind

pub data QueuePushResult : Type 0 where
  accepted rejected_overflow rejected_invalid_duration : QueuePushResult

pub data QueueConsumeResult : Type 0 where
  consumed rejected_underflow rejected_invalid_duration : QueueConsumeResult

pub record QueueState : Type 0 where
  pub buffered_ms : ℕ  -- u32
  pub dropped_frames : ℕ  -- u64

pub record DaemonQueues : Type 0 where
  pub microphone_capture : QueueState
  pub microphone_playback : QueueState
  pub speaker_capture : QueueState
  pub speaker_playback : QueueState

-- `#[derive(Default)]`.
unfoldable pub default_queues : DaemonQueues
default_queues = record {
  microphone_capture = record { buffered_ms = 0; dropped_frames = 0 };
  microphone_playback = record { buffered_ms = 0; dropped_frames = 0 };
  speaker_capture = record { buffered_ms = 0; dropped_frames = 0 };
  speaker_playback = record { buffered_ms = 0; dropped_frames = 0 };
}

unfoldable pub valid_frame_duration : ℕ → Bool
valid_frame_duration d = d == 20 || d == 40 || d == 60 || d == 80 || d == 100

unfoldable pub state : DaemonQueues → AudioDirection → QueueKind → QueueState
state q microphone capture = q.microphone_capture
state q microphone playback = q.microphone_playback
state q speaker capture = q.speaker_capture
state q speaker playback = q.speaker_playback

-- A write through the reference that `state_mut` returns.
unfoldable pub set_state : DaemonQueues → AudioDirection → QueueKind → QueueState → DaemonQueues
set_state q microphone capture s = record q { microphone_capture = s }
set_state q microphone playback s = record q { microphone_playback = s }
set_state q speaker capture s = record q { speaker_capture = s }
set_state q speaker playback s = record q { speaker_playback = s }

-- `state.dropped_frames += 1` wraps in a release build.
drop_frame : QueueState → QueueState
drop_frame s = record s { dropped_frames = u64 (s.dropped_frames + 1) }

-- The part of `push` that works on the chosen counter.
unfoldable pub push_state : QueueState → ℕ → QueueState × QueuePushResult
unfolding drop_frame
push_state s d = elim (checked_add32 s.buffered_ms d) [
  | none ↦ (drop_frame s, rejected_overflow)
  | some projected ↦
      if ltb max_buffered_ms projected
      then (drop_frame s, rejected_overflow)
      else (record s { buffered_ms = projected }, accepted)
]

unfoldable pub push : DaemonQueues → AudioDirection → QueueKind → ℕ → DaemonQueues × QueuePushResult
unfolding push_state valid_frame_duration
push q direction kind d =
    if not (valid_frame_duration d)
    then (q, rejected_invalid_duration)
    else (let (s, r) = push_state (state q direction kind) d in (set_state q direction kind s, r))

-- The part of `consume` that works on the chosen counter.
unfoldable pub consume_state : QueueState → ℕ → QueueState × QueueConsumeResult
consume_state s d = elim (checked_sub s.buffered_ms d) [
  | none ↦ (s, rejected_underflow)
  | some remaining ↦ (record s { buffered_ms = remaining }, consumed)
]

unfoldable pub consume :
    DaemonQueues → AudioDirection → QueueKind → ℕ → DaemonQueues × QueueConsumeResult
unfolding consume_state valid_frame_duration
consume q direction kind d =
    if not (valid_frame_duration d)
    then (q, rejected_invalid_duration)
    else (let (s, r) = consume_state (state q direction kind) d in
        (set_state q direction kind s, r))
