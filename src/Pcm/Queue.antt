-- ===== src/Pcm/Queue.antt =====
-- crates/translator-audio/src/pcm.rs: the queue of frames that holds at most 400 ms.
pub mod Laws
use translator.Prelude.{
  ℕ, ◌+◌, ◌-◌, ltb, if◌then◌else◌, List, [], ◌∷◌, ◌++◌, length, Result, ok, err, Option, none, some,
  saturating_add32, saturating_add64, Bool, true, false,
}
use translator.Pcm.Frame.{PcmFrame}

abbrev pub max_buffered_ms : ℕ
max_buffered_ms = 400

pub record BoundedPcmQueue : Type 0 where
  pub frames : List PcmFrame  -- oldest first
  pub buffered_ms : ℕ  -- u32
  pub dropped_frames : ℕ  -- u64

unfoldable pub empty_queue : BoundedPcmQueue
empty_queue = record { frames = []; buffered_ms = 0; dropped_frames = 0 }

-- The error hands the frame back.
unfoldable pub push : BoundedPcmQueue → PcmFrame → BoundedPcmQueue × Result (Unit {0}) PcmFrame
push q frame =
    let duration_ms = frame.format.frame_duration_ms in
    if ltb max_buffered_ms (saturating_add32 q.buffered_ms duration_ms)
    then (record q { dropped_frames = saturating_add64 q.dropped_frames 1 }, err frame)
    else (
      record q { buffered_ms = q.buffered_ms + duration_ms; frames = q.frames ++ frame ∷ [] },
      ok tt,
    )

unfoldable pub pop_front : List PcmFrame → Option (PcmFrame × List PcmFrame)
pop_front [] = none
pop_front (f ∷ fs) = some (f, fs)

-- `saturating_sub` is the subtraction that stops at 0.
unfoldable pub pop : BoundedPcmQueue → BoundedPcmQueue × Option PcmFrame
unfolding pop_front
pop q = elim (pop_front q.frames) [
  | none ↦ (q, none)
  | some (frame, rest) ↦ (
    record q { frames = rest; buffered_ms = q.buffered_ms - frame.format.frame_duration_ms },
    some frame,
  )
]

unfoldable pub clear : BoundedPcmQueue → BoundedPcmQueue
clear q = record q { frames = []; buffered_ms = 0 }
