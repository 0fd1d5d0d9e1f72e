-- ===== src/Examples/Audio.antt =====
-- The frame queue and the segmenter at concrete inputs.
use translator.Prelude.{
  ℕ, ◌≡◌, refl, ◌++◌, Bool, true, false, List, [], ◌∷◌, map, none, some, ok, Result,
}
use translator.Prelude.Int.{ℤ}
use translator.Pcm.Frame.{PcmFrame, provider_default}
use translator.Pcm.Queue.{empty_queue}
use translator.Pcm.Queue.Laws.{Call, pushes, pops, clears, replies, spec_replies, replies-refine}
use translator.Pcm.Segmenter.{
  CaptureEvent, speech_started, frame_event, VadError, SpeechSegmenter, new_segmenter, clamp,
  process_judged,
}
use translator.Pcm.Segmenter.Invariant.{new_segmenter-Inv}
use translator.Pcm.Segmenter.Grammar.{read, view}
use translator.Pcm.Segmenter.Frames.{frames_of, held, Keeps, process_judged_lossless}
use translator.Pcm.Segmenter.History.{run, Subseq}
use translator.Pcm.Segmenter.Streams.{run-streams}

-- A frame with no samples, of the provider's format.
abbrev frame_at : ℕ → PcmFrame
frame_at n = record { sequence = n; capture_monotonic_ns = n; format = provider_default; pcm = [] }

-- A detector that takes everything for speech.
abbrev hears_all : Unit {0} → List ℤ → Unit {0} × Result Bool VadError
hears_all d samples = (tt, ok true)

abbrev segmenter : SpeechSegmenter (Unit {0})
segmenter = new_segmenter 5 tt 3 10 200 4

abbrev three_frames : List (ℕ × PcmFrame)
three_frames = (71, frame_at 1) ∷ (72, frame_at 2) ∷ (73, frame_at 3) ∷ []

run-streams_example :
    (s' : SpeechSegmenter (Unit {0})) × (events : List CaptureEvent) × (run hears_all segmenter
        three_frames
      ≡ some (s', events))
    × (read 5 (clamp 200 200 1500) none events ≡ some (view s'))
    × Subseq (frames_of events ++ held s') (map (λ i. i.1) three_frames)
run-streams_example = run-streams hears_all 5 tt 3 10 200 4 three_frames

-- The third frame confirms the speech, and the utterance has the identifier drawn with it.
process_third :
    (process_judged
      (record segmenter { pending_speech = frame_at 1 ∷ frame_at 2 ∷ [] })
      73
      (frame_at 3)
      true)
    ≡ some (
      record segmenter { utterance_id = some 73; active_frames = 3 },
      speech_started 5 73 1
          ∷ frame_event 5 73 (frame_at 1) false
          ∷ frame_event 5 73 (frame_at 2) false
          ∷ frame_event 5 73 (frame_at 3) false
          ∷ [],
    )
unfolding process_judged new_segmenter
process_third = refl

process_judged_lossless_example :
    (s' : SpeechSegmenter (Unit {0})) × (events : List CaptureEvent) × (process_judged segmenter 9
        (frame_at 4)
        true
      ≡ some (s', events))
    × Keeps segmenter (frame_at 4) true s' events
process_judged_lossless_example =
    process_judged_lossless segmenter 9 (frame_at 4) true (new_segmenter-Inv 5 tt 3 10 200 4)

abbrev long_frame : PcmFrame
long_frame = record (frame_at 8) {
  format = record { sample_rate_hz = 48000; channels = 2; frame_duration_ms = 300 };
}

abbrev queue_calls : List Call
queue_calls =
    pushes long_frame ∷ pushes (frame_at 9) ∷ pushes long_frame ∷ pops ∷ clears ∷ pops ∷ []

replies-refine_example : replies empty_queue queue_calls ≡ spec_replies [] queue_calls
replies-refine_example = replies-refine queue_calls
