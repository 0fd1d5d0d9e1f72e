-- ===== src/Pcm/Segmenter.antt =====
-- crates/translator-audio/src/pcm.rs: the speech segmenter. The voice detector is the trait's
-- implementation, with its own state `D`; a fresh uuid is an argument of the call that may use it.
-- `none` stands for a panic (`expect`, `unreachable!`).
pub mod Invariant
pub mod Grammar
pub mod Frames
pub mod History
pub mod Streams
use translator.Prelude.{
  ℕ, suc, ◌+◌, ◌-◌, ◌*◌, ◌/◌, Bool, true, false, ◌&&◌, not, ◌==◌, ltb, leb, if◌then◌else◌, List, [],
  ◌∷◌, ◌++◌, map, length, Result, ok, err, Option, none, some, saturating_add64,
}
use translator.Prelude.Int.{ℤ}
use translator.Pcm.Frame.{PcmFrame, StreamPcmFormat, provider_default, same_format, s16le_samples}

abbrev pub end_of_utterance_silence_frames : ℕ
end_of_utterance_silence_frames = 15

pub data CaptureEvent : Type 0 where
  -- stream, utterance, time of the first frame
  speech_started : ℕ → ℕ → ℕ → CaptureEvent
  -- stream, utterance, frame, end of utterance
  frame_event : ℕ → ℕ → PcmFrame → Bool → CaptureEvent

pub data VadError : Type 0 where
  unsupported_format invalid_frame : VadError

pub record SpeechSegmenter (D : Type 0) : Type 0 where
  pub stream_id : ℕ
  pub detector : D
  pub speech_confirmation_frames : ℕ
  pub utterance_id : Option ℕ
  pub pending_speech : List PcmFrame
  pub trailing_silence : List PcmFrame
  pub active_frames : ℕ
  pub min_utterance_frames : ℕ
  pub max_utterance_frames : ℕ
  pub adaptive_silence_frames : ℕ
  pub rearm_silence_frames : Option ℕ

-- `Ord::clamp`, at bounds in order.
unfoldable pub clamp : ℕ → ℕ → ℕ → ℕ
clamp x lo hi = if ltb x lo then lo else if ltb hi x then hi else x

-- `with_confirmation_and_adaptive_frames`.
unfoldable pub new_segmenter : {D : Type 0} → ℕ → D → ℕ → ℕ → ℕ → ℕ → SpeechSegmenter D
unfolding clamp
new_segmenter stream detector confirmation min_frames max_frames adaptive =
    let confirmation' = clamp confirmation 3 25 in
    let max' = clamp max_frames 200 1500 in
    record {
      stream_id = stream;
      detector = detector;
      speech_confirmation_frames = confirmation';
      utterance_id = none;
      pending_speech = [];
      trailing_silence = [];
      active_frames = 0;
      min_utterance_frames = clamp min_frames confirmation' max';
      max_utterance_frames = max';
      adaptive_silence_frames = clamp adaptive 1 end_of_utterance_silence_frames;
      rearm_silence_frames = none;
    }

-- The frames as events of an utterance that goes on.
abbrev pub emit : ℕ → ℕ → List PcmFrame → List CaptureEvent
emit stream utterance fs = map (λ f. frame_event stream utterance f false) fs

-- `self.pending_speech[0].capture_monotonic_ns`, once the frame has been pushed behind the others.
unfoldable pub first_capture : List PcmFrame → PcmFrame → ℕ
first_capture [] pushed = pushed.capture_monotonic_ns
first_capture (f ∷ fs) pushed = f.capture_monotonic_ns

-- `Vec::pop`: the last element and what is left.
unfoldable pub pop_last : List PcmFrame → Option (List PcmFrame × PcmFrame)
pop_last [] = none
pop_last (f ∷ []) = some ([], f)
pop_last (f ∷ g ∷ fs) = elim (pop_last (g ∷ fs)) [
  | none ↦ none
  | some (rest, last) ↦ some (f ∷ rest, last)
]

-- `let CaptureEvent::Frame { end_of_utterance, .. } = event else { unreachable!() }`, and the write.
unfoldable pub end_event : CaptureEvent → Option CaptureEvent
end_event (speech_started stream utterance ns) = none
end_event (frame_event stream utterance f end) = some (frame_event stream utterance f true)

-- The same on `events.last_mut()`, which must be there.
unfoldable pub set_last_end : List CaptureEvent → Option (List CaptureEvent)
unfolding end_event
set_last_end [] = none
set_last_end (e ∷ []) = elim (end_event e) [ none ↦ none | some e' ↦ some (e' ∷ []) ]
set_last_end (e ∷ e' ∷ es) = elim (set_last_end (e' ∷ es)) [
  | none ↦ none
  | some rest ↦ some (e ∷ rest)
]

module _ {D : Type 0} where
  unfoldable pub process_idle :
      SpeechSegmenter D → ℕ → PcmFrame → Bool → SpeechSegmenter D × List CaptureEvent
  unfolding first_capture
  process_idle s fresh frame false = (record s { pending_speech = [] }, [])
  process_idle s fresh frame true =
      let pending = s.pending_speech ++ frame ∷ [] in
      if ltb (length pending) s.speech_confirmation_frames
      then (record s { pending_speech = pending }, [])
      else (
        record s { utterance_id = some fresh; active_frames = length pending; pending_speech = [] },
        speech_started s.stream_id fresh (first_capture s.pending_speech frame)
            ∷ emit s.stream_id fresh pending,
      )

  unfoldable pub finish_with_trailing_silence :
      SpeechSegmenter D → ℕ → Bool → Option (SpeechSegmenter D × List CaptureEvent)
  unfolding pop_last
  finish_with_trailing_silence s utterance forced = elim (pop_last s.trailing_silence) [
    | none ↦ none
    | some (rest, last) ↦ some (
      record s {
        trailing_silence = [];
        utterance_id = none;
        active_frames = 0;
        rearm_silence_frames = if forced then some 0 else s.rearm_silence_frames;
      },
      emit s.stream_id utterance rest ++ frame_event s.stream_id utterance last true ∷ [],
    )
  ]

  unfoldable pub finish_forced_utterance :
      SpeechSegmenter D → List CaptureEvent → Option (SpeechSegmenter D × List CaptureEvent)
  unfolding set_last_end
  finish_forced_utterance s events = elim (set_last_end events) [
    | none ↦ none
    | some events' ↦ some (record s { utterance_id = none; active_frames = 0 }, events')
  ]

  unfoldable pub process_active :
      SpeechSegmenter D → PcmFrame → Bool → ℕ → Option (SpeechSegmenter D × List CaptureEvent)
  unfolding finish_with_trailing_silence finish_forced_utterance
  process_active s frame true utterance =
      let s' = record s {
        active_frames = saturating_add64 s.active_frames 1;
        trailing_silence = [];
      } in
      let events =
        emit s.stream_id utterance s.trailing_silence
        ++ frame_event s.stream_id utterance frame false ∷ [] in
      if leb s'.max_utterance_frames s'.active_frames
      then finish_forced_utterance s' events
      else some (s', events)
  process_active s frame false utterance =
      let s' = record s {
        trailing_silence = s.trailing_silence ++ frame ∷ [];
        active_frames = saturating_add64 s.active_frames 1;
      } in
      let silence_frames =
        if leb s'.min_utterance_frames s'.active_frames
        then s'.adaptive_silence_frames
        else end_of_utterance_silence_frames in
      if ltb (length s'.trailing_silence) silence_frames
      then (if leb s'.max_utterance_frames s'.active_frames
          then finish_with_trailing_silence s' utterance true
          else some (s', []))
      else finish_with_trailing_silence s' utterance false

  -- The silence after a forced end, until which nothing is taken for speech.
  unfoldable pub process_rearm : SpeechSegmenter D → ℕ → Bool → SpeechSegmenter D
  process_rearm s silence voice =
      let silence' = if voice then 0 else saturating_add64 silence 1 in
      record s {
        rearm_silence_frames =
            if ltb silence' end_of_utterance_silence_frames then some silence' else none;
      }

  -- `process` once the detector has judged the frame.
  unfoldable pub process_judged :
      SpeechSegmenter D → ℕ → PcmFrame → Bool → Option (SpeechSegmenter D × List CaptureEvent)
  unfolding process_rearm process_active process_idle
  process_judged s fresh frame voice = elim s.rearm_silence_frames [
    | some silence ↦ some (process_rearm s silence voice, [])
    | none ↦ elim s.utterance_id [
      | some utterance ↦ process_active s frame voice utterance
      | none ↦ some (process_idle s fresh frame voice)
    ]
  ]

  unfoldable pub judged :
      SpeechSegmenter D
      → ℕ
      → PcmFrame
      → Result Bool VadError
      → Option (SpeechSegmenter D × Result (List CaptureEvent) VadError)
  unfolding process_judged
  judged s fresh frame (err e) = some (s, err e)
  judged s fresh frame (ok voice) = elim (process_judged s fresh frame voice) [
    | none ↦ none
    | some (s', events) ↦ some (s', ok events)
  ]

-- The detector keeps what it has learnt also where it reports an error.
unfoldable pub process :
    {D : Type 0}
    → (D → List ℤ → D × Result Bool VadError)
    → SpeechSegmenter D
    → ℕ
    → PcmFrame
    → Option (SpeechSegmenter D × Result (List CaptureEvent) VadError)
unfolding judged same_format s16le_samples
process is_voice s fresh frame =
    if not (same_format frame.format provider_default)
    then some (s, err unsupported_format)
    else (let (d, r) = is_voice s.detector (s16le_samples frame.pcm) in
        judged (record s { detector = d }) fresh frame r)
