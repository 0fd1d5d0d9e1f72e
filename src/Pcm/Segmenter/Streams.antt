-- ===== src/Pcm/Segmenter/Streams.antt =====
-- What a segmenter does with a whole stream of frames.
use mathlib.Core.Path.{subst₂}
use translator.Prelude.{
  ℕ, ◌≡◌, refl, sym, ap, ◌∙◌, subst, Bool, List, [], ◌∷◌, ◌++◌, map, none, some, Result,
}
use mathlib.Core.List.{append-nil, append_assoc}
use translator.Prelude.Int.{ℤ}
use translator.Pcm.Frame.{PcmFrame}
use translator.Pcm.Segmenter.{
  CaptureEvent, speech_started, frame_event, VadError, SpeechSegmenter, new_segmenter, clamp,
}
use translator.Pcm.Segmenter.Invariant.{Inv, new_segmenter-Inv}
use translator.Pcm.Segmenter.Grammar.{read, read-append, view}
use translator.Pcm.Segmenter.Frames.{frames_of, held}
use translator.Pcm.Segmenter.History.{events_of, run, Subseq, done, Subseq-Advances, process-Steps}

frames_of-append :
    (es es' : List CaptureEvent) → frames_of (es ++ es') ≡ frames_of es ++ frames_of es'
unfolding frames_of
frames_of-append [] es' = refl
frames_of-append (speech_started s u ns ∷ es) es' = frames_of-append es es'
frames_of-append (frame_event s u f end ∷ es) es' = ap (λ l. f ∷ l) (frames_of-append es es')

Subseq-refl : (xs : List PcmFrame) → Subseq xs xs
Subseq-refl [] = done
Subseq-refl (x ∷ xs) = Subseq.keep x (Subseq-refl xs)

module _ {D : Type 0} where
  abbrev Streams :
      ℕ
      → ℕ
      → SpeechSegmenter D
      → List (ℕ × PcmFrame)
      → SpeechSegmenter D
      → List CaptureEvent
      → Type 0
  Streams stream limit s inputs s' events =
      (read stream limit (view s) events ≡ some (view s'))
      × Subseq (frames_of events ++ held s') (held s ++ map (λ i. i.1) inputs)

  run-Streams :
      (is_voice : D → List ℤ → D × Result Bool VadError) (stream limit : ℕ) (s : SpeechSegmenter D)
      (inputs : List (ℕ × PcmFrame))
      → Inv s
      → s.stream_id ≡ stream
      → s.max_utterance_frames ≡ limit
      → (s' : SpeechSegmenter D) × (events : List CaptureEvent) × (run is_voice s inputs
          ≡ some (s', events))
        × Streams stream limit s inputs s' events
  unfolding run read frames_of
  run-Streams is_voice stream limit s [] v es el = (
    s,
    [],
    refl,
    (refl, subst (Subseq (held s)) (sym (append-nil (held s))) (Subseq-refl (held s))),
  )
  run-Streams is_voice stream limit s ((fresh, f) ∷ inputs) v es el =
      let (s₁, out, e, w) = process-Steps is_voice s fresh f v in
      let (s', events, e', w') =
        run-Streams is_voice stream limit s₁ inputs w.4 (w.1 ∙ es) (w.2 ∙ el) in
      (
        s',
        events_of out ++ events,
        rw (e, run) (rw (e', run)),
        (
          read-append stream limit (view s) (view s₁) (events_of out) events
                (subst₂ (λ a b. read a b (view s) (events_of out) ≡ some (view s₁)) es el w.0)
              ∙ w'.0,
          subst (λ l. Subseq l (held s ++ f ∷ map (λ i. i.1) inputs))
              (sym (append_assoc (frames_of (events_of out)) (frames_of events) (held s'))
                ∙ ap (λ l. l ++ held s') (sym (frames_of-append (events_of out) events)))
              (Subseq-Advances (frames_of (events_of out)) (held s₁) (held s) f
                (map (λ i. i.1) inputs) w.3 w'.1),
        ),
      )

-- A new segmenter, at any settings, with any detector, over any frames: `process` never panics; the
-- events are utterances that begin, carry at most `max_utterance_frames` frames under their own name
-- and end by a flag before the next begins; and the frames that are sent or held back are among those
-- of the stream, in their order, none twice.
pub run-streams :
    {D : Type 0} (is_voice : D → List ℤ → D × Result Bool VadError) (stream : ℕ) (d : D)
    (confirmation min_frames max_frames adaptive : ℕ) (inputs : List (ℕ × PcmFrame))
    → (s' : SpeechSegmenter D) × (events : List CaptureEvent) × (run is_voice
          (new_segmenter stream d confirmation min_frames max_frames adaptive)
          inputs
        ≡ some (s', events))
      × (read stream (clamp max_frames 200 1500) none events ≡ some (view s'))
      × Subseq (frames_of events ++ held s') (map (λ i. i.1) inputs)
unfolding new_segmenter view held
run-streams is_voice stream d confirmation min_frames max_frames adaptive inputs =
    let (s', events, e, w) =
      run-Streams is_voice stream (clamp max_frames 200 1500)
        (new_segmenter stream d confirmation min_frames max_frames adaptive) inputs
        (new_segmenter-Inv stream d confirmation min_frames max_frames adaptive) refl refl in
    (s', events, e, w.0, w.1)
