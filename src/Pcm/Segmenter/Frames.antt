-- ===== src/Pcm/Segmenter/Frames.antt =====
-- crates/translator-audio/src/pcm.rs: the frames that a segmenter sends on, against those it is given.
use translator.Prelude.{
  ℕ, ◌≡◌, refl, Bool, true, false, List, [], ◌∷◌, ◌++◌, Option, none, some, arith, is_some, subst,
  ◌⊎◌,
}
use mathlib.Core.List.{append-nil}
use translator.Pcm.Frame.{PcmFrame}
use translator.Pcm.Segmenter.{
  CaptureEvent, speech_started, frame_event, SpeechSegmenter, emit, process_idle, process_active,
  process_rearm, process_judged,
}
use translator.Pcm.Segmenter.Invariant.{
  Inv, process_judged_cases, process_judged-returns, pop_last-snoc, set_last_end-snoc,
}

unfoldable pub frames_of : List CaptureEvent → List PcmFrame
frames_of [] = []
frames_of (speech_started s u ns ∷ es) = frames_of es
frames_of (frame_event s u f end ∷ es) = f ∷ frames_of es

frames_of-emit :
    (stream u : ℕ) (fs : List PcmFrame) (es : List CaptureEvent)
    → frames_of (emit stream u fs ++ es) ≡ fs ++ frames_of es
unfolding frames_of
frames_of-emit stream u [] es = refl
frames_of-emit stream u (f ∷ fs) es = rw (frames_of-emit stream u fs es)

frames_of-emit_all : (stream u : ℕ) (fs : List PcmFrame) → frames_of (emit stream u fs) ≡ fs
unfolding frames_of
frames_of-emit_all stream u [] = refl
frames_of-emit_all stream u (f ∷ fs) = rw (frames_of-emit_all stream u fs)

module _ {D : Type 0} where
  -- The frames that wait for the decision whether they are speech.
  unfoldable pub held : SpeechSegmenter D → List PcmFrame
  held s = s.pending_speech ++ s.trailing_silence

  -- Either the frame is behind those held, and all of them are sent or held still, in order; or no
  -- utterance is open, the frame is silent or the segmenter is not armed, and nothing is sent or held.
  abbrev pub Keeps :
      SpeechSegmenter D → PcmFrame → Bool → SpeechSegmenter D → List CaptureEvent → Type 0
  Keeps s f voice s' events =
      (frames_of events ++ held s' ≡ held s ++ f ∷ [])
      ⊎ ((s.utterance_id ≡ none)
          × ((voice ≡ false) ⊎ (is_some s.rearm_silence_frames ≡ true))
          × (events ≡ [])
          × (held s' ≡ []))

  abbrev pub Keeps? :
      SpeechSegmenter D → PcmFrame → Bool → Option (SpeechSegmenter D × List CaptureEvent) → Type 0
  Keeps? s f voice none = ⊥
  Keeps? s f voice (some (s', events)) = Keeps s f voice s' events

  process_idle-Keeps :
      (s : SpeechSegmenter D) (fresh : ℕ) (f : PcmFrame) (voice : Bool)
      → Inv s
      → s.utterance_id ≡ none
      → s.rearm_silence_frames ≡ none
      → Keeps? s f voice (some (process_idle s fresh f voice))
  unfolding process_idle frames_of held
  process_idle-Keeps s fresh f false v e r = ground arith
  process_idle-Keeps s fresh f true v e r =
      let pending = s.pending_speech ++ f ∷ [] in
      ground (
        arith,
        frames_of-emit_all s.stream_id fresh pending,
        append-nil pending,
        append-nil s.pending_speech,
      )

  process_active-Keeps :
      (s : SpeechSegmenter D) (f : PcmFrame) (voice : Bool) (u : ℕ)
      → Inv s
      → s.utterance_id ≡ some u
      → s.rearm_silence_frames ≡ none
      → Keeps? s f voice (process_active s f voice u)
  unfolding process_active frames_of held
  process_active-Keeps s f true u v e r =
      let held = s.trailing_silence in
      ground (
        arith,
        set_last_end-snoc (emit s.stream_id u held) s.stream_id u f false,
        frames_of-emit s.stream_id u held (frame_event s.stream_id u f false ∷ []),
        frames_of-emit s.stream_id u held (frame_event s.stream_id u f true ∷ []),
        append-nil (held ++ f ∷ []),
      )
  process_active-Keeps s f false u v e r =
      let held = s.trailing_silence in
      ground (
        arith,
        pop_last-snoc held f,
        frames_of-emit s.stream_id u held (frame_event s.stream_id u f true ∷ []),
        append-nil (held ++ f ∷ []),
      )

  pub process_judged-Keeps :
      (s : SpeechSegmenter D) (fresh : ℕ) (f : PcmFrame) (voice : Bool)
      → Inv s
      → Keeps? s f voice (process_judged s fresh f voice)
  unfolding process_rearm frames_of held
  process_judged-Keeps s fresh f voice v =
      process_judged_cases (Keeps? s f voice) s fresh f voice (λ n r. ground arith)
        (λ u e r. process_active-Keeps s f voice u v e r)
        (λ e r. process_idle-Keeps s fresh f voice v e r)

  -- A frame whose voice has been judged is taken without a panic, and the frame joins those that were
  -- held back: together they are sent or held still, in order. Frames are given up only while no
  -- utterance is open, and then only on silence or before the segmenter is armed again.
  pub process_judged_lossless :
      (s : SpeechSegmenter D) (fresh : ℕ) (f : PcmFrame) (voice : Bool)
      → Inv s
      → (s' : SpeechSegmenter D) × (events : List CaptureEvent) × (process_judged s fresh f voice
          ≡ some (s', events))
        × Keeps s f voice s' events
  process_judged_lossless s fresh f voice v =
      let (s', events, e, w) = process_judged-returns s fresh f voice v in
      (s', events, e, subst (Keeps? s f voice) e (process_judged-Keeps s fresh f voice v))
