-- ===== src/Pcm/Segmenter/History.antt =====
-- A segmenter over a whole stream: `process` on one frame after the other.
use translator.Prelude.{
  ℕ, ◌≡◌, refl, sym, ap, ◌∙◌, subst, Bool, not, List, [], ◌∷◌, ◌++◌, Option, none, some, arith, ◌⊎◌,
  inl, inr, Bool-cases, Result, ok, err,
}
use mathlib.Core.List.{append_assoc}
use translator.Prelude.Int.{ℤ}
use translator.Pcm.Frame.{PcmFrame, same_format, provider_default, s16le_samples}
use translator.Pcm.Segmenter.{
  CaptureEvent, VadError, unsupported_format, SpeechSegmenter, judged, process,
}
use translator.Pcm.Segmenter.Invariant.{Inv, process_judged-returns}
use translator.Pcm.Segmenter.Grammar.{read, view, Reads, process_judged-Reads}
use translator.Pcm.Segmenter.Frames.{frames_of, held, Keeps, Keeps?, process_judged-Keeps}

-- An error sends nothing.
pub events_of : Result (List CaptureEvent) VadError → List CaptureEvent
events_of (ok events) = events
events_of (err e) = []

-- The caller's loop: the segmenter and all the events that it has sent.
unfoldable pub run :
    {D : Type 0}
    → (D → List ℤ → D × Result Bool VadError)
    → SpeechSegmenter D
    → List (ℕ × PcmFrame)
    → Option (SpeechSegmenter D × List CaptureEvent)
run is_voice s [] = some (s, [])
run is_voice s ((fresh, f) ∷ inputs) = elim (process is_voice s fresh f) [
  | none ↦ none
  | some (s', out) ↦ elim (run is_voice s' inputs) [
    | none ↦ none
    | some (s'', events) ↦ some (s'', events_of out ++ events)
  ]
]

-- A list with some elements left out.
pub data Subseq {ℓ} {A : Type ℓ} : List A → List A → Type ℓ where
  done : Subseq [] []
  keep : {xs ys : List A} (x : A) → Subseq xs ys → Subseq (x ∷ xs) (x ∷ ys)
  skip : {xs ys : List A} (y : A) → Subseq xs ys → Subseq xs (y ∷ ys)

module _ {ℓ} {A : Type ℓ} where
  keep_all : (zs : List A) {xs ys : List A} → Subseq xs ys → Subseq (zs ++ xs) (zs ++ ys)
  keep_all [] s = s
  keep_all (z ∷ zs) s = keep z (keep_all zs s)

  skip_all : (zs : List A) {xs ys : List A} → Subseq xs ys → Subseq xs (zs ++ ys)
  skip_all [] s = s
  skip_all (z ∷ zs) s = skip z (skip_all zs s)

  skip_middle :
      (zs ys : List A) {xs : List A} (y : A) → Subseq xs (zs ++ ys) → Subseq xs (zs ++ y ∷ ys)
  skip_middle [] ys y s = skip y s
  skip_middle (z ∷ zs) ys y (keep x s) = keep x (skip_middle zs ys y s)
  skip_middle (z ∷ zs) ys y (skip x s) = skip x (skip_middle zs ys y s)

-- What one call sends and holds, in terms of what was held and the frame.
abbrev pub Advances : List PcmFrame → List PcmFrame → List PcmFrame → PcmFrame → Type 0
Advances sent now before f =
    (sent ++ now ≡ before ++ f ∷ []) ⊎ (sent ++ now ≡ before) ⊎ ((sent ≡ []) × (now ≡ []))

pub Subseq-Advances :
    (sent now before : List PcmFrame) (f : PcmFrame) {more : List PcmFrame} (fs : List PcmFrame)
    → Advances sent now before f
    → Subseq more (now ++ fs)
    → Subseq (sent ++ more) (before ++ f ∷ fs)
Subseq-Advances sent now before f fs (inl e) s =
    subst (Subseq _)
      (sym (append_assoc sent now fs) ∙ ap (λ l. l ++ fs) e ∙ append_assoc before (f ∷ []) fs)
      (keep_all sent s)
Subseq-Advances sent now before f fs (inr (inl e)) s =
    subst (Subseq _) (sym (append_assoc sent now (f ∷ fs)) ∙ ap (λ l. l ++ f ∷ fs) e)
      (keep_all sent (skip_middle now fs f s))
Subseq-Advances sent now before f fs (inr (inr e)) s =
    rw e.0 (skip_all before (skip f (rw e.1 at s)))

module _ {D : Type 0} where
  -- What `process` does to the automaton and to the frames.
  abbrev pub Steps :
      SpeechSegmenter D
      → PcmFrame
      → SpeechSegmenter D
      → Result (List CaptureEvent) VadError
      → Type 0
  Steps s f s' out =
      (read s.stream_id s.max_utterance_frames (view s) (events_of out) ≡ some (view s'))
      × (s'.stream_id ≡ s.stream_id)
      × (s'.max_utterance_frames ≡ s.max_utterance_frames)
      × Advances (frames_of (events_of out)) (held s') (held s) f
      × Inv s'

  Keeps-Advances :
      (s : SpeechSegmenter D) (f : PcmFrame) (voice : Bool) (s' : SpeechSegmenter D)
      (events : List CaptureEvent)
      → Keeps s f voice s' events
      → Advances (frames_of events) (held s') (held s) f
  unfolding frames_of
  Keeps-Advances s f voice s' events (inl e) = inl e
  Keeps-Advances s f voice s' events (inr e) = inr (inr (ap frames_of e.2, e.3))

  judged-Steps :
      (s : SpeechSegmenter D) (fresh : ℕ) (f : PcmFrame) (r : Result Bool VadError)
      → Inv s
      → (s' : SpeechSegmenter D) × (out : Result (List CaptureEvent) VadError) × (judged s fresh f r
          ≡ some (s', out))
        × Steps s f s' out
  unfolding judged events_of read frames_of
  judged-Steps s fresh f (err x) v = (s, err x, refl, (refl, refl, refl, inr (inl refl), v))
  judged-Steps s fresh f (ok voice) v =
      let (s', events, e, w) = process_judged-returns s fresh f voice v in
      let reads : Reads s (some (s', events)) =
        subst (Reads s) e (process_judged-Reads s fresh f voice v) in
      let keeps : Keeps s f voice s' events =
        subst (Keeps? s f voice) e (process_judged-Keeps s fresh f voice v) in
      (
        s',
        ok events,
        rw (e, judged),
        (reads.0, reads.1, reads.2, Keeps-Advances s f voice s' events keeps, w),
      )

  pub process-Steps :
      (is_voice : D → List ℤ → D × Result Bool VadError) (s : SpeechSegmenter D) (fresh : ℕ)
      (f : PcmFrame)
      → Inv s
      → (s' : SpeechSegmenter D) × (out : Result (List CaptureEvent) VadError) × (process is_voice s
            fresh f
          ≡ some (s', out))
        × Steps s f s' out
  unfolding process events_of read view frames_of held
  process-Steps is_voice s fresh f v =
      elim (Bool-cases (not (same_format f.format provider_default))) [
        | inl other ↦
            (s, err unsupported_format, rw (other, process), (refl, refl, refl, inr (inl refl), v))
        | inr same ↦
            let (d, r) = is_voice s.detector (s16le_samples f.pcm) in
            let (s', out, e, w) =
              judged-Steps (record s { detector = d }) fresh f r
                (record { configured = ground arith; phase = v.phase }) in
            (s', out, rw (same, process) e, w)
      ]
