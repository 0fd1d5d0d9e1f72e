-- ===== src/Pcm/Segmenter/Invariant.antt =====
-- crates/translator-audio/src/pcm.rs: the state of a segmenter between two frames.
use translator.Prelude.{
  ℕ, ◌≤◌, ◌<◌, ◌≡◌, refl, Bool, true, false, List, [], ◌∷◌, ◌++◌, length, length-append, Result, ok,
  err, Option, none, some, arith, Option-cases, Bool-cases, inl, inr, subst, not,
}
use translator.Prelude.Int.{ℤ}
use translator.Pcm.Frame.{PcmFrame, same_format, provider_default, s16le_samples}
use translator.Pcm.Segmenter.{
  CaptureEvent, frame_event, VadError, unsupported_format, SpeechSegmenter, new_segmenter, emit,
  pop_last, set_last_end, process_idle, process_active, process_rearm, process_judged, judged,
  process,
}

pub record IsConfigured {D : Type 0} (s : SpeechSegmenter D) : Type 0 where
  pub confirmation_low : 3 ≤ s.speech_confirmation_frames
  pub confirmation_high : s.speech_confirmation_frames ≤ 25
  pub min_low : s.speech_confirmation_frames ≤ s.min_utterance_frames
  pub min_high : s.min_utterance_frames ≤ s.max_utterance_frames
  pub max_low : 200 ≤ s.max_utterance_frames
  pub max_high : s.max_utterance_frames ≤ 1500
  pub adaptive_low : 1 ≤ s.adaptive_silence_frames
  pub adaptive_high : s.adaptive_silence_frames ≤ 15

-- Between utterances only speech that waits for confirmation is held back; in one, only silence is.
abbrev pub Phase : {D : Type 0} → SpeechSegmenter D → Option ℕ → Option ℕ → Type 0
Phase s none none =
    (s.trailing_silence ≡ [])
    × (s.active_frames ≡ 0)
    × (length s.pending_speech < s.speech_confirmation_frames)
Phase s none (some silence) =
    (s.trailing_silence ≡ []) × (s.active_frames ≡ 0) × (s.pending_speech ≡ []) × (silence < 15)
Phase s (some utterance) none =
    (s.pending_speech ≡ [])
    × (length s.trailing_silence < 15)
    × (length s.trailing_silence < s.active_frames)
    × (s.active_frames < s.max_utterance_frames)
Phase s (some utterance) (some silence) = ⊥

pub record Inv {D : Type 0} (s : SpeechSegmenter D) : Type 0 where
  pub configured : IsConfigured s
  pub phase : Phase s s.utterance_id s.rearm_silence_frames

pub new_segmenter-Inv :
    {D : Type 0} (stream : ℕ) (d : D) (confirmation min_frames max_frames adaptive : ℕ)
    → Inv (new_segmenter stream d confirmation min_frames max_frames adaptive)
unfolding new_segmenter
new_segmenter-Inv stream d confirmation min_frames max_frames adaptive = record {
  configured = ground arith;
  phase = ground arith;
}

pub pop_last-snoc : (fs : List PcmFrame) (f : PcmFrame) → pop_last (fs ++ f ∷ []) ≡ some (fs, f)
unfolding pop_last
pop_last-snoc [] f = refl
pop_last-snoc (g ∷ []) f = refl
pop_last-snoc (g ∷ h ∷ fs) f = rw (pop_last-snoc (h ∷ fs) f)

pub set_last_end-snoc :
    (es : List CaptureEvent) (stream utterance : ℕ) (f : PcmFrame) (end : Bool)
    → set_last_end (es ++ frame_event stream utterance f end ∷ [])
      ≡ some (es ++ frame_event stream utterance f true ∷ [])
unfolding set_last_end
set_last_end-snoc [] stream utterance f end = refl
set_last_end-snoc (e ∷ []) stream utterance f end = refl
set_last_end-snoc (e ∷ e' ∷ es) stream utterance f end =
    rw (set_last_end-snoc (e' ∷ es) stream utterance f end)

-- The outcome of a frame: no panic, and a segmenter as it should be.
abbrev Good : {D : Type 0} → Option (SpeechSegmenter D × List CaptureEvent) → Type 0
Good none = ⊥
Good (some (s, events)) = Inv s

module _ {D : Type 0} where
  process_idle-Good :
      (s : SpeechSegmenter D) (fresh : ℕ) (f : PcmFrame) (voice : Bool)
      → Inv s
      → s.utterance_id ≡ none
      → s.rearm_silence_frames ≡ none
      → Good (some (process_idle s fresh f voice))
  unfolding process_idle
  process_idle-Good s fresh f false v e r = ground arith
  process_idle-Good s fresh f true v e r = ground (arith, length-append s.pending_speech (f ∷ []))

  process_rearm-Good :
      (s : SpeechSegmenter D) (silence : ℕ) (voice : Bool)
      → Inv s
      → s.rearm_silence_frames ≡ some silence
      → Good (some (process_rearm s silence voice, []))
  unfolding process_rearm
  process_rearm-Good s silence voice v r = ground arith

  process_active-Good :
      (s : SpeechSegmenter D) (f : PcmFrame) (voice : Bool) (utterance : ℕ)
      → Inv s
      → s.utterance_id ≡ some utterance
      → s.rearm_silence_frames ≡ none
      → Good (process_active s f voice utterance)
  unfolding process_active
  process_active-Good s f true utterance v e r = ground (
    arith,
    set_last_end-snoc (emit s.stream_id utterance s.trailing_silence) s.stream_id utterance f false,
  )
  process_active-Good s f false utterance v e r =
      ground (arith, pop_last-snoc s.trailing_silence f, length-append s.trailing_silence (f ∷ []))

  -- The three ways of a frame whose voice has been judged.
  pub process_judged_cases {ℓ} :
      (P : Option (SpeechSegmenter D × List CaptureEvent) → Type ℓ) (s : SpeechSegmenter D)
      (fresh : ℕ) (f : PcmFrame) (voice : Bool)
      → ((silence : ℕ)
          → s.rearm_silence_frames ≡ some silence
          → P (some (process_rearm s silence voice, [])))
      → ((u : ℕ)
          → s.utterance_id ≡ some u
          → s.rearm_silence_frames ≡ none
          → P (process_active s f voice u))
      → (s.utterance_id ≡ none
          → s.rearm_silence_frames ≡ none
          → P (some (process_idle s fresh f voice)))
      → P (process_judged s fresh f voice)
  unfolding process_judged
  process_judged_cases P s fresh f voice rearm active idle =
      elim (Option-cases s.rearm_silence_frames) [
        | inr (silence, r) ↦ rw (r, process_judged) (rearm silence r)
        | inl r ↦ elim (Option-cases s.utterance_id) [
          | inr (u, e) ↦ rw (r, e, process_judged) (active u e r)
          | inl e ↦ rw (r, e, process_judged) (idle e r)
        ]
      ]

  process_judged-Good :
      (s : SpeechSegmenter D) (fresh : ℕ) (f : PcmFrame) (voice : Bool)
      → Inv s
      → Good (process_judged s fresh f voice)
  process_judged-Good s fresh f voice v =
      process_judged_cases Good s fresh f voice (λ n r. process_rearm-Good s n voice v r)
        (λ u e r. process_active-Good s f voice u v e r)
        (λ e r. process_idle-Good s fresh f voice v e r)

  pub process_judged-returns :
      (s : SpeechSegmenter D) (fresh : ℕ) (f : PcmFrame) (voice : Bool)
      → Inv s
      → (s' : SpeechSegmenter D) × (events : List CaptureEvent) × (process_judged s fresh f voice
          ≡ some (s', events))
        × Inv s'
  process_judged-returns s fresh f voice v = elim (Option-cases (process_judged s fresh f voice)) [
    | inl e ↦ absurd (subst Good e (process_judged-Good s fresh f voice v))
    | inr ((s', events), e) ↦ (s', events, e, subst Good e (process_judged-Good s fresh f voice v))
  ]

  judged-returns :
      (s : SpeechSegmenter D) (fresh : ℕ) (f : PcmFrame) (r : Result Bool VadError)
      → Inv s
      → (s' : SpeechSegmenter D) × (out : Result (List CaptureEvent) VadError) × (judged s fresh f r
          ≡ some (s', out))
        × Inv s'
  unfolding judged
  judged-returns s fresh f (err e) v = (s, err e, refl, v)
  judged-returns s fresh f (ok voice) v =
      let (s', events, e, w) = process_judged-returns s fresh f voice v in
      (s', ok events, rw (e, judged), w)

  -- Whatever the detector says of a frame, and whatever the frame's format, `process` returns, and
  -- leaves a segmenter as it should be.
  pub process-returns :
      (is_voice : D → List ℤ → D × Result Bool VadError) (s : SpeechSegmenter D) (fresh : ℕ)
      (f : PcmFrame)
      → Inv s
      → (s' : SpeechSegmenter D) × (out : Result (List CaptureEvent) VadError) × (process is_voice s
            fresh f
          ≡ some (s', out))
        × Inv s'
  unfolding process
  process-returns is_voice s fresh f v =
      elim (Bool-cases (not (same_format f.format provider_default))) [
        | inl other ↦ (s, err unsupported_format, rw (other, process), v)
        | inr same ↦
            let (d, r) = is_voice s.detector (s16le_samples f.pcm) in
            let (s', out, e, w) =
              judged-returns (record s { detector = d }) fresh f r
                (record { configured = ground arith; phase = v.phase }) in
            (s', out, rw (same, process) e, w)
      ]
