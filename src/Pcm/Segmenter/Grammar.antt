-- ===== src/Pcm/Segmenter/Grammar.antt =====
-- The events of a segmenter, read by an automaton: utterances that begin, go on frame by frame under
-- one name and end by a flag, none longer than the limit; and the frames that they carry.
use translator.Prelude.{
  ℕ, suc, ◌+◌, ◌-◌, ◌≤◌, ◌≡◌, refl, Bool, true, false, ◌&&◌, ◌==◌, ltb, if◌then◌else◌, List, [],
  ◌∷◌, ◌++◌, length, length-append, Option, none, some, arith,
}
use translator.Pcm.Frame.{PcmFrame}
use translator.Pcm.Segmenter.{
  CaptureEvent, speech_started, frame_event, SpeechSegmenter, emit, process_idle, process_active,
  process_rearm, process_judged,
}
use translator.Pcm.Segmenter.Invariant.{Inv, process_judged_cases, pop_last-snoc, set_last_end-snoc}

-- The state of the automaton: the utterance that is open, and how many of its frames have come.
-- `none` is a word that is not in the language.
unfoldable pub read : ℕ → ℕ → Option (ℕ × ℕ) → List CaptureEvent → Option (Option (ℕ × ℕ))
read stream limit open_now [] = some open_now
read stream limit none (speech_started s u ns ∷ es) =
    let rest = read stream limit (some (u, 0)) es in if s == stream then rest else none
read stream limit none (frame_event s u f end ∷ es) = none
read stream limit (some (v, n)) (speech_started s u ns ∷ es) = none
read stream limit (some (v, n)) (frame_event s u f end ∷ es) =
    let rest = read stream limit (if end then none else some (v, suc n)) es in
    if s == stream && u == v && ltb n limit then rest else none

read-emit :
    (stream limit u n m : ℕ) (fs : List PcmFrame) (es : List CaptureEvent)
    → m ≡ n + length fs
    → m ≤ limit
    → read stream limit (some (u, n)) (emit stream u fs ++ es) ≡ read stream limit (some (u, m)) es
unfolding read
read-emit stream limit u n m [] es e h = let e' : m ≡ n = omega arith in rw e'
read-emit stream limit u n m (f ∷ fs) es e h =
    ground (arith, read-emit stream limit u (suc n) m fs es)

read-emit_all :
    (stream limit u n m : ℕ) (fs : List PcmFrame)
    → m ≡ n + length fs
    → m ≤ limit
    → read stream limit (some (u, n)) (emit stream u fs) ≡ some (some (u, m))
unfolding read
read-emit_all stream limit u n m [] e h = let e' : m ≡ n = omega arith in rw e'
read-emit_all stream limit u n m (f ∷ fs) e h =
    ground (arith, read-emit_all stream limit u (suc n) m fs)

pub read-append :
    (stream limit : ℕ) (o m : Option (ℕ × ℕ)) (es es' : List CaptureEvent)
    → read stream limit o es ≡ some m
    → read stream limit o (es ++ es') ≡ read stream limit m es'
unfolding read
read-append stream limit o m [] es' e = ground arith
read-append stream limit none m (speech_started s u ns ∷ es) es' e =
    ground (arith, read-append stream limit (some (u, 0)) m es es')
read-append stream limit none m (frame_event s u f end ∷ es) es' e = cc
read-append stream limit (some (v, n)) m (speech_started s u ns ∷ es) es' e = cc
read-append stream limit (some (v, n)) m (frame_event s u f end ∷ es) es' e =
    ground (arith, read-append stream limit (if end then none else some (v, suc n)) m es es')

module _ {D : Type 0} where
  -- Where the automaton stands when the segmenter has sent all but the silence that it holds back.
  unfoldable pub view : SpeechSegmenter D → Option (ℕ × ℕ)
  view s = elim s.utterance_id [
    | none ↦ none
    | some u ↦ some (u, s.active_frames - length s.trailing_silence)
  ]

  abbrev pub Reads : SpeechSegmenter D → Option (SpeechSegmenter D × List CaptureEvent) → Type 0
  Reads s none = ⊥
  Reads s (some (s', events)) =
      (read s.stream_id s.max_utterance_frames (view s) events ≡ some (view s'))
      × (s'.stream_id ≡ s.stream_id)
      × (s'.max_utterance_frames ≡ s.max_utterance_frames)

  process_idle-Reads :
      (s : SpeechSegmenter D) (fresh : ℕ) (f : PcmFrame) (voice : Bool)
      → Inv s
      → s.utterance_id ≡ none
      → s.rearm_silence_frames ≡ none
      → Reads s (some (process_idle s fresh f voice))
  unfolding process_idle read view
  process_idle-Reads s fresh f false v e r = ground arith
  process_idle-Reads s fresh f true v e r =
      let pending = s.pending_speech ++ f ∷ [] in
      ground (
        arith,
        length-append s.pending_speech (f ∷ []),
        read-emit_all s.stream_id s.max_utterance_frames fresh 0 (length pending) pending,
      )

  process_active-Reads :
      (s : SpeechSegmenter D) (f : PcmFrame) (voice : Bool) (u : ℕ)
      → Inv s
      → s.utterance_id ≡ some u
      → s.rearm_silence_frames ≡ none
      → Reads s (process_active s f voice u)
  unfolding process_active read view
  process_active-Reads s f true u v e r =
      let held = s.trailing_silence in
      let a = s.active_frames in
      ground (
        arith,
        set_last_end-snoc (emit s.stream_id u held) s.stream_id u f false,
        read-emit s.stream_id s.max_utterance_frames u (a - length held) a held
            (frame_event s.stream_id u f false ∷ []),
        read-emit s.stream_id s.max_utterance_frames u (a - length held) a held
            (frame_event s.stream_id u f true ∷ []),
      )
  process_active-Reads s f false u v e r =
      let held = s.trailing_silence in
      let a = s.active_frames in
      ground (
        arith,
        pop_last-snoc held f,
        length-append held (f ∷ []),
        read-emit s.stream_id s.max_utterance_frames u (a - length held) a held
            (frame_event s.stream_id u f true ∷ []),
      )

  pub process_judged-Reads :
      (s : SpeechSegmenter D) (fresh : ℕ) (f : PcmFrame) (voice : Bool)
      → Inv s
      → Reads s (process_judged s fresh f voice)
  unfolding process_rearm read view
  process_judged-Reads s fresh f voice v =
      process_judged_cases (Reads s) s fresh f voice (λ n r. (refl, refl, refl))
        (λ u e r. process_active-Reads s f voice u v e r)
        (λ e r. process_idle-Reads s fresh f voice v e r)
