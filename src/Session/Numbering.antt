-- ===== src/Session/Numbering.antt =====
-- crates/translator-daemon/src/direction_session.rs: the numbers of the input frames.
use Prim.Native.String.{String}
use translator.Prelude.{
  ℕ, ◌≡◌, ◌≤◌, ◌+◌, zero, suc, refl, subst, Bool, true, false, ◌⊎◌, List, [], ◌∷◌, ◌++◌, length,
  Option, none, some, Result, ok, err, arith, Option-cases, inl, inr, saturating_add64,
}
use translator.Pcm.Frame.{PcmFrame}
use translator.Pcm.Segmenter.{CaptureEvent, speech_started, frame_event}
use translator.Watchdog.Coordinator.{start_utterance, record_end_of_utterance}
use translator.Session.{DirectionSession, DirectionSessionError}
use translator.Session.Requests.{ProviderRequest, input_frame}
use translator.Session.Handlers.{
  handle_capture, handle_started, handle_frame, end_input, input_request,
}

-- The number of an input request.
abbrev pub numbers_of : Option ProviderRequest → List ℕ
numbers_of (some (input_frame r)) = r.sequence ∷ []
numbers_of _ = []

-- The numbers n, n + 1, and so on, k of them.
unfoldable pub count_from : ℕ → ℕ → List ℕ
count_from n zero = []
count_from n (suc k) = n ∷ count_from (suc n) k

module _ (parse : String → Option ℕ) (print : ℕ → String) where
  -- The numbers of the requests that the captured speech leads to; a refusal gives no request.
  unfoldable pub input_numbers : DirectionSession → List CaptureEvent → List ℕ
  input_numbers s [] = []
  input_numbers s (e ∷ es) = elim (handle_capture parse print e s) [
    | none ↦ []
    | some (s', r) ↦ elim r [
      | ok q ↦ numbers_of q ++ input_numbers s' es
      | err x ↦ input_numbers s' es
    ]
  ]

  abbrev Numbered :
      DirectionSession
      → Option (DirectionSession × Result (Option ProviderRequest) DirectionSessionError)
      → Type 0
  Numbered s none = Unit {0}
  Numbered s (some (s', err x)) = s'.next_input_sequence ≡ s.next_input_sequence
  Numbered s (some (s', ok q)) =
      ((numbers_of q ≡ []) × (s'.next_input_sequence ≡ s.next_input_sequence))
      ⊎ ((numbers_of q ≡ s.next_input_sequence ∷ [])
          × (s'.next_input_sequence ≡ saturating_add64 s.next_input_sequence 1))

  started-Numbered :
      (s : DirectionSession) (stream u ns : ℕ) → Numbered s (handle_started stream u ns s)
  unfolding handle_started start_utterance
  started-Numbered s stream u ns = ground arith

  frame-Numbered :
      (s : DirectionSession) (stream u : ℕ) (f : PcmFrame) (last : Bool)
      → Numbered s (handle_frame parse print stream u f last s)
  unfolding handle_frame end_input record_end_of_utterance input_request
  frame-Numbered s stream u f true = ground arith
  frame-Numbered s stream u f false = ground arith

  capture-Numbered :
      (s : DirectionSession) (e : CaptureEvent) → Numbered s (handle_capture parse print e s)
  unfolding handle_capture
  capture-Numbered s (speech_started stream u ns) = started-Numbered s stream u ns
  capture-Numbered s (frame_event stream u f last) = frame-Numbered s stream u f last

  -- The requests for the captured speech carry consecutive numbers, from the session's next number on,
  -- without a gap or a repetition, whatever is refused in between; while they fit in 64 bits.
  pub input_numbers-count_from :
      (s : DirectionSession) (es : List CaptureEvent)
      → s.next_input_sequence + length es ≤ 18446744073709551615
      → input_numbers s es ≡ count_from s.next_input_sequence (length (input_numbers s es))
  unfolding input_numbers count_from
  input_numbers-count_from s [] b = refl
  input_numbers-count_from s (e ∷ es) b =
      let step = capture-Numbered s e in
      elim (Option-cases (handle_capture parse print e s)) [
        | inl h ↦ rw (h, input_numbers) refl
        | inr ((s', err x), h) ↦
            let n : s'.next_input_sequence ≡ s.next_input_sequence = subst (Numbered s) h step in
            rw (h, input_numbers) (ground (arith, n, input_numbers-count_from s' es))
        | inr ((s', ok q), h) ↦
            let n = subst (Numbered s) h step in
            rw (h, input_numbers) (ground (arith, n, input_numbers-count_from s' es))
      ]
