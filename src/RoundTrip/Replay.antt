-- ===== src/RoundTrip/Replay.antt =====
-- crates/translator-daemon/src/round_trip.rs: the evidence over any interleaving of captured and
-- played frames.
use text.Mathlib.TextEquality.{eq_iff}
use translator.Prelude.{ℕ, ◌+◌, ◌<◌, ◌≡◌, ◌↔◌, refl, true, List, [], ◌∷◌, arith, length}
use translator.Pcm.Frame.{StreamPcmFormat, PcmFrame}
use translator.RoundTrip.Evidence.{
  ExactPcmEvidence, new_evidence, absorb, capture, reinject, proof, digest_hex,
}

pub data Call : Type 0 where
  captures reinjects : PcmFrame → Call

unfoldable pub captured_frames : List Call → List PcmFrame
captured_frames [] = []
captured_frames (captures f ∷ cs) = f ∷ captured_frames cs
captured_frames (reinjects f ∷ cs) = captured_frames cs

unfoldable pub reinjected_frames : List Call → List PcmFrame
reinjected_frames [] = []
reinjected_frames (captures f ∷ cs) = reinjected_frames cs
reinjected_frames (reinjects f ∷ cs) = f ∷ reinjected_frames cs

-- The frames are of the format, and numbered from `n` on.
abbrev pub Numbered : StreamPcmFormat → ℕ → List PcmFrame → Type 0
Numbered format n [] = Unit {0}
Numbered format n (f ∷ fs) = (f.format ≡ format) × (f.sequence ≡ n) × Numbered format (n + 1) fs

module _ {H : Type 0} (new_hash : H) (update : H → List ℕ → H) (digest : H → List ℕ) where
  unfoldable pub step : ExactPcmEvidence H → Call → ExactPcmEvidence H
  unfolding capture reinject
  step e (captures f) = (capture new_hash update digest e f).0
  step e (reinjects f) = (reinject new_hash update digest e f).0

  unfoldable pub run : ExactPcmEvidence H → List Call → ExactPcmEvidence H
  run e [] = e
  run e (c ∷ cs) = run (step e c) cs

  unfoldable pub absorb_all : H → List PcmFrame → H
  absorb_all h [] = h
  absorb_all h (f ∷ fs) = absorb_all (absorb new_hash update digest h f) fs

  abbrev Clean : ExactPcmEvidence H → Type 0
  Clean e = (e.format_matches ≡ true) × (e.sequence_monotonic ≡ true)

  step-Clean : (e : ExactPcmEvidence H) (c : Call) → Clean (step e c) → Clean e
  unfolding step
  step-Clean e (captures f) v = ground arith
  step-Clean e (reinjects f) v = ground arith

  run-Clean : (e : ExactPcmEvidence H) (cs : List Call) → Clean (run e cs) → Clean e
  unfolding run
  run-Clean e [] v = v
  run-Clean e (c ∷ cs) v = step-Clean e c (run-Clean (step e c) cs v)

  abbrev Told : ExactPcmEvidence H → List Call → Type 0
  Told e cs =
      Numbered e.format e.captured_count (captured_frames cs)
      × Numbered e.format e.reinjected_count (reinjected_frames cs)
      × ((run e cs).captured_hash ≡ absorb_all e.captured_hash (captured_frames cs))
      × ((run e cs).reinjected_hash ≡ absorb_all e.reinjected_hash (reinjected_frames cs))
      × ((run e cs).captured_count ≡ e.captured_count + length (captured_frames cs))
      × ((run e cs).reinjected_count ≡ e.reinjected_count + length (reinjected_frames cs))

  run-Told :
      (e : ExactPcmEvidence H) (cs : List Call)
      → e.captured_count + length cs < 18446744073709551616
      → e.reinjected_count + length cs < 18446744073709551616
      → Clean (run e cs)
      → Told e cs
  unfolding run step captured_frames reinjected_frames absorb_all
  run-Told e [] a b v = ground arith
  run-Told e (captures f ∷ cs) a b v =
      ground (arith, run-Clean (step e (captures f)) cs v, run-Told (step e (captures f)) cs)
  run-Told e (reinjects f ∷ cs) a b v =
      ground (arith, run-Clean (step e (reinjects f)) cs v, run-Told (step e (reinjects f)) cs)

  step_keeps :
      (e : ExactPcmEvidence H) (c : Call) (cs : List Call)
      → e.captured_count + length (c ∷ cs) < 18446744073709551616
      → e.reinjected_count + length (c ∷ cs) < 18446744073709551616
      → Clean e
      → Numbered e.format e.captured_count (captured_frames (c ∷ cs))
      → Numbered e.format e.reinjected_count (reinjected_frames (c ∷ cs))
      → Clean (step e c)
        × Numbered (step e c).format (step e c).captured_count (captured_frames cs)
        × Numbered (step e c).format (step e c).reinjected_count (reinjected_frames cs)
  unfolding step captured_frames reinjected_frames
  step_keeps e (captures f) cs a b v n m = ground arith
  step_keeps e (reinjects f) cs a b v n m = ground arith

  run_keeps :
      (e : ExactPcmEvidence H) (cs : List Call)
      → e.captured_count + length cs < 18446744073709551616
      → e.reinjected_count + length cs < 18446744073709551616
      → Clean e
      → Numbered e.format e.captured_count (captured_frames cs)
      → Numbered e.format e.reinjected_count (reinjected_frames cs)
      → Clean (run e cs)
  unfolding run step
  run_keeps e [] a b v n m = v
  run_keeps e (captures f ∷ cs) a b v n m =
      let (w, n', m') = step_keeps e (captures f) cs a b v n m in
      run_keeps (step e (captures f)) cs (ground arith) (ground arith) w n' m'
  run_keeps e (reinjects f ∷ cs) a b v n m =
      let (w, n', m') = step_keeps e (reinjects f) cs a b v n m in
      run_keeps (step e (reinjects f)) cs (ground arith) (ground arith) w n' m'

  -- Both lists of frames are of the format and numbered from 0, they are equally long and not empty,
  -- and their numbers and bytes have the same hash.
  pub record IsReplay (format : StreamPcmFormat) (captured played : List PcmFrame) : Type 0 where
    pub whole : Numbered format 0 captured
    pub again : Numbered format 0 played
    pub nonempty : 0 < length captured
    pub as_many : length captured ≡ length played
    pub same_hash :
        digest_hex (digest (absorb_all new_hash captured))
        ≡ digest_hex (digest (absorb_all new_hash played))

  -- After fewer than 2^64 frames in any interleaving, the proof claims an exact match exactly if every
  -- frame that was handed over, captured or played, had the format and the next number, both sides had
  -- as many frames and at least one, and the hashes of both streams are written alike.
  pub run-IsReplay :
      (format : StreamPcmFormat) (cs : List Call)
      → length cs < 18446744073709551616
      → ((proof new_hash update digest
            (run (new_evidence new_hash update digest format) cs)).exact_match
          ≡ true)
        ↔ IsReplay format (captured_frames cs) (reinjected_frames cs)
  unfolding proof new_evidence
  run-IsReplay format cs small =
      let e = new_evidence new_hash update digest format in
      let from_zero : 0 + length cs < 18446744073709551616 = omega arith in
      let told = run-Told e cs from_zero from_zero in
      let kept = run_keeps e cs from_zero from_zero (refl, refl) in
      let alike =
        eq_iff (digest_hex (digest (run e cs).captured_hash))
          (digest_hex (digest (run e cs).reinjected_hash)) in
      (λ h. ground (arith, told, alike), λ h. ground (arith, told, kept, alike))
