-- ===== src/RoundTrip/Ends.antt =====
-- crates/translator-daemon/src/round_trip.rs: the end of a self test by its time limit.
use translator.Prelude.{
  ℕ, ◌+◌, ◌≤◌, ◌≡◌, ◌==◌, saturating_add32, refl, ◌∙◌, ap, true, none, some, List, [], ◌∷◌, arith,
  Bool-cases, inl, inr,
}
use translator.RoundTrip.{Session, RoundTripSelfTest, is_terminal, stopped, timeout}
use translator.RoundTrip.Checkpoints.{
  SessionCall, advances, triggers, stops, proves, texts, fails, expires, session_step,
}

unfoldable pub session_run : RoundTripSelfTest → List SessionCall → RoundTripSelfTest
session_run t [] = t
session_run t (c ∷ cs) = session_run (session_step t c) cs

-- Only the count of recursion triggers differs.
abbrev pub SameButCount : Session → RoundTripSelfTest → Type 0
SameButCount s none = ⊥
SameButCount s (some s') = record s { recursion_count = s'.recursion_count } ≡ s'

ended_step :
    (s : Session) (c : SessionCall)
    → is_terminal s.checkpoint ≡ true
    → (n : ℕ) × (session_step (some s) c ≡ some (record s { recursion_count = n }))
unfolding session_step
ended_step s (advances id checkpoint latency) h = (s.recursion_count, ground arith)
ended_step s (triggers id) h = elim (Bool-cases (s.id == id)) [
  | inl e ↦ (saturating_add32 s.recursion_count 1, ground arith)
  | inr e ↦ (s.recursion_count, ground arith)
]
ended_step s (stops id) h = (s.recursion_count, ground arith)
ended_step s (proves id proof) h = (s.recursion_count, ground arith)
ended_step s (texts id text) h = (s.recursion_count, ground arith)
ended_step s (fails id error) h = (s.recursion_count, ground arith)
ended_step s (expires at_ms) h = (s.recursion_count, ground arith)

session_run_ended :
    (s : Session) (cs : List SessionCall)
    → is_terminal s.checkpoint ≡ true
    → (n : ℕ) × (session_run (some s) cs ≡ some (record s { recursion_count = n }))
unfolding session_run
session_run_ended s [] h = (s.recursion_count, refl)
session_run_ended s (c ∷ cs) h =
    let (n, e) = ended_step s c h in
    let (m, f) = session_run_ended (record s { recursion_count = n }) cs h in
    (m, ap (λ t. session_run t cs) e ∙ f)

expire_ends :
    (s : Session) (at_ms : ℕ)
    → s.started_at_ms + 300000 ≤ at_ms
    → (s' : Session) × (session_step (some s) (expires at_ms) ≡ some s')
      × (is_terminal s'.checkpoint ≡ true)
unfolding session_step
expire_ends s at_ms h = elim (Bool-cases (is_terminal s.checkpoint)) [
  | inl e ↦ (s, ground arith, e)
  | inr e ↦ (
    record s { checkpoint = stopped; safe_error = some timeout; debug_text = none },
    ground arith,
    unfold is_terminal in refl,
  )
]

-- Once `expire` is called five minutes or more after the start, the session has ended, and whatever is
-- called on it then changes nothing but the count of recursion triggers.
pub session_run_expired :
    (s : Session) (at_ms : ℕ) (cs : List SessionCall)
    → s.started_at_ms + 300000 ≤ at_ms
    → (s' : Session) × (session_step (some s) (expires at_ms) ≡ some s')
      × (is_terminal s'.checkpoint ≡ true)
      × ((n : ℕ) × (session_run (some s) (expires at_ms ∷ cs)
            ≡ some (record s' { recursion_count = n })))
unfolding session_run
session_run_expired s at_ms cs h =
    let (s', e, ended) = expire_ends s at_ms h in
    let (n, f) = session_run_ended s' cs ended in
    (s', e, ended, (n, ap (λ t. session_run t cs) e ∙ f))
