-- ===== src/DebugText/Bounds.antt =====
-- crates/translator-daemon/src/debug.rs: how much text the buffer keeps, and which.
use translator.Prelude.{
  ℕ, zero, suc, ◌+◌, ◌≡◌, ◌≤◌, inl, inr, arith, Bool, false, ltb, List, [], ◌∷◌, ◌++◌, length,
  Bool-cases,
}
use translator.DebugText.{
  DebugTextEvent, bytes, DebugTextBuffer, empty_buffer, clear, set_enabled, wrapping_sub, is_full,
  evict, push,
}

unfoldable pub total : List DebugTextEvent → ℕ
total [] = 0
total (e ∷ es) = bytes e + total es

total-++ :
    (es : List DebugTextEvent) (e : DebugTextEvent) → total (es ++ e ∷ []) ≡ total es + bytes e
unfolding total
total-++ [] e = omega arith
total-++ (x ∷ es) e = ground (arith, total-++ es e)

length-snoc :
    (es : List DebugTextEvent) (e : DebugTextEvent) → length (es ++ e ∷ []) ≡ length es + 1
length-snoc [] e = omega arith
length-snoc (x ∷ es) e = ground (arith, length-snoc es e)

-- The count of the bytes is right, the bounds hold, and a buffer that is off keeps nothing.
abbrev pub IsBounded : DebugTextBuffer → Type 0
IsBounded b =
    (b.bytes_used ≡ total b.events)
    × (length b.events ≤ 200)
    × (b.bytes_used ≤ 1048576)
    × (b.enabled ≡ false → b.events ≡ [])

evict-fits :
    (es : List DebugTextEvent) (used event_bytes : ℕ)
    → used ≡ total es
    → used ≤ 1048576
    → event_bytes ≤ 1048576
    → let (kept, left) = evict es used event_bytes in
      (left ≡ total kept) × (length kept + 1 ≤ 200) × (left + event_bytes ≤ 1048576)
unfolding evict total is_full
evict-fits [] used event_bytes u m l = ground arith
evict-fits (e ∷ es) used event_bytes u m l =
    let left : wrapping_sub used (bytes e) ≡ total es = omega (arith, u, m) in
    let rest =
      evict-fits es (wrapping_sub used (bytes e)) event_bytes left (omega (arith, u, m, left)) l in
    elim (Bool-cases (is_full (e ∷ es) used event_bytes)) [
      | inl f ↦ rw (f, evict) rest
      | inr f ↦ rw (f, evict) (ground (arith, f))
    ]

-- The list without its first k events.
unfoldable pub drop_first : ℕ → List DebugTextEvent → List DebugTextEvent
drop_first zero es = es
drop_first (suc k) [] = []
drop_first (suc k) (e ∷ es) = drop_first k es

pub data Call : Type 0 where
  enables : Bool → Call
  clears : Call
  pushes : DebugTextEvent → Call

unfoldable pub step : DebugTextBuffer → Call → DebugTextBuffer
unfolding set_enabled clear push
step b (enables e) = set_enabled b e
step b clears = clear b
step b (pushes e) = (push b e).0

unfoldable pub after : DebugTextBuffer → List Call → DebugTextBuffer
unfolding step
after b [] = b
after b (c ∷ cs) = after (step b c) cs

push-IsBounded : (b : DebugTextBuffer) (e : DebugTextEvent) → IsBounded b → IsBounded (push b e).0
unfolding push
push-IsBounded b e h =
    let (kept, left) = evict b.events b.bytes_used (bytes e) in
    elim (Bool-cases (ltb 1048576 (bytes e))) [
      | inl f ↦ ground (arith, f, h)
      | inr f ↦ ground (
        arith,
        f,
        h,
        evict-fits b.events b.bytes_used (bytes e) h.0 h.2 (ground (arith, f)),
        total-++ kept e,
        length-snoc kept e,
      )
    ]

step-IsBounded : (b : DebugTextBuffer) (c : Call) → IsBounded b → IsBounded (step b c)
unfolding step set_enabled clear total
step-IsBounded b (enables e) h = ground (arith, h)
step-IsBounded b clears h = ground (arith, h)
step-IsBounded b (pushes e) h = push-IsBounded b e h

after-IsBounded_from : (b : DebugTextBuffer) (cs : List Call) → IsBounded b → IsBounded (after b cs)
unfolding after
after-IsBounded_from b [] h = h
after-IsBounded_from b (c ∷ cs) h = after-IsBounded_from (step b c) cs (step-IsBounded b c h)

-- Whatever is pushed, cleared and switched, the buffer keeps at most 200 events of at most 1 MiB in all,
-- its count of bytes is that of its events, and it keeps nothing while it is off.
pub after-IsBounded : (cs : List Call) → IsBounded (after empty_buffer cs)
unfolding empty_buffer total
after-IsBounded cs = after-IsBounded_from empty_buffer cs (ground arith)
