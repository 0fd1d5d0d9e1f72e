-- ===== src/DebugText/Oldest.antt =====
-- crates/translator-daemon/src/debug.rs: what a push drops.
use translator.Prelude.{
  ℕ, zero, suc, ◌≡◌, ◌≤◌, ◌<◌, inl, inr, refl, sym, arith, true, List, [], ◌∷◌, ◌++◌, Bool-cases,
}
use translator.DebugText.{
  DebugTextEvent, bytes, DebugTextBuffer, wrapping_sub, is_full, evict, push,
}
use translator.DebugText.Bounds.{total, drop_first, IsBounded}

-- The events without the first k; while fewer are dropped, there is no room.
pub record DropsOldest (es kept : List DebugTextEvent) (event_bytes : ℕ) : Type 0 where
  pub count : ℕ
  pub rest : kept ≡ drop_first count es
  pub needed :
      (j : ℕ) → j < count → is_full (drop_first j es) (total (drop_first j es)) event_bytes ≡ true

dropped_before :
    (e : DebugTextEvent) (es : List DebugTextEvent) (event_bytes k : ℕ)
    → ((j : ℕ) → j < k → is_full (drop_first j es) (total (drop_first j es)) event_bytes ≡ true)
    → is_full (e ∷ es) (total (e ∷ es)) event_bytes ≡ true
    → (j : ℕ) → j < suc k
    → is_full (drop_first j (e ∷ es)) (total (drop_first j (e ∷ es))) event_bytes ≡ true
unfolding drop_first
dropped_before e es event_bytes k h f zero l = f
dropped_before e es event_bytes k h f (suc j) l = h j (omega (arith, l))

evict-DropsOldest :
    (es : List DebugTextEvent) (used event_bytes : ℕ)
    → used ≡ total es
    → used ≤ 1048576
    → DropsOldest es (evict es used event_bytes).0 event_bytes
unfolding evict total drop_first
evict-DropsOldest [] used event_bytes u m = record {
  count = 0;
  rest = refl;
  needed = λ j l. absurd (omega (arith, l));
}
evict-DropsOldest (e ∷ es) used event_bytes u m =
    let left : wrapping_sub used (bytes e) ≡ total es = omega (arith, u, m) in
    let ih =
      evict-DropsOldest es (wrapping_sub used (bytes e)) event_bytes left
        (omega (arith, u, m, left)) in
    elim (Bool-cases (is_full (e ∷ es) used event_bytes)) [
      | inr f ↦
          rw (f, evict)
            (record { count = 0; rest = refl; needed = λ j l. absurd (omega (arith, l)) })
      | inl f ↦
          rw (f, evict)
            (record {
              count = suc ih.count;
              rest = ih.rest;
              needed = λ j l. dropped_before e es event_bytes ih.count ih.needed (rw (sym u) f) j l;
            })
    ]

-- An event that is taken is the last one; the oldest events are dropped for it, and no more of them than
-- it takes until there is room.
pub push-DropsOldest :
    (b : DebugTextBuffer) (e : DebugTextEvent)
    → IsBounded b
    → (push b e).1 ≡ true
    → (kept : List DebugTextEvent) × ((push b e).0.events ≡ kept ++ e ∷ [])
      × DropsOldest b.events kept (bytes e)
unfolding push
push-DropsOldest b e h p =
    let (kept, left) = evict b.events b.bytes_used (bytes e) in
    (kept, ground (arith, p), evict-DropsOldest b.events b.bytes_used (bytes e) h.0 h.2)
