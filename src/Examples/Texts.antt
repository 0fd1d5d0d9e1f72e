-- ===== src/Examples/Texts.antt =====
-- The debug text buffer at concrete inputs.
use translator.Prelude.{◌≡◌, refl, arith, true, List, [], ◌∷◌, ◌++◌}
use translator.DebugText.{DebugTextEvent, bytes, DebugTextBuffer, empty_buffer, push}
use translator.DebugText.Bounds.{enables, clears, pushes, after, IsBounded, total, after-IsBounded}
use translator.DebugText.Oldest.{DropsOldest, push-DropsOldest}

abbrev spoken : DebugTextEvent
spoken = record { transcript = 104 ∷ 105 ∷ []; translation = 111 ∷ [] }

after-IsBounded_example : IsBounded (
    after empty_buffer
      (pushes spoken ∷ enables true ∷ pushes spoken ∷ pushes spoken ∷ clears ∷ pushes spoken ∷ []))
after-IsBounded_example =
    after-IsBounded
      (pushes spoken ∷ enables true ∷ pushes spoken ∷ pushes spoken ∷ clears ∷ pushes spoken ∷ [])

abbrev holding : DebugTextBuffer
holding = record { enabled = true; events = spoken ∷ []; bytes_used = 3 }

holding-IsBounded : IsBounded holding
unfolding total bytes
holding-IsBounded = ground arith

push-DropsOldest_example :
    (kept : List DebugTextEvent) × ((push holding spoken).0.events ≡ kept ++ spoken ∷ [])
    × DropsOldest (spoken ∷ []) kept (bytes spoken)
unfolding push
push-DropsOldest_example = push-DropsOldest holding spoken holding-IsBounded refl
