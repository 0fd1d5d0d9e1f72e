-- ===== src/Prelude/PairMap.antt =====
-- HashMap with a pair of numbers as its key: an association list, as in Map.
use Prim.Native.Nat.{ℕ}
use mathlib.Core.Path.{◌≡◌, refl}
use mathlib.Core.Bool.{Bool, ◌&&◌}
use mathlib.Core.List.{List, [], ◌∷◌}
use mathlib.Core.Option.{Option, none, some}
use native.Mathlib.Omega.{arith}
use translator.Prelude.Tests.{◌==◌, if◌then◌else◌}

abbrev pub PairMap {ℓ} : Type ℓ → Type ℓ
PairMap V = List ((ℕ × ℕ) × V)

-- The derived `PartialEq` of a pair.
abbrev pub same_pair : ℕ × ℕ → ℕ × ℕ → Bool
same_pair (a, b) (c, d) = a == c && b == d

module _ {ℓ} {V : Type ℓ} where
  unfoldable pub get_pair : ℕ × ℕ → PairMap V → Option V
  get_pair k [] = none
  get_pair k ((j, v) ∷ m) = if same_pair j k then some v else get_pair k m

  unfoldable pub insert_pair : ℕ × ℕ → V → PairMap V → PairMap V
  insert_pair k v [] = (k, v) ∷ []
  insert_pair k v ((j, w) ∷ m) = if same_pair j k then (k, v) ∷ m else (j, w) ∷ insert_pair k v m

  unfoldable pub remove_pair : ℕ × ℕ → PairMap V → PairMap V
  remove_pair k [] = []
  remove_pair k ((j, w) ∷ m) =
      let rest = remove_pair k m in if same_pair j k then rest else (j, w) ∷ rest

  pub get_pair-insert_pair :
      (k j : ℕ × ℕ) (v : V) (m : PairMap V)
      → get_pair j (insert_pair k v m) ≡ (if same_pair k j then some v else get_pair j m)
  unfolding get_pair insert_pair
  get_pair-insert_pair k j v [] = refl
  get_pair-insert_pair k j v (((a, b), w) ∷ m) = ground (arith, get_pair-insert_pair k j v m)

  pub get_pair-remove_pair :
      (k j : ℕ × ℕ) (m : PairMap V)
      → get_pair j (remove_pair k m) ≡ (if same_pair k j then none else get_pair j m)
  unfolding get_pair remove_pair
  get_pair-remove_pair k j [] = ground arith
  get_pair-remove_pair k j (((a, b), w) ∷ m) = ground (arith, get_pair-remove_pair k j m)
