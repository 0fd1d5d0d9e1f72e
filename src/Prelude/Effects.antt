-- ===== src/Prelude/Effects.antt =====
-- Methods with `&mut self` that can fail or panic: the state comes back after a failure too, since
-- what was written stays written, and `none` is a panic.
use mathlib.Core.Option.{Option, none, some}
use mathlib.Core.Path.{◌≡◌}
use mathlib.Core.Logic.{inl, inr}
use translator.Prelude.Tests.{Option-cases}
use translator.Prelude.Results.{Result, ok, err}

abbrev pub Effect : Type 0 → Type 0 → Type 0 → Type 0
Effect S E A = S → Option (S × Result A E)

infixl 5 ◌>>=◌ ◌>>◌
abbrev pub ◌>>=◌ : {S E A B : Type 0} → Effect S E A → (A → Effect S E B) → Effect S E B
◌>>=◌ m f s = elim (m s) [
  | none ↦ none
  | some (s', r) ↦ elim r [ ok a ↦ f a s' | err e ↦ some (s', err e) ]
]

abbrev pub ◌>>◌ : {S E A B : Type 0} → Effect S E A → Effect S E B → Effect S E B
m >> k = m >>= λ _. k

module _ {S E A : Type 0} where
  abbrev pub pure : A → Effect S E A
  pure a s = some (s, ok a)

  abbrev pub fails : E → Effect S E A
  fails e s = some (s, err e)

  -- A result that the state has no part in, such as that of `&self`.
  abbrev pub lift : Result A E → Effect S E A
  lift r s = some (s, r)

-- What holds of a chain, by the three ways its first part can end.
pub bind-cases :
    {S E A B : Type 0} (P : Option (S × Result B E) → Type 0) (m : Effect S E A)
    (f : A → Effect S E B) (s : S)
    → (m s ≡ none → P none)
    → ((t : S) (e : E) → m s ≡ some (t, err e) → P (some (t, err e)))
    → ((t : S) (a : A) → m s ≡ some (t, ok a) → P (f a t))
    → P ((m >>= f) s)
bind-cases P m f s panics refused goes = elim (Option-cases (m s)) [
  | inl h ↦ rw (h, ◌>>=◌) (panics h)
  | inr ((t, ok a), h) ↦ rw (h, ◌>>=◌) (goes t a h)
  | inr ((t, err e), h) ↦ rw (h, ◌>>=◌) (refused t e h)
]
