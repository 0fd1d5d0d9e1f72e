-- ===== src/Prelude/Words.antt =====
-- Machine words as plain numbers: wrapping, saturating and checked arithmetic of u32 and u64.
use Prim.Native.Nat.{ℕ, ◌+◌, ◌-◌, ◌%◌}
use mathlib.Core.Option.{Option, none, some}
use translator.Prelude.Tests.{leb, if◌then◌else◌}

abbrev pub u32_mod : ℕ
u32_mod = 4294967296

abbrev pub u64_mod : ℕ
u64_mod = 18446744073709551616

abbrev pub u32 : ℕ → ℕ
u32 n = n % u32_mod

abbrev pub u64 : ℕ → ℕ
u64 n = n % u64_mod

-- `u64::saturating_add` and, for a 64-bit target, `usize::saturating_add`.
abbrev pub saturating_add64 : ℕ → ℕ → ℕ
saturating_add64 a b = if leb (a + b) 18446744073709551615 then a + b else 18446744073709551615

abbrev pub saturating_add32 : ℕ → ℕ → ℕ
saturating_add32 a b = if leb (a + b) 4294967295 then a + b else 4294967295

abbrev pub checked_add32 : ℕ → ℕ → Option ℕ
checked_add32 a b = if leb (a + b) 4294967295 then some (a + b) else none

abbrev pub checked_add64 : ℕ → ℕ → Option ℕ
checked_add64 a b = if leb (a + b) 18446744073709551615 then some (a + b) else none

-- `checked_sub` of any unsigned width.
abbrev pub checked_sub : ℕ → ℕ → Option ℕ
checked_sub a b = if leb b a then some (a - b) else none
