-- ===== src/Latency/Percentile.antt =====
-- crates/translator-daemon/src/latency.rs, `nearest_rank_p95`: the nearest-rank percentile over a
-- sorted copy of the values. `none` stands for the panic of an index out of bounds.
pub mod Bounds
use translator.Prelude.{
  ℕ, ◌+◌, ◌-◌, ◌*◌, ◌/◌, leb, if◌then◌else◌, List, [], ◌∷◌, Option, get_elem?, length, u64,
}

-- `sort_unstable` on numbers: the sorted list is the only result that it can give.
unfoldable pub insert_sorted : ℕ → List ℕ → List ℕ
insert_sorted a [] = a ∷ []
insert_sorted a (x ∷ xs) = if leb a x then a ∷ x ∷ xs else x ∷ insert_sorted a xs

unfoldable pub sort : List ℕ → List ℕ
unfolding insert_sorted
sort [] = []
sort (x ∷ xs) = insert_sorted x (sort xs)

-- `(95 * len).div_ceil(100)`, with a usize of 64 bits.
abbrev pub rank : ℕ → ℕ
rank n = (u64 (95 * n) + 99) / 100

unfoldable pub nearest_rank_p95 : List ℕ → Option ℕ
unfolding sort
nearest_rank_p95 values = get_elem? (sort values) (rank (length values) - 1)
