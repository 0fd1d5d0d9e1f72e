-- ===== src/Latency/Percentile/Bounds.antt =====
-- crates/translator-daemon/src/latency.rs: the bounds of `nearest_rank_p95`, and its result against a
-- count of the values.
use translator.Prelude.{
  ℕ, zero, suc, ◌+◌, ◌-◌, ◌*◌, ◌≤◌, ◌<◌, ◌≡◌, refl, leb, ltb, if◌then◌else◌, List, [], ◌∷◌, some,
  get_elem?, length, arith, u64_mod,
}
use translator.Latency.Percentile.{insert_sorted, sort, rank, nearest_rank_p95}

length-insert_sorted : (a : ℕ) (xs : List ℕ) → length (insert_sorted a xs) ≡ suc (length xs)
unfolding insert_sorted
length-insert_sorted a [] = refl
length-insert_sorted a (x ∷ xs) = ground (arith, length-insert_sorted a xs)

length-sort : (xs : List ℕ) → length (sort xs) ≡ length xs
unfolding sort
length-sort [] = refl
length-sort (x ∷ xs) = omega (arith, length-insert_sorted x (sort xs), length-sort xs)

get_elem?-in_bounds : (xs : List ℕ) (i : ℕ) → i < length xs → (v : ℕ) × (get_elem? xs i ≡ some v)
get_elem?-in_bounds [] i h = absurd (omega arith)
get_elem?-in_bounds (x ∷ xs) zero h = (x, refl)
get_elem?-in_bounds (x ∷ xs) (suc i) h = get_elem?-in_bounds xs i (omega arith)

-- On a non-empty list the index is in bounds, at any length that a usize holds.
pub nearest_rank_p95-returns :
    (values : List ℕ) → 0 < length values → (v : ℕ) × (nearest_rank_p95 values ≡ some v)
unfolding nearest_rank_p95
nearest_rank_p95-returns values h =
    get_elem?-in_bounds (sort values) (rank (length values) - 1) (omega (arith, length-sort values))

-- How many of the values are at most, and below, a given one.
pub count_le : ℕ → List ℕ → ℕ
count_le v [] = 0
count_le v (x ∷ xs) = (if leb x v then 1 else 0) + count_le v xs

pub count_lt : ℕ → List ℕ → ℕ
count_lt v [] = 0
count_lt v (x ∷ xs) = (if ltb x v then 1 else 0) + count_lt v xs

abbrev AtLeast : ℕ → List ℕ → Type 0
AtLeast a [] = Unit {0}
AtLeast a (x ∷ xs) = (a ≤ x) × AtLeast a xs

abbrev IsSorted : List ℕ → Type 0
IsSorted [] = Unit {0}
IsSorted (x ∷ xs) = AtLeast x xs × IsSorted xs

AtLeast-mono : (a b : ℕ) (xs : List ℕ) → a ≤ b → AtLeast b xs → AtLeast a xs
AtLeast-mono a b [] h s = tt
AtLeast-mono a b (x ∷ xs) h s = (omega arith, AtLeast-mono a b xs h s.1)

AtLeast-insert_sorted :
    (b a : ℕ) (xs : List ℕ) → b ≤ a → AtLeast b xs → AtLeast b (insert_sorted a xs)
unfolding insert_sorted
AtLeast-insert_sorted b a [] h s = (h, tt)
AtLeast-insert_sorted b a (x ∷ xs) h s = ground (arith, AtLeast-insert_sorted b a xs)

insert_sorted-IsSorted : (a : ℕ) (xs : List ℕ) → IsSorted xs → IsSorted (insert_sorted a xs)
unfolding insert_sorted
insert_sorted-IsSorted a [] s = (tt, tt)
insert_sorted-IsSorted a (x ∷ xs) s =
    ground (arith, AtLeast-mono a x xs, AtLeast-insert_sorted x a xs, insert_sorted-IsSorted a xs)

sort-IsSorted : (xs : List ℕ) → IsSorted (sort xs)
unfolding sort
sort-IsSorted [] = tt
sort-IsSorted (x ∷ xs) = insert_sorted-IsSorted x (sort xs) (sort-IsSorted xs)

counts-insert_sorted :
    (v a : ℕ) (xs : List ℕ)
    → (count_le v (insert_sorted a xs) ≡ count_le v (a ∷ xs))
      × (count_lt v (insert_sorted a xs) ≡ count_lt v (a ∷ xs))
unfolding count_le count_lt insert_sorted
counts-insert_sorted v a [] = (refl, refl)
counts-insert_sorted v a (x ∷ xs) = ground (arith, counts-insert_sorted v a xs)

counts-sort :
    (v : ℕ) (xs : List ℕ)
    → (count_le v (sort xs) ≡ count_le v xs) × (count_lt v (sort xs) ≡ count_lt v xs)
unfolding count_le count_lt sort
counts-sort v [] = (refl, refl)
counts-sort v (x ∷ xs) = omega (arith, counts-insert_sorted v x (sort xs), counts-sort v xs)

count_lt_none : (v : ℕ) (xs : List ℕ) → AtLeast v xs → count_lt v xs ≡ 0
unfolding count_lt
count_lt_none v [] s = refl
count_lt_none v (x ∷ xs) s = ground (arith, count_lt_none v xs)

-- Where a value of a sorted list at some place lies above its head.
AtLeast-head : (a : ℕ) (xs : List ℕ) (i v : ℕ) → AtLeast a xs → get_elem? xs i ≡ some v → a ≤ v
AtLeast-head a [] i v s e = ground arith
AtLeast-head a (x ∷ xs) zero v s e = ground arith
AtLeast-head a (x ∷ xs) (suc i) v s e = AtLeast-head a xs i v s.1 e

place_counts :
    (xs : List ℕ) (i v : ℕ)
    → IsSorted xs
    → get_elem? xs i ≡ some v
    → (i < count_le v xs) × (count_lt v xs ≤ i)
unfolding count_le count_lt
place_counts [] i v s e = ground arith
place_counts (x ∷ xs) zero v s e = ground (arith, count_lt_none v xs)
place_counts (x ∷ xs) (suc i) v s e =
    ground (arith, AtLeast-head x xs i v, place_counts xs i v s.1 e)

index_lt : (xs : List ℕ) (i v : ℕ) → get_elem? xs i ≡ some v → i < length xs
index_lt [] i v e = ground arith
index_lt (x ∷ xs) zero v e = omega arith
index_lt (x ∷ xs) (suc i) v e = omega (arith, index_lt xs i v e)

-- The value returned is the nearest-rank 95th percentile: at least 95 % of the values are at most as
-- large, and fewer than 95 % are smaller.
pub nearest_rank_p95_percentile :
    (values : List ℕ) (v : ℕ)
    → 95 * length values < u64_mod
    → nearest_rank_p95 values ≡ some v
    → (95 * length values ≤ 100 * count_le v values)
      × (100 * count_lt v values < 95 * length values)
unfolding nearest_rank_p95
nearest_rank_p95_percentile values v small e =
    let at = place_counts (sort values) (rank (length values) - 1) v (sort-IsSorted values) e in
    omega (
      arith,
      at,
      counts-sort v values,
      length-sort values,
      index_lt (sort values) (rank (length values) - 1) v e,
    )
