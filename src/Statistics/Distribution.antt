-- ===== src/Statistics/Distribution.antt =====
-- What a distribution counts.
use bodhrik_fullstack_assess.Common.{
  ℕ, zero, suc, ◌+◌, ◌*◌, ◌≤◌, ◌≡◌, refl, ap, ◌∙◌, inl, inr, false, Option, none, some, List, [],
  ◌∷◌, arith, ◌==◌, if◌then◌else◌, ==_iff, Bool-cases, or_default, length, All,
}
use bodhrik_fullstack_assess.Statistics.{
  sum, bump, group_by_rating, lookup, insert, fill, distribution, empty_distribution,
}

-- How often a rating occurs.
unfoldable pub count : ℕ → List ℕ → ℕ
count k [] = 0
count k (x ∷ xs) = (if x == k then 1 else 0) + count k xs

abbrev group_of : ℕ → Option ℕ
group_of zero = none
group_of (suc n) = some (suc n)

lookup-bump_self :
    (r : ℕ) (rows : List (ℕ × ℕ)) → lookup r (bump r rows) ≡ some (or_default (lookup r rows) 0 + 1)
unfolding lookup bump
lookup-bump_self r [] = ground arith
lookup-bump_self r ((k, n) ∷ rows) = ground (arith, lookup-bump_self r rows)

lookup-bump_ne :
    (k r : ℕ) (rows : List (ℕ × ℕ)) → (r == k) ≡ false → lookup k (bump r rows) ≡ lookup k rows
unfolding lookup bump
lookup-bump_ne k r [] h = ground arith
lookup-bump_ne k r ((j, n) ∷ rows) h = ground (arith, lookup-bump_ne k r rows h)

group_of-suc : (n : ℕ) → some (or_default (group_of n) 0 + 1) ≡ group_of (1 + n)
group_of-suc zero = ground arith
group_of-suc (suc n) = ground arith

-- The groups hold the number of occurrences of each rating that occurs.
lookup-group : (k : ℕ) (rs : List ℕ) → lookup k (group_by_rating rs) ≡ group_of (count k rs)
unfolding group_by_rating lookup count
lookup-group k [] = refl
lookup-group k (r ∷ rs) = elim (Bool-cases (r == k)) [
  | inl e ↦
      let same : r ≡ k = (==_iff r k).0 e in
      rw (e, same)
        (lookup-bump_self k (group_by_rating rs)
          ∙ ap (λ (o : Option ℕ). some (or_default o 0 + 1)) (lookup-group k rs)
          ∙ group_of-suc (count k rs))
  | inr e ↦
      rw e
        (lookup-bump_ne k r (group_by_rating rs) e ∙ lookup-group k rs ∙ ap group_of (ground arith))
]

lookup-insert :
    (k j v : ℕ) (d : List (ℕ × ℕ))
    → lookup j (insert k v d) ≡ (if k == j then some v else lookup j d)
unfolding lookup insert
lookup-insert k j v [] = ground arith
lookup-insert k j v ((i, w) ∷ d) = ground (arith, lookup-insert k j v d)

-- No key stands twice among the groups.
abbrev KeysApart : List (ℕ × ℕ) → Type 0
KeysApart [] = Unit
KeysApart ((k, n) ∷ rows) = (lookup k rows ≡ none) × KeysApart rows

bump-KeysApart : (r : ℕ) (rows : List (ℕ × ℕ)) → KeysApart rows → KeysApart (bump r rows)
unfolding lookup bump
bump-KeysApart r [] h = (refl, tt)
bump-KeysApart r ((k, n) ∷ rows) h = ground (arith, bump-KeysApart r rows, lookup-bump_ne k r rows)

group-KeysApart : (rs : List ℕ) → KeysApart (group_by_rating rs)
unfolding group_by_rating
group-KeysApart [] = tt
group-KeysApart (r ∷ rs) = bump-KeysApart r (group_by_rating rs) (group-KeysApart rs)

lookup-fill :
    (k : ℕ) (rows d : List (ℕ × ℕ))
    → KeysApart rows
    → lookup k (fill rows d) ≡ (elim (lookup k rows) [ none ↦ lookup k d | some n ↦ some n ])
unfolding lookup fill
lookup-fill k [] d h = refl
lookup-fill k ((r, n) ∷ rows) d h =
    ground (arith, lookup-fill k rows (insert r n d) h.1, lookup-insert r k n d)

-- The distribution says of each rating from 1 to 5 how many reviews gave it.
pub distribution_counts :
    (rs : List ℕ) (k : ℕ) → 1 ≤ k → k ≤ 5 → lookup k (distribution rs) ≡ some (count k rs)
unfolding distribution lookup
distribution_counts rs k h h' = ground (
  arith,
  lookup-fill k (group_by_rating rs) empty_distribution (group-KeysApart rs),
  lookup-group k rs,
)

abbrev pub InRange : ℕ → Type 0
InRange r = (1 ≤ r) × (r ≤ 5)

counts_total :
    (rs : List ℕ)
    → All InRange rs
    → count 1 rs + count 2 rs + count 3 rs + count 4 rs + count 5 rs ≡ length rs
unfolding count
counts_total [] h = ground arith
counts_total (r ∷ rs) h = ground (arith, counts_total rs h.1)

-- The sum of ratings from 1 to 5, by their counts.
pub sum_by_counts :
    (rs : List ℕ)
    → All InRange rs
    → sum rs ≡ count 1 rs + 2 * count 2 rs + 3 * count 3 rs + 4 * count 4 rs + 5 * count 5 rs
unfolding sum count
sum_by_counts [] h = ground arith
sum_by_counts (r ∷ rs) h = ground (arith, sum_by_counts rs h.1)

-- the count that is stored under a rating
abbrev pub at : ℕ → List (ℕ × ℕ) → ℕ
at k d = or_default (lookup k d) 0

at-count : (rs : List ℕ) (k : ℕ) → 1 ≤ k → k ≤ 5 → at k (distribution rs) ≡ count k rs
at-count rs k h h' = rw (distribution_counts rs k h h') refl

-- With ratings from 1 to 5, as the table's CHECK demands, the five counts add up to the number of
-- reviews.
pub distribution_total :
    (rs : List ℕ)
    → All InRange rs
    → let d = distribution rs in at 1 d + at 2 d + at 3 d + at 4 d + at 5 d ≡ length rs
distribution_total rs h = omega (
  arith,
  counts_total rs h,
  at-count rs 1 (omega arith) (omega arith),
  at-count rs 2 (omega arith) (omega arith),
  at-count rs 3 (omega arith) (omega arith),
  at-count rs 4 (omega arith) (omega arith),
  at-count rs 5 (omega arith) (omega arith),
)
