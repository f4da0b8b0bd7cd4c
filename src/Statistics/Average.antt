-- ===== src/Statistics/Average.antt =====
-- The bounds of an average.
use bodhrik_fullstack_assess.Common.{ℕ, ◌+◌, ◌*◌, ◌≤◌, ◌<◌, List, [], ◌∷◌, arith, length, All}
use native.Mathlib.Decide.{dec_le}
use bodhrik_fullstack_assess.Statistics.{Rounding, sum, average_rating}

sum_bounds :
    (lo hi : ℕ) (rs : List ℕ)
    → All (λ r. (lo ≤ r) × (r ≤ hi)) rs
    → (lo * length rs ≤ sum rs) × (sum rs ≤ hi * length rs)
unfolding sum
sum_bounds lo hi [] h = (grind arith, grind arith)
sum_bounds lo hi (r ∷ rs) h =
    let ih = sum_bounds lo hi rs h.1 in (grind (arith, ih.0), grind (arith, ih.1))

le_of_mul : (a b c : ℕ) → 0 < c → 2 * a * c ≤ (2 * b + 1) * c → a ≤ b
le_of_mul a b c pos h = elim (dec_le a b) [
  | yes p ↦ p
  | no p ↦ absurd (
      let more : b + 1 ≤ a = omega arith in
      let scaled : (b + 1) * c ≤ a * c = grind arith in omega arith)
]

-- If every rating lies between `lo` and `hi`, so does the rounded average, in hundredths.
pub average_rating_between :
    (rounding : Rounding) (lo hi : ℕ) (rs : List ℕ)
    → 0 < length rs
    → All (λ r. (lo ≤ r) × (r ≤ hi)) rs
    → (100 * lo ≤ average_rating rounding rs) × (average_rating rounding rs ≤ 100 * hi)
unfolding average_rating
average_rating_between rounding lo hi rs some_review h =
    let n = length rs in
    let avg = rounding.hundredths (sum rs) n in
    let (low, high) = sum_bounds lo hi rs h in
    let above = rounding.not_above (sum rs) n some_review in
    let below = rounding.not_below (sum rs) n some_review in
    let le_avg : 100 * lo ≤ avg = le_of_mul (100 * lo) avg n some_review (omega arith) in
    let avg_le : avg ≤ 100 * hi = le_of_mul avg (100 * hi) n some_review (omega arith) in
    (ground arith, ground arith)
