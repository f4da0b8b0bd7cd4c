-- ===== src/Summary/Figures.antt =====
-- The figures of a summary, in terms of the rows of the table of reviews.
use bodhrik_fullstack_assess.Common.{
  ℕ, ◌+◌, ◌*◌, ◌≤◌, ◌≡◌, refl, ap, ◌∙◌, some, List, [], ◌∷◌, arith, ◌==◌, if◌then◌else◌, length,
  All,
}
use bodhrik_fullstack_assess.Common.Table.{select}
use bodhrik_fullstack_assess.Models.{User, Review, Database}
use bodhrik_fullstack_assess.Reviews.Table.{IsReviewed}
use bodhrik_fullstack_assess.Reviews.Summary.{
  about, ratings_of-InRange, count-ratings_of, length-ratings_of,
}
use bodhrik_fullstack_assess.Statistics.{
  Rounding, ratings_of, lookup, sum, average_rating, distribution,
}
use bodhrik_fullstack_assess.Statistics.Distribution.{distribution_counts, sum_by_counts}
use bodhrik_fullstack_assess.Summary.Redis.{ReviewSummaryResult}
use bodhrik_fullstack_assess.Summary.Service.{Printing, summarise}

-- how many reviews a provider has, how many of them with a rating, and the sum of their ratings
abbrev pub reviews_of : ℕ → List Review → ℕ
reviews_of p rs = length (select (λ (r : Review). r.provider_id == p) rs)

abbrev pub rated : ℕ → List Review → ℕ → ℕ
rated p rs k = length (select (about p k) rs)

abbrev pub total_of : ℕ → List Review → ℕ
total_of p rs =
    rated p rs 1 + 2 * rated p rs 2 + 3 * rated p rs 3 + 4 * rated p rs 4 + 5 * rated p rs 5

-- The result names the provider and the time, counts the provider's rows, all of them and those of
-- each rating, and has their rounded average.
pub record Figures (rounding : Rounding) (now p : ℕ) (provider : User) (db : Database)
    (result : ReviewSummaryResult) : Type 0 where
  pub provider_id : result.provider_id ≡ p
  pub provider_name : result.provider_name ≡ provider.name
  pub generated_at : result.generated_at ≡ now
  pub review_count : result.review_count ≡ reviews_of p db.reviews
  pub rating_distribution :
      All
        (λ k. lookup k result.rating_distribution ≡ some (rated p db.reviews k))
        (1 ∷ 2 ∷ 3 ∷ 4 ∷ 5 ∷ [])
  pub average_rating : result.average_rating ≡ (
      if reviews_of p db.reviews == 0
      then 0
      else rounding.hundredths (total_of p db.reviews) (reviews_of p db.reviews))

total-ratings_of :
    (p : ℕ) (db : Database)
    → IsReviewed db.reviews
    → sum (ratings_of p db.reviews) ≡ total_of p db.reviews
total-ratings_of p db table =
    let counted = λ (k : ℕ). count-ratings_of p k db.reviews in
    sum_by_counts (ratings_of p db.reviews) (ratings_of-InRange p db.reviews table.ranges)
    ∙ rw (counted 1, counted 2, counted 3, counted 4, counted 5) refl

lookup-rated :
    (p k : ℕ) (db : Database)
    → 1 ≤ k
    → k ≤ 5
    → lookup k (distribution (ratings_of p db.reviews)) ≡ some (rated p db.reviews k)
lookup-rated p k db lo hi =
    distribution_counts (ratings_of p db.reviews) k lo hi
    ∙ ap some (count-ratings_of p k db.reviews)

pub summarise-Figures :
    (print : Printing) (now p : ℕ) (provider : User) (db : Database)
    → IsReviewed db.reviews
    → Figures print.rounding now p provider db
        (summarise print now p provider (ratings_of p db.reviews))
unfolding average_rating
summarise-Figures print now p provider db table = record {
  provider_id = refl;
  provider_name = refl;
  generated_at = refl;
  review_count = length-ratings_of p db.reviews;
  rating_distribution = (
    lookup-rated p 1 db (omega arith) (omega arith),
    (
      lookup-rated p 2 db (omega arith) (omega arith),
      (
        lookup-rated p 3 db (omega arith) (omega arith),
        (
          lookup-rated p 4 db (omega arith) (omega arith),
          (lookup-rated p 5 db (omega arith) (omega arith), tt),
        ),
      ),
    ),
  );
  average_rating = rw (length-ratings_of p db.reviews, total-ratings_of p db table) refl;
}
