-- ===== src/Reviews/Summary.antt =====
-- What the figures of a provider's summary mean.
use bodhrik_fullstack_assess.Common.{
  ℕ, ◌+◌, ◌≤◌, ◌<◌, ◌≡◌, refl, ap, ◌∙◌, inl, inr, Bool, ◌&&◌, some, List, [], ◌∷◌, arith, ◌==◌,
  Bool-cases, length, All,
}
use bodhrik_fullstack_assess.Common.Table.{select}
use bodhrik_fullstack_assess.Models.{Review}
use bodhrik_fullstack_assess.Session.{Session, ok}
use bodhrik_fullstack_assess.Reviews.{ProviderReviewSummary, get_provider_review_summary}
use bodhrik_fullstack_assess.Providers.{get_provider_by_id}
use bodhrik_fullstack_assess.Statistics.{Rounding, ratings_of, lookup, distribution, average_rating}
use bodhrik_fullstack_assess.Statistics.Distribution.{
  InRange, count, at, distribution_counts, distribution_total,
}
use bodhrik_fullstack_assess.Statistics.Average.{average_rating_between}
use bodhrik_fullstack_assess.Reviews.Table.{IsReviewed}

-- the rows behind a summary
abbrev pub about : ℕ → ℕ → Review → Bool
about provider_id rating r = r.provider_id == provider_id && r.rating == rating

pub ratings_of-InRange :
    (p : ℕ) (rs : List Review)
    → All (λ (r : Review). InRange r.rating) rs
    → All InRange (ratings_of p rs)
unfolding ratings_of
ratings_of-InRange p [] h = tt
ratings_of-InRange p (r ∷ rs) h = elim (Bool-cases (r.provider_id == p)) [
  | inl e ↦ rw e (h.0, ratings_of-InRange p rs h.1)
  | inr e ↦ rw e (ratings_of-InRange p rs h.1)
]

pub count-ratings_of :
    (p k : ℕ) (rs : List Review) → count k (ratings_of p rs) ≡ length (select (about p k) rs)
unfolding ratings_of count
count-ratings_of p k [] = refl
count-ratings_of p k (r ∷ rs) = ground (arith, count-ratings_of p k rs)

pub length-ratings_of :
    (p : ℕ) (rs : List Review)
    → length (ratings_of p rs) ≡ length (select (λ (r : Review). r.provider_id == p) rs)
unfolding ratings_of
length-ratings_of p [] = refl
length-ratings_of p (r ∷ rs) = ground (arith, length-ratings_of p rs)

summary_fields :
    (rounding : Rounding) (p : ℕ) (s : Session) {sm : ProviderReviewSummary}
    → (get_provider_review_summary rounding p s).0 ≡ ok sm
    → let rs = ratings_of p s.working.reviews in
      (sm.review_count ≡ length rs)
      × (sm.average_rating ≡ average_rating rounding rs)
      × (sm.rating_distribution ≡ distribution rs)
unfolding get_provider_review_summary get_provider_by_id
summary_fields rounding p s {sm} h = ground arith

-- In a summary of a provider each rating from 1 to 5 has the number of the provider's reviews with
-- that rating, and the counts of the five add up to `review_count`, the number of all the
-- provider's reviews, where the stored ratings are from 1 to 5.
pub summary_counts :
    (rounding : Rounding) (p : ℕ) (s : Session) (sm : ProviderReviewSummary)
    → (get_provider_review_summary rounding p s).0 ≡ ok sm
    → IsReviewed s.working.reviews
    → (k : ℕ) → 1 ≤ k
    → k ≤ 5
    → let d = sm.rating_distribution in
      (lookup k d ≡ some (length (select (about p k) s.working.reviews)))
      × (at 1 d + at 2 d + at 3 d + at 4 d + at 5 d ≡ sm.review_count)
      × (sm.review_count ≡ length (select (λ (r : Review). r.provider_id == p) s.working.reviews))
summary_counts rounding p s sm h table k lo hi =
    let (n, avg, d) = summary_fields rounding p s h in
    let rs = ratings_of p s.working.reviews in
    (
      rw d (distribution_counts rs k lo hi ∙ ap some (count-ratings_of p k s.working.reviews)),
      rw (d, n) (distribution_total rs (ratings_of-InRange p s.working.reviews table.ranges)),
      n ∙ length-ratings_of p s.working.reviews,
    )

-- The average of a provider with a review is from 1.00 to 5.00, where the stored ratings are from
-- 1 to 5.
pub summary_average :
    (rounding : Rounding) (p : ℕ) (s : Session) (sm : ProviderReviewSummary)
    → (get_provider_review_summary rounding p s).0 ≡ ok sm
    → IsReviewed s.working.reviews
    → 0 < sm.review_count
    → (100 ≤ sm.average_rating) × (sm.average_rating ≤ 500)
summary_average rounding p s sm h table some_review =
    let (n, avg, d) = summary_fields rounding p s h in
    rw avg (
      average_rating_between rounding 1 5 (ratings_of p s.working.reviews) (rw n at some_review)
        (ratings_of-InRange p s.working.reviews table.ranges))
