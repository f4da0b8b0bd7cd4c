-- ===== src/Statistics.antt =====
-- The aggregation over a provider's reviews that review_service.py and review_summary_service.py
-- share: count, average, and the distribution of ratings.
pub mod Distribution
pub mod Average
use bodhrik_fullstack_assess.Common.{
  ℕ, zero, suc, ◌+◌, ◌-◌, ◌*◌, ◌/◌, ◌≤◌, ◌<◌, String, ◌≡◌, refl, sym, ap, ◌∙◌, subst, ◌≢◌, ◌↔◌, ◌⊎◌,
  inl, inr, Bool, true, false, not, ◌&&◌, ◌||◌, Option, none, some, List, [], ◌∷◌, ◌++◌, map, arith,
  str_eq, eq_iff, ◌<>◌, ⊤, ltb, leb, ◌==◌, if◌then◌else◌, ==_iff, Bool-cases, Option-cases, is_some,
  or_default, length, take, drop, any, length-append, any-append, length-take-le, All, All-append,
}
use bodhrik_fullstack_assess.Common.Table.{
  select, first, update_where, delete_where, order_by, page, All-select, first-test, first-any,
  All-page,
}
use bodhrik_fullstack_assess.Models.{
  UserRole, BookingStatus, NotificationType, role_eq, status_eq, type_eq, status_value, User,
  Booking, Review, Notification, Database,
}
use bodhrik_fullstack_assess.Session.{
  Session, Exception, Result, ok, err, http, integrity, operational, Action, pure, raise,
  http_error, query, ◌>>=◌, ◌>>◌, raise_if, or_raise, lift, on_error, find_user, find_booking,
  find_review, find_notification, uuid4, clock, set_booking, add_booking, insert_booking,
  flush_booking, refreshed_booking, booking_changed, insert_review, flush_review, refreshed_review,
  insert_or_ignore, execute, commit, rollback, Environment, open_session, serve,
}

-- the ratings of a provider: SELECT rating … WHERE provider_id
unfoldable pub ratings_of : ℕ → List Review → List ℕ
ratings_of provider_id rs = map (λ r. r.rating) (select (λ r. r.provider_id == provider_id) rs)

-- func.sum, of which func.avg is the quotient
unfoldable pub sum : List ℕ → ℕ
sum [] = 0
sum (x ∷ xs) = x + sum xs

-- SELECT rating, count(id) … GROUP BY rating: one row for each rating that occurs
bump : ℕ → List (ℕ × ℕ) → List (ℕ × ℕ)
bump r [] = (r, 1) ∷ []
bump r ((k, n) ∷ rows) = if k == r then (k, n + 1) ∷ rows else (k, n) ∷ bump r rows

pub group_by_rating : List ℕ → List (ℕ × ℕ)
unfolding bump
group_by_rating [] = []
group_by_rating (r ∷ rs) = bump r (group_by_rating rs)

-- A dict in insertion order. A key `str(i)` is written as the number `i`.
unfoldable pub lookup : ℕ → List (ℕ × ℕ) → Option ℕ
lookup k [] = none
lookup k ((j, v) ∷ d) = if j == k then some v else lookup k d

insert : ℕ → ℕ → List (ℕ × ℕ) → List (ℕ × ℕ)
insert k v [] = (k, v) ∷ []
insert k v ((j, w) ∷ d) = if j == k then (k, v) ∷ d else (j, w) ∷ insert k v d

-- `{str(i): 0 for i in range(1, 6)}`
abbrev pub empty_distribution : List (ℕ × ℕ)
empty_distribution = (1, 0) ∷ (2, 0) ∷ (3, 0) ∷ (4, 0) ∷ (5, 0) ∷ []

-- `for r, cnt in dist_rows: distribution[str(r)] = cnt`
fill : List (ℕ × ℕ) → List (ℕ × ℕ) → List (ℕ × ℕ)
unfolding insert
fill [] d = d
fill ((r, n) ∷ rows) d = fill rows (insert r n d)

unfoldable pub distribution : List ℕ → List (ℕ × ℕ)
unfolding group_by_rating fill
distribution rs = fill (group_by_rating rs) empty_distribution

-- `round(float(avg), 2)` of a sum and a count, in hundredths. The average is PostgreSQL's, and the
-- rounding a float's: both are a parameter, that is within half a hundredth of the quotient.
pub record Rounding : Type 0 where
  pub hundredths : ℕ → ℕ → ℕ
  pub not_above :
      (total count : ℕ) → 0 < count → 2 * hundredths total count * count ≤ 200 * total + count
  pub not_below :
      (total count : ℕ) → 0 < count → 200 * total ≤ 2 * hundredths total count * count + count

-- 0.0 where there is no review
unfoldable pub average_rating : Rounding → List ℕ → ℕ
average_rating rounding rs = if length rs == 0 then 0 else rounding.hundredths (sum rs) (length rs)
