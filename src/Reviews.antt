-- ===== src/Reviews.antt =====
-- app/services/review_service.py. The proofs are in the modules below.
pub mod Guards
pub mod Table
pub mod Summary
pub mod Race
pub mod Effect
use bodhrik_fullstack_assess.Common.{
  ℕ, zero, suc, ◌+◌, ◌-◌, ◌*◌, ◌/◌, ◌≤◌, ◌<◌, String, ◌≡◌, refl, sym, ap, ◌∙◌, subst, ◌≢◌, ◌↔◌, ◌⊎◌,
  inl, inr, Bool, true, false, not, ◌&&◌, ◌||◌, Option, none, some, List, [], ◌∷◌, ◌++◌, map, arith,
  str_eq, eq_iff, ◌<>◌, ⊤, ltb, leb, ◌==◌, if◌then◌else◌, ==_iff, Bool-cases, Option-cases, is_some,
  or_default, length, take, drop, any, length-append, any-append, length-take-le, All, All-append,
}
use bodhrik_fullstack_assess.Common.Table.{
  select, first, update_where, delete_where, order_by, page, All-select, first-test, first-any,
  All-page,
}
use bodhrik_fullstack_assess.Models.{
  UserRole, BookingStatus, NotificationType, role_eq, status_eq, type_eq, status_value, User,
  Booking, Review, Notification, Database,
}
use bodhrik_fullstack_assess.Session.{
  Session, Exception, Result, ok, err, http, integrity, operational, Action, pure, raise,
  http_error, query, ◌>>=◌, ◌>>◌, raise_if, or_raise, lift, on_error, find_user, find_booking,
  find_review, find_notification, uuid4, clock, set_booking, add_booking, insert_booking,
  flush_booking, refreshed_booking, booking_changed, insert_review, flush_review, refreshed_review,
  insert_or_ignore, execute, commit, rollback, Environment, open_session, serve,
}
use bodhrik_fullstack_assess.Session.{on_integrity_error}
use bodhrik_fullstack_assess.Providers.{get_provider_by_id}
use bodhrik_fullstack_assess.Statistics.{Rounding, ratings_of, distribution, average_rating}

-- a ReviewCreate that its validators have passed
pub record ReviewCreate : Type 0 where
  pub booking_id : ℕ
  pub rating : ℕ
  pub comment : Option String

abbrev pub new_review : ℕ → ℕ → User → Booking → ReviewCreate → Review
new_review id now current_user booking review_in = record {
  id = id;
  booking_id = booking.id;
  customer_id = current_user.id;
  provider_id = booking.provider_id;
  rating = review_in.rating;
  comment = review_in.comment;
  created_at = now;
  updated_at = now;
}

abbrev pub has_review : ℕ → Database → Bool
has_review booking_id db = any (λ r. r.booking_id == booking_id) db.reviews

-- steps 1 to 5 of `create_review`
unfoldable pub admit_review : User → ReviewCreate → Action Booking
admit_review current_user review_in = do
  raise_if (not (role_eq current_user.role UserRole.customer)) 403
      "Only customers are permitted to submit reviews"
  found ← query (find_booking review_in.booking_id)
  booking ← or_raise found 404 "Booking not found"
  raise_if (not (booking.customer_id == current_user.id)) 403
      "Not authorized to review this booking"
  raise_if (not (status_eq booking.status BookingStatus.completed)) 400 (
      "Cannot review a booking with status '"
      <> status_value booking.status
      <> "'. Only completed bookings can be reviewed.")
  existing ← query (has_review review_in.booking_id)
  raise_if existing 409 "A review already exists for this booking"
  pure booking

-- step 6
unfoldable pub persist_review : User → ReviewCreate → Booking → Action Review
persist_review current_user review_in booking = do
  id ← uuid4
  now ← clock
  let review = new_review id now current_user booking review_in
  on_integrity_error (insert_review review >> commit >> pure review)
      (rollback >> http_error 409 "A review already exists for this booking")

unfoldable pub create_review : User → ReviewCreate → Action Review
create_review current_user review_in = do
  booking ← admit_review current_user review_in
  persist_review current_user review_in booking

-- the three tests of who may see a review
abbrev pub may_see : User → Review → Bool
may_see user review =
    role_eq user.role UserRole.admin
    || ((role_eq user.role UserRole.customer && review.customer_id == user.id)
        || (role_eq user.role UserRole.provider && review.provider_id == user.id))

unfoldable pub get_review_by_id : ℕ → User → Action Review
get_review_by_id review_id current_user = do
  found ← query (find_review review_id)
  review ← or_raise found 404 "Review not found"
  raise_if (not (may_see current_user review)) 403 "Not authorized to access this review"
  pure review

-- the visibility constraints of `list_reviews`
abbrev pub lists : User → Review → Bool
lists user review = elim user.role [
  | UserRole.customer ↦ review.customer_id == user.id
  | UserRole.provider ↦ review.provider_id == user.id
  | UserRole.admin ↦ true
]

-- its two filters
abbrev pub is_or_any : Option ℕ → ℕ → Bool
is_or_any none n = true
is_or_any (some k) n = n == k

-- ORDER BY created_at DESC, id DESC
abbrev pub newest_review_first : Review → Review → Bool
newest_review_first q r =
    ltb r.created_at q.created_at || (q.created_at == r.created_at && ltb r.id q.id)

unfoldable pub list_reviews : User → Option ℕ → Option ℕ → ℕ → ℕ → Action (List Review)
list_reviews current_user provider_id rating skip limit = query (λ db. page skip limit (
    order_by newest_review_first (
      select
        (λ r.
          lists current_user r
          && (is_or_any provider_id r.provider_id && is_or_any rating r.rating))
        db.reviews)))

pub record ProviderReviewSummary : Type 0 where
  pub provider_id : ℕ
  pub review_count : ℕ
  pub average_rating : ℕ
  pub rating_distribution : List (ℕ × ℕ)

-- the average is in hundredths
unfoldable pub get_provider_review_summary : Rounding → ℕ → Action ProviderReviewSummary
get_provider_review_summary rounding provider_id = do
  get_provider_by_id provider_id
  ratings ← query (λ db. ratings_of provider_id db.reviews)
  pure (record {
    provider_id = provider_id;
    review_count = length ratings;
    average_rating = average_rating rounding ratings;
    rating_distribution = distribution ratings;
  })

-- a ReviewUpdate that its validators have passed
pub record ReviewUpdate : Type 0 where
  pub rating : Option ℕ
  pub comment : Option String

abbrev or_kept : Option String → Option String → Option String
or_kept none old = old
or_kept (some comment) old = some comment

abbrev pub revised : ReviewUpdate → Review → Review
revised u review = record review {
  rating = or_default u.rating review.rating;
  comment = or_kept u.comment review.comment;
}

-- the guards of `update_review`
unfoldable pub open_own_review : ℕ → User → Action Review
open_own_review review_id current_user = do
  found ← query (find_review review_id)
  review ← or_raise found 404 "Review not found"
  raise_if
      (not (role_eq current_user.role UserRole.customer)
        || not (review.customer_id == current_user.id))
      403 "Only the author customer may update this review"
  pure review

-- the assignments to its columns, the commit and the refresh
unfoldable pub save_review : ReviewUpdate → Review → Action Review
save_review review_update review = do
  on_error (flush_review review (revised review_update review) >> commit) rollback
  now ← clock
  pure (refreshed_review now review (revised review_update review))

unfoldable pub update_review : ℕ → ReviewUpdate → User → Action Review
update_review review_id review_update current_user = do
  review ← open_own_review review_id current_user
  save_review review_update review

abbrev pub may_delete : User → Review → Bool
may_delete user review =
    (role_eq user.role UserRole.customer && review.customer_id == user.id)
    || role_eq user.role UserRole.admin

abbrev pub without_review : ℕ → Database → Database
without_review review_id db = record db {
  reviews = delete_where (λ r. r.id == review_id) db.reviews;
}

unfoldable pub delete_review : ℕ → User → Action ⊤
delete_review review_id current_user = do
  found ← query (find_review review_id)
  review ← or_raise found 404 "Review not found"
  raise_if (not (may_delete current_user review)) 403 "Not authorized to delete this review"
  on_error (execute (without_review review.id) >> commit) rollback
