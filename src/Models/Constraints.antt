-- ===== src/Models/Constraints.antt =====
-- The constraints of app/models: primary keys, foreign keys, CHECK and UNIQUE. Each function
-- names the first constraint that a row to be written would break.
use bodhrik_fullstack_assess.Common.{
  ℕ, Bool, true, false, not, ◌&&◌, Option, none, some, ltb, leb, ◌==◌, any, str_eq, if◌then◌else◌,
}
use bodhrik_fullstack_assess.Models.Enums.{type_eq}
use bodhrik_fullstack_assess.Models.Tables.{User, Booking, Review, Notification, Database}

pub data Constraint : Type 0 where
  primary_key foreign_key : Constraint
  check_booking_end_after_start check_booking_customer_not_provider : Constraint
  check_review_rating_range reviews_booking_id users_email : Constraint

abbrev pub has_user : Database → ℕ → Bool
has_user db k = any (λ u. u.id == k) db.users

abbrev pub has_booking : Database → ℕ → Bool
has_booking db k = any (λ b. b.id == k) db.bookings

-- the two CHECK constraints of `bookings`
abbrev pub booking_check : Booking → Option Constraint
booking_check b =
    if not (ltb b.start_time b.end_time)
    then some Constraint.check_booking_end_after_start
    else if b.customer_id == b.provider_id
    then some Constraint.check_booking_customer_not_provider
    else none

-- INSERT INTO bookings
unfoldable pub booking_violation : Database → Booking → Option Constraint
booking_violation db b =
    if has_booking db b.id
    then some Constraint.primary_key
    else if not (has_user db b.customer_id && has_user db b.provider_id)
    then some Constraint.foreign_key
    else booking_check b

-- the CHECK constraint of `reviews`
abbrev pub review_check : Review → Option Constraint
review_check r =
    if leb 1 r.rating && leb r.rating 5 then none else some Constraint.check_review_rating_range

-- INSERT INTO reviews
unfoldable pub review_violation : Database → Review → Option Constraint
review_violation db r =
    if any (λ q. q.id == r.id) db.reviews
    then some Constraint.primary_key
    else if any (λ q. q.booking_id == r.booking_id) db.reviews
    then some Constraint.reviews_booking_id
    else if not
        (has_booking db r.booking_id && (has_user db r.customer_id && has_user db r.provider_id))
    then some Constraint.foreign_key
    else review_check r

-- a NULL is equal to nothing, not even to a NULL
abbrev pub null_eq : Option ℕ → Option ℕ → Bool
null_eq (some a) (some b) = a == b
null_eq _ _ = false

-- uq_notifications_user_booking_type: the two rows cannot both stand in the table
abbrev pub same_slot : Notification → Notification → Bool
same_slot n m =
    n.user_id == m.user_id && (null_eq n.booking_id m.booking_id && type_eq n.type m.type)

-- a foreign key that is NULL refers to nothing and is accepted
abbrev pub booking_exists_or_null : Database → Option ℕ → Bool
booking_exists_or_null db none = true
booking_exists_or_null db (some k) = has_booking db k

-- INSERT INTO notifications, the unique constraint apart
unfoldable pub notification_violation : Database → Notification → Option Constraint
notification_violation db n =
    if any (λ m. m.id == n.id) db.notifications
    then some Constraint.primary_key
    else if not (has_user db n.user_id && booking_exists_or_null db n.booking_id)
    then some Constraint.foreign_key
    else none

-- INSERT INTO users
unfoldable pub user_violation : Database → User → Option Constraint
user_violation db u =
    if any (λ v. v.id == u.id) db.users
    then some Constraint.primary_key
    else if any (λ v. str_eq v.email u.email) db.users
    then some Constraint.users_email
    else none
