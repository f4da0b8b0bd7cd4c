-- ===== src/Schemas/Checks.antt =====
-- Bodies that pass their validators give rows that no CHECK constraint holds back.
use bodhrik_fullstack_assess.Common.{ℕ, ◌≡◌, ◌<◌, false, none, arith, ◌==◌}
use bodhrik_fullstack_assess.Models.{User, Booking}
use bodhrik_fullstack_assess.Models.Constraints.{booking_check, review_check}
use bodhrik_fullstack_assess.Bookings.Operations.{BookingCreate, new_booking}
use bodhrik_fullstack_assess.Reviews.{ReviewCreate, new_review}
use bodhrik_fullstack_assess.Schemas.Fields.{valid, Messages}
use bodhrik_fullstack_assess.Schemas.Bodies.{
  BookingCreateBody, ReviewCreateBody, validate_booking_create, validate_review_create,
}
use bodhrik_fullstack_assess.Schemas.Accepts.{
  validate_booking_create_iff, validate_review_create_rating,
}

-- A review or a booking whose body has passed its validator breaks no CHECK constraint when it is
-- inserted, at any time, under any id and for any caller; for a booking the caller is not its
-- provider.
pub validated_checks :
    (m : Messages) (sent : ReviewCreateBody) (review_in : ReviewCreate) (asked : BookingCreateBody)
    (booking_in : BookingCreate) (user : User) (about : Booking) (id now : ℕ)
    → validate_review_create m sent ≡ valid review_in
    → validate_booking_create m asked ≡ valid booking_in
    → (user.id == booking_in.provider_id) ≡ false
    → (review_check (new_review id now user about review_in) ≡ none)
      × (booking_check (new_booking id now user.id booking_in) ≡ none)
validated_checks m sent review_in asked booking_in user about id now passed passed' other =
    let (low, high) = validate_review_create_rating m sent review_in passed in
    let (bookable, is_asked) = (validate_booking_create_iff m asked booking_in).0 passed' in
    let ordered : booking_in.start_time < booking_in.end_time = rw is_asked bookable.ordered in
    (ground arith, ground arith)
