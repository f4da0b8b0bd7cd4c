-- ===== src/Routes/Bookings.antt =====
-- app/api/v1/bookings.py.
use bodhrik_fullstack_assess.Common.{ℕ, String, Option}
use bodhrik_fullstack_assess.Models.{BookingStatus}
use bodhrik_fullstack_assess.Session.{Action, ◌>>=◌}
use bodhrik_fullstack_assess.Auth.{get_current_user}
use bodhrik_fullstack_assess.Bookings.Operations.{
  create_booking, list_bookings, get_booking_by_id, update_booking, cancel_booking, delete_booking,
}
use bodhrik_fullstack_assess.Schemas.Bodies.{
  BookingCreateBody, BookingUpdateBody, PageQuery, validate_booking_create, validate_booking_update,
  validate_page,
}
use bodhrik_fullstack_assess.Routes.Reply.{
  App, no_content, one_booking, many_bookings, Outcome, given, returns,
}

module _ (app : App) (token : Option String) where
  unfoldable pub create_booking_route : BookingCreateBody → Action Outcome
  create_booking_route body = do
    current_user ← get_current_user app.library token
    given (validate_booking_create app.messages body)
        λ booking_in. returns 201 one_booking (create_booking current_user.id booking_in)

  unfoldable pub list_bookings_route : Option BookingStatus → PageQuery → Action Outcome
  list_bookings_route status query = do
    current_user ← get_current_user app.library token
    given (validate_page app.messages query)
        λ page. returns 200 many_bookings (list_bookings current_user status page.skip page.limit)

  unfoldable pub get_booking_route : ℕ → Action Outcome
  get_booking_route booking_id = do
    current_user ← get_current_user app.library token
    returns 200 one_booking (get_booking_by_id booking_id current_user)

  unfoldable pub update_booking_route : ℕ → BookingUpdateBody → Action Outcome
  update_booking_route booking_id body = do
    current_user ← get_current_user app.library token
    given (validate_booking_update app.messages body) λ booking_update.
        returns 200 one_booking (update_booking booking_id booking_update current_user)

  unfoldable pub cancel_booking_route : ℕ → Action Outcome
  cancel_booking_route booking_id = do
    current_user ← get_current_user app.library token
    returns 200 one_booking (cancel_booking booking_id current_user)

  unfoldable pub delete_booking_route : ℕ → Action Outcome
  delete_booking_route booking_id = do
    current_user ← get_current_user app.library token
    returns 204 (λ _. no_content) (delete_booking booking_id current_user)
