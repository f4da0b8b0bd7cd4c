-- ===== src/Routes/Dispatch.antt =====
-- app/api/v1/__init__.py: the routers, and the request that one of their routes serves.
use bodhrik_fullstack_assess.Common.{ℕ, String, Bool, Option}
use bodhrik_fullstack_assess.Models.{BookingStatus}
use bodhrik_fullstack_assess.Session.{Action}
use bodhrik_fullstack_assess.Api.Availability.{Datetime}
use bodhrik_fullstack_assess.Schemas.Fields.{ℤ}
use bodhrik_fullstack_assess.Schemas.Bodies.{
  BookingCreateBody, BookingUpdateBody, ReviewCreateBody, ReviewUpdateBody, UserRegisterBody,
  UserLoginBody, PageQuery,
}
use bodhrik_fullstack_assess.Routes.Reply.{App, Outcome}
use bodhrik_fullstack_assess.Routes.Accounts.{
  register_route, login_route, get_me_route, list_providers_route,
  check_provider_availability_route, get_provider_review_summary_route, get_provider_route,
}
use bodhrik_fullstack_assess.Routes.Bookings.{
  create_booking_route, list_bookings_route, get_booking_route, update_booking_route,
  cancel_booking_route, delete_booking_route,
}
use bodhrik_fullstack_assess.Routes.Reviews.{
  create_review_route, list_reviews_route, get_review_route, update_review_route,
  delete_review_route,
}
use bodhrik_fullstack_assess.Routes.Notifications.{
  list_notifications_route, mark_all_notifications_read_route, mark_notification_read_route,
}

-- A route that reads only.
pub data Reading : Type 0 where
  get_me : Reading
  list_providers : Option String → PageQuery → Reading
  check_availability : ℕ → Datetime → Datetime → Reading
  get_provider_summary get_provider : ℕ → Reading
  list_bookings : Option BookingStatus → PageQuery → Reading
  get_booking : ℕ → Reading
  list_reviews : Option ℕ → Option ℤ → PageQuery → Reading
  get_review : ℕ → Reading
  list_notifications : Bool → PageQuery → Reading

-- A route that writes.
pub data Writing : Type 0 where
  create_booking : BookingCreateBody → Writing
  update_booking : ℕ → BookingUpdateBody → Writing
  cancel_booking delete_booking : ℕ → Writing
  create_review : ReviewCreateBody → Writing
  update_review : ℕ → ReviewUpdateBody → Writing
  delete_review : ℕ → Writing
  mark_all_read : Writing
  mark_read : ℕ → Writing

-- `register` has the salt that bcrypt.gensalt() gives; the others but `login` have the token of
-- their Authorization header, if there is one.
pub data Request : Type 0 where
  register : ℕ → UserRegisterBody → Request
  login : UserLoginBody → Request
  read : Option String → Reading → Request
  write : Option String → Writing → Request

module _ (app : App) where
  abbrev pub read_route : Option String → Reading → Action Outcome
  read_route token get_me = get_me_route app token
  read_route token (list_providers term page) = list_providers_route app token term page
  read_route token (check_availability k st en) =
      check_provider_availability_route app token k st en
  read_route token (get_provider_summary k) = get_provider_review_summary_route app token k
  read_route token (get_provider k) = get_provider_route app token k
  read_route token (list_bookings status page) = list_bookings_route app token status page
  read_route token (get_booking k) = get_booking_route app token k
  read_route token (list_reviews provider rating page) =
      list_reviews_route app token provider rating page
  read_route token (get_review k) = get_review_route app token k
  read_route token (list_notifications unread page) = list_notifications_route app token unread page

  abbrev pub write_route : Option String → Writing → Action Outcome
  write_route token (create_booking body) = create_booking_route app token body
  write_route token (update_booking k body) = update_booking_route app token k body
  write_route token (cancel_booking k) = cancel_booking_route app token k
  write_route token (delete_booking k) = delete_booking_route app token k
  write_route token (create_review body) = create_review_route app token body
  write_route token (update_review k body) = update_review_route app token k body
  write_route token (delete_review k) = delete_review_route app token k
  write_route token mark_all_read = mark_all_notifications_read_route app token
  write_route token (mark_read k) = mark_notification_read_route app token k

  unfoldable pub handle : Request → Action Outcome
  handle (register salt body) = register_route app salt body
  handle (login body) = login_route app body
  handle (read token r) = read_route token r
  handle (write token w) = write_route token w
