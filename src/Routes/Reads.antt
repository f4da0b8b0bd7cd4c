-- ===== src/Routes/Reads.antt =====
-- The routes that read leave their session as it was.
use bodhrik_fullstack_assess.Common.{String, ◌≡◌, Option, arith, ap, inl, inr, Bool, true, false}
use bodhrik_fullstack_assess.Models.{Database}
use bodhrik_fullstack_assess.Session.{Session, Environment, open_session, serve}
use bodhrik_fullstack_assess.Auth as AuthService
use bodhrik_fullstack_assess.Auth.{get_user_by_email}
use bodhrik_fullstack_assess.Providers
use bodhrik_fullstack_assess.Bookings.Operations as BookingService
use bodhrik_fullstack_assess.Reviews as ReviewService
use bodhrik_fullstack_assess.Notifications as NotificationService
use bodhrik_fullstack_assess.Api.Availability.{availability_route}
use bodhrik_fullstack_assess.Routes.Reply.{App}
use bodhrik_fullstack_assess.Routes.Accounts.{
  login_route, get_me_route, list_providers_route, check_provider_availability_route,
  get_provider_review_summary_route, get_provider_route,
}
use bodhrik_fullstack_assess.Routes.Bookings.{list_bookings_route, get_booking_route}
use bodhrik_fullstack_assess.Routes.Reviews.{list_reviews_route, get_review_route}
use bodhrik_fullstack_assess.Routes.Notifications.{list_notifications_route}
use bodhrik_fullstack_assess.Schemas.Bodies.{UserLoginBody, validate_user_login}
use bodhrik_fullstack_assess.Routes.Dispatch.{
  Reading, get_me, Request, register, login, read, write, read_route, handle,
}
use bodhrik_fullstack_assess.Auth.Login.{matches, scalar_cases}
use bodhrik_fullstack_assess.Routes.Guarded.{get_current_user_session}

module _ (app : App) (token : Option String) (s : Session) where
  read_route_session : (r : Reading) → (read_route app token r s).1 ≡ s
  unfolding get_me_route list_providers_route check_provider_availability_route
      get_provider_review_summary_route get_provider_route list_bookings_route get_booking_route
      list_reviews_route get_review_route list_notifications_route Providers.list_providers
      availability_route Providers.check_provider_availability Providers.is_provider_available
      Providers.get_provider_by_id ReviewService.get_provider_review_summary
      BookingService.list_bookings BookingService.get_booking_by_id ReviewService.list_reviews
      ReviewService.get_review_by_id NotificationService.list_notifications
  read_route_session get_me = ground (arith, get_current_user_session app.library token s)
  read_route_session _ = ground (arith, get_current_user_session app.library token s)

login_route_session :
    (app : App) (body : UserLoginBody) (s : Session) → (login_route app body s).1 ≡ s
unfolding login_route validate_user_login AuthService.login AuthService.authenticate_user
    get_user_by_email
login_route_session app body s =
    elim (scalar_cases (matches app.library (app.library.normalize body.email) s) s) [
      | inl (e, found) ↦ ground (arith, found)
      | inr (inl (u, e, found)) ↦ ground (arith, found)
      | inr (inr (many, found)) ↦ ground (arith, found)
    ]

-- the safe methods, and POST /auth/login
abbrev pub is_reading : Request → Bool
is_reading (register salt body) = false
is_reading (login body) = true
is_reading (read token r) = true
is_reading (write token w) = false

-- A request that only reads, or that logs in, leaves the database as it is, whatever its answer is.
pub handle_reading :
    (app : App) (env : Environment) (req : Request) (db : Database)
    → is_reading req ≡ true
    → (serve env (handle app req) db).1 ≡ db
unfolding handle serve
handle_reading app env (register salt body) db h = absurd (ground arith)
handle_reading app env (login body) db h =
    ap (λ (t : Session). t.committed) (login_route_session app body (open_session env db))
handle_reading app env (read token r) db h =
    ap (λ (t : Session). t.committed) (read_route_session app token (open_session env db) r)
handle_reading app env (write token w) db h = absurd (ground arith)
