-- ===== src/Routes/Guarded.antt =====
-- Who gets past `get_current_user`, and which routes leave the database alone.
use bodhrik_fullstack_assess.Common.{String, ◌≡◌, refl, Option, none, some, [], ◌∷◌, arith, ◌∙◌}
use bodhrik_fullstack_assess.Session.{Session, Exception, err, http}
use bodhrik_fullstack_assess.Auth.{Library, token_user, get_current_user}
use bodhrik_fullstack_assess.Routes.Reply.{App}
use bodhrik_fullstack_assess.Routes.Accounts.{
  get_me_route, list_providers_route, check_provider_availability_route,
  get_provider_review_summary_route, get_provider_route,
}
use bodhrik_fullstack_assess.Routes.Bookings.{
  create_booking_route, list_bookings_route, get_booking_route, update_booking_route,
  cancel_booking_route, delete_booking_route,
}
use bodhrik_fullstack_assess.Routes.Reviews.{
  create_review_route, list_reviews_route, get_review_route, update_review_route,
  delete_review_route,
}
use bodhrik_fullstack_assess.Routes.Notifications.{
  list_notifications_route, mark_all_notifications_read_route, mark_notification_read_route,
}
use bodhrik_fullstack_assess.Routes.Dispatch.{
  Reading, get_me, Writing, create_booking, Request, register, login, read, write, read_route,
  write_route, handle,
}

-- the 401 of the Bearer scheme
abbrev pub IsChallenge : Exception → Type 0
IsChallenge (http code detail headers) =
    (code ≡ 401) × (headers ≡ ("WWW-Authenticate", "Bearer") ∷ [])
IsChallenge _ = ⊥

pub get_current_user_session :
    (lib : Library) (token : Option String) (s : Session) → (get_current_user lib token s).1 ≡ s
unfolding get_current_user token_user
get_current_user_session lib none s = refl
get_current_user_session lib (some token) s = ground arith

pub get_current_user-IsChallenge :
    (lib : Library) (token : Option String) (s : Session) {e : Exception}
    → (get_current_user lib token s).0 ≡ err e
    → IsChallenge e
unfolding get_current_user token_user
get_current_user-IsChallenge lib none s {e} h = ground arith
get_current_user-IsChallenge lib (some token) s {e} h = ground arith

-- A route of `read` begins with `get_current_user`, and so does one of `write`.
abbrev pub token_of : Request → Option (Option String)
token_of (register salt body) = none
token_of (login body) = none
token_of (read token r) = some token
token_of (write token w) = some token

module _ (app : App) (token : Option String) (s : Session) where
  read_route_refused :
      (r : Reading) {e : Exception}
      → (get_current_user app.library token s).0 ≡ err e
      → read_route app token r s ≡ (err e, (get_current_user app.library token s).1)
  unfolding get_me_route list_providers_route check_provider_availability_route
      get_provider_review_summary_route get_provider_route list_bookings_route get_booking_route
      list_reviews_route get_review_route list_notifications_route
  read_route_refused get_me {e} h = ground arith
  read_route_refused _ {e} h = ground arith

  write_route_refused :
      (w : Writing) {e : Exception}
      → (get_current_user app.library token s).0 ≡ err e
      → write_route app token w s ≡ (err e, (get_current_user app.library token s).1)
  unfolding create_booking_route update_booking_route cancel_booking_route delete_booking_route
      create_review_route update_review_route delete_review_route mark_all_notifications_read_route
      mark_notification_read_route
  write_route_refused (create_booking body) {e} h = ground arith
  write_route_refused _ {e} h = ground arith

-- Whoever is not authenticated gets a 401 with the challenge of the Bearer scheme from every
-- route that `handle` serves, `register` and `login` apart, whatever else is wrong with the
-- request, and the session is left as it was.
pub handle_unauthenticated :
    (app : App) (token : Option String) (req : Request) (s : Session) {e : Exception}
    → token_of req ≡ some token
    → (get_current_user app.library token s).0 ≡ err e
    → (handle app req s ≡ (err e, s)) × IsChallenge e
unfolding handle
handle_unauthenticated app token (register salt body) s {e} t h = absurd (ground arith)
handle_unauthenticated app token (login body) s {e} t h = absurd (ground arith)
handle_unauthenticated app token (read token' r) s {e} t h =
    let same : token' ≡ token = ground arith in
    rw same (
      read_route_refused app token s r h ∙ rw (get_current_user_session app.library token s) refl,
      get_current_user-IsChallenge app.library token s h,
    )
handle_unauthenticated app token (write token' w) s {e} t h =
    let same : token' ≡ token = ground arith in
    rw same (
      write_route_refused app token s w h ∙ rw (get_current_user_session app.library token s) refl,
      get_current_user-IsChallenge app.library token s h,
    )
