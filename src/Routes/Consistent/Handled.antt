-- ===== src/Routes/Consistent/Handled.antt =====
-- Each request keeps a database consistent.
use bodhrik_fullstack_assess.Common.{ℕ, String, ◌≡◌, refl, sym, subst, inl, inr, Option, arith}
use bodhrik_fullstack_assess.Models.{User, Database}
use bodhrik_fullstack_assess.Session.{Session, Action, ◌>>=◌, Environment, open_session, serve}
use bodhrik_fullstack_assess.Session.Laws.{bind_keeps, Result-cases}
use bodhrik_fullstack_assess.Auth.{get_current_user, register_user}
use bodhrik_fullstack_assess.Bookings.Operations as Service
use bodhrik_fullstack_assess.Reviews as ReviewService
use bodhrik_fullstack_assess.Notifications.{mark_all_as_read, mark_notification_as_read}
use bodhrik_fullstack_assess.Schemas.Fields.{Validated, valid, invalid}
use bodhrik_fullstack_assess.Schemas.Bodies.{
  validate_user_register, validate_booking_create, validate_booking_update, validate_review_create,
  validate_review_update,
}
use bodhrik_fullstack_assess.Routes.Reply.{
  App, Content, no_content, one_booking, one_review, one_notification, notification_response,
  marked_reply, profile, user_response, Outcome, given, returns,
}
use bodhrik_fullstack_assess.Routes.Accounts.{register_route}
use bodhrik_fullstack_assess.Routes.Bookings.{
  create_booking_route, update_booking_route, cancel_booking_route, delete_booking_route,
}
use bodhrik_fullstack_assess.Routes.Reviews.{
  create_review_route, update_review_route, delete_review_route,
}
use bodhrik_fullstack_assess.Routes.Notifications.{
  mark_all_notifications_read_route, mark_notification_read_route,
}
use bodhrik_fullstack_assess.Routes.Dispatch.{
  Writing, create_booking, update_booking, cancel_booking, delete_booking, create_review,
  update_review, delete_review, mark_all_read, mark_read, Request, register, login, read, write,
  write_route, handle,
}
use bodhrik_fullstack_assess.Routes.Guarded.{get_current_user_session}
use bodhrik_fullstack_assess.Routes.Reads.{handle_reading}
use bodhrik_fullstack_assess.Routes.Consistent.Invariant.{IsConsistent}
use bodhrik_fullstack_assess.Routes.Consistent.Services.{
  create_booking-IsConsistent, update_booking-IsConsistent, cancel_booking-IsConsistent,
  delete_booking-IsConsistent, create_review-IsConsistent, update_review-IsConsistent,
  delete_review-IsConsistent, mark_all_as_read-IsConsistent, mark_notification_as_read-IsConsistent,
  register_user-IsConsistent,
}

-- what a route returns does not matter to the session
returns_session :
    {A : Type 0} (code : ℕ) (content : A → Content) (service : Action A) (s : Session)
    → (returns code content service s).1 ≡ (service s).1
returns_session code content service s = elim (Result-cases (service s).0) [
  | inl (a, e) ↦ ground arith
  | inr (x, e) ↦ ground arith
]

module _ (app : App) (env : Environment) (db : Database) (h : IsConsistent db) where
  abbrev opened : Session
  opened = open_session env db

  -- a route that calls one service with its valid arguments
  given_keeps :
      {A B : Type 0} (code : ℕ) (content : B → Content) (v : Validated A) (service : A → Action B)
      → ((a : A) → IsConsistent (service a opened).1.committed)
      → IsConsistent (given v (λ a. returns code content (service a)) opened).1.committed
  given_keeps code content (valid a) service keep =
      rw (returns_session code content (service a) opened) (keep a)
  given_keeps code content (invalid errors) service keep = h

  -- the same behind `get_current_user`
  authenticated_keeps :
      (token : Option String) (route : User → Action Outcome)
      → ((user : User) → IsConsistent (route user opened).1.committed)
      → IsConsistent ((get_current_user app.library token >>= route) opened).1.committed
  authenticated_keeps token route keep =
      bind_keeps (λ t. IsConsistent t.committed) (get_current_user app.library token) route opened
        (rw (get_current_user_session app.library token opened) h)
        (λ user _. rw (get_current_user_session app.library token opened) (keep user))

  returned_keeps :
      {B : Type 0} (code : ℕ) (content : B → Content) (service : Action B)
      → IsConsistent (service opened).1.committed
      → IsConsistent (returns code content service opened).1.committed
  returned_keeps code content service keep = rw (returns_session code content service opened) keep

  write_route-IsConsistent :
      (token : Option String) (w : Writing)
      → IsConsistent (write_route app token w opened).1.committed
  unfolding create_booking_route update_booking_route cancel_booking_route delete_booking_route
      create_review_route update_review_route delete_review_route mark_all_notifications_read_route
      mark_notification_read_route
  write_route-IsConsistent token (create_booking body) =
      authenticated_keeps token
        (λ user.
          given (validate_booking_create app.messages body)
            (λ b. returns 201 one_booking (Service.create_booking user.id b)))
        (λ user.
          given_keeps 201 one_booking (validate_booking_create app.messages body)
            (λ b. Service.create_booking user.id b)
            (λ b. create_booking-IsConsistent env db h user b))
  write_route-IsConsistent token (update_booking k body) =
      authenticated_keeps token
        (λ user.
          given (validate_booking_update app.messages body)
            (λ u. returns 200 one_booking (Service.update_booking k u user)))
        (λ user.
          given_keeps 200 one_booking (validate_booking_update app.messages body)
            (λ u. Service.update_booking k u user)
            (λ u. update_booking-IsConsistent env db h k u user))
  write_route-IsConsistent token (cancel_booking k) =
      authenticated_keeps token (λ user. returns 200 one_booking (Service.cancel_booking k user))
        (λ user.
          returned_keeps 200 one_booking (Service.cancel_booking k user)
            (cancel_booking-IsConsistent env db h k user))
  write_route-IsConsistent token (delete_booking k) =
      authenticated_keeps token
        (λ user. returns 204 (λ _. no_content) (Service.delete_booking k user))
        (λ user.
          returned_keeps 204 (λ _. no_content) (Service.delete_booking k user)
            (delete_booking-IsConsistent env db h k user))
  write_route-IsConsistent token (create_review body) =
      authenticated_keeps token
        (λ user.
          given (validate_review_create app.messages body)
            (λ r. returns 201 one_review (ReviewService.create_review user r)))
        (λ user.
          given_keeps 201 one_review (validate_review_create app.messages body)
            (λ r. ReviewService.create_review user r)
            (λ r. create_review-IsConsistent env db h user r))
  write_route-IsConsistent token (update_review k body) =
      authenticated_keeps token
        (λ user.
          given (validate_review_update app.messages body)
            (λ u. returns 200 one_review (ReviewService.update_review k u user)))
        (λ user.
          given_keeps 200 one_review (validate_review_update app.messages body)
            (λ u. ReviewService.update_review k u user)
            (λ u. update_review-IsConsistent env db h k u user))
  write_route-IsConsistent token (delete_review k) =
      authenticated_keeps token
        (λ user. returns 204 (λ _. no_content) (ReviewService.delete_review k user))
        (λ user.
          returned_keeps 204 (λ _. no_content) (ReviewService.delete_review k user)
            (delete_review-IsConsistent env db h k user))
  write_route-IsConsistent token mark_all_read =
      authenticated_keeps token (λ user. returns 200 marked_reply (mark_all_as_read user.id))
        (λ user.
          returned_keeps 200 marked_reply (mark_all_as_read user.id)
            (mark_all_as_read-IsConsistent env db h user.id))
  write_route-IsConsistent token (mark_read k) =
      authenticated_keeps token
        (λ user.
          returns 200 (λ n. one_notification (notification_response n))
            (mark_notification_as_read k user.id))
        (λ user.
          returned_keeps 200 (λ n. one_notification (notification_response n))
            (mark_notification_as_read k user.id)
            (mark_notification_as_read-IsConsistent env db h k user.id))

-- One request to any route, by anybody, keeps the database consistent, whatever its answer is.
pub handle-IsConsistent :
    (app : App) (env : Environment) (req : Request) (db : Database)
    → IsConsistent db
    → IsConsistent (serve env (handle app req) db).1
unfolding handle serve register_route
handle-IsConsistent app env (register salt body) db h =
    given_keeps app env db h 201 (λ (u : User). profile (user_response u))
      (validate_user_register app.messages app.library.normalize body)
      (register_user app.library salt) (register_user-IsConsistent env db h app.library salt)
handle-IsConsistent app env (login body) db h =
    subst IsConsistent (sym (handle_reading app env (login body) db refl)) h
handle-IsConsistent app env (read token r) db h =
    subst IsConsistent (sym (handle_reading app env (read token r) db refl)) h
handle-IsConsistent app env (write token w) db h = write_route-IsConsistent app env db h token w
