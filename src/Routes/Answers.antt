-- ===== src/Routes/Answers.antt =====
-- Which status code POST /bookings answers.
use bodhrik_fullstack_assess.Common.{
  ℕ, String, ◌≡◌, refl, sym, ap, ◌∙◌, ◌⊎◌, inl, inr, List, Bool, true, ◌&&◌, Option, arith, ltb,
  leb, if◌then◌else◌, Bool-cases,
}
use bodhrik_fullstack_assess.Models.{User, Database}
use bodhrik_fullstack_assess.Models.Constraints.{has_user}
use bodhrik_fullstack_assess.Session.{
  Session, Exception, Result, ok, err, Environment, open_session,
}
use bodhrik_fullstack_assess.Session.Laws.{Result-cases, bind_ok, bind_err}
use bodhrik_fullstack_assess.Auth.{get_current_user}
use bodhrik_fullstack_assess.Bookings.Operations.{create_booking}
use bodhrik_fullstack_assess.Api.{ValidationError}
use bodhrik_fullstack_assess.Schemas.Fields.{Validated, valid, invalid, text_length}
use bodhrik_fullstack_assess.Schemas.Bodies.{BookingCreateBody, validate_booking_create}
use bodhrik_fullstack_assess.Schemas.Accepts.{requested, validate_booking_create_iff}
use bodhrik_fullstack_assess.Bookings.Fresh.{IsFresh}
use bodhrik_fullstack_assess.Routes.Reply.{App, one_booking, Outcome, given, returns, status_code}
use bodhrik_fullstack_assess.Routes.Bookings.{create_booking_route}
use bodhrik_fullstack_assess.Routes.Guarded.{
  IsChallenge, get_current_user_session, get_current_user-IsChallenge,
}
use bodhrik_fullstack_assess.Routes.Statuses.{
  booking_status, create_booking_status, challenge_status,
}
use bodhrik_fullstack_assess.Routes.Callers.{current_user_exists}

abbrev pub is_bookable : BookingCreateBody → Bool
is_bookable b =
    leb 1 (text_length b.service_name)
    && (leb (text_length b.service_name) 255
        && (b.start_time.aware
            && (b.end_time.aware && ltb b.start_time.instant b.end_time.instant)))

-- what the route answers to a body, behind its authentication
abbrev pub customer_status : User → BookingCreateBody → Database → ℕ
customer_status user body db =
    if is_bookable body then booking_status user.id (requested body) db else 422

Validated-cases :
    {A : Type 0} (v : Validated A)
    → ((a : A) × (v ≡ valid a)) ⊎ ((errors : List ValidationError) × (v ≡ invalid errors))
Validated-cases (valid a) = inl (a, refl)
Validated-cases (invalid errors) = inr (errors, refl)

module _ (app : App) (integer : ℕ → String) where
  given_status :
      (user : User) (body : BookingCreateBody) (s : Session)
      → IsFresh s
      → s.online ≡ true
      → has_user s.working user.id ≡ true
      → status_code integer
          (given
            (validate_booking_create app.messages body)
            (λ b. returns 201 one_booking (create_booking user.id b))
            s).0
        ≡ customer_status user body s.working
  given_status user body s fresh up here = elim (Bool-cases (is_bookable body)) [
    | inl good ↦
        rw
          ((validate_booking_create_iff app.messages body (requested body)).1 (
            record {
              named = ground arith;
              short = ground arith;
              start_aware = ground arith;
              end_aware = ground arith;
              ordered = ground arith;
            },
            refl,
          ))
          (create_booking_status integer user.id (requested body) s fresh up here (ground arith)
            ∙ ground arith)
    | inr bad ↦ elim (Validated-cases (validate_booking_create app.messages body)) [
      | inl (r, passed) ↦
          let (b, _) = (validate_booking_create_iff app.messages body r).0 passed in
          absurd (ground arith)
      | inr (errors, refused) ↦ rw (refused, bad) (invalid_status errors)
    ]
  ]
    where
      invalid_status :
          (errors : List ValidationError)
          → status_code integer
              (given (invalid errors) (λ b. returns 201 one_booking (create_booking user.id b)) s).0
            ≡ 422
      invalid_status errors = unfold status_code in refl

  -- the status by the answer of `get_current_user`
  abbrev pub caller_status : Result User → BookingCreateBody → Database → ℕ
  caller_status (err e) body db = 401
  caller_status (ok user) body db = customer_status user body db

  err_status : (e : Exception) → IsChallenge e → status_code integer (err e) ≡ 401
  unfolding status_code
  err_status e h = challenge_status integer e h

  -- POST /bookings answers 401 to whoever is not authenticated; then 422 to a body that is not
  -- bookable; then 400 to a caller who books themselves; then 404 where there is no such user, and
  -- 400 where that user is no provider; then 409 where the slot is taken; and else 201. It takes a
  -- server that answers and ids that were not drawn before.
  pub create_booking_route_status :
      (token : Option String) (body : BookingCreateBody) (env : Environment) (db : Database)
      → IsFresh (open_session env db)
      → env.online ≡ true
      → status_code integer (create_booking_route app token body (open_session env db)).0
        ≡ caller_status (get_current_user app.library token (open_session env db)).0 body db
  unfolding create_booking_route
  create_booking_route_status token body env db fresh up =
      let s = open_session env db in
      let same = get_current_user_session app.library token s in
      elim (Result-cases (get_current_user app.library token s).0) [
        | inl (user, e) ↦
            let here = current_user_exists app.library token s e in
            let route = λ (u : User).
              given (validate_booking_create app.messages body)
                (λ b. returns 201 one_booking (create_booking u.id b)) in
            ap (λ (q : Result Outcome × Session). status_code integer q.0)
              (bind_ok (get_current_user app.library token) route s e ∙ ap (route user) same)
            ∙ given_status user body s fresh up here
            ∙ ap (λ (r : Result User). caller_status r body db) (sym e)
        | inr (x, e) ↦
            let route = λ (u : User).
              given (validate_booking_create app.messages body)
                (λ b. returns 201 one_booking (create_booking u.id b)) in
            ap (λ (q : Result Outcome × Session). status_code integer q.0)
              (bind_err (get_current_user app.library token) route s e)
            ∙ err_status x (get_current_user-IsChallenge app.library token s e)
            ∙ ap (λ (r : Result User). caller_status r body db) (sym e)
      ]
