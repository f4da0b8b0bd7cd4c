-- ===== src/Routes/Statuses.antt =====
-- Which status code the service behind POST /bookings gives its route.
use bodhrik_fullstack_assess.Common.{
  ℕ, ◌<◌, String, ◌≡◌, ap, ◌∙◌, inl, inr, true, not, Option, none, some, arith, ◌==◌, if◌then◌else◌,
  any,
}
use bodhrik_fullstack_assess.Models.{UserRole, role_eq, User, Booking, Database}
use bodhrik_fullstack_assess.Models.Constraints.{has_user}
use bodhrik_fullstack_assess.Session.{Session, Exception, Result, ok, err, Action, find_user}
use bodhrik_fullstack_assess.Session.Laws.{Result-cases, bind_ok, bind_err}
use bodhrik_fullstack_assess.Providers.{conflicts, is_provider_available}
use bodhrik_fullstack_assess.Bookings.Operations.{
  BookingCreate, admit_booking, check_provider_conflict, persist_booking, create_booking,
}
use bodhrik_fullstack_assess.Bookings.Create.{admit_booking_passed, found-any}
use bodhrik_fullstack_assess.Bookings.Fresh.{IsFresh, persist_booking_ok}
use bodhrik_fullstack_assess.Bookings.Atomic.{admit_booking_session}
use bodhrik_fullstack_assess.Api.{respond}
use bodhrik_fullstack_assess.Routes.Reply.{Content, one_booking, returns, status_code}
use bodhrik_fullstack_assess.Routes.Guarded.{IsChallenge}

-- the status that a customer's valid request deserves
abbrev pub provider_status : BookingCreate → Database → Option User → ℕ
provider_status b db none = 404
provider_status b db (some provider) =
    if not (role_eq provider.role UserRole.provider)
    then 400
    else if any (conflicts b.provider_id b.start_time b.end_time none) db.bookings
    then 409
    else 201

abbrev pub booking_status : ℕ → BookingCreate → Database → ℕ
booking_status c b db =
    if c == b.provider_id then 400 else provider_status b db (find_user b.provider_id db)

create_booking_passed :
    (c : ℕ) (b : BookingCreate) (s : Session)
    → (admit_booking c b s).0 ≡ ok tt
    → create_booking c b s ≡ persist_booking c b s
unfolding create_booking
create_booking_passed c b s passed =
    bind_ok (admit_booking c b) (λ _. persist_booking c b) s passed
    ∙ ap (persist_booking c b) (admit_booking_session c b s)

create_booking_raised :
    (c : ℕ) (b : BookingCreate) (s : Session) {e : Exception}
    → (admit_booking c b s).0 ≡ err e
    → create_booking c b s ≡ (err e, (admit_booking c b s).1)
unfolding create_booking
create_booking_raised c b s raised =
    bind_err (admit_booking c b) (λ _. persist_booking c b) s raised

module _ (integer : ℕ → String) where
  admit_booking_status :
      (c : ℕ) (b : BookingCreate) (s : Session) {e : Exception}
      → (admit_booking c b s).0 ≡ err e
      → (respond integer e).status_code ≡ booking_status c b s.working
  unfolding admit_booking check_provider_conflict is_provider_available respond
  admit_booking_status c b s {e} h = ground arith

  pub challenge_status : (e : Exception) → IsChallenge e → (respond integer e).status_code ≡ 401
  unfolding respond
  challenge_status e h = ground arith

  module _ {A : Type 0} (code : ℕ) (content : A → Content) (service : Action A) (s : Session) where
    status-ok :
        {a : A}
        → (service s).0 ≡ ok a
        → status_code integer (returns code content service s).0 ≡ code
    unfolding status_code
    status-ok {a} h = ground arith

    status-err :
        {e : Exception}
        → (service s).0 ≡ err e
        → status_code integer (returns code content service s).0 ≡ (respond integer e).status_code
    unfolding status_code
    status-err {e} h = ground arith

  -- the service behind its route
  pub create_booking_status :
      (c : ℕ) (b : BookingCreate) (s : Session)
      → IsFresh s
      → s.online ≡ true
      → has_user s.working c ≡ true
      → b.start_time < b.end_time
      → status_code integer (returns 201 one_booking (create_booking c b) s).0
        ≡ booking_status c b s.working
  create_booking_status c b s fresh up cu lt = elim (Result-cases (admit_booking c b s).0) [
    | inl (_, passed) ↦
        let (ne, (u, found, role), free) = admit_booking_passed c b s passed in
        let done =
          persist_booking_ok c b s fresh up cu (found-any b.provider_id s.working.users found) ne
            lt in
        status-ok 201 one_booking (create_booking c b) s
          (ap (λ (q : Result Booking × Session). q.0) (create_booking_passed c b s passed) ∙ done)
        ∙ ground (arith, ne, found, role, free)
    | inr (e, raised) ↦
        status-err 201 one_booking (create_booking c b) s
          (ap (λ (q : Result Booking × Session). q.0) (create_booking_raised c b s raised))
        ∙ admit_booking_status c b s raised
  ]
