-- ===== src/Bookings/Create.antt =====
-- What `create_booking` answers and writes.
use bodhrik_fullstack_assess.Common.{
  ℕ, suc, ◌<◌, ◌≡◌, ap, ◌∙◌, subst, ◌⊎◌, inl, inr, true, false, ◌&&◌, none, some, List, [], ◌∷◌,
  ◌++◌, arith, ◌<>◌, ◌==◌, Option-cases, any, any-append,
}
use bodhrik_fullstack_assess.Common.Table.{first}
use bodhrik_fullstack_assess.Models.{
  UserRole, BookingStatus, NotificationType, role_eq, type_eq, User, Booking, Database,
}
use bodhrik_fullstack_assess.Session.{
  Session, Exception, ok, err, http, integrity, operational, find_user,
}
use bodhrik_fullstack_assess.Session.Laws.{Result-cases, bind_ok}
use bodhrik_fullstack_assess.Models.Constraints.{
  Constraint, has_user, null_eq, booking_violation, notification_violation,
}
use bodhrik_fullstack_assess.Notifications.Create.{is_told}
use bodhrik_fullstack_assess.Notifications.{create_notification, new_notification}
use bodhrik_fullstack_assess.Providers.{is_provider_available, conflicts}
use bodhrik_fullstack_assess.Bookings.Atomic.{admit_booking_session}
use bodhrik_fullstack_assess.Bookings.Operations.{
  BookingCreate, new_booking, check_provider_conflict, admit_booking, persist_booking,
  create_booking,
}

-- The error of a guard of `create_booking`, with its reason.
abbrev pub Refused : ℕ → BookingCreate → Database → Exception → Type 0
Refused c b db e =
    ((c ≡ b.provider_id) × (e ≡ http 400 "Customer cannot book themselves as a provider" []))
    ⊎ ((find_user b.provider_id db ≡ none) × (e ≡ http 404 "Provider not found" []))
    ⊎ ((u : User) × (find_user b.provider_id db ≡ some u)
        × (role_eq u.role UserRole.provider ≡ false)
        × (e ≡ http 400 "Selected user is not registered as a service provider" []))
    ⊎ ((any (conflicts b.provider_id b.start_time b.end_time none) db.bookings ≡ true)
        × (e ≡ http 409 "Provider has an overlapping booking for the requested time slot" []))

admit_booking-Refused :
    (c : ℕ) (b : BookingCreate) (s : Session) {e : Exception}
    → (admit_booking c b s).0 ≡ err e
    → Refused c b s.working e
unfolding admit_booking check_provider_conflict is_provider_available
admit_booking-Refused c b s {e} h = ground arith

pub admit_booking_passed :
    (c : ℕ) (b : BookingCreate) (s : Session)
    → (admit_booking c b s).0 ≡ ok tt
    → ((c == b.provider_id) ≡ false)
      × ((u : User) × (find_user b.provider_id s.working ≡ some u)
          × (role_eq u.role UserRole.provider ≡ true))
      × (any (conflicts b.provider_id b.start_time b.end_time none) s.working.bookings ≡ false)
unfolding admit_booking check_provider_conflict is_provider_available
admit_booking_passed c b s h =
    let (u, e) = found in (ground arith, (u, e, ground arith), ground arith)
  where
    found : (u : User) × (find_user b.provider_id s.working ≡ some u)
    found = elim (Option-cases (find_user b.provider_id s.working)) [
      | inl missing ↦ absurd (ground arith)
      | inr pair ↦ pair
    ]

-- A row that a query finds by its key is in the table.
pub found-any :
    (k : ℕ) (us : List User) {u : User}
    → first (λ v. v.id == k) us ≡ some u
    → any (λ v. v.id == k) us ≡ true
found-any k [] h = cc
found-any k (v ∷ vs) {u} h = ground (arith, found-any k vs {u = u})

persist_booking_error :
    (c : ℕ) (b : BookingCreate) (s : Session) {e : Exception}
    → has_user s.working c ≡ true
    → has_user s.working b.provider_id ≡ true
    → (c == b.provider_id) ≡ false
    → b.start_time < b.end_time
    → (persist_booking c b s).0 ≡ err e
    → (e ≡ integrity Constraint.primary_key) ⊎ ((e ≡ operational) × (s.online ≡ false))
unfolding persist_booking booking_violation create_notification notification_violation
persist_booking_error c b s {e} cu pu ne lt h =
    let row = new_booking (s.uuid s.drawn) s.now c b in
    ground (arith, any-append (λ (d : Booking). d.id == row.id) s.working.bookings (row ∷ []))

persist_booking_row :
    (c : ℕ) (b : BookingCreate) (s : Session) {row : Booking}
    → (persist_booking c b s).0 ≡ ok row
    → row ≡ new_booking (s.uuid s.drawn) s.now c b
unfolding persist_booking booking_violation create_notification
persist_booking_row c b s {row} h = ground arith

-- For a customer who exists and a slot that ends after it starts, the call raises an error of its
-- guards, or the primary key was drawn before, or the commit met no server: no other constraint
-- of the table is ever broken.
pub create_booking_errors :
    (c : ℕ) (b : BookingCreate) (s : Session) {e : Exception}
    → has_user s.working c ≡ true
    → b.start_time < b.end_time
    → (create_booking c b s).0 ≡ err e
    → Refused c b s.working e
      ⊎ (e ≡ integrity Constraint.primary_key)
      ⊎ ((e ≡ operational) × (s.online ≡ false))
unfolding create_booking
create_booking_errors c b s {e} cu lt h = elim (Result-cases (admit_booking c b s).0) [
  | inl (_, passed) ↦
      let (ne, (u, found, _), _) = admit_booking_passed c b s passed in
      inr (
        persist_booking_error c b s cu (found-any b.provider_id s.working.users found) ne lt (
          subst (λ t. (persist_booking c b t).0 ≡ err e) (admit_booking_session c b s)
            (rw (bind_ok (admit_booking c b) (λ _. persist_booking c b) s passed) at h)))
  | inr (_, raised) ↦ inl (admit_booking-Refused c b s (raised ∙ ground arith))
]

persist_booking_written :
    (c : ℕ) (b : BookingCreate) (s : Session) {row : Booking}
    → (persist_booking c b s).0 ≡ ok row
    → let db = (persist_booking c b s).1.committed in
      (db.bookings ≡ s.working.bookings ++ row ∷ [])
      × (is_told b.provider_id row.id NotificationType.booking_created db.notifications ≡ true)
unfolding persist_booking booking_violation create_notification
persist_booking_written c b s {row} h = ground (
  arith,
  any-append
      (λ n.
        n.user_id == b.provider_id
        && (null_eq n.booking_id (some (s.uuid s.drawn))
            && type_eq n.type NotificationType.booking_created))
      s.working.notifications
      (new_notification (s.uuid (suc s.drawn)) s.now b.provider_id NotificationType.booking_created
          "New Booking Request"
          ("A new booking request for " <> b.service_name <> " has been submitted.")
          (some (s.uuid s.drawn))
        ∷ []),
)

-- A call that returns has appended a pending booking of the customer, with the requested provider,
-- service name and slot, the id that was drawn and the current time as both of its times, for a
-- user who is a provider and whose slot was free, and has told that provider.
pub create_booking_created :
    (c : ℕ) (b : BookingCreate) (s : Session) {row : Booking}
    → (create_booking c b s).0 ≡ ok row
    → let db = (create_booking c b s).1.committed in
      (row ≡ record {
        id = s.uuid s.drawn;
        customer_id = c;
        provider_id = b.provider_id;
        service_name = b.service_name;
        start_time = b.start_time;
        end_time = b.end_time;
        status = BookingStatus.pending;
        created_at = s.now;
        updated_at = s.now;
      })
      × (db.bookings ≡ s.working.bookings ++ row ∷ [])
      × ((u : User) × (find_user b.provider_id s.working ≡ some u)
          × (role_eq u.role UserRole.provider ≡ true))
      × (any (conflicts b.provider_id b.start_time b.end_time none) s.working.bookings ≡ false)
      × (is_told b.provider_id row.id NotificationType.booking_created db.notifications ≡ true)
unfolding create_booking
create_booking_created c b s {row} h = elim (Result-cases (admit_booking c b s).0) [
  | inl (_, passed) ↦
      let (_, provides, free) = admit_booking_passed c b s passed in
      let step : create_booking c b s ≡ persist_booking c b s =
        bind_ok (admit_booking c b) (λ _. persist_booking c b) s passed
        ∙ ap (persist_booking c b) (admit_booking_session c b s) in
      let h' : (persist_booking c b s).0 ≡ ok row = rw step at h in
      let (rows, told) = persist_booking_written c b s h' in
      rw step (persist_booking_row c b s h', rows, provides, free, told)
  | inr (_, raised) ↦ absurd (ground arith)
]
