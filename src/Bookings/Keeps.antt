-- ===== src/Bookings/Keeps.antt =====
-- The operations that write, and the schedules of the providers.
pub mod Rows
pub mod Slots
pub mod Writes
use bodhrik_fullstack_assess.Common.{
  ℕ, zero, suc, ◌+◌, ◌-◌, ◌*◌, ◌/◌, ◌≤◌, ◌<◌, String, ◌≡◌, refl, sym, ap, ◌∙◌, subst, ◌≢◌, ◌↔◌, ◌⊎◌,
  inl, inr, Bool, true, false, not, ◌&&◌, ◌||◌, Option, none, some, List, [], ◌∷◌, ◌++◌, map, arith,
  str_eq, eq_iff, ◌<>◌, ⊤, ltb, leb, ◌==◌, if◌then◌else◌, ==_iff, Bool-cases, Option-cases, is_some,
  or_default, length, take, drop, any, length-append, any-append, length-take-le, All, All-append,
}
use bodhrik_fullstack_assess.Common.Table.{
  select, first, update_where, delete_where, order_by, page, All-select, first-test, first-any,
  All-page,
}
use bodhrik_fullstack_assess.Models.{
  UserRole, BookingStatus, NotificationType, role_eq, status_eq, type_eq, status_value, User,
  Booking, Review, Notification, Database,
}
use bodhrik_fullstack_assess.Session.{
  Session, Exception, Result, ok, err, http, integrity, operational, Action, pure, raise,
  http_error, query, ◌>>=◌, ◌>>◌, raise_if, or_raise, lift, on_error, find_user, find_booking,
  find_review, find_notification, uuid4, clock, set_booking, add_booking, insert_booking,
  flush_booking, refreshed_booking, booking_changed, insert_review, flush_review, refreshed_review,
  insert_or_ignore, execute, commit, rollback, Environment, open_session, serve,
}
use bodhrik_fullstack_assess.Common.Separate.{
  Separate, UniqueKeys, any_mono, append-Separate, put, put-UniqueKeys, put-Separate,
  clashes_elsewhere, first-elsewhere,
}
use bodhrik_fullstack_assess.Session.Laws.{bind_keeps, Transaction, Transaction-keeps}
use bodhrik_fullstack_assess.Models.Constraints.{booking_violation, booking_check}
use bodhrik_fullstack_assess.Notifications.{create_notification}
use bodhrik_fullstack_assess.Providers.{is_provider_available, conflicts}
use bodhrik_fullstack_assess.Bookings.Transitions.{validate_status_transition}
use bodhrik_fullstack_assess.Bookings.Schedule.{
  clash, clash_sym, IsScheduled, conflicts-clash, conflicts-clash_elsewhere, elsewhere_same_slot,
}
use bodhrik_fullstack_assess.Bookings.Atomic.{
  apply_status-Pending, notify_cancellation-Pending, admit_booking_session, open_for_update_session,
  open_for_cancel_session, open_for_delete_session, create_booking-Transaction,
  update_booking-Transaction, cancel_booking-Transaction, delete_booking-Transaction,
}
use bodhrik_fullstack_assess.Bookings.Operations.{
  BookingCreate, BookingUpdate, new_booking, is_terminal, notify_cancellation,
  check_provider_conflict, admit_booking, persist_booking, create_booking, get_booking_by_id,
  apply_status, apply_schedule, save_booking, update_booking, cancel_booking, delete_booking,
  apply_service_name, open_for_update, open_for_cancel, open_for_delete, write_update,
  write_cancellation,
}
use Rows.{admit_booking_free, persist_booking-IsScheduled}
use Slots.{open_for_update_row, open_for_cancel_row, open_for_delete_row}
use Writes.{write_update-IsScheduled, write_cancellation-IsScheduled, found_free}

module _ (s : Session) (old : IsScheduled s.committed) (h : IsScheduled s.working) where
  create_booking_working :
      (c : ℕ) (b : BookingCreate) → IsScheduled (create_booking c b s).1.working
  unfolding create_booking
  create_booking_working c b =
      bind_keeps (λ s'. IsScheduled s'.working) (admit_booking c b) (λ _. persist_booking c b) s
        (rw (admit_booking_session c b s) h)
        (λ _ e.
          rw (admit_booking_session c b s)
            (persist_booking-IsScheduled c b s (admit_booking_free c b s e) old h))

  update_booking_working :
      (k : ℕ) (u : BookingUpdate) (actor : User)
      → IsScheduled (update_booking k u actor s).1.working
  unfolding update_booking
  update_booking_working k u actor =
      bind_keeps (λ s'. IsScheduled s'.working) (open_for_update k u actor) (write_update u actor) s
        (rw (open_for_update_session k actor s u) h)
        (λ b e.
          let (found, live) = open_for_update_row k s u actor e in
          rw (open_for_update_session k actor s u)
            (write_update-IsScheduled u actor b s live (found_free k b s.working found h) old h))

  cancel_booking_working : (k : ℕ) (actor : User) → IsScheduled (cancel_booking k actor s).1.working
  unfolding cancel_booking
  cancel_booking_working k actor =
      bind_keeps (λ s'. IsScheduled s'.working) (open_for_cancel k actor) (write_cancellation actor)
        s (rw (open_for_cancel_session k actor s) h)
        (λ b e. rw (open_for_cancel_session k actor s) (
          write_cancellation-IsScheduled actor b s
            (found_free k b s.working (open_for_cancel_row k s actor e) h) old h))

  delete_booking_working : (k : ℕ) (actor : User) → IsScheduled (delete_booking k actor s).1.working
  unfolding delete_booking
  delete_booking_working k actor =
      bind_keeps (λ s'. IsScheduled s'.working) (open_for_delete k actor)
        (λ b. write_cancellation actor b >> pure tt) s (rw (open_for_delete_session k actor s) h)
        (λ b e. rw (open_for_delete_session k actor s) (
          bind_keeps (λ s'. IsScheduled s'.working) (write_cancellation actor b) (λ _. pure tt) s
            (write_cancellation-IsScheduled actor b s
              (found_free k b s.working (open_for_delete_row k s actor e) h) old h)
            (λ _ _.
              write_cancellation-IsScheduled actor b s
                (found_free k b s.working (open_for_delete_row k s actor e) h) old h)))

-- A request to the routes of app/api/v1/bookings.py that writes, with its authenticated user.
pub data Request : Type 0 where
  create : BookingCreate → Request
  update : ℕ → BookingUpdate → Request
  cancel remove : ℕ → Request

-- The database after one request, whatever its answer.
unfoldable pub perform : Environment → User → Request → Database → Database
perform env user (create b) db = (serve env (create_booking user.id b) db).1
perform env user (update k u) db = (serve env (update_booking k u user) db).1
perform env user (cancel k) db = (serve env (cancel_booking k user) db).1
perform env user (remove k) db = (serve env (delete_booking k user) db).1

-- One request, by any user and under any environment, keeps unique ids and schedules free of
-- overlap, whether it succeeds or fails.
pub perform-IsScheduled :
    (env : Environment) (user : User) (r : Request) (db : Database)
    → IsScheduled db
    → IsScheduled (perform env user r db)
unfolding perform serve
perform-IsScheduled env user (create b) db h =
    let s = open_session env db in
    Transaction-keeps IsScheduled s (create_booking user.id b s)
      (create_booking-Transaction user.id b s) h (create_booking_working s h h user.id b)
perform-IsScheduled env user (update k u) db h =
    let s = open_session env db in
    Transaction-keeps IsScheduled s (update_booking k u user s)
      (update_booking-Transaction k u user s) h (update_booking_working s h h k u user)
perform-IsScheduled env user (cancel k) db h =
    let s = open_session env db in
    Transaction-keeps IsScheduled s (cancel_booking k user s) (cancel_booking-Transaction k user s)
      h (cancel_booking_working s h h k user)
perform-IsScheduled env user (remove k) db h =
    let s = open_session env db in
    Transaction-keeps IsScheduled s (delete_booking k user s) (delete_booking-Transaction k user s)
      h (delete_booking_working s h h k user)

-- Requests one after the other.
pub perform_all : List (Environment × User × Request) → Database → Database
perform_all [] db = db
perform_all ((env, user, r) ∷ rest) db = perform_all rest (perform env user r db)

-- Any series of requests that are served one at a time leaves the ids of bookings unique and no
-- provider with two active bookings that overlap, if that was so before.
pub perform_all-IsScheduled :
    (rs : List (Environment × User × Request)) (db : Database)
    → IsScheduled db
    → IsScheduled (perform_all rs db)
unfolding perform_all
perform_all-IsScheduled [] db h = h
perform_all-IsScheduled ((env, user, r) ∷ rest) db h =
    perform_all-IsScheduled rest (perform env user r db) (perform-IsScheduled env user r db h)
