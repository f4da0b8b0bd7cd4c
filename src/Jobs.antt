-- ===== src/Jobs.antt =====
-- app/jobs/booking_jobs.py: the reminder job and the overdue job. The proofs are in the modules
-- below; the scheduler that runs the jobs is in Scheduler.
pub mod Pair
pub mod Loop
pub mod Idempotent
pub mod Scheduler
pub mod Interleaved
pub mod Lifespan
use bodhrik_fullstack_assess.Common.{
  ℕ, zero, suc, ◌+◌, ◌-◌, ◌*◌, ◌/◌, ◌≤◌, ◌<◌, String, ◌≡◌, refl, sym, ap, ◌∙◌, subst, ◌≢◌, ◌↔◌, ◌⊎◌,
  inl, inr, Bool, true, false, not, ◌&&◌, ◌||◌, Option, none, some, List, [], ◌∷◌, ◌++◌, map, arith,
  str_eq, eq_iff, ◌<>◌, ⊤, ltb, leb, ◌==◌, if◌then◌else◌, ==_iff, Bool-cases, Option-cases, is_some,
  or_default, length, take, drop, any, length-append, any-append, length-take-le, All, All-append,
}
use bodhrik_fullstack_assess.Common.Table.{
  select, first, update_where, delete_where, order_by, page, All-select, first-test, first-any,
  All-page,
}
use bodhrik_fullstack_assess.Models.{
  UserRole, BookingStatus, NotificationType, role_eq, status_eq, type_eq, status_value, User,
  Booking, Review, Notification, Database,
}
use bodhrik_fullstack_assess.Session.{
  Session, Exception, Result, ok, err, http, integrity, operational, Action, pure, raise,
  http_error, query, ◌>>=◌, ◌>>◌, raise_if, or_raise, lift, on_error, find_user, find_booking,
  find_review, find_notification, uuid4, clock, set_booking, add_booking, insert_booking,
  flush_booking, refreshed_booking, booking_changed, insert_review, flush_review, refreshed_review,
  insert_or_ignore, execute, commit, rollback, Environment, open_session, serve,
}
use bodhrik_fullstack_assess.Notifications.{create_notification}

-- what `if notification is not None: created_count += 1` adds
abbrev pub created : Option Notification → ℕ
created none = 0
created (some n) = 1

-- A loop's body: a notification of the customer, then one of the provider.
unfoldable pub notify_pair : NotificationType → String → String → String → Booking → Action ℕ
notify_pair type title customer_message provider_message booking = do
  cust_notif ← create_notification booking.customer_id type title customer_message (some booking.id)
  prov_notif ← create_notification booking.provider_id type title provider_message (some booking.id)
  pure (created cust_notif + created prov_notif)

-- `for booking in bookings`, with the count so far
unfoldable pub for_each : (Booking → Action ℕ) → List Booking → ℕ → Action ℕ
for_each body [] created_count = pure created_count
for_each body (booking ∷ bookings) created_count = do
  n ← body booking
  for_each body bookings (created_count + n)

-- A job: the bookings that its query selects, at the time it began, and its loop. The session is
-- left by `finally: session.close()` if the loop or the commit raises.
unfoldable pub run_job : (ℕ → Booking → Bool) → (Booking → Action ℕ) → Action ℕ
run_job due body = do
  now ← clock
  bookings ← query (λ db. select (due now) db.bookings)
  created_count ← for_each body bookings 0
  commit
  pure created_count

-- in microseconds
abbrev pub minutes : ℕ → ℕ
minutes n = n * 60000000

-- confirmed, and starting within the window
abbrev pub is_upcoming : ℕ → ℕ → Booking → Bool
is_upcoming reminder_window_minutes now booking =
    status_eq booking.status BookingStatus.confirmed
    && (ltb now booking.start_time
        && leb booking.start_time (now + minutes reminder_window_minutes))

-- confirmed, and ended
abbrev pub is_overdue : ℕ → Booking → Bool
is_overdue now booking =
    status_eq booking.status BookingStatus.confirmed && ltb booking.end_time now

-- `isoformat` is the standard library's `datetime.isoformat`.
module _ (isoformat : ℕ → String) where
  unfoldable pub remind : Booking → Action ℕ
  remind booking =
      notify_pair NotificationType.booking_reminder "Upcoming Booking Reminder"
        ("Reminder: You have an upcoming booking for "
          <> booking.service_name
          <> " at "
          <> isoformat booking.start_time
          <> ".")
        ("Reminder: You have an upcoming service for "
          <> booking.service_name
          <> " scheduled at "
          <> isoformat booking.start_time
          <> ".")
        booking

  -- `settings_minutes` is settings.BOOKING_REMINDER_MINUTES
  unfoldable pub run_booking_reminder_job : ℕ → Option ℕ → Action ℕ
  run_booking_reminder_job settings_minutes reminder_window_minutes =
      run_job (is_upcoming (or_default reminder_window_minutes settings_minutes)) remind

  unfoldable pub tell_overdue : Booking → Action ℕ
  tell_overdue booking =
      notify_pair NotificationType.booking_overdue "Booking Overdue"
        ("Your booking for "
          <> booking.service_name
          <> " ended at "
          <> isoformat booking.end_time
          <> " and is overdue.")
        ("The booking for "
          <> booking.service_name
          <> " ended at "
          <> isoformat booking.end_time
          <> " and requires completion.")
        booking

  unfoldable pub run_overdue_booking_job : Action ℕ
  run_overdue_booking_job = run_job is_overdue tell_overdue
