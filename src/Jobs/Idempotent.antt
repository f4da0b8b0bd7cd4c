-- ===== src/Jobs/Idempotent.antt =====
-- One and two runs of each job.
use bodhrik_fullstack_assess.Common.{
  ℕ, ◌+◌, String, ◌≡◌, refl, true, Option, List, ◌<>◌, ⊤, ◌==◌, if◌then◌else◌, or_default, length,
  any, All,
}
use bodhrik_fullstack_assess.Common.Table.{select}
use bodhrik_fullstack_assess.Models.{NotificationType, Booking, Database}
use bodhrik_fullstack_assess.Session.{Exception, err, ok, Environment, serve}
use bodhrik_fullstack_assess.Notifications.Slots.{IsDeduplicated}
use bodhrik_fullstack_assess.Notifications.Create.{is_told}
use bodhrik_fullstack_assess.Jobs.{
  is_upcoming, is_overdue, remind, run_booking_reminder_job, tell_overdue, run_overdue_booking_job,
}
use bodhrik_fullstack_assess.Jobs.Loop.{
  run_job_effect, run_job_again, run_job_failed, run_job-IsDeduplicated,
}

abbrev pub overdue_text : (ℕ → String) → Booking → String
overdue_text isoformat b =
    "Your booking for "
    <> b.service_name
    <> " ended at "
    <> isoformat b.end_time
    <> " and is overdue."

abbrev pub completion_text : (ℕ → String) → Booking → String
completion_text isoformat b =
    "The booking for "
    <> b.service_name
    <> " ended at "
    <> isoformat b.end_time
    <> " and requires completion."

abbrev pub reminder_text : (ℕ → String) → Booking → String
reminder_text isoformat b =
    "Reminder: You have an upcoming booking for "
    <> b.service_name
    <> " at "
    <> isoformat b.start_time
    <> "."

abbrev pub service_text : (ℕ → String) → Booking → String
service_text isoformat b =
    "Reminder: You have an upcoming service for "
    <> b.service_name
    <> " scheduled at "
    <> isoformat b.start_time
    <> "."

-- What a run of a job that returns `n` has done to the database: both parties of each due booking
-- are told, `n` notifications are new, nobody is told about another booking, and no other table
-- has changed.
pub record Notified (type : NotificationType) (due : List Booking) (n : ℕ) (db db' : Database)
    : Type 0 where
  pub told :
      All
        (λ (b : Booking).
          (is_told b.customer_id b.id type db'.notifications ≡ true)
          × (is_told b.provider_id b.id type db'.notifications ≡ true))
        due
  pub grown : length db'.notifications ≡ length db.notifications + n
  pub elsewhere :
      (v k : ℕ) (t : NotificationType)
      → (if any (λ (b : Booking). b.id == k) due
          then ⊤
          else is_told v k t db'.notifications ≡ is_told v k t db.notifications)
  pub bookings : db'.bookings ≡ db.bookings
  pub reviews : db'.reviews ≡ db.reviews
  pub users : db'.users ≡ db.users

-- A run of the overdue job that returns `n` has told both parties of each confirmed booking that
-- has ended, and nobody about any other booking; `n` notifications are new, and no booking, review
-- or user has changed.
pub run_overdue_booking_job_effect :
    (isoformat : ℕ → String) (env : Environment) (db : Database) {n : ℕ}
    → (serve env (run_overdue_booking_job isoformat) db).0 ≡ ok n
    → Notified NotificationType.booking_overdue
        (select (is_overdue env.now) db.bookings)
        n
        db
        (serve env (run_overdue_booking_job isoformat) db).1
unfolding run_overdue_booking_job tell_overdue
run_overdue_booking_job_effect isoformat env db {n} h =
    let (told, grown, elsewhere, bookings, reviews, users) =
      run_job_effect NotificationType.booking_overdue "Booking Overdue" (overdue_text isoformat)
        (completion_text isoformat) is_overdue env db h in
    record {
      told = told;
      grown = grown;
      elsewhere = elsewhere;
      bookings = bookings;
      reviews = reviews;
      users = users;
    }

-- A run of the reminder job that returns `n` has told both parties of each confirmed booking that
-- starts within the window, and nobody about any other booking; `n` notifications are new, and no
-- booking, review or user has changed.
pub run_booking_reminder_job_effect :
    (isoformat : ℕ → String) (settings_minutes : ℕ) (window : Option ℕ) (env : Environment)
    (db : Database) {n : ℕ}
    → (serve env (run_booking_reminder_job isoformat settings_minutes window) db).0 ≡ ok n
    → Notified NotificationType.booking_reminder
        (select (is_upcoming (or_default window settings_minutes) env.now) db.bookings)
        n
        db
        (serve env (run_booking_reminder_job isoformat settings_minutes window) db).1
unfolding run_booking_reminder_job remind
run_booking_reminder_job_effect isoformat settings_minutes window env db {n} h =
    let (told, grown, elsewhere, bookings, reviews, users) =
      run_job_effect NotificationType.booking_reminder "Upcoming Booking Reminder"
        (reminder_text isoformat) (service_text isoformat)
        (is_upcoming (or_default window settings_minutes)) env db h in
    record {
      told = told;
      grown = grown;
      elsewhere = elsewhere;
      bookings = bookings;
      reviews = reviews;
      users = users;
    }

-- After a run of the overdue job that returned, a run at the same time that reaches the server
-- creates no notification and leaves the database as it is.
pub run_overdue_booking_job_again :
    (isoformat : ℕ → String) (env env' : Environment) (db : Database) {n : ℕ}
    → (serve env (run_overdue_booking_job isoformat) db).0 ≡ ok n
    → env'.now ≡ env.now
    → env'.online ≡ true
    → let db' = (serve env (run_overdue_booking_job isoformat) db).1 in
      serve env' (run_overdue_booking_job isoformat) db' ≡ (ok 0, db')
unfolding run_overdue_booking_job tell_overdue
run_overdue_booking_job_again isoformat env env' db {n} h same online =
    let done = run_overdue_booking_job_effect isoformat env db h in
    run_job_again NotificationType.booking_overdue "Booking Overdue" (overdue_text isoformat)
      (completion_text isoformat) is_overdue env db env' h online (rw (done.bookings, same) refl)

-- After a run of the reminder job that returned, a run at the same time with the same window that
-- reaches the server creates no notification and leaves the database as it is.
pub run_booking_reminder_job_again :
    (isoformat : ℕ → String) (settings_minutes : ℕ) (window : Option ℕ) (env env' : Environment)
    (db : Database) {n : ℕ}
    → (serve env (run_booking_reminder_job isoformat settings_minutes window) db).0 ≡ ok n
    → env'.now ≡ env.now
    → env'.online ≡ true
    → let db' = (serve env (run_booking_reminder_job isoformat settings_minutes window) db).1 in
      serve env' (run_booking_reminder_job isoformat settings_minutes window) db' ≡ (ok 0, db')
unfolding run_booking_reminder_job remind
run_booking_reminder_job_again isoformat settings_minutes window env env' db {n} h same online =
    let done = run_booking_reminder_job_effect isoformat settings_minutes window env db h in
    run_job_again NotificationType.booking_reminder "Upcoming Booking Reminder"
      (reminder_text isoformat) (service_text isoformat)
      (is_upcoming (or_default window settings_minutes)) env db env' h online
      (rw (done.bookings, same) refl)

-- Both jobs leave a table of notifications without duplicates as one, whether they return or not.
pub jobs-IsDeduplicated :
    (isoformat : ℕ → String) (settings_minutes : ℕ) (window : Option ℕ) (env : Environment)
    (db : Database)
    → IsDeduplicated db.notifications
    → IsDeduplicated (serve env (run_overdue_booking_job isoformat) db).1.notifications
      × IsDeduplicated
          (serve env
            (run_booking_reminder_job isoformat settings_minutes window)
            db).1.notifications
unfolding run_overdue_booking_job tell_overdue run_booking_reminder_job remind
jobs-IsDeduplicated isoformat settings_minutes window env db h = (
  run_job-IsDeduplicated NotificationType.booking_overdue "Booking Overdue" (overdue_text isoformat)
      (completion_text isoformat) is_overdue env db h,
  run_job-IsDeduplicated NotificationType.booking_reminder "Upcoming Booking Reminder"
      (reminder_text isoformat) (service_text isoformat)
      (is_upcoming (or_default window settings_minutes)) env db h,
)

-- A reminder job that raises has changed nothing.
pub run_booking_reminder_job_failed :
    (isoformat : ℕ → String) (settings_minutes : ℕ) (window : Option ℕ) (env : Environment)
    (db : Database) {e : Exception}
    → (serve env (run_booking_reminder_job isoformat settings_minutes window) db).0 ≡ err e
    → (serve env (run_booking_reminder_job isoformat settings_minutes window) db).1 ≡ db
unfolding run_booking_reminder_job remind
run_booking_reminder_job_failed isoformat settings_minutes window env db h =
    run_job_failed NotificationType.booking_reminder "Upcoming Booking Reminder"
      (reminder_text isoformat) (service_text isoformat)
      (is_upcoming (or_default window settings_minutes)) env db h
