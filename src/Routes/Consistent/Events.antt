-- ===== src/Routes/Consistent/Events.antt =====
-- Requests and turns of the jobs, one after the other.
use bodhrik_fullstack_assess.Common.{ℕ, String, refl, inl, inr, none, List, [], ◌∷◌, Bool}
use bodhrik_fullstack_assess.Models.{NotificationType, Booking, Database}
use bodhrik_fullstack_assess.Session.{Action, Environment, open_session, serve}
use bodhrik_fullstack_assess.Session.Laws.{Result-cases}
use bodhrik_fullstack_assess.Jobs.{
  is_overdue, is_upcoming, run_job, notify_pair, remind, run_booking_reminder_job, tell_overdue,
  run_overdue_booking_job,
}
use bodhrik_fullstack_assess.Jobs.Loop.{run_job_effect, run_job_failed}
use bodhrik_fullstack_assess.Jobs.Idempotent.{
  overdue_text, completion_text, reminder_text, service_text,
}
use bodhrik_fullstack_assess.Jobs.Scheduler.{run_single_job, execute_jobs}
use bodhrik_fullstack_assess.Routes.Consistent.Untouched.{OnlyNotifications}
use bodhrik_fullstack_assess.Routes.Reply.{App}
use bodhrik_fullstack_assess.Routes.Dispatch.{Request, handle}
use bodhrik_fullstack_assess.Routes.Consistent.JobFrames.{Keeps-run_job}
use bodhrik_fullstack_assess.Routes.Consistent.Invariant.{IsConsistent, from_notifications}
use bodhrik_fullstack_assess.Routes.Consistent.Services.{framed}
use bodhrik_fullstack_assess.Routes.Consistent.Handled.{handle-IsConsistent}

-- A job whose loop tells both parties of each booking.
module _ (due : ℕ → Booking → Bool) (type : NotificationType) (title : String)
    (cm pm : Booking → String) (env : Environment) (db : Database) where
  abbrev job : Action ℕ
  job = run_job due (λ b. notify_pair type title (cm b) (pm b) b)

  job-OnlyNotifications : OnlyNotifications db (serve env job db).1
  job-OnlyNotifications = elim (Result-cases (serve env job db).0) [
    | inl (n, done) ↦
        let (_, _, _, bs, rs, us) = run_job_effect type title cm pm due env db done in (us, bs, rs)
    | inr (e, raised) ↦ rw (run_job_failed type title cm pm due env db raised) (refl, refl, refl)
  ]

  job-IsConsistent : IsConsistent db → IsConsistent (serve env job db).1
  unfolding serve
  job-IsConsistent h =
      from_notifications db (job (open_session env db)).1.committed h job-OnlyNotifications
        (Keeps-run_job db.users db.reviews due type title cm pm (open_session env db)
          (framed env db h)).stored_slots

-- What happens to the application, one at a time: a request, or a turn of the scheduler's loop,
-- whose two jobs have an environment each.
pub data Event : Type 0 where
  request : Environment → Request → Event
  turn : Environment → Environment → Event

module _ (app : App) (isoformat : ℕ → String) (reminder_minutes : ℕ) where
  unfoldable pub happen : Event → Database → Database
  happen (request env req) db = (serve env (handle app req) db).1
  happen (turn env env') db = execute_jobs isoformat reminder_minutes env env' db

  unfoldable pub happen_all : List Event → Database → Database
  happen_all [] db = db
  happen_all (e ∷ es) db = happen_all es (happen e db)

  execute_jobs-IsConsistent :
      (env env' : Environment) (db : Database)
      → IsConsistent db
      → IsConsistent (execute_jobs isoformat reminder_minutes env env' db)
  unfolding execute_jobs run_single_job run_overdue_booking_job tell_overdue
      run_booking_reminder_job remind
  execute_jobs-IsConsistent env env' db h =
      job-IsConsistent is_overdue NotificationType.booking_overdue "Booking Overdue"
        (overdue_text isoformat) (completion_text isoformat) env'
        (serve env (run_booking_reminder_job isoformat reminder_minutes none) db).1
        (job-IsConsistent (is_upcoming reminder_minutes) NotificationType.booking_reminder
          "Upcoming Booking Reminder" (reminder_text isoformat) (service_text isoformat) env db h)

  -- Whatever happens to the application, one event after the other: requests to any route that
  -- `handle` serves, by anybody, and turns of the scheduler, with their failures, a consistent
  -- database stays consistent. Each booking ends after it starts and is of two people, one of them a provider;
  -- active bookings of a provider do not overlap; each review is about a completed booking of its
  -- customer with its provider; keys, emails and notifications are not doubled.
  pub happen_all-IsConsistent :
      (es : List Event) (db : Database) → IsConsistent db → IsConsistent (happen_all es db)
  unfolding happen_all happen
  happen_all-IsConsistent [] db h = h
  happen_all-IsConsistent (request env req ∷ es) db h =
      happen_all-IsConsistent es (happen (request env req) db)
        (handle-IsConsistent app env req db h)
  happen_all-IsConsistent (turn env env' ∷ es) db h =
      happen_all-IsConsistent es (happen (turn env env') db)
        (execute_jobs-IsConsistent env env' db h)
