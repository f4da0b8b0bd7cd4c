-- ===== src/Tests/Jobs.antt =====
-- The background jobs.
use bodhrik_fullstack_assess.Common.{ℕ, String, ◌≡◌, refl, none}
use bodhrik_fullstack_assess.Common.Table.{select}
use bodhrik_fullstack_assess.Models.{NotificationType}
use bodhrik_fullstack_assess.Session.{ok, Environment, serve}
use bodhrik_fullstack_assess.Models.Constraints.{notification_violation}
use bodhrik_fullstack_assess.Notifications.{create_notification}
use bodhrik_fullstack_assess.Tests.Data.{db, env}
use bodhrik_fullstack_assess.Jobs.{
  is_upcoming, is_overdue, run_job, for_each, notify_pair, remind, tell_overdue,
  run_booking_reminder_job, run_overdue_booking_job,
}
use bodhrik_fullstack_assess.Jobs.Idempotent.{
  Notified, run_overdue_booking_job_effect, run_booking_reminder_job_effect,
  run_overdue_booking_job_again,
}
use bodhrik_fullstack_assess.Jobs.Scheduler.{Command, starts, stops}
use bodhrik_fullstack_assess.Common.{List, [], false, true, ◌∷◌}

abbrev isoformat : ℕ → String
isoformat t = "2026-01-01T00:00:00+00:00"

abbrev early : Environment
early = record env { now = 250 }

run_overdue_booking_job_effect_example :
    Notified NotificationType.booking_overdue
      (select (is_overdue 1000) db.bookings)
      2
      db
      (serve env (run_overdue_booking_job isoformat) db).1
unfolding serve run_overdue_booking_job run_job for_each tell_overdue notify_pair
    create_notification notification_violation
run_overdue_booking_job_effect_example = run_overdue_booking_job_effect isoformat env db refl

run_booking_reminder_job_effect_example :
    Notified NotificationType.booking_reminder
      (select (is_upcoming 60 250) db.bookings)
      2
      db
      (serve early (run_booking_reminder_job isoformat 60 none) db).1
unfolding serve run_booking_reminder_job run_job for_each remind notify_pair create_notification
    notification_violation
run_booking_reminder_job_effect_example =
    run_booking_reminder_job_effect isoformat 60 none early db refl

run_overdue_booking_job_again_example :
    let db' = (serve env (run_overdue_booking_job isoformat) db).1 in
    serve env (run_overdue_booking_job isoformat) db' ≡ (ok 0, db')
unfolding serve run_overdue_booking_job run_job for_each tell_overdue notify_pair
    create_notification notification_violation
run_overdue_booking_job_again_example =
    run_overdue_booking_job_again isoformat env env db {n = 2} refl refl refl

abbrev commands : List Command
commands = starts true ∷ starts true ∷ stops ∷ starts true ∷ []

abbrev away : Environment
away = record env { online = false }
