-- ===== src/Jobs/Scheduler.antt =====
-- app/jobs/scheduler.py: the in-process scheduler, whose calls come one after the other.
use bodhrik_fullstack_assess.Common.{
  ℕ, suc, String, ◌≡◌, refl, ap, inl, inr, Bool, true, false, not, ◌&&◌, Option, none, some, List,
  [], ◌∷◌, arith, ◌==◌, if◌then◌else◌, Bool-cases, is_some, length, any,
}
use bodhrik_fullstack_assess.Common.Table.{delete_where}
use bodhrik_fullstack_assess.Models.{Database}
use bodhrik_fullstack_assess.Session.{Exception, err, Action, Environment, serve}
use bodhrik_fullstack_assess.Jobs.{run_booking_reminder_job, run_overdue_booking_job}
use bodhrik_fullstack_assess.Jobs.Idempotent.{run_booking_reminder_job_failed}

-- `_running` and `_task`; the tasks of the event loop that are not done, and the next task's name
pub record BackgroundJobScheduler : Type 0 where
  pub running : Bool
  pub task : Option ℕ
  pub live : List ℕ
  pub next : ℕ

abbrev pub new_scheduler : BackgroundJobScheduler
new_scheduler = record { running = false; task = none; live = []; next = 0 }

-- `task is not None and not task.done()`
abbrev pub has_live_task : Option ℕ → List ℕ → Bool
has_live_task none live = false
has_live_task (some t) live = any (λ l. l == t) live

abbrev pub is_running : BackgroundJobScheduler → Bool
is_running s = s.running && has_live_task s.task s.live

-- `has_loop` says whether asyncio.get_running_loop() gives a loop
unfoldable pub start : Bool → BackgroundJobScheduler → BackgroundJobScheduler
start has_loop s =
    if is_running s
    then s
    else if not has_loop
    then s
    else record { running = true; task = some s.next; live = s.next ∷ s.live; next = suc s.next }

-- the task that was cancelled and awaited is done
abbrev pub cancel : Option ℕ → List ℕ → List ℕ
cancel none live = live
cancel (some t) live = delete_where (λ l. l == t) live

unfoldable pub stop : BackgroundJobScheduler → BackgroundJobScheduler
stop s =
    if not s.running && not (is_some s.task)
    then s
    else record s { running = false; task = none; live = cancel s.task s.live }

pub data Command : Type 0 where
  starts : Bool → Command
  stops : Command

abbrev pub obey : Command → BackgroundJobScheduler → BackgroundJobScheduler
obey (starts has_loop) s = start has_loop s
obey stops s = stop s

unfoldable pub obey_all : List Command → BackgroundJobScheduler → BackgroundJobScheduler
obey_all [] s = s
obey_all (c ∷ cs) s = obey_all cs (obey c s)

-- Where the scheduler is running it has the one live task, and otherwise there is none.
pub data IsSingle : BackgroundJobScheduler → Type 0 where
  stopped : (n : ℕ) → IsSingle (record { running = false; task = none; live = []; next = n })
  working : (t n : ℕ) → IsSingle (record { running = true; task = some t; live = t ∷ []; next = n })

obey-IsSingle : (c : Command) (s : BackgroundJobScheduler) → IsSingle s → IsSingle (obey c s)
unfolding start stop
obey-IsSingle (starts true) _ (stopped n) = working n (suc n)
obey-IsSingle (starts false) _ (stopped n) = stopped n
obey-IsSingle (starts b) _ (working t n) = elim (Bool-cases (t == t)) [
  | inl e ↦ rw e (working t n)
  | inr e ↦ absurd (ground arith)
]
obey-IsSingle stops _ (stopped n) = stopped n
obey-IsSingle stops _ (working t n) = elim (Bool-cases (t == t)) [
  | inl e ↦ rw e (stopped n)
  | inr e ↦ absurd (ground arith)
]

obey_all-IsSingle :
    (cs : List Command) (s : BackgroundJobScheduler) → IsSingle s → IsSingle (obey_all cs s)
unfolding obey_all
obey_all-IsSingle [] s h = h
obey_all-IsSingle (c ∷ cs) s h = obey_all-IsSingle cs (obey c s) (obey-IsSingle c s h)

single_live :
    (s : BackgroundJobScheduler) → IsSingle s → length s.live ≡ (if is_running s then 1 else 0)
single_live _ (stopped n) = refl
single_live _ (working t n) = ground arith

-- However often a scheduler is started and stopped, one call after the other, it has one live
-- task where it is running, and none where it is not.
pub obey_all_single :
    (cs : List Command)
    → let s = obey_all cs new_scheduler in length s.live ≡ (if is_running s then 1 else 0)
obey_all_single cs =
    single_live (obey_all cs new_scheduler) (obey_all-IsSingle cs new_scheduler (stopped 0))

-- a job in a session of its own, whose exception is logged
unfoldable pub run_single_job : Environment → Action ℕ → Database → Database
run_single_job env job_fn db = (serve env job_fn db).1

module _ (isoformat : ℕ → String) (settings_minutes : ℕ) where
  -- each job's session meets an environment of its own
  unfoldable pub execute_jobs : Environment → Environment → Database → Database
  execute_jobs env env' db =
      run_single_job env' (run_overdue_booking_job isoformat)
        (run_single_job env (run_booking_reminder_job isoformat settings_minutes none) db)

  -- A reminder job that raises leaves no trace, and the overdue job runs as if it had not been
  -- begun.
  pub execute_jobs_isolated :
      (env env' : Environment) (db : Database) {e : Exception}
      → (serve env (run_booking_reminder_job isoformat settings_minutes none) db).0 ≡ err e
      → execute_jobs env env' db ≡ (serve env' (run_overdue_booking_job isoformat) db).1
  unfolding execute_jobs run_single_job
  execute_jobs_isolated env env' db h =
      ap (λ (d : Database). (serve env' (run_overdue_booking_job isoformat) d).1)
        (run_booking_reminder_job_failed isoformat settings_minutes none env db h)
