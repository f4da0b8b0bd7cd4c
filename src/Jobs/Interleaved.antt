-- ===== src/Jobs/Interleaved.antt =====
-- app/jobs/scheduler.py where calls interleave: `stop` awaits the task that it has cancelled, and
-- other calls run until that task has ended and `stop` goes on.
pub mod Orderly
pub mod Doubled
use bodhrik_fullstack_assess.Common.{
  ℕ, ◌≤◌, ◌<◌, ◌≡◌, refl, sym, ◌∙◌, subst, ◌⊎◌, inl, inr, Bool, true, false, not, ◌&&◌, Option,
  none, some, List, [], ◌∷◌, ◌++◌, arith, ◌==◌, if◌then◌else◌, is_some, length, any, All, ⊤,
}
use bodhrik_fullstack_assess.Common.Table.{delete_where}
use bodhrik_fullstack_assess.Jobs.Scheduler.{
  BackgroundJobScheduler, new_scheduler, is_running, start,
}

-- The scheduler, and for each call of `stop` that is suspended the task that it awaits.
pub record System : Type 0 where
  pub scheduler : BackgroundJobScheduler
  pub waiting : List ℕ

abbrev pub new_system : System
new_system = record { scheduler = new_scheduler; waiting = [] }

abbrev await_task : Option ℕ → List ℕ → List ℕ
await_task none waiting = waiting
await_task (some t) waiting = t ∷ waiting

-- `stop` up to its `await`
unfoldable pub begin_stop : System → System
begin_stop s = if not s.scheduler.running && not (is_some s.scheduler.task) then s else record s {
  scheduler = record s.scheduler { running = false };
  waiting = await_task s.scheduler.task s.waiting;
}

abbrev pub end_task : ℕ → System → System
end_task t s = record s {
  scheduler = record s.scheduler { live = delete_where (λ l. l == t) s.scheduler.live };
}

-- its `finally`, where the suspended calls `rest` are left
abbrev pub finish_stop : List ℕ → System → System
finish_stop rest s = record s { scheduler = record s.scheduler { task = none }; waiting = rest }

-- A task ends where it was cancelled, or where its loop finds that the scheduler stopped. A call
-- of `start` is made where `allowed` lets it.
pub data Step (allowed : System → Type 0) : System → System → Type 0 where
  start_called :
      (s : System) (has_loop : Bool)
      → allowed s
      → Step allowed s (record s { scheduler = start has_loop s.scheduler })
  stop_called : (s : System) → Step allowed s (begin_stop s)
  task_ended :
      (s : System) (t : ℕ)
      → (any (λ w. w == t) s.waiting ≡ true) ⊎ (s.scheduler.running ≡ false)
      → Step allowed s (end_task t s)
  stop_resumed :
      (s : System) (before after : List ℕ) (t : ℕ)
      → s.waiting ≡ before ++ t ∷ after
      → any (λ l. l == t) s.scheduler.live ≡ false
      → Step allowed s (finish_stop (before ++ after) s)

pub data Reach (allowed : System → Type 0) (s : System) : System → Type 0 where
  here : Reach allowed s s
  next : {t u : System} → Reach allowed s t → Step allowed t u → Reach allowed s u

-- no call of `stop` is suspended
abbrev pub Quiet : System → Type 0
Quiet s = s.waiting ≡ []
