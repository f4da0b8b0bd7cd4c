-- ===== src/Jobs/Lifespan.antt =====
-- The lifespan of the application in app/main.py, which starts and stops the scheduler.
use bodhrik_fullstack_assess.Common.{
  ℕ, ◌≡◌, refl, Bool, true, false, none, [], arith, if◌then◌else◌, length,
}
use bodhrik_fullstack_assess.Jobs.Scheduler.{BackgroundJobScheduler, is_running, start, stop}

-- The scheduler while the application serves, and after its shutdown. `enabled` is
-- settings.BACKGROUND_JOBS_ENABLED; the event loop runs.
unfoldable pub lifespan :
    Bool → BackgroundJobScheduler → BackgroundJobScheduler × BackgroundJobScheduler
lifespan enabled s =
    let serving = if enabled then start true s else s in
    (serving, if enabled then stop serving else serving)

abbrev pub idle : ℕ → BackgroundJobScheduler
idle n = record { running = false; task = none; live = []; next = n }

-- While an application serves that began with an idle scheduler, one task is live where the jobs
-- are enabled, and none where they are not; after its shutdown none is live, and the scheduler does
-- not run.
pub lifespan_tasks :
    (enabled : Bool) (n : ℕ)
    → let (serving, after) = lifespan enabled (idle n) in
      (length serving.live ≡ (if enabled then 1 else 0))
      × (is_running serving ≡ enabled)
      × (after.live ≡ [])
      × (is_running after ≡ false)
unfolding lifespan start stop
lifespan_tasks true n = (refl, ground arith, ground arith, refl)
lifespan_tasks false n = (refl, refl, refl, refl)
