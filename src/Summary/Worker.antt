-- ===== src/Summary/Worker.antt =====
-- app/workers/review_worker.py.
use bodhrik_fullstack_assess.Common.{
  ℕ, zero, suc, ◌+◌, Bool, true, false, Option, none, some, ⊤, leb,
}
use bodhrik_fullstack_assess.Models.{Database}
use bodhrik_fullstack_assess.Summary.Redis.{Job, Task, Redis, blpop, ping}
use bodhrik_fullstack_assess.Summary.Service.{Printing, process_summary_job}

-- what a pass adds to `jobs_processed`: 1 where `process_summary_job` returned
abbrev pub counted : Option Job → ℕ
counted none = 0
counted (some job) = 1

module _ (print : Printing) (now : ℕ) (db : Database) where
  -- what the loop does with the answer of BLPOP
  abbrev pub handle : Option (Option Task) × Redis → ℕ × Redis
  handle (none, r) = (0, r)
  handle (some none, r) = (0, r)
  handle (some (some task), r) =
      let (done, r') = process_summary_job print now db task.job_id task.provider_id r in
      (counted done, r')

  -- One pass of the loop. An exception is logged, and the loop goes on.
  unfoldable pub pass : Redis → ℕ × Redis
  pass r = handle (blpop r)

  -- `max_jobs is not None and jobs_processed >= max_jobs`
  abbrev pub is_limit : Option ℕ → ℕ → Bool
  is_limit none jobs_processed = false
  is_limit (some max_jobs) jobs_processed = leb max_jobs jobs_processed

  -- `while _running`: the number is how many passes are begun before a signal clears the flag
  unfoldable pub worker_loop : ℕ → Option ℕ → ℕ → Redis → ℕ × Redis
  worker_loop zero max_jobs jobs_processed r = (jobs_processed, r)
  worker_loop (suc passes) max_jobs jobs_processed r = elim (is_limit max_jobs jobs_processed) [
    | true ↦ (jobs_processed, r)
    | false ↦ let (n, r') = pass r in worker_loop passes max_jobs (jobs_processed + n) r'
  ]

  -- after the two checks of what the worker depends on
  abbrev pub begin : Bool → ℕ → Option ℕ → Option ⊤ × Redis → ℕ × Redis
  begin db_online passes max_jobs (none, r) = (0, r)
  begin false passes max_jobs (some _, r) = (0, r)
  begin true passes max_jobs (some _, r) = worker_loop passes max_jobs 0 r

  -- `db_online` is what check_db_connection answers
  unfoldable pub run_worker : Bool → ℕ → Option ℕ → Redis → ℕ × Redis
  run_worker db_online passes max_jobs r = begin db_online passes max_jobs (ping r)
