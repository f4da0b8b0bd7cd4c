-- ===== src/Tests/Summary.antt =====
-- Jobs, from the request to the summary.
use bodhrik_fullstack_assess.Common.{
  ℕ, ◌+◌, ◌≡◌, refl, true, false, none, some, [], ◌∷◌, ⊤, ltb, ◌==◌, if◌then◌else◌, All,
}
use bodhrik_fullstack_assess.Session.{ok}
use bodhrik_fullstack_assess.Tests.Data.{provider, db}
use bodhrik_fullstack_assess.Tests.Reviews.{rounding, reviewed}
use bodhrik_fullstack_assess.Summary.Redis.{
  JobStatus, ReviewSummaryResult, Job, Redis, stored, job_ttl,
}
use bodhrik_fullstack_assess.Summary.Figures.{Figures}
use bodhrik_fullstack_assess.Summary.Service.{
  Printing, enqueue_summary_job, get_summary_job, process_summary_job,
}
use bodhrik_fullstack_assess.Summary.Worker.{run_worker}
use bodhrik_fullstack_assess.Summary.Finish.{is_finished, process_summary_job_finishes}
use bodhrik_fullstack_assess.Summary.Drain.{Ended, run_worker_drains}
use bodhrik_fullstack_assess.Summary.Journey.{enqueue_work_get}

abbrev print : Printing
print = record {
  rounding = rounding;
  integer = λ n. "n";
  two_decimals = λ n. "n.nn";
  queries_raise = λ k. false;
  exception_text = "error";
}

abbrev redis : Redis
redis = record { jobs = []; queue = []; fails = λ n. false; calls = 0 }

abbrev busy : Redis
busy = record redis {
  queue = record { job_id = 70; provider_id = 2 } ∷ record { job_id = 71; provider_id = 9 } ∷ [];
}

process_summary_job_finishes_example :
    (job : Job) × (r' : Redis) × (process_summary_job print 1000 db 70 2 busy ≡ (some job, r'))
    × (is_finished job.status ≡ true)
    × ((key at : ℕ)
        → (if ltb at (1000 + job_ttl)
            then stored at key r'.jobs ≡ (if key == 70 then some job else stored at key busy.jobs)
            else ⊤))
    × (r'.queue ≡ busy.queue)
    × (r'.fails ≡ busy.fails)
process_summary_job_finishes_example =
    process_summary_job_finishes print 1000 db 70 2 busy (λ n. refl)

run_worker_drains_example :
    let (count, r') = run_worker print 1000 db true 2 none busy in
    (count ≡ 2) × (r'.queue ≡ []) × All (Ended 1000 r') busy.queue
run_worker_drains_example = run_worker_drains print 1000 db busy (λ n. refl)

enqueue_work_get_example :
    let (answer, r₁) = enqueue_summary_job 70 1000 2 db redis in
    let (count, r₂) = run_worker print 1000 db true 1 none r₁ in
    let reply = (get_summary_job 70 1000 r₂).0 in
    (answer
      ≡ ok (record {
        job_id = 70;
        status = JobStatus.queued;
        provider_id = 2;
        result = none;
        error = none;
        created_at = 1000;
        updated_at = 1000;
      }))
    × (count ≡ 1)
    × ((result : ReviewSummaryResult) × (reply
          ≡ ok (record {
            job_id = 70;
            status = JobStatus.completed;
            provider_id = 2;
            result = some result;
            error = none;
            created_at = 1000;
            updated_at = 1000;
          }))
        × Figures rounding 1000 2 provider db result)
enqueue_work_get_example =
    enqueue_work_get print 1000 70 2 db redis provider (λ n. refl) refl refl refl reviewed refl
