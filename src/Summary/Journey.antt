-- ===== src/Summary/Journey.antt =====
-- The way of one job from the request to its result.
use bodhrik_fullstack_assess.Common.{
  ℕ, suc, ◌+◌, ◌≤◌, ◌≡◌, refl, sym, ap, ◌∙◌, subst, inl, inr, true, false, none, some, [], ◌∷◌,
  arith, ◌==◌, Bool-cases, length,
}
use bodhrik_fullstack_assess.Models.{UserRole, role_eq, User, Database}
use bodhrik_fullstack_assess.Session.{Result, ok, find_user}
use bodhrik_fullstack_assess.Reviews.Table.{IsReviewed}
use bodhrik_fullstack_assess.Reviews.Summary.{ratings_of-InRange}
use bodhrik_fullstack_assess.Statistics.Average.{average_rating_between}
use bodhrik_fullstack_assess.Statistics.{Rounding, ratings_of, average_rating}
use bodhrik_fullstack_assess.Summary.Redis.{
  JobStatus, ReviewSummaryResult, Job, Task, Redis, put_job, stored,
}
use bodhrik_fullstack_assess.Summary.Service.{
  Printing, new_job, enqueue_summary_job, get_summary_job, processing_job, summarise, completed_job,
}
use bodhrik_fullstack_assess.Summary.Worker.{begin, worker_loop, run_worker}
use bodhrik_fullstack_assess.Summary.Figures.{Figures, summarise-Figures}
use bodhrik_fullstack_assess.Summary.Finish.{Reachable, outcome, stored-put}
use bodhrik_fullstack_assess.Summary.Drain.{taken, pass-taken, stored-taken, ping-Reachable}

-- Redis after a job has been asked for
abbrev start : ℕ → ℕ → ℕ → Redis → Redis
start now job_id provider_id r = record r {
  jobs = put_job now job_id (new_job job_id now provider_id) r.jobs;
  queue = record { job_id = job_id; provider_id = provider_id } ∷ [];
  calls = suc (suc r.calls);
}

enqueued :
    (now job_id provider_id : ℕ) (db : Database) (r : Redis) (provider : User)
    → Reachable r
    → r.queue ≡ []
    → find_user provider_id db ≡ some provider
    → role_eq provider.role UserRole.provider ≡ true
    → enqueue_summary_job job_id now provider_id db r
      ≡ (ok (new_job job_id now provider_id), start now job_id provider_id r)
unfolding enqueue_summary_job
enqueued now job_id provider_id db r provider up empty found role =
    ground (arith, found, role, up r.calls, up (suc r.calls), empty)

get_known :
    (now key : ℕ) (r : Redis) {job : Job}
    → Reachable r
    → stored now key r.jobs ≡ some job
    → (get_summary_job key now r).0 ≡ ok job
unfolding get_summary_job
get_known now key r {job} up e = ground (arith, up r.calls, e)

average_at_most_5 :
    (rounding : Rounding) (p : ℕ) (db : Database)
    → IsReviewed db.reviews
    → average_rating rounding (ratings_of p db.reviews) ≤ 500
unfolding average_rating
average_at_most_5 rounding p db table =
    let rs = ratings_of p db.reviews in
    elim (Bool-cases (length rs == 0)) [
      | inl e ↦ rw e (omega arith)
      | inr e ↦
          (average_rating_between rounding 1 5 rs (ground arith)
            (ratings_of-InRange p db.reviews table.ranges)).1
    ]

outcome_completed :
    (print : Printing) (now job_id provider_id : ℕ) (db : Database) (r : Redis) (provider : User)
    (job : Job)
    → find_user provider_id db ≡ some provider
    → role_eq provider.role UserRole.provider ≡ true
    → IsReviewed db.reviews
    → print.queries_raise job_id ≡ false
    → stored now job_id r.jobs ≡ some job
    → outcome print now db job_id provider_id r
      ≡ completed_job print now
          (summarise print now provider_id provider (ratings_of provider_id db.reviews))
          (processing_job job_id provider_id now (some job))
outcome_completed print now job_id provider_id db r provider job found role table readable known =
    let low = average_at_most_5 print.rounding provider_id db table in
    ground (arith, readable, found, role, known, low)

-- what the request answers, what the worker counts, and what the reader of the record gets
abbrev pub Works : Printing → ℕ → ℕ → ℕ → User → Database → Result Job → ℕ → Result Job → Type 0
Works print now job_id provider_id provider db answer count reply =
    (answer
      ≡ ok (record {
        job_id = job_id;
        status = JobStatus.queued;
        provider_id = provider_id;
        result = none;
        error = none;
        created_at = now;
        updated_at = now;
      }))
    × (count ≡ 1)
    × ((result : ReviewSummaryResult) × (reply
          ≡ ok (record {
            job_id = job_id;
            status = JobStatus.completed;
            provider_id = provider_id;
            result = some result;
            error = none;
            created_at = now;
            updated_at = now;
          }))
        × Figures print.rounding now provider_id provider db result)

-- The whole way of a job: where Redis answers throughout, its queue is empty and no query of the
-- job raises, a job that is asked for a provider is answered as queued, taken by a worker's first
-- pass, and whoever asks for its record then gets it completed, without an error, with the number
-- of the provider's reviews, the number of each rating and the rounded average. It takes that the
-- stored ratings are from 1 to 5, so that the result passes its validation, and leaves the
-- sentences of the summary aside.
pub enqueue_work_get :
    (print : Printing) (now job_id provider_id : ℕ) (db : Database) (r : Redis) (provider : User)
    → Reachable r
    → r.queue ≡ []
    → find_user provider_id db ≡ some provider
    → role_eq provider.role UserRole.provider ≡ true
    → IsReviewed db.reviews
    → print.queries_raise job_id ≡ false
    → let (answer, r₁) = enqueue_summary_job job_id now provider_id db r in
      let (count, r₂) = run_worker print now db true 1 none r₁ in
      Works print now job_id provider_id provider db answer count (get_summary_job job_id now r₂).0
unfolding enqueue_summary_job run_worker worker_loop get_summary_job
enqueue_work_get print now job_id provider_id db r provider up empty found role table readable =
    let task : Task = record { job_id = job_id; provider_id = provider_id } in
    let s = start now job_id provider_id r in
    let t = record s { calls = suc s.calls } in
    let job = new_job job_id now provider_id in
    let asked = enqueued now job_id provider_id db r provider up empty found role in
    let one_pass = pass-taken print now db task [] t up refl in
    let worked : run_worker print now db true 1 none s ≡ (1, taken print now db task [] t) =
      ap (begin print now db true 1 none) (ping-Reachable s up)
      ∙ ap (λ (q : ℕ × Redis). (0 + q.0, q.1)) one_pass in
    let known : stored now job_id s.jobs ≡ some job =
      stored-put now now job_id job_id job r.jobs (omega arith) ∙ ground arith in
    let final =
      outcome_completed print now job_id provider_id db
        (record t { queue = []; calls = suc t.calls }) provider job found role table readable
        known in
    let kept : stored now job_id (taken print now db task [] t).jobs
        ≡ some (
            outcome print now db job_id provider_id
              (record t { queue = []; calls = suc t.calls })) =
      stored-taken print now db task [] t job_id ∙ ground arith in
    let read = get_known now job_id (taken print now db task [] t) up kept in
    let result = summarise print now provider_id provider (ratings_of provider_id db.reviews) in
    subst
      (λ (q : Result Job × Redis).
        let (count, r₂) = run_worker print now db true 1 none q.1 in
        Works print now job_id provider_id provider db q.0 count (get_summary_job job_id now r₂).0)
      (sym asked)
      (subst
        (λ (q : ℕ × Redis).
          Works print now job_id provider_id provider db (ok job) q.0
            (get_summary_job job_id now q.1).0)
        (sym worked)
        (
          refl,
          refl,
          (result, read ∙ ap ok final, summarise-Figures print now provider_id provider db table),
        ))
