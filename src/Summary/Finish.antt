-- ===== src/Summary/Finish.antt =====
-- The end of `process_summary_job`, and the record that it leaves.
use bodhrik_fullstack_assess.Common.{
  ℕ, suc, ◌+◌, ◌<◌, ◌≡◌, refl, ◌∙◌, inl, inr, Bool, true, false, none, some, List, [], ◌∷◌, arith,
  ⊤, ltb, ◌==◌, if◌then◌else◌, Bool-cases, Option-cases,
}
use bodhrik_fullstack_assess.Common.Table.{first, delete_where}
use bodhrik_fullstack_assess.Models.{Database}
use bodhrik_fullstack_assess.Summary.Redis.{
  JobStatus, Job, Entry, Redis, put_job, is_live, stored, job_ttl,
}
use bodhrik_fullstack_assess.Summary.Service.{
  Printing, processing_job, failed_job, conclude, try_job, process_summary_job,
}

-- No call of the client raises.
abbrev pub Reachable : Redis → Type 0
Reachable r = (n : ℕ) → r.fails n ≡ false

abbrev pub is_finished : JobStatus → Bool
is_finished JobStatus.completed = true
is_finished JobStatus.failed = true
is_finished _ = false

first-deleted :
    (now key k : ℕ) (es : List Entry)
    → first (is_live now key) (delete_where (λ e. e.key == k) es)
      ≡ (if key == k then none else first (is_live now key) es)
first-deleted now key k [] = ground arith
first-deleted now key k (e ∷ es) = ground (arith, first-deleted now key k es)

-- What is stored under a key after a SET, read within the time to live.
pub stored-put :
    (now at key k : ℕ) (job : Job) (es : List Entry)
    → at < now + job_ttl
    → stored at key (put_job now k job es) ≡ (if key == k then some job else stored at key es)
stored-put now at key k job es alive = ground (arith, first-deleted at key k es)

pub stored-put_both :
    (now at key k : ℕ) (before after : Job) (es : List Entry)
    → at < now + job_ttl
    → stored at key (put_job now k after (put_job now k before es))
      ≡ (if key == k then some after else stored at key es)
stored-put_both now at key k before after es alive =
    stored-put now at key k after (put_job now k before es) alive
    ∙ ground (arith, stored-put now at key k before es alive)

stored-put_twice :
    (now at key k : ℕ) (before after : Job) (es : List Entry)
    → (if ltb at (now + job_ttl)
        then stored at key (put_job now k after (put_job now k before es))
          ≡ (if key == k then some after else stored at key es)
        else ⊤)
stored-put_twice now at key k before after es = elim (Bool-cases (ltb at (now + job_ttl))) [
  | inl e ↦ rw e (stored-put_both now at key k before after es (ground arith))
  | inr e ↦ rw e tt
]

module _ (print : Printing) (now : ℕ) (db : Database) (job_id provider_id : ℕ) where
  abbrev pub started : Redis → Job
  started r = processing_job job_id provider_id now (stored now job_id r.jobs)

  -- The record that a job ends with, where Redis answers.
  abbrev pub outcome : Redis → Job
  outcome r = elim (conclude print now job_id provider_id db (started r)) [
    | none ↦ failed_job now print.exception_text (started r)
    | some done ↦ done
  ]

  abbrev pub processed : Redis → Redis
  processed r = record r {
    jobs = put_job now job_id (outcome r) (put_job now job_id (started r) r.jobs);
    calls = suc (suc (suc r.calls));
  }

  pub process_summary_job-Reachable :
      (r : Redis)
      → Reachable r
      → process_summary_job print now db job_id provider_id r ≡ (some (outcome r), processed r)
  unfolding process_summary_job try_job
  process_summary_job-Reachable r up =
      elim (Option-cases (conclude print now job_id provider_id db (started r))) [
        | inl e ↦ ground (arith, e, up r.calls, up (suc r.calls), up (suc (suc r.calls)))
        | inr (done, e) ↦ ground (arith, e, up r.calls, up (suc r.calls), up (suc (suc r.calls)))
      ]

  -- The job that is kept under the key is the one that the call returns, and it has ended.
  pub conclude_finished :
      (job : Job)
      → is_finished
          (elim (conclude print now job_id provider_id db job) as (λ _. Job) [
            | none ↦ failed_job now print.exception_text job
            | some done ↦ done
          ]).status
        ≡ true
  conclude_finished job = ground arith

-- Where Redis answers, `process_summary_job` returns the job completed or failed, which is then
-- what is stored under its id, within the time to live; no other job's record changes, and the
-- queue does not.
pub process_summary_job_finishes :
    (print : Printing) (now : ℕ) (db : Database) (job_id provider_id : ℕ) (r : Redis)
    → Reachable r
    → (job : Job) × (r' : Redis) × (process_summary_job print now db job_id provider_id r
        ≡ (some job, r'))
      × (is_finished job.status ≡ true)
      × ((key at : ℕ)
          → (if ltb at (now + job_ttl)
              then stored at key r'.jobs
                ≡ (if key == job_id then some job else stored at key r.jobs)
              else ⊤))
      × (r'.queue ≡ r.queue)
      × (r'.fails ≡ r.fails)
process_summary_job_finishes print now db job_id provider_id r up = (
  outcome print now db job_id provider_id r,
  processed print now db job_id provider_id r,
  process_summary_job-Reachable print now db job_id provider_id r up,
  conclude_finished print now db job_id provider_id (started print now db job_id provider_id r),
  λ key at.
      stored-put_twice now at key job_id (started print now db job_id provider_id r)
        (outcome print now db job_id provider_id r) r.jobs,
  refl,
  refl,
)
