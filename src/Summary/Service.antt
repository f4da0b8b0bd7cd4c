-- ===== src/Summary/Service.antt =====
-- app/services/review_summary_service.py.
use bodhrik_fullstack_assess.Common.{
  ℕ, String, Bool, not, Option, none, some, List, [], ◌<>◌, ⊤, leb, ◌==◌, if◌then◌else◌, length,
}
use bodhrik_fullstack_assess.Models.{UserRole, role_eq, User, Database}
use bodhrik_fullstack_assess.Session.{Exception, Result, ok, err, http, find_user}
use bodhrik_fullstack_assess.Statistics.{Rounding, ratings_of, distribution, average_rating}
use bodhrik_fullstack_assess.Summary.Redis.{
  JobStatus, ReviewSummaryResult, Job, Redis, RedisAction, set_job, get_job, rpush,
}

-- What the summary takes from elsewhere: the rounding of an average, how an int and a float with
-- two decimals are printed, for which jobs a query of the `try` block raises, and what `str(exc)`
-- says of the exception at hand.
pub record Printing : Type 0 where
  pub rounding : Rounding
  pub integer : ℕ → String
  pub two_decimals : ℕ → String
  pub queries_raise : ℕ → Bool
  pub exception_text : String

abbrev pub new_job : ℕ → ℕ → ℕ → Job
new_job job_id now provider_id = record {
  job_id = job_id;
  status = JobStatus.queued;
  provider_id = provider_id;
  result = none;
  error = none;
  created_at = now;
  updated_at = now;
}

-- the `try` block of `enqueue_summary_job`
abbrev pub push_job : ℕ → ℕ → ℕ → RedisAction ⊤
push_job job_id now provider_id r =
    let (answer, r') = set_job now job_id (new_job job_id now provider_id) r in
    elim answer [
      | none ↦ (none, r')
      | some _ ↦ rpush (record { job_id = job_id; provider_id = provider_id }) r'
    ]

abbrev pub unavailable : Exception
unavailable = http 503 "Task queue is temporarily unavailable" []

unfoldable pub enqueue_summary_job : ℕ → ℕ → ℕ → Database → Redis → Result Job × Redis
enqueue_summary_job job_id now provider_id db r = elim (find_user provider_id db) [
  | none ↦ (err (http 404 "Provider not found" []), r)
  | some provider ↦
      if not (role_eq provider.role UserRole.provider)
      then (err (http 400 "Selected user is not registered as a service provider" []), r)
      else (let (answer, r') = push_job job_id now provider_id r in
          elim answer [
            | none ↦ (err unavailable, r')
            | some _ ↦ (ok (new_job job_id now provider_id), r')
          ])
]

abbrev pub job_reply : Option (Option Job) → Result Job
job_reply none = err unavailable
job_reply (some none) = err (http 404 "Summary job not found" [])
job_reply (some (some job)) = ok job

unfoldable pub get_summary_job : ℕ → ℕ → Redis → Result Job × Redis
get_summary_job job_id now r = let (answer, r') = get_job now job_id r in (job_reply answer, r')

-- `json.loads(raw) if raw else {…}`, marked as processing
abbrev pub processing_job : ℕ → ℕ → ℕ → Option Job → Job
processing_job job_id provider_id now none = record (new_job job_id now provider_id) {
  status = JobStatus.processing;
}
processing_job job_id provider_id now (some job) = record job {
  status = JobStatus.processing;
  updated_at = now;
}

abbrev pub failed_job : ℕ → String → Job → Job
failed_job now error job = record job {
  status = JobStatus.failed;
  error = some error;
  updated_at = now;
}

module _ (print : Printing) where
  abbrev rated_text : String → ℕ → ℕ → String → String
  rated_text name total_count avg_rating verdict =
      name
      <> " has "
      <> print.integer total_count
      <> " reviews with an average rating of "
      <> print.two_decimals avg_rating
      <> "/5.0. "
      <> verdict

  abbrev summary_text : String → ℕ → ℕ → String
  summary_text name total_count avg_rating =
      if total_count == 0
      then (name
          <> " has no customer reviews yet. No ratings or qualitative feedback have been submitted.")
      else if leb 450 avg_rating
      then rated_text name total_count avg_rating "Sentiment is overwhelmingly positive."
      else if leb 350 avg_rating
      then rated_text name total_count avg_rating "Sentiment is generally favorable."
      else if leb 250 avg_rating
      then rated_text name total_count avg_rating "Feedback is mixed."
      else rated_text name total_count avg_rating "Significant dissatisfaction noted."

  abbrev pub summarise : ℕ → ℕ → User → List ℕ → ReviewSummaryResult
  summarise now provider_id provider ratings =
      let avg_rating = average_rating print.rounding ratings in
      record {
        provider_id = provider_id;
        provider_name = provider.name;
        review_count = length ratings;
        average_rating = avg_rating;
        rating_distribution = distribution ratings;
        summary = summary_text provider.name (length ratings) avg_rating;
        generated_at = now;
      }

  abbrev pub completed_job : ℕ → ReviewSummaryResult → Job → Job
  completed_job now result job = record job {
    status = JobStatus.completed;
    result = some result;
    error = none;
    updated_at = now;
  }

  -- What the reads of the `try` block make of the job, or none where the validation of
  -- ReviewSummaryResult, whose average is at most 5.0, raises.
  abbrev pub read_figures : ℕ → ℕ → Database → Job → Option Job
  read_figures now provider_id db job = elim (find_user provider_id db) [
    | none ↦ some (failed_job now "Provider not found" job)
    | some provider ↦
        if not (role_eq provider.role UserRole.provider)
        then some (failed_job now "User is not a provider" job)
        else (let result = summarise now provider_id provider (ratings_of provider_id db.reviews) in
            if leb result.average_rating 500 then some (completed_job now result job) else none)
  ]

  -- What the `try` block makes of the job before it writes it, or none where it raises.
  abbrev pub conclude : ℕ → ℕ → ℕ → Database → Job → Option Job
  conclude now job_id provider_id db job =
      if print.queries_raise job_id then none else read_figures now provider_id db job

  -- the `except` block, with the job as the `try` block has left it
  abbrev pub record_failure : ℕ → ℕ → Job → RedisAction Job
  record_failure now job_id job r =
      let failure = failed_job now print.exception_text job in
      let (answer, r') = set_job now job_id failure r in
      elim answer [ none ↦ (none, r') | some _ ↦ (some failure, r') ]

  unfoldable pub try_job : ℕ → ℕ → ℕ → Database → Job → RedisAction Job
  try_job now job_id provider_id db job r = elim (conclude now job_id provider_id db job) [
    | none ↦ record_failure now job_id job r
    | some done ↦
        let (answer, r') = set_job now job_id done r in
        elim answer [ none ↦ record_failure now job_id done r' | some _ ↦ (some done, r') ]
  ]

  abbrev pub start_job : ℕ → ℕ → ℕ → Option Job → RedisAction Job
  start_job job_id provider_id now raw r =
      let job = processing_job job_id provider_id now raw in
      let (answer, r') = set_job now job_id job r in
      elim answer [ none ↦ (none, r') | some _ ↦ (some job, r') ]

  -- none where Redis raises outside the `try` block or in its handler
  unfoldable pub process_summary_job : ℕ → Database → ℕ → ℕ → RedisAction Job
  process_summary_job now db job_id provider_id r =
      let (raw, r₁) = get_job now job_id r in
      elim raw [
        | none ↦ (none, r₁)
        | some found ↦
            let (started, r₂) = start_job job_id provider_id now found r₁ in
            elim started [ none ↦ (none, r₂) | some job ↦ try_job now job_id provider_id db job r₂ ]
      ]
