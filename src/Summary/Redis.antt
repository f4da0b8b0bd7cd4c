-- ===== src/Summary/Redis.antt =====
-- What the summary jobs use of Redis: string keys with a time to live and one list.
use bodhrik_fullstack_assess.Common.{
  ℕ, suc, ◌+◌, ◌*◌, String, Bool, ◌&&◌, Option, none, some, List, [], ◌∷◌, ◌++◌, ⊤, ltb, ◌==◌,
  if◌then◌else◌,
}
use bodhrik_fullstack_assess.Common.Table.{first, delete_where}

pub data JobStatus : Type 0 where
  queued processing completed failed : JobStatus

pub record ReviewSummaryResult : Type 0 where
  pub provider_id : ℕ
  pub provider_name : String
  pub review_count : ℕ
  pub average_rating : ℕ
  pub rating_distribution : List (ℕ × ℕ)
  pub summary : String
  pub generated_at : ℕ

-- A job's record. The service writes it as JSON, where a missing key reads as `null`.
pub record Job : Type 0 where
  pub job_id : ℕ
  pub status : JobStatus
  pub provider_id : ℕ
  pub result : Option ReviewSummaryResult
  pub error : Option String
  pub created_at : ℕ
  pub updated_at : ℕ

-- a message of the queue
pub record Task : Type 0 where
  pub job_id : ℕ
  pub provider_id : ℕ

-- a key with its value and the time at which it expires
pub record Entry : Type 0 where
  pub key : ℕ
  pub job : Job
  pub expires : ℕ

-- `fails n` says whether the n-th call of a client raises; `calls` counts them.
pub record Redis : Type 0 where
  pub jobs : List Entry
  pub queue : List Task
  pub fails : ℕ → Bool
  pub calls : ℕ

-- A call gives no value where it raises.
abbrev pub RedisAction : Type 0 → Type 0
RedisAction A = Redis → Option A × Redis

abbrev pub call : {A : Type 0} → (Redis → A × Redis) → RedisAction A
call f r =
    if r.fails r.calls
    then (none, record r { calls = suc r.calls })
    else (let (a, r') = f r in (some a, record r' { calls = suc r.calls }))

-- JOB_TTL_SECONDS, in microseconds
abbrev pub job_ttl : ℕ
job_ttl = 86400 * 1000000

-- SET key value EX
abbrev pub put_job : ℕ → ℕ → Job → List Entry → List Entry
put_job now key job es =
    record { key = key; job = job; expires = now + job_ttl } ∷ delete_where (λ e. e.key == key) es

abbrev pub set_job : ℕ → ℕ → Job → RedisAction ⊤
set_job now key job = call (λ r. (tt, record r { jobs = put_job now key job r.jobs }))

abbrev pub is_live : ℕ → ℕ → Entry → Bool
is_live now key e = e.key == key && ltb now e.expires

-- GET key
abbrev pub stored : ℕ → ℕ → List Entry → Option Job
stored now key es = elim (first (is_live now key) es) [ none ↦ none | some e ↦ some e.job ]

abbrev pub get_job : ℕ → ℕ → RedisAction (Option Job)
get_job now key = call (λ r. (stored now key r.jobs, r))

abbrev pub rpush : Task → RedisAction ⊤
rpush task = call (λ r. (tt, record r { queue = r.queue ++ task ∷ [] }))

-- what BLPOP answers, or that its timeout has passed
abbrev pub pop : Redis → Option Task × Redis
pop r = elim r.queue [ [] ↦ (none, r) | task ∷ rest ↦ (some task, record r { queue = rest }) ]

abbrev pub blpop : RedisAction (Option Task)
blpop = call pop

abbrev pub ping : RedisAction ⊤
ping = call (λ r. (tt, r))
