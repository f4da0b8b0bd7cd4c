-- ===== src/Routes/Summaries.antt =====
-- app/api/v1/reviews.py: the two routes of summary jobs, which reach Redis.
use bodhrik_fullstack_assess.Common.{ℕ, suc, ◌+◌, ◌<◌, String, ◌≡◌, true, Option, some, arith}
use bodhrik_fullstack_assess.Models.{UserRole, role_eq, User}
use bodhrik_fullstack_assess.Session.{Session, Result, ok, err, find_user}
use bodhrik_fullstack_assess.Auth.{Library, get_current_user}
use bodhrik_fullstack_assess.Summary.Redis.{Job, Redis, job_ttl}
use bodhrik_fullstack_assess.Summary.Service.{new_job, enqueue_summary_job, get_summary_job}
use bodhrik_fullstack_assess.Summary.Finish.{Reachable, stored-put}

pub record JobReply : Type 0 where
  pub status_code : ℕ
  pub job : Job

abbrev reply_job : ℕ → Result Job × Redis → Result JobReply × Redis
reply_job code (ok job, r) = (ok (record { status_code = code; job = job }), r)
reply_job code (err e, r) = (err e, r)

abbrev authenticated : Result User → Redis → Result JobReply × Redis → Result JobReply × Redis
authenticated (ok user) r answer = answer
authenticated (err e) r answer = (err e, r)

module _ (lib : Library) (token : Option String) where
  unfoldable pub trigger_review_summary_route : ℕ → ℕ → Session → Redis → Result JobReply × Redis
  trigger_review_summary_route job_id provider_id s r =
      authenticated (get_current_user lib token s).0 r
        (reply_job 202 (enqueue_summary_job job_id s.now provider_id s.working r))

  unfoldable pub get_review_summary_job_route : ℕ → Session → Redis → Result JobReply × Redis
  get_review_summary_job_route job_id s r =
      authenticated (get_current_user lib token s).0 r
        (reply_job 200 (get_summary_job job_id s.now r))

-- What POST /reviews/summarize replies with 202, GET /reviews/summarize/{job_id} replies with 200
-- for a day, to every caller who is authenticated. It takes that the summary is of a provider, that
-- Redis answers, and that no worker has begun in between.
pub trigger_then_get :
    (lib : Library) (token token' : Option String) (job_id : ℕ) (s s' : Session) (r : Redis)
    (user user' provider : User)
    → (get_current_user lib token s).0 ≡ ok user
    → (get_current_user lib token' s').0 ≡ ok user'
    → find_user provider.id s.working ≡ some provider
    → role_eq provider.role UserRole.provider ≡ true
    → Reachable r
    → s'.now < s.now + job_ttl
    → let (answer, r₁) = trigger_review_summary_route lib token job_id provider.id s r in
      let reply = new_job job_id s.now provider.id in
      (answer ≡ ok (record { status_code = 202; job = reply }))
      × ((get_review_summary_job_route lib token' job_id s' r₁).0
          ≡ ok (record { status_code = 200; job = reply }))
unfolding trigger_review_summary_route get_review_summary_job_route enqueue_summary_job
    get_summary_job
trigger_then_get lib token token' job_id s s' r user user' provider here here' found role up soon =
    let kept =
      stored-put s.now s'.now job_id job_id (new_job job_id s.now provider.id) r.jobs soon in
    ground
      (arith, here, here', found, role, up r.calls, up (suc r.calls), up (suc (suc r.calls)), kept)
