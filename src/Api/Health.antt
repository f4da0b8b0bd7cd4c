-- ===== src/Api/Health.antt =====
-- app/api/v1/health.py, with check_db_connection of app/db/session.py and check_redis_connection of
-- app/core/redis.py.
use bodhrik_fullstack_assess.Common.{
  ℕ, String, ◌≡◌, ◌↔◌, Bool, true, false, ◌&&◌, Option, some, List, [], ◌∷◌, arith, or_default,
  if◌then◌else◌,
}

-- What the probes meet: whether the TCP connection opens, whether SELECT 1 goes through, and the
-- answer of PING, which may raise.
pub record Probes : Type 0 where
  pub opens : Bool
  pub selects : Bool
  pub pings : Option Bool

pub record Health : Type 0 where
  pub status_code : ℕ
  pub content : List (String × String)

abbrev pub check_db_connection : Probes → Bool
check_db_connection p = p.opens && p.selects

abbrev pub check_redis_connection : Probes → Bool
check_redis_connection p = or_default p.pings false

abbrev pub health_check : Health
health_check = record { status_code = 200; content = ("status", "ok") ∷ [] }

unfoldable pub readiness_check : Probes → Health
readiness_check p =
    if check_db_connection p && check_redis_connection p
    then record { status_code = 200; content = ("status", "ready") ∷ [] }
    else record { status_code = 503; content = ("status", "not_ready") ∷ [] }

-- The application is ready exactly when the database's port opens, a query goes through, and Redis
-- answers the ping.
pub readiness_check_iff :
    (p : Probes)
    → ((readiness_check p).status_code ≡ 200)
      ↔ ((p.opens ≡ true) × (p.selects ≡ true) × (p.pings ≡ some true))
unfolding readiness_check
readiness_check_iff p = (λ h. (ground arith, ground arith, ground arith), λ h. ground arith)
