-- ===== src/Session/Monad.antt =====
-- A service call: the state of its session, and exceptions. The session comes back after a raise
-- too; `close` then drops what was not committed (`get_db` of app/db/session.py).
use bodhrik_fullstack_assess.Common.{
  ℕ, Bool, Option, none, some, String, List, [], ⊤, if◌then◌else◌,
}
use bodhrik_fullstack_assess.Models.{Database}
use bodhrik_fullstack_assess.Models.Constraints.{Constraint}

-- `online` says whether the server will answer COMMIT, `now` is the server's now() and the
-- process's clock, and `uuid n` is the n-th value that uuid4() gives.
pub record Session : Type 0 where
  pub committed : Database
  pub working : Database
  pub online : Bool
  pub now : ℕ
  pub uuid : ℕ → ℕ
  pub drawn : ℕ

-- `http` is an HTTPException: status code, detail and headers; `value_error` is what bcrypt raises
-- for a password that is too long for it.
pub data Exception : Type 0 where
  http : ℕ → String → List (String × String) → Exception
  integrity : Constraint → Exception
  operational multiple_results value_error : Exception

pub data Result {ℓ} (A : Type ℓ) : Type ℓ where
  ok : A → Result A
  err : Exception → Result A

abbrev pub Action : Type 0 → Type 0
Action A = Session → Result A × Session

module _ {A : Type 0} where
  abbrev pub pure : A → Action A
  pure a s = (ok a, s)

  abbrev pub raise : Exception → Action A
  raise e s = (err e, s)

  -- `raise HTTPException(status_code=…, detail=…)`
  abbrev pub http_error : ℕ → String → Action A
  http_error code detail = raise (http code detail [])

  abbrev pub query : (Database → A) → Action A
  query f s = (ok (f s.working), s)

  -- a pure function that may raise
  abbrev pub lift : Result A → Action A
  lift r s = (r, s)

infixl 5 ◌>>=◌ ◌>>◌
abbrev pub ◌>>=◌ : {A B : Type 0} → Action A → (A → Action B) → Action B
◌>>=◌ m f s = let (r, s') = m s in elim r [ ok a ↦ f a s' | err e ↦ raise e s' ]

abbrev pub ◌>>◌ : {A B : Type 0} → Action A → Action B → Action B
m >> k = m >>= λ _. k

-- `if test: raise HTTPException(…)`
abbrev pub raise_if : Bool → ℕ → String → Action ⊤
raise_if b code detail s = (if b then err (http code detail []) else ok tt, s)

-- the row that `db.get` found, or the exception of the `is None` test
abbrev pub or_raise : {A : Type 0} → Option A → ℕ → String → Action A
or_raise none code detail = http_error code detail
or_raise (some a) code detail = pure a

-- `try: m except Exception: handler; raise`
abbrev pub on_error : {A : Type 0} → Action A → Action ⊤ → Action A
on_error m handler s =
    let (r, s') = m s in elim r [ ok a ↦ (ok a, s') | err e ↦ (err e, (handler s').1) ]

-- which exceptions `except IntegrityError` catches
abbrev recover : {A : Type 0} → Action A → Exception → Session → Result A × Session
recover handler (integrity c) s = handler s
recover handler (http status detail headers) s = (err (http status detail headers), s)
recover handler operational s = (err operational, s)
recover handler multiple_results s = (err multiple_results, s)
recover handler value_error s = (err value_error, s)

-- `try: m except IntegrityError: handler`
abbrev pub on_integrity_error : {A : Type 0} → Action A → Action A → Action A
on_integrity_error m handler s =
    let (r, s') = m s in elim r [ ok a ↦ (ok a, s') | err e ↦ recover handler e s' ]
