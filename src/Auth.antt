-- ===== src/Auth.antt =====
-- app/services/auth_service.py, app/core/security.py, app/api/deps.py and the login
-- route of app/api/v1/auth.py. The proofs are in the modules below.
pub mod Login
pub mod Token
use bodhrik_fullstack_assess.Common.{
  ℕ, zero, suc, ◌+◌, ◌-◌, ◌*◌, ◌/◌, ◌≤◌, ◌<◌, String, ◌≡◌, refl, sym, ap, ◌∙◌, subst, ◌≢◌, ◌↔◌, ◌⊎◌,
  inl, inr, Bool, true, false, not, ◌&&◌, ◌||◌, Option, none, some, List, [], ◌∷◌, ◌++◌, map, arith,
  str_eq, eq_iff, ◌<>◌, ⊤, ltb, leb, ◌==◌, if◌then◌else◌, ==_iff, Bool-cases, Option-cases, is_some,
  or_default, length, take, drop, any, length-append, any-append, length-take-le, All, All-append,
}
use bodhrik_fullstack_assess.Common.Table.{
  select, first, update_where, delete_where, order_by, page, All-select, first-test, first-any,
  All-page,
}
use bodhrik_fullstack_assess.Models.{
  UserRole, BookingStatus, NotificationType, role_eq, status_eq, type_eq, status_value, User,
  Booking, Review, Notification, Database,
}
use bodhrik_fullstack_assess.Session.{
  Session, Exception, Result, ok, err, http, integrity, operational, Action, pure, raise,
  http_error, query, ◌>>=◌, ◌>>◌, raise_if, or_raise, lift, on_error, find_user, find_booking,
  find_review, find_notification, uuid4, clock, set_booking, add_booking, insert_booking,
  flush_booking, refreshed_booking, booking_changed, insert_review, flush_review, refreshed_review,
  insert_or_ignore, execute, commit, rollback, Environment, open_session, serve,
}
use bodhrik_fullstack_assess.Session.{
  insert_user, scalar_one_or_none, multiple_results, value_error, on_integrity_error,
}

-- the claims of an access token, in seconds
pub record Payload : Type 0 where
  pub sub : Option String
  pub iat : ℕ
  pub exp : ℕ

-- What security.py and the services take from elsewhere: bcrypt, PyJWT, uuid, `str.strip` with
-- `str.lower`, and SQL's lower(). A function that may raise gives no value instead, but for
-- `hashpw`, where `over_limit` says for which passwords it raises a ValueError; `decode` gets the
-- time of the call.
pub record Library : Type 0 where
  pub normalize : String → String
  pub sql_lower : String → String
  pub hashpw : ℕ → String → String
  pub over_limit : String → Bool
  pub checkpw : String → String → Option Bool
  pub encode : Payload → String
  pub decode : ℕ → String → Option Payload
  pub uuid_text : ℕ → String
  pub parse_uuid : String → Option ℕ

-- a UserRegister that its validators have passed
pub record UserRegister : Type 0 where
  pub name : String
  pub email : String
  pub password : String

-- a UserLogin that its validators have passed
pub record UserLogin : Type 0 where
  pub email : String
  pub password : String

pub record TokenResponse : Type 0 where
  pub access_token : String
  pub token_type : String

abbrev pub seconds : ℕ → ℕ
seconds instant = instant / 1000000

module _ (lib : Library) where
  -- `salt` is what bcrypt.gensalt() gives
  abbrev pub hash_password : ℕ → String → Result String
  hash_password salt password =
      if lib.over_limit password then err value_error else ok (lib.hashpw salt password)

  abbrev pub verify_password : String → String → Bool
  verify_password plain_password hashed_password =
      or_default (lib.checkpw plain_password hashed_password) false

  -- `func.lower(User.email) == normalized_email`
  abbrev pub has_email : String → User → Bool
  has_email normalized_email user = str_eq (lib.sql_lower user.email) normalized_email

  unfoldable pub get_user_by_email : String → Action (Option User)
  get_user_by_email email = do
    found ← query (λ db. select (has_email (lib.normalize email)) db.users)
    scalar_one_or_none found

  abbrev pub new_user : String → ℕ → ℕ → UserRegister → User
  new_user hashed id now user_in = record {
    id = id;
    name = user_in.name;
    email = user_in.email;
    role = UserRole.customer;
    password_hash = hashed;
    created_at = now;
    updated_at = now;
  }

  unfoldable pub persist_user : String → UserRegister → Action User
  persist_user hashed user_in = do
    id ← uuid4
    now ← clock
    let user = new_user hashed id now user_in
    on_integrity_error (insert_user user >> commit >> pure user)
        (rollback >> http_error 409 "A user with this email address already exists")

  unfoldable pub register_user : ℕ → UserRegister → Action User
  register_user salt user_in = do
    existing ← get_user_by_email user_in.email
    raise_if (is_some existing) 409 "A user with this email address already exists"
    hashed ← lift (hash_password salt user_in.password)
    persist_user hashed user_in

  -- with the header of the Bearer scheme
  abbrev pub unauthorized : {A : Type 0} → String → Action A
  unauthorized detail = raise (http 401 detail (("WWW-Authenticate", "Bearer") ∷ []))

  abbrev pub check_password : String → Option User → Action User
  check_password password none = unauthorized "Invalid email or password"
  check_password password (some user) =
      if verify_password password user.password_hash
      then pure user
      else unauthorized "Invalid email or password"

  unfoldable pub authenticate_user : UserLogin → Action User
  authenticate_user credentials = do
    user ← get_user_by_email credentials.email
    check_password credentials.password user

  -- `if expires_delta`: neither None nor zero
  abbrev pub lifetime : ℕ → Option ℕ → ℕ
  lifetime expire_minutes none = expire_minutes * 60000000
  lifetime expire_minutes (some zero) = expire_minutes * 60000000
  lifetime expire_minutes (some (suc n)) = suc n

  -- `expire_minutes` is settings.ACCESS_TOKEN_EXPIRE_MINUTES
  abbrev pub create_access_token : ℕ → String → Option ℕ → ℕ → String
  create_access_token expire_minutes subject expires_delta now = lib.encode (record {
    sub = some subject;
    iat = seconds now;
    exp = seconds (now + lifetime expire_minutes expires_delta);
  })

  unfoldable pub login : ℕ → UserLogin → Action TokenResponse
  login expire_minutes credentials = do
    user ← authenticate_user credentials
    now ← clock
    pure (record {
      access_token = create_access_token expire_minutes (lib.uuid_text user.id) none now;
      token_type = "bearer";
    })

  abbrev pub token_error : {A : Type 0} → Action A
  token_error = unauthorized "Could not validate credentials: token is invalid or expired"

  -- the `try` block of `get_current_user`
  abbrev subject_id : Option String → Action ℕ
  subject_id none = unauthorized "Could not validate credentials: token subject missing"
  subject_id (some subject) =
      if str_eq subject ""
      then unauthorized "Could not validate credentials: token subject missing"
      else elim (lib.parse_uuid subject) [ none ↦ token_error | some user_id ↦ pure user_id ]

  unfoldable pub token_user : String → Action ℕ
  token_user token = do
    now ← clock
    elim (lib.decode now token) [ none ↦ token_error | some payload ↦ subject_id payload.sub ]

  abbrev known_user : Option User → Action User
  known_user none = unauthorized "User associated with token does not exist"
  known_user (some user) = pure user

  unfoldable pub get_current_user : Option String → Action User
  get_current_user none = unauthorized "Authentication credentials were not provided"
  get_current_user (some token) = do
    user_id ← token_user token
    user ← query (find_user user_id)
    known_user user

abbrev pub require_roles : List UserRole → User → Action User
require_roles allowed_roles current_user = do
  raise_if (not (any (role_eq current_user.role) allowed_roles)) 403
      "Insufficient permissions to access this resource"
  pure current_user
