-- ===== src/Routes/Journey.antt =====
-- POST /auth/register, POST /auth/login and GET /auth/me, one after the other.
use bodhrik_fullstack_assess.Common.{
  ℕ, ◌*◌, ◌+◌, ◌≤◌, ◌<◌, ◌≡◌, refl, sym, ap, ◌∙◌, [], ◌∷◌, subst, inl, inr, true, some, arith,
}
use bodhrik_fullstack_assess.Common.Table.{select}
use bodhrik_fullstack_assess.Common.Separate.{UniqueKeys}
use bodhrik_fullstack_assess.Models.{User, Database}
use bodhrik_fullstack_assess.Session.{Session, Result, ok, Action, Environment, open_session, serve}
use bodhrik_fullstack_assess.Session.Laws.{bind_inv}
use bodhrik_fullstack_assess.Auth.{
  Library, UserRegister, UserLogin, has_email, verify_password, TokenResponse, seconds,
  register_user, authenticate_user, login, get_current_user,
}
use bodhrik_fullstack_assess.Auth.Login.{
  authenticate_single, authenticate_user_answers, register_user_registered,
  register_then_authenticate,
}
use bodhrik_fullstack_assess.Auth.Token.{DecodesToken, ReadsId, claims, login_then_current_user}
use bodhrik_fullstack_assess.Schemas.Fields.{Validated, valid, invalid}
use bodhrik_fullstack_assess.Schemas.Bodies.{
  UserRegisterBody, UserLoginBody, validate_user_register, validate_user_login,
}
use bodhrik_fullstack_assess.Schemas.Accepts.{
  validate_user_register_normal, validate_user_login_normal,
}
use bodhrik_fullstack_assess.Routes.Reply.{
  App, UserResponse, user_response, Content, access, profile, Outcome, reply, given, returns,
}
use bodhrik_fullstack_assess.Routes.Accounts.{register_route, login_route, get_me_route}
use bodhrik_fullstack_assess.Routes.Consistent.Users.{HasUniqueUsers, register_user-HasUniqueUsers}

-- A body that is accepted was valid, and the service has returned what is replied.
given_inv :
    {A B : Type 0} (code : ℕ) (content : B → Content) (v : Validated A) (service : A → Action B)
    (s : Session) {c : Content}
    → (given v (λ a. returns code content (service a)) s).0 ≡ ok (reply code c)
    → (a : A) × (b : B) × (v ≡ valid a)
      × ((service a s).0 ≡ ok b)
      × (content b ≡ c)
      × ((given v (λ a. returns code content (service a)) s).1 ≡ (service a s).1)
given_inv code content (valid a) service s {c} h =
    let (b, e, step) = bind_inv (service a) (λ b t. (ok (reply code (content b)), t)) s h in
    (a, b, refl, e, ground arith, ground arith)
given_inv code content (invalid errors) service s {c} h = absurd (ground arith)

-- `authenticate_user` reads the users only.
authenticate_user_transfer :
    (lib : Library) (c : UserLogin) (s t : Session) (u : User)
    → t.working.users ≡ s.working.users
    → authenticate_user lib c s ≡ (ok u, s)
    → authenticate_user lib c t ≡ (ok u, t)
authenticate_user_transfer lib c s t u same h = elim (authenticate_user_answers lib c s) [
  | inl (v, single, good, e) ↦
      let is_u : v ≡ u = ground (arith, e, h) in
      authenticate_single lib c u t
        (ap (select (has_email lib (lib.normalize c.email))) same
          ∙ single
          ∙ ap (λ (w : User). w ∷ []) is_u)
        (subst (λ (w : User). verify_password lib c.password w.password_hash ≡ true) is_u good)
  | inr (inl e) ↦ absurd (ground (arith, e, h))
  | inr (inr (_, e)) ↦ absurd (ground (arith, e, h))
]

returns_done :
    {B : Type 0} (code : ℕ) (content : B → Content) (service : Action B) (s : Session) {b : B}
    → service s ≡ (ok b, s)
    → returns code content service s ≡ (ok (reply code (content b)), s)
returns_done code content service s {b} h = ground (arith, h)

-- Login and profile of a user whom `authenticate_user` accepts.
login_me :
    (app : App) (env env' : Environment) (db : Database) (body : UserLoginBody) (c : UserLogin)
    (u : User)
    → validate_user_login app.messages app.library.normalize body ≡ valid c
    → authenticate_user app.library c (open_session env db) ≡ (ok u, open_session env db)
    → UniqueKeys (λ (v : User). v.id) db.users
    → DecodesToken app.library (claims app.library app.expire_minutes u.id env.now)
    → ReadsId app.library u.id
    → env.now ≤ env'.now
    → env'.now < seconds (env.now + app.expire_minutes * 60000000) * 1000000
    → (t : TokenResponse) × (serve env (login_route app body) db ≡ (ok (reply 200 (access t)), db))
      × (serve env' (get_me_route app (some t.access_token)) db
          ≡ (ok (reply 200 (profile (user_response u))), db))
unfolding serve login_route get_me_route
login_me app env env' db body c u passed accepted unique jwt id lo hi =
    let s = open_session env db in
    let s' = open_session env' db in
    let (t, logged, known) =
      login_then_current_user app.library app.expire_minutes c s s' u jwt id accepted unique refl lo
        hi in
    (
      t,
      rw passed (
          ap (λ (q : Result Outcome × Session). (q.0, q.1.committed))
            (returns_done 200 access (login app.library app.expire_minutes c) s logged)),
      ap (λ (q : Result Outcome × Session). (q.0, q.1.committed))
          (returns_done 200 (λ v. profile (user_response v))
            (get_current_user app.library (some t.access_token)) s' known),
    )

module _ (app : App) (salt : ℕ) (env env' env'' : Environment) (db : Database) where
  -- the database after the registration
  abbrev registered : UserRegisterBody → Database
  registered body = (serve env (register_route app salt body) db).1

  -- login and profile answer from the database, and leave it as it is
  abbrev pub Shown : UserRegisterBody → Content → Database → Type 0
  Shown body shown d =
      (t : TokenResponse) × (serve env'
          (login_route app (record { email = body.email; password = body.password })) d
        ≡ (ok (reply 200 (access t)), d))
      × (serve env'' (get_me_route app (some t.access_token)) d ≡ (ok (reply 200 shown), d))

  -- Who has registered by the route can log in by the route, with the email and password as they
  -- were typed, and the token of that login shows the profile that the registration replied, until
  -- the token expires. Registering replies 201; login and profile reply 200. It takes that
  -- normalizing an email again, or lowering it in SQL, changes nothing; that bcrypt confirms its
  -- own hash; and what PyJWT and uuid document of the token and the id.
  pub register_login_me :
      (body : UserRegisterBody) (p : UserResponse)
      → HasUniqueUsers db.users
      → app.library.normalize (app.library.normalize body.email) ≡ app.library.normalize body.email
      → app.library.sql_lower (app.library.normalize body.email) ≡ app.library.normalize body.email
      → app.library.checkpw body.password (app.library.hashpw salt body.password) ≡ some true
      → DecodesToken app.library (claims app.library app.expire_minutes p.id env'.now)
      → ReadsId app.library p.id
      → env'.now ≤ env''.now
      → env''.now < seconds (env'.now + app.expire_minutes * 60000000) * 1000000
      → (serve env (register_route app salt body) db).0 ≡ ok (reply 201 (profile p))
      → Shown body (profile p) (registered body)
  unfolding serve register_route
  register_login_me body p accounts normal lower hash jwt id lo hi h =
      let lib = app.library in
      let s = open_session env db in
      let (r, u, passed, done, is_p, left) =
        given_inv 201 (λ (u : User). profile (user_response u))
          (validate_user_register app.messages lib.normalize body) (register_user lib salt) s h in
      let (is_r, _, _, short, long) =
        validate_user_register_normal app.messages lib.normalize body r passed in
      let (_, is_u, users, settled) = register_user_registered lib salt r s u done in
      let d = (register_user lib salt r s).1.committed in
      let same : registered body ≡ d = ap (λ (t : Session). t.committed) left in
      let is_id : p.id ≡ u.id = ground arith in
      let is_profile : profile (user_response u) ≡ profile p = is_p in
      let r_email : r.email ≡ lib.normalize body.email = ap (λ (x : UserRegister). x.email) is_r in
      let r_password : r.password ≡ body.password = ap (λ (x : UserRegister). x.password) is_r in
      let c : UserLogin = record { email = r.email; password = r.password } in
      let form : UserLoginBody = record { email = body.email; password = body.password } in
      let accepted =
        register_then_authenticate lib salt r s u (rw r_password hash) (rw r_email normal)
          (rw r_email lower) done in
      let passed' : validate_user_login app.messages lib.normalize form ≡ valid c =
        validate_user_login_normal app.messages lib.normalize form short long
        ∙ ap (λ (x : UserRegister). valid (record { email = x.email; password = x.password }))
            (sym is_r) in
      let known =
        authenticate_user_transfer lib c (register_user lib salt r s).1 (open_session env' d) u
          (ap (λ (x : Database). x.users) settled) accepted in
      let shown =
        login_me app env' env'' d form c u passed' known
          (register_user-HasUniqueUsers env db lib salt r accounts).ids
          (subst (λ (k : ℕ). DecodesToken lib (claims lib app.expire_minutes k env'.now)) is_id jwt)
          (subst (ReadsId lib) is_id id) lo hi in
      subst (Shown body (profile p)) (sym same)
        (subst (λ (z : Content). Shown body z d) is_profile shown)
