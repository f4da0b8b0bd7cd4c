-- ===== src/Auth/Token.antt =====
-- Access tokens: from login to the authenticated user.
use bodhrik_fullstack_assess.Common.{
  ℕ, ◌+◌, ◌*◌, ◌≤◌, ◌<◌, String, ◌≡◌, refl, ap, ◌∙◌, subst, inl, inr, Bool, false, none, some, List,
  [], ◌∷◌, arith, str_eq, ◌==◌, All,
}
use bodhrik_fullstack_assess.Common.Table.{select, first}
use bodhrik_fullstack_assess.Models.{User}
use bodhrik_fullstack_assess.Session.{Session, Exception, ok, err, http, find_user}
use bodhrik_fullstack_assess.Common.Separate.{UniqueKeys, UniqueKeys-found, All-select_keeps}
use bodhrik_fullstack_assess.Auth.Login.{matches, authenticate_user_answers}
use native.Mathlib.Nat.{div-mul-le_self}
use bodhrik_fullstack_assess.Auth.{
  Payload, Library, UserLogin, TokenResponse, seconds, has_email, authenticate_user,
  create_access_token, login, token_user, get_current_user,
}

module _ (lib : Library) where
  -- What PyJWT documents of the token that `encode` makes of `p`: it gives its claims back between
  -- the times `iat` and `exp`, and none from `exp` on.
  pub record DecodesToken (p : Payload) : Type 0 where
    pub valid :
        (now : ℕ)
        → p.iat * 1000000 ≤ now
        → now < p.exp * 1000000
        → lib.decode now (lib.encode p) ≡ some p
    pub expired : (now : ℕ) → p.exp * 1000000 ≤ now → lib.decode now (lib.encode p) ≡ none

  -- What uuid documents of an id: `UUID` reads what `str` wrote, which is not empty.
  pub record ReadsId (k : ℕ) : Type 0 where
    pub parsed : lib.parse_uuid (lib.uuid_text k) ≡ some k
    pub some_text : str_eq (lib.uuid_text k) "" ≡ false

  abbrev pub claims : ℕ → ℕ → ℕ → Payload
  claims expire_minutes k t = record {
    sub = some (lib.uuid_text k);
    iat = seconds t;
    exp = seconds (t + expire_minutes * 60000000);
  }

  abbrev pub token_at : ℕ → ℕ → ℕ → String
  token_at expire_minutes k t = create_access_token lib expire_minutes (lib.uuid_text k) none t

  abbrev pub expired_token : Exception
  expired_token =
      http 401 "Could not validate credentials: token is invalid or expired"
        (("WWW-Authenticate", "Bearer") ∷ [])

  module _ (expire_minutes t k : ℕ) (jwt : DecodesToken (claims expire_minutes k t))
      (s : Session) where
    token_user_valid :
        ReadsId k
        → t ≤ s.now
        → s.now < seconds (t + expire_minutes * 60000000) * 1000000
        → token_user lib (token_at expire_minutes k t) s ≡ (ok k, s)
    unfolding token_user
    token_user_valid id lo hi =
        let decoded = jwt.valid s.now (omega (arith, div-mul-le_self t 1000000, lo)) hi in
        rw (decoded, id.some_text, id.parsed) refl

    token_user_expired :
        seconds (t + expire_minutes * 60000000) * 1000000 ≤ s.now
        → token_user lib (token_at expire_minutes k t) s ≡ (err expired_token, s)
    unfolding token_user
    token_user_expired late = rw (jwt.expired s.now late) refl

  -- From the time that its claim `exp` names, a token of login authenticates nobody. It takes what
  -- PyJWT documents.
  pub get_current_user_expired :
      (expire_minutes t k : ℕ) (s : Session)
      → DecodesToken (claims expire_minutes k t)
      → seconds (t + expire_minutes * 60000000) * 1000000 ≤ s.now
      → get_current_user lib (some (token_at expire_minutes k t)) s ≡ (err expired_token, s)
  unfolding get_current_user
  get_current_user_expired expire_minutes t k s jwt late =
      ground (arith, token_user_expired expire_minutes t k jwt s late)

  get_current_user_valid :
      (expire_minutes t : ℕ) (u : User) (s : Session)
      → DecodesToken (claims expire_minutes u.id t)
      → ReadsId u.id
      → find_user u.id s.working ≡ some u
      → t ≤ s.now
      → s.now < seconds (t + expire_minutes * 60000000) * 1000000
      → get_current_user lib (some (token_at expire_minutes u.id t)) s ≡ (ok u, s)
  unfolding get_current_user
  get_current_user_valid expire_minutes t u s jwt id here lo hi =
      ground (arith, token_user_valid expire_minutes t u.id jwt s id lo hi)

  -- With unique ids, the user that a query selected is found under its id.
  selected_found :
      (p : User → Bool) (us : List User) (u : User)
      → UniqueKeys (λ (v : User). v.id) us
      → select p us ≡ u ∷ []
      → first (λ v. v.id == u.id) us ≡ some u
  selected_found p us u unique e =
      let all =
        All-select_keeps (λ (v : User). first (λ w. w.id == v.id) us ≡ some v) p us
          (UniqueKeys-found (λ v. v.id) us unique) in
      (subst (All (λ (v : User). first (λ w. w.id == v.id) us ≡ some v)) e all).0

  authenticated_single :
      (c : UserLogin) (s : Session) (u : User)
      → authenticate_user lib c s ≡ (ok u, s)
      → matches lib c.email s ≡ u ∷ []
  authenticated_single c s u h = elim (authenticate_user_answers lib c s) [
    | inl (v, single, good, e) ↦ ground (arith, single, e, h)
    | inr (inl e) ↦ absurd (ground (arith, e, h))
    | inr (inr (_, e)) ↦ absurd (ground (arith, e, h))
  ]

  login_token :
      (expire_minutes : ℕ) (c : UserLogin) (s : Session) (u : User)
      → authenticate_user lib c s ≡ (ok u, s)
      → login lib expire_minutes c s ≡ (
        ok (record { access_token = token_at expire_minutes u.id s.now; token_type = "bearer" }),
        s,
      )
  unfolding login
  login_token expire_minutes c s u h = ground (arith, h)

  -- Where `authenticate_user` accepts a user, `login` issues a token that, until it expires,
  -- authenticates that user in every session with the same users. It takes unique ids, and what
  -- PyJWT and uuid document of the token and the id.
  pub login_then_current_user :
      (expire_minutes : ℕ) (c : UserLogin) (s s' : Session) (u : User)
      → DecodesToken (claims expire_minutes u.id s.now)
      → ReadsId u.id
      → authenticate_user lib c s ≡ (ok u, s)
      → UniqueKeys (λ (v : User). v.id) s.working.users
      → s'.working.users ≡ s.working.users
      → s.now ≤ s'.now
      → s'.now < seconds (s.now + expire_minutes * 60000000) * 1000000
      → (reply : TokenResponse) × (login lib expire_minutes c s ≡ (ok reply, s))
        × (get_current_user lib (some reply.access_token) s' ≡ (ok u, s'))
  login_then_current_user expire_minutes c s s' u jwt id h unique same lo hi =
      let single = authenticated_single c s u h in
      let found : find_user u.id s'.working ≡ some u =
        ap (first (λ (v : User). v.id == u.id)) same
        ∙ selected_found (has_email lib (lib.normalize c.email)) s.working.users u unique single in
      (
        record { access_token = token_at expire_minutes u.id s.now; token_type = "bearer" },
        login_token expire_minutes c s u h,
        get_current_user_valid expire_minutes s.now u s' jwt id found lo hi,
      )
