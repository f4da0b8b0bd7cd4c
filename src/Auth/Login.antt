-- ===== src/Auth/Login.antt =====
-- Registration and login.
use bodhrik_fullstack_assess.Common.{
  ℕ, ◌≤◌, String, ◌≡◌, refl, ap, ◌∙◌, ◌⊎◌, inl, inr, Bool, true, Option, none, some, List, [], ◌∷◌,
  ◌++◌, arith, eq_iff, Bool-cases, is_some, length,
}
use bodhrik_fullstack_assess.Common.Table.{select}
use bodhrik_fullstack_assess.Models.{User}
use bodhrik_fullstack_assess.Session.{
  Session, Exception, Result, Action, ok, err, http, ◌>>=◌, ◌>>◌, raise_if, lift,
}
use bodhrik_fullstack_assess.Session.{scalar_one_or_none, multiple_results}
use bodhrik_fullstack_assess.Session.Laws.{bind_ok, bind_inv}
use bodhrik_fullstack_assess.Auth.{
  Library, UserRegister, UserLogin, hash_password, verify_password, has_email, get_user_by_email,
  new_user, persist_user, register_user, check_password, authenticate_user,
}

abbrev pub invalid_login : Exception
invalid_login = http 401 "Invalid email or password" (("WWW-Authenticate", "Bearer") ∷ [])

pub scalar_cases :
    {A : Type 0} (xs : List A) (s : Session)
    → ((xs ≡ []) × (scalar_one_or_none xs s ≡ (ok none, s)))
      ⊎ ((x : A) × (xs ≡ x ∷ []) × (scalar_one_or_none xs s ≡ (ok (some x), s)))
      ⊎ ((2 ≤ length xs) × (scalar_one_or_none xs s ≡ (err multiple_results, s)))
scalar_cases [] s = inl (refl, refl)
scalar_cases (x ∷ []) s = inr (inl (x, refl, refl))
scalar_cases (x ∷ y ∷ rest) s = inr (inr (omega arith, refl))

select-append :
    (p : User → Bool) (xs ys : List User) → select p (xs ++ ys) ≡ select p xs ++ select p ys
select-append p [] ys = refl
select-append p (x ∷ xs) ys = ground (arith, select-append p xs ys)

module _ (lib : Library) where
  abbrev pub matches : String → Session → List User
  matches email s = select (has_email lib (lib.normalize email)) s.working.users

  email_free :
      (email : String) (s : Session)
      → (get_user_by_email lib email s).0 ≡ ok none
      → (matches email s ≡ []) × (get_user_by_email lib email s ≡ (ok none, s))
  unfolding get_user_by_email
  email_free email s h = elim (scalar_cases (matches email s) s) [
    | inl (e, found) ↦ (e, found)
    | inr (inl (x, e, found)) ↦ absurd (ground (arith, found))
    | inr (inr (_, found)) ↦ absurd (ground (arith, found))
  ]

  email_single :
      (email : String) (s : Session) (u : User)
      → matches email s ≡ u ∷ []
      → get_user_by_email lib email s ≡ (ok (some u), s)
  unfolding get_user_by_email
  email_single email s u e = rw e refl

  persist_user_written :
      (hashed : String) (r : UserRegister) (s : Session) {u : User}
      → (persist_user lib hashed r s).0 ≡ ok u
      → let s' = (persist_user lib hashed r s).1 in
        (u ≡ new_user lib hashed (s.uuid s.drawn) s.now r)
        × (s'.working.users ≡ s.working.users ++ u ∷ [])
        × (s'.committed ≡ s'.working)
  unfolding persist_user
  persist_user_written hashed r s {u} h = ground arith

  -- the rest of a registration, once nobody has the email
  abbrev hash_and_persist : ℕ → UserRegister → Action User
  hash_and_persist salt r = do
    hashed ← lift (hash_password lib salt r.password)
    persist_user lib hashed r

  hash_and_persist_inv :
      (salt : ℕ) (r : UserRegister) (s : Session) {u : User}
      → (hash_and_persist salt r s).0 ≡ ok u
      → hash_and_persist salt r s ≡ persist_user lib (lib.hashpw salt r.password) r s
  hash_and_persist_inv salt r s {u} h = elim (Bool-cases (lib.over_limit r.password)) [
    | inl e ↦ absurd (ground (arith, e))
    | inr e ↦ rw e refl
  ]

  register_user_steps :
      (salt : ℕ) (r : UserRegister) (s : Session) {u : User}
      → (register_user lib salt r s).0 ≡ ok u
      → (matches r.email s ≡ [])
        × (register_user lib salt r s ≡ persist_user lib (lib.hashpw salt r.password) r s)
  unfolding register_user
  register_user_steps salt r s {u} h =
      let rest = λ (existing : Option User).
        raise_if (is_some existing) 409 "A user with this email address already exists"
        >> hash_and_persist salt r in
      let (a, e, step) = bind_inv (get_user_by_email lib r.email) rest s h in go a e step
    where
      go :
          (a : Option User)
          → (get_user_by_email lib r.email s).0 ≡ ok a
          → register_user lib salt r s
            ≡ (raise_if (is_some a) 409 "A user with this email address already exists"
                  >> hash_and_persist salt r)
                (get_user_by_email lib r.email s).1
          → (matches r.email s ≡ [])
            × (register_user lib salt r s ≡ persist_user lib (lib.hashpw salt r.password) r s)
      go none e step =
          let (free, same) = email_free r.email s e in
          let reached : register_user lib salt r s ≡ hash_and_persist salt r s =
            step ∙ ap (λ (q : Result (Option User) × Session). hash_and_persist salt r q.1) same in
          (free, reached ∙ hash_and_persist_inv salt r s (rw reached at h))
      go (some v) e step = absurd (ground (arith, step))

  -- A registration that returns has appended a customer with the given name and email, whose
  -- password stands there as bcrypt's hash, and no user matched that email before.
  pub register_user_registered :
      (salt : ℕ) (r : UserRegister) (s : Session) (u : User)
      → (register_user lib salt r s).0 ≡ ok u
      → let s' = (register_user lib salt r s).1 in
        (matches r.email s ≡ [])
        × (u ≡ new_user lib (lib.hashpw salt r.password) (s.uuid s.drawn) s.now r)
        × (s'.working.users ≡ s.working.users ++ u ∷ [])
        × (s'.committed ≡ s'.working)
  register_user_registered salt r s u h =
      let (free, step) = register_user_steps salt r s h in
      let (is_u, users, done) =
        persist_user_written (lib.hashpw salt r.password) r s (rw step at h) in
      (free, is_u, rw step users, rw step done)

  passes :
      (password : String) (u : User) (s : Session)
      → verify_password lib password u.password_hash ≡ true
      → check_password lib password (some u) s ≡ (ok u, s)
  passes password u s e = rw e refl

  -- Where one user has the email and bcrypt confirms the password, that user is returned.
  pub authenticate_single :
      (c : UserLogin) (u : User) (s : Session)
      → matches c.email s ≡ u ∷ []
      → verify_password lib c.password u.password_hash ≡ true
      → authenticate_user lib c s ≡ (ok u, s)
  unfolding authenticate_user
  authenticate_single c u s single confirmed =
      let found = email_single c.email s u single in
      bind_ok (get_user_by_email lib c.email) (check_password lib c.password) s {a = some u}
        (ap (λ (q : Result (Option User) × Session). q.0) found)
      ∙ passes c.password u (get_user_by_email lib c.email s).1 confirmed
      ∙ ap (λ (q : Result (Option User) × Session). (ok u, q.1)) found

  -- Who has registered can log in: with the registered email and password, in the session that
  -- the registration leaves, `authenticate_user` returns the new user. It takes that bcrypt
  -- confirms its own hash, and that the registered email is in its normal form, as the
  -- validator of UserRegister leaves it.
  pub register_then_authenticate :
      (salt : ℕ) (r : UserRegister) (s : Session) (u : User)
      → lib.checkpw r.password (lib.hashpw salt r.password) ≡ some true
      → lib.normalize r.email ≡ r.email
      → lib.sql_lower r.email ≡ r.email
      → (register_user lib salt r s).0 ≡ ok u
      → let s' = (register_user lib salt r s).1 in
        authenticate_user lib (record { email = r.email; password = r.password }) s' ≡ (ok u, s')
  register_then_authenticate salt r s u hash normal lower h =
      let s' = (register_user lib salt r s).1 in
      let (free, is_u, users, done) = register_user_registered salt r s u h in
      let own : has_email lib (lib.normalize r.email) u ≡ true =
        rw (is_u, normal, lower) ((eq_iff r.email r.email).1 refl) in
      let single : matches r.email s' ≡ u ∷ [] = rw users (
        select-append (has_email lib (lib.normalize r.email)) s.working.users (u ∷ [])
        ∙ rw (free, own) refl) in
      let confirmed : verify_password lib r.password u.password_hash ≡ true =
        rw (is_u, hash) refl in
      authenticate_single (record { email = r.email; password = r.password }) u s' single confirmed

  -- `authenticate_user` changes nothing. It returns a user only where one user has the email and
  -- bcrypt confirms the password. An unknown email and a wrong password get the same answer, and
  -- there is no other but for an email that two users share.
  pub authenticate_user_answers :
      (c : UserLogin) (s : Session)
      → ((u : User) × (matches c.email s ≡ u ∷ [])
          × (verify_password lib c.password u.password_hash ≡ true)
          × (authenticate_user lib c s ≡ (ok u, s)))
        ⊎ (authenticate_user lib c s ≡ (err invalid_login, s))
        ⊎ ((2 ≤ length (matches c.email s))
            × (authenticate_user lib c s ≡ (err multiple_results, s)))
  unfolding authenticate_user get_user_by_email
  authenticate_user_answers c s = elim (scalar_cases (matches c.email s) s) [
    | inl (e, found) ↦ inr (inl (ground (arith, found)))
    | inr (inl (u, e, found)) ↦ elim (Bool-cases (verify_password lib c.password u.password_hash)) [
      | inl good ↦ inl (u, e, good, ground (arith, found))
      | inr bad ↦ inr (inl (ground (arith, found)))
    ]
    | inr (inr (many, found)) ↦ inr (inr (many, ground (arith, found)))
  ]
