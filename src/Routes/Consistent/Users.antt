-- ===== src/Routes/Consistent/Users.antt =====
-- A registration keeps ids and emails of users unique, and leaves the other tables alone.
use bodhrik_fullstack_assess.Common.{
  ℕ, ◌≡◌, refl, ◌⊎◌, inl, inr, none, List, [], ◌∷◌, ◌++◌, arith, ◌==◌, str_eq, eq_iff, Bool-cases,
}
use bodhrik_fullstack_assess.Common.Separate.{Separate, UniqueKeys, append-Separate}
use bodhrik_fullstack_assess.Models.{User, Database}
use bodhrik_fullstack_assess.Models.Constraints.{user_violation}
use bodhrik_fullstack_assess.Session.{Environment, open_session, serve}
use bodhrik_fullstack_assess.Auth.{
  Library, UserRegister, new_user, get_user_by_email, persist_user, register_user,
}
use bodhrik_fullstack_assess.Auth.Login.{matches, scalar_cases}

-- Ids and emails of users are unique.
pub record HasUniqueUsers (us : List User) : Type 0 where
  pub ids : UniqueKeys (λ (u : User). u.id) us
  pub emails : Separate (λ (u v : User). str_eq u.email v.email) us

email_sym : (u v : User) → str_eq u.email v.email ≡ str_eq v.email u.email
email_sym u v = ground (arith, eq_iff u.email v.email, eq_iff v.email u.email)

module _ (env : Environment) (db : Database) (lib : Library) (salt : ℕ) (r : UserRegister) where
  abbrev pub row : User
  row = new_user lib (lib.hashpw salt r.password) (env.uuid 0) env.now r

  -- what becomes of the table of users
  persist_user_outcome :
      let us =
        (persist_user lib (lib.hashpw salt r.password) r (open_session env db)).1.committed.users in
      (us ≡ db.users) ⊎ ((user_violation db row ≡ none) × (us ≡ db.users ++ row ∷ []))
  unfolding persist_user
  persist_user_outcome = ground arith

  persist_user_others :
      let d = (persist_user lib (lib.hashpw salt r.password) r (open_session env db)).1.committed in
      (d.bookings ≡ db.bookings) × (d.reviews ≡ db.reviews) × (d.notifications ≡ db.notifications)
  unfolding persist_user
  persist_user_others = ground arith

  -- a registration writes nothing, or what `persist_user` writes
  register_user_steps :
      let d = (serve env (register_user lib salt r) db).1 in
      (d ≡ db)
      ⊎ (d ≡ (persist_user lib (lib.hashpw salt r.password) r (open_session env db)).1.committed)
  unfolding serve register_user get_user_by_email
  register_user_steps =
      elim (scalar_cases (matches lib r.email (open_session env db)) (open_session env db)) [
        | inl (e, found) ↦ elim (Bool-cases (lib.over_limit r.password)) [
          | inl long ↦ inl (ground (arith, found, long))
          | inr short ↦ inr (ground (arith, found, short))
        ]
        | inr (inl (u, e, found)) ↦ inl (ground (arith, found))
        | inr (inr (many, found)) ↦ inl (ground (arith, found))
      ]

  persist_user-HasUniqueUsers :
      HasUniqueUsers db.users
      → HasUniqueUsers
          (persist_user lib (lib.hashpw salt r.password) r (open_session env db)).1.committed.users
  unfolding user_violation
  persist_user-HasUniqueUsers h = elim persist_user_outcome [
    | inl same ↦ rw same h
    | inr (free, e) ↦ rw e (record {
      ids =
          append-Separate (λ u v. u.id == v.id) (λ u v. ground arith) db.users row (ground arith)
            h.ids;
      emails =
          append-Separate (λ u v. str_eq u.email v.email) email_sym db.users row (ground arith)
            h.emails;
    })
  ]

  pub register_user-HasUniqueUsers :
      HasUniqueUsers db.users → HasUniqueUsers (serve env (register_user lib salt r) db).1.users
  register_user-HasUniqueUsers h = elim register_user_steps [
    | inl same ↦ rw same h
    | inr e ↦ rw e (persist_user-HasUniqueUsers h)
  ]

  -- The users are the old ones, or these and the new one.
  pub register_user_outcome :
      let us = (serve env (register_user lib salt r) db).1.users in
      (us ≡ db.users) ⊎ (us ≡ db.users ++ row ∷ [])
  register_user_outcome = elim register_user_steps [
    | inl same ↦ inl (rw same refl)
    | inr e ↦ elim persist_user_outcome [
      | inl same ↦ inl (rw e same)
      | inr (_, more) ↦ inr (rw e more)
    ]
  ]

  pub register_user-OnlyUsers :
      let d = (serve env (register_user lib salt r) db).1 in
      (d.bookings ≡ db.bookings) × (d.reviews ≡ db.reviews) × (d.notifications ≡ db.notifications)
  register_user-OnlyUsers = elim register_user_steps [
    | inl same ↦ rw same (refl, refl, refl)
    | inr e ↦ rw e persist_user_others
  ]
