-- ===== src/Migrations/Backfill.antt =====
-- The rows of users after revision 0002, and who can log in as one of them.
use bodhrik_fullstack_assess.Common.{
  ℕ, String, ◌≡◌, refl, sym, ap, ◌∙◌, subst, ◌⊎◌, inl, inr, Bool, false, some, List, [], ◌∷◌, map,
  arith, str_eq, eq_iff, any, All, Bool-cases, if◌then◌else◌,
}
use bodhrik_fullstack_assess.Common.Table.{select}
use bodhrik_fullstack_assess.Models.{User}
use bodhrik_fullstack_assess.Session.{Session, err, multiple_results}
use bodhrik_fullstack_assess.Auth.{
  Library, UserLogin, verify_password, has_email, authenticate_user,
}
use bodhrik_fullstack_assess.Auth.Login.{invalid_login, authenticate_user_answers}
use bodhrik_fullstack_assess.Migrations.Rows.{Value, Row, row, is_null, role_label, user_row}
use bodhrik_fullstack_assess.Migrations.PasswordHash.{upgrade_rows, backfill}

-- a row of users as revision 0001 has it
abbrev pub legacy_row : User → Row
legacy_row u = row (
    ("id", Value.uuid u.id)
    ∷ ("name", Value.word u.name)
    ∷ ("email", Value.word u.email)
    ∷ ("role", Value.word (role_label u.role))
    ∷ ("created_at", Value.instant u.created_at)
    ∷ ("updated_at", Value.instant u.updated_at)
    ∷ [])

abbrev pub hashed : String → User → User
hashed h u = record u { password_hash = h }

same_column :
    (h : String) (u : User) (k : String)
    → (if str_eq "password_hash" k then Value.word h else legacy_row u k) ≡ user_row (hashed h u) k
same_column h u k = elim (Bool-cases (str_eq "password_hash" k)) [
  | inl e ↦
      subst
        (λ k.
          (if str_eq "password_hash" k then Value.word h else legacy_row u k)
          ≡ user_row (hashed h u) k)
        ((eq_iff "password_hash" k).0 e) refl
  | inr e ↦ ground arith
]

backfilled :
    (h : String) (us : List User)
    → backfill h (map legacy_row us) ≡ map user_row (map (hashed h) us)
backfilled h [] = refl
backfilled h (u ∷ us) = λ i. (λ k. same_column h u k i) ∷ backfilled h us i

none_null :
    (us : List User) → any (λ (r : Row). is_null (r "password_hash")) (map user_row us) ≡ false
none_null [] = refl
none_null (u ∷ us) = none_null us

selected_hashed :
    (p : User → Bool) (h : String) (us : List User)
    → All (λ (u : User). u.password_hash ≡ h) (select p (map (hashed h) us))
selected_hashed p h [] = tt
selected_hashed p h (u ∷ us) = elim (Bool-cases (p (hashed h u))) [
  | inl e ↦ rw e (refl, selected_hashed p h us)
  | inr e ↦ rw e (selected_hashed p h us)
]

module _ (lib : Library) (salt : ℕ) (random_secret : String) (us : List User) where
  abbrev unusable : String
  unusable = lib.hashpw salt random_secret

  filled :
      upgrade_rows lib.hashpw salt random_secret (map legacy_row us)
      ≡ some (map user_row (map (hashed unusable) us))
  unfolding upgrade_rows
  filled = rw (backfilled unusable us, none_null (map (hashed unusable) us)) refl

  -- Revision 0002 goes through on any rows: each gets the hash of the random secret and keeps its
  -- other columns. With a password that bcrypt does not confirm for that hash nobody can then log
  -- in as one of these users.
  pub backfill_locked :
      (c : UserLogin) (s : Session)
      → s.working.users ≡ map (hashed unusable) us
      → verify_password lib c.password unusable ≡ false
      → (upgrade_rows lib.hashpw salt random_secret (map legacy_row us)
          ≡ some (map user_row s.working.users))
        × ((authenticate_user lib c s ≡ (err invalid_login, s))
            ⊎ (authenticate_user lib c s ≡ (err multiple_results, s)))
  backfill_locked c s rows wrong = (
    filled ∙ ap (λ (xs : List User). some (map user_row xs)) (sym rows),
    elim (authenticate_user_answers lib c s) [
      | inl (u, single, confirmed, done) ↦
          let hash : u.password_hash ≡ unusable =
            (subst (All (λ (u : User). u.password_hash ≡ unusable))
              (ap (select (has_email lib (lib.normalize c.email))) (sym rows) ∙ single)
              (selected_hashed (has_email lib (lib.normalize c.email)) unusable us)).0 in
          ground (arith, ap (verify_password lib c.password) hash)
      | inr (inl e) ↦ inl e
      | inr (inr (_, e)) ↦ inr e
    ],
  )
