-- ===== src/Migrations/PasswordHash.antt =====
-- alembic/versions/2026_09_10_0002_add_user_password_hash.py: the catalog, and the rows that the
-- revision fills.
use bodhrik_fullstack_assess.Common.{
  ℕ, String, Option, none, some, List, any, str_eq, if◌then◌else◌,
}
use bodhrik_fullstack_assess.Migrations.Catalog.{
  varchar, nullable, Migration, ◌>=>◌, add_column, set_not_null, drop_column,
}
use bodhrik_fullstack_assess.Common.Table.{update_where}
use bodhrik_fullstack_assess.Migrations.Rows.{Value, Row, is_null}

unfoldable pub upgrade : Migration
upgrade =
    add_column "users" (nullable "password_hash" (varchar 255))
    >=> set_not_null "users" "password_hash"

unfoldable pub downgrade : Migration
downgrade = drop_column "users" "password_hash"

-- `UPDATE users SET password_hash = … WHERE password_hash IS NULL`
abbrev pub backfill : String → List Row → List Row
backfill unusable_hash =
    update_where (λ r. is_null (r "password_hash"))
      (λ r k. if str_eq "password_hash" k then Value.word unusable_hash else r k)

-- What `upgrade` makes of the rows of users. The new column is NULL in each of them, as any column
-- that a row does not name; SET NOT NULL is refused where a NULL is left. `hashpw` and `salt` are
-- bcrypt's; `random_secret` is drawn by the revision, and its 64 hexadecimal digits are within what
-- bcrypt takes.
unfoldable pub upgrade_rows : (ℕ → String → String) → ℕ → String → List Row → Option (List Row)
upgrade_rows hashpw salt random_secret rows =
    let filled = backfill (hashpw salt random_secret) rows in
    if any (λ r. is_null (r "password_hash")) filled then none else some filled
