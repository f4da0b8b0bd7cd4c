-- ===== src/Migrations/Undone/PasswordHash.antt =====
-- What revision 0002 makes of a catalog, and that its downgrade undoes it.
use bodhrik_fullstack_assess.Common.{
  ◌≡◌, refl, Bool, true, false, ◌&&◌, some, List, [], ◌∷◌, ◌++◌, arith, str_eq, any, All,
}
use bodhrik_fullstack_assess.Common.Table.{update_where, delete_where}
use bodhrik_fullstack_assess.Migrations.Catalog.{
  Catalog, Table, Column, varchar, not_null, nullable, map_table, has_table,
}
use bodhrik_fullstack_assess.Migrations.PasswordHash.{upgrade, downgrade}

abbrev is_users : Table → Bool
is_users t = str_eq t.name "users"

abbrev is_hash : Column → Bool
is_hash k = str_eq k.name "password_hash"

-- No table of users has a column `password_hash`.
abbrev pub LacksHash : Catalog → Type 0
LacksHash c = All (λ (t : Table). (is_users t && any is_hash t.columns) ≡ false) c.tables

abbrev pub with_column : Column → Table → Table
with_column k t = record t { columns = t.columns ++ k ∷ [] }

abbrev strict : Table → Table
strict t = record t {
  columns = update_where is_hash (λ k. record k { nullable = false }) t.columns;
}

abbrev without_hash : Table → Table
without_hash t = record t { columns = delete_where is_hash t.columns }

-- the catalog after revision 0002
abbrev pub with_password_hash : Catalog → Catalog
with_password_hash = map_table "users" (with_column (not_null "password_hash" (varchar 255)))

columns_strict :
    (ks : List Column)
    → any is_hash ks ≡ false
    → update_where is_hash
        (λ k. record k { nullable = false })
        (ks ++ nullable "password_hash" (varchar 255) ∷ [])
      ≡ ks ++ not_null "password_hash" (varchar 255) ∷ []
columns_strict [] h = refl
columns_strict (k ∷ ks) h = ground (arith, columns_strict ks)

columns_dropped :
    (ks : List Column)
    → any is_hash ks ≡ false
    → delete_where is_hash (ks ++ not_null "password_hash" (varchar 255) ∷ []) ≡ ks
columns_dropped [] h = refl
columns_dropped (k ∷ ks) h = ground (arith, columns_dropped ks)

tables_strict :
    (ts : List Table)
    → All (λ (t : Table). (is_users t && any is_hash t.columns) ≡ false) ts
    → update_where is_users strict
        (update_where is_users (with_column (nullable "password_hash" (varchar 255))) ts)
      ≡ update_where is_users (with_column (not_null "password_hash" (varchar 255))) ts
tables_strict [] h = refl
tables_strict (t ∷ ts) h = ground (arith, columns_strict t.columns, tables_strict ts h.1)

tables_dropped :
    (ts : List Table)
    → All (λ (t : Table). (is_users t && any is_hash t.columns) ≡ false) ts
    → update_where is_users without_hash
        (update_where is_users (with_column (not_null "password_hash" (varchar 255))) ts)
      ≡ ts
tables_dropped [] h = refl
tables_dropped (t ∷ ts) h = ground (arith, columns_dropped t.columns, tables_dropped ts h.1)

has_table-with_column :
    (k : Column) (ts : List Table)
    → any is_users (update_where is_users (with_column k) ts) ≡ any is_users ts
has_table-with_column k [] = refl
has_table-with_column k (t ∷ ts) = ground (arith, has_table-with_column k ts)

module _ (c : Catalog) (there : has_table "users" c ≡ true) (lacks : LacksHash c) where
  pub upgrade_password_hash : upgrade c ≡ some (with_password_hash c)
  unfolding upgrade
  upgrade_password_hash = ground (
    arith,
    has_table-with_column (nullable "password_hash" (varchar 255)) c.tables,
    tables_strict c.tables lacks,
  )

  pub downgrade_password_hash : downgrade (with_password_hash c) ≡ some c
  unfolding downgrade
  downgrade_password_hash = ground (
    arith,
    has_table-with_column (not_null "password_hash" (varchar 255)) c.tables,
    tables_dropped c.tables lacks,
  )
