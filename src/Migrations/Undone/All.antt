-- ===== src/Migrations/Undone/All.antt =====
-- The three revisions in their order, and their downgrades in the reverse one.
use bodhrik_fullstack_assess.Common.{
  String, ◌≡◌, refl, ◌∙◌, false, ◌&&◌, some, List, [], ◌∷◌, arith, str_eq, any, All,
}
use bodhrik_fullstack_assess.Common.Table.{update_where}
use bodhrik_fullstack_assess.Migrations.Catalog.{
  Catalog, Migration, Table, Column, ◌>=>◌, not_null, varchar,
}
use bodhrik_fullstack_assess.Migrations.Initial.{
  upgrade as upgrade_0001, downgrade as downgrade_0001,
}
use bodhrik_fullstack_assess.Migrations.PasswordHash.{
  upgrade as upgrade_0002, downgrade as downgrade_0002,
}
use bodhrik_fullstack_assess.Migrations.Notifications.{
  upgrade as upgrade_0003, downgrade as downgrade_0003,
}
use bodhrik_fullstack_assess.Migrations.Undone.Initial.{
  TakesInitial, with_initial, upgrade_initial, downgrade_initial,
}
use bodhrik_fullstack_assess.Migrations.Undone.PasswordHash.{
  LacksHash, with_column, with_password_hash, upgrade_password_hash, downgrade_password_hash,
}
use bodhrik_fullstack_assess.Migrations.Undone.Notifications.{
  TakesNotifications, with_notifications, upgrade_notifications, downgrade_notifications,
}

-- alembic upgrade head, from no revision
abbrev pub upgrade_all : Migration
upgrade_all = upgrade_0001 >=> upgrade_0002 >=> upgrade_0003

-- alembic downgrade base, from the last revision
abbrev pub downgrade_all : Migration
downgrade_all = downgrade_0003 >=> downgrade_0002 >=> downgrade_0001

lacks_hash :
    (ts : List Table)
    → any (λ (t : Table). str_eq t.name "users") ts ≡ false
    → All
        (λ (t : Table).
          (str_eq t.name "users" && any (λ (k : Column). str_eq k.name "password_hash") t.columns)
          ≡ false)
        ts
lacks_hash [] h = tt
lacks_hash (t ∷ ts) h = (ground arith, lacks_hash ts (ground arith))

-- The names that the three revisions take are free.
pub record TakesAll (c : Catalog) : Type 0 where
  pub initial : TakesInitial c
  pub notifications : TakesNotifications c

abbrev pub with_all : Catalog → Catalog
with_all c = with_notifications (with_password_hash (with_initial c))

named :
    (n : String) (f : Table → Table)
    → ((t : Table) → (f t).name ≡ t.name)
    → (ts : List Table)
    → any
        (λ (t : Table). str_eq t.name n)
        (update_where (λ (t : Table). str_eq t.name "users") f ts)
      ≡ any (λ (t : Table). str_eq t.name n) ts
named n f h [] = refl
named n f h (t ∷ ts) = ground (arith, h t, named n f h ts)

module _ (c : Catalog) (free : TakesAll c) where
  takes_notifications : TakesNotifications (with_password_hash (with_initial c))
  takes_notifications = record {
    notification_type_type = free.notifications.notification_type_type;
    notifications =
        named "notifications" (with_column (not_null "password_hash" (varchar 255))) (λ t. refl)
          c.tables
        ∙ free.notifications.notifications;
    notifications_indexed = free.notifications.notifications_indexed;
    ix_notifications_user_id = free.notifications.ix_notifications_user_id;
    ix_notifications_booking_id = free.notifications.ix_notifications_booking_id;
    ix_notifications_type = free.notifications.ix_notifications_type;
    ix_notifications_is_read = free.notifications.ix_notifications_is_read;
    ix_notifications_user_is_read = free.notifications.ix_notifications_user_is_read;
    ix_notifications_user_created_at = free.notifications.ix_notifications_user_created_at;
  }

  lacks : LacksHash (with_initial c)
  lacks = (refl, (refl, (refl, lacks_hash c.tables free.initial.users)))

  -- Where no name is taken, the three revisions go through in their order, and the three
  -- downgrades in the reverse order then give back the catalog as it was.
  pub migrations_undone :
      (upgrade_all c ≡ some (with_all c)) × ((upgrade_all >=> downgrade_all) c ≡ some c)
  migrations_undone = (
    up,
    ground (
      arith,
      upgrade_initial c free.initial,
      upgrade_password_hash (with_initial c) refl lacks,
      upgrade_notifications (with_password_hash (with_initial c)) takes_notifications,
      downgrade_notifications (with_password_hash (with_initial c)) takes_notifications,
      downgrade_password_hash (with_initial c) refl lacks,
      downgrade_initial c free.initial,
    ),
  )
    where
      up : upgrade_all c ≡ some (with_all c)
      up = ground (
        arith,
        upgrade_initial c free.initial,
        upgrade_password_hash (with_initial c) refl lacks,
        upgrade_notifications _ takes_notifications,
      )
