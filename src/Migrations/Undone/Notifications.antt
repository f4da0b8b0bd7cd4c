-- ===== src/Migrations/Undone/Notifications.antt =====
-- What revision 0003 makes of a catalog, and that its downgrade undoes it.
use bodhrik_fullstack_assess.Common.{◌≡◌, false, some, [], ◌∷◌, arith, str_eq}
use bodhrik_fullstack_assess.Migrations.Catalog.{
  Catalog, Table, Index, EnumType, has_table, has_index, has_type, indexed, delete-absent,
}
use bodhrik_fullstack_assess.Migrations.Notifications.{
  notifications_table, notification_type, upgrade, downgrade,
}

-- The names that revision 0003 takes are free.
pub record TakesNotifications (c : Catalog) : Type 0 where
  pub notification_type_type : has_type "notification_type" c ≡ false
  pub notifications : has_table "notifications" c ≡ false
  pub notifications_indexed : indexed "notifications" c ≡ false
  pub ix_notifications_user_id : has_index "ix_notifications_user_id" c ≡ false
  pub ix_notifications_booking_id : has_index "ix_notifications_booking_id" c ≡ false
  pub ix_notifications_type : has_index "ix_notifications_type" c ≡ false
  pub ix_notifications_is_read : has_index "ix_notifications_is_read" c ≡ false
  pub ix_notifications_user_is_read : has_index "ix_notifications_user_is_read" c ≡ false
  pub ix_notifications_user_created_at : has_index "ix_notifications_user_created_at" c ≡ false

-- the catalog after revision 0003
abbrev pub with_notifications : Catalog → Catalog
with_notifications c = record {
  tables = notifications_table ∷ c.tables;
  indexes =
      record {
        name = "ix_notifications_user_created_at";
        table = "notifications";
        columns = "user_id" ∷ "created_at" ∷ [];
        is_unique = false;
      }
      ∷ record {
        name = "ix_notifications_user_is_read";
        table = "notifications";
        columns = "user_id" ∷ "is_read" ∷ [];
        is_unique = false;
      }
      ∷ record {
        name = "ix_notifications_is_read";
        table = "notifications";
        columns = "is_read" ∷ [];
        is_unique = false;
      }
      ∷ record {
        name = "ix_notifications_type";
        table = "notifications";
        columns = "type" ∷ [];
        is_unique = false;
      }
      ∷ record {
        name = "ix_notifications_booking_id";
        table = "notifications";
        columns = "booking_id" ∷ [];
        is_unique = false;
      }
      ∷ record {
        name = "ix_notifications_user_id";
        table = "notifications";
        columns = "user_id" ∷ [];
        is_unique = false;
      }
      ∷ c.indexes;
  types = notification_type ∷ c.types;
}

pub upgrade_notifications :
    (c : Catalog) → TakesNotifications c → upgrade c ≡ some (with_notifications c)
unfolding upgrade
upgrade_notifications c h = ground arith

pub downgrade_notifications :
    (c : Catalog) → TakesNotifications c → downgrade (with_notifications c) ≡ some c
unfolding downgrade
downgrade_notifications c h = ground (
  arith,
  delete-absent (λ (e : EnumType). str_eq e.name "notification_type") c.types
      h.notification_type_type,
  delete-absent (λ (t : Table). str_eq t.name "notifications") c.tables h.notifications,
  delete-absent (λ (i : Index). str_eq i.table "notifications") c.indexes h.notifications_indexed,
  delete-absent (λ (i : Index). str_eq i.name "ix_notifications_user_id") c.indexes
      h.ix_notifications_user_id,
  delete-absent (λ (i : Index). str_eq i.name "ix_notifications_booking_id") c.indexes
      h.ix_notifications_booking_id,
  delete-absent (λ (i : Index). str_eq i.name "ix_notifications_type") c.indexes
      h.ix_notifications_type,
  delete-absent (λ (i : Index). str_eq i.name "ix_notifications_is_read") c.indexes
      h.ix_notifications_is_read,
  delete-absent (λ (i : Index). str_eq i.name "ix_notifications_user_is_read") c.indexes
      h.ix_notifications_user_is_read,
  delete-absent (λ (i : Index). str_eq i.name "ix_notifications_user_created_at") c.indexes
      h.ix_notifications_user_created_at,
)
