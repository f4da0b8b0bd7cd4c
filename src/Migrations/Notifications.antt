-- ===== src/Migrations/Notifications.antt =====
-- alembic/versions/2026_09_11_0003_add_notifications.py.
use bodhrik_fullstack_assess.Common.{false, some, [], ◌∷◌}
use bodhrik_fullstack_assess.Migrations.Catalog.{
  uuid, text, boolean, timestamptz, varchar, enum, not_null, nullable, defaulted, primary_key,
  unique, foreign_key, OnDelete, Table, EnumType, Migration, ◌>=>◌, create_type, create_table,
  create_index, drop_index, drop_table, drop_type,
}

abbrev pub notification_type : EnumType
notification_type = record {
  name = "notification_type";
  labels =
      "booking_created" ∷ "booking_confirmed" ∷ "booking_cancelled" ∷ "booking_reminder"
      ∷ "booking_completed" ∷ "booking_overdue" ∷ [];
}

abbrev pub notifications_table : Table
notifications_table = record {
  name = "notifications";
  columns =
      not_null "id" uuid
      ∷ not_null "user_id" uuid
      ∷ nullable "booking_id" uuid
      ∷ not_null "type" (enum "notification_type")
      ∷ not_null "title" (varchar 255)
      ∷ not_null "message" text
      ∷ defaulted "is_read" boolean "false"
      ∷ defaulted "created_at" timestamptz "now()"
      ∷ nullable "read_at" timestamptz
      ∷ [];
  rules =
      foreign_key "booking_id" "bookings" "id" OnDelete.cascade
      ∷ foreign_key "user_id" "users" "id" OnDelete.cascade
      ∷ primary_key "id"
      ∷ unique (some "uq_notifications_user_booking_type") ("user_id" ∷ "booking_id" ∷ "type" ∷ [])
      ∷ [];
}

unfoldable pub upgrade : Migration
upgrade =
    create_type notification_type
    >=> create_table notifications_table
    >=> create_index "ix_notifications_user_id" "notifications" ("user_id" ∷ []) false
    >=> create_index "ix_notifications_booking_id" "notifications" ("booking_id" ∷ []) false
    >=> create_index "ix_notifications_type" "notifications" ("type" ∷ []) false
    >=> create_index "ix_notifications_is_read" "notifications" ("is_read" ∷ []) false
    >=> create_index "ix_notifications_user_is_read" "notifications" ("user_id" ∷ "is_read" ∷ [])
        false
    >=> create_index "ix_notifications_user_created_at" "notifications"
        ("user_id" ∷ "created_at" ∷ []) false

unfoldable pub downgrade : Migration
downgrade =
    drop_index "ix_notifications_user_created_at"
    >=> drop_index "ix_notifications_user_is_read"
    >=> drop_index "ix_notifications_is_read"
    >=> drop_index "ix_notifications_type"
    >=> drop_index "ix_notifications_booking_id"
    >=> drop_index "ix_notifications_user_id"
    >=> drop_table "notifications"
    >=> drop_type "notification_type"
