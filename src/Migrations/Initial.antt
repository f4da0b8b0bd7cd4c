-- ===== src/Migrations/Initial.antt =====
-- alembic/versions/2026_09_10_0001_initial_schema.py.
use bodhrik_fullstack_assess.Common.{true, false, none, [], ◌∷◌}
use bodhrik_fullstack_assess.Migrations.Catalog.{
  uuid, text, integer, timestamptz, varchar, enum, not_null, nullable, defaulted, greater, differ,
  between, primary_key, unique, check, foreign_key, OnDelete, Table, EnumType, Migration, ◌>=>◌,
  create_type, create_table, create_index, drop_index, drop_table, drop_type,
}

abbrev pub user_role : EnumType
user_role = record { name = "user_role"; labels = "admin" ∷ "provider" ∷ "customer" ∷ [] }

abbrev pub booking_status : EnumType
booking_status = record {
  name = "booking_status";
  labels = "pending" ∷ "confirmed" ∷ "completed" ∷ "cancelled" ∷ [];
}

abbrev pub users_table : Table
users_table = record {
  name = "users";
  columns =
      not_null "id" uuid
      ∷ not_null "name" (varchar 255)
      ∷ not_null "email" (varchar 255)
      ∷ not_null "role" (enum "user_role")
      ∷ defaulted "created_at" timestamptz "now()"
      ∷ defaulted "updated_at" timestamptz "now()"
      ∷ [];
  rules = primary_key "id" ∷ unique none ("email" ∷ []) ∷ [];
}

abbrev pub bookings_table : Table
bookings_table = record {
  name = "bookings";
  columns =
      not_null "id" uuid
      ∷ not_null "customer_id" uuid
      ∷ not_null "provider_id" uuid
      ∷ not_null "service_name" (varchar 255)
      ∷ not_null "start_time" timestamptz
      ∷ not_null "end_time" timestamptz
      ∷ not_null "status" (enum "booking_status")
      ∷ defaulted "created_at" timestamptz "now()"
      ∷ defaulted "updated_at" timestamptz "now()"
      ∷ [];
  rules =
      check "check_booking_end_after_start" (greater "end_time" "start_time")
      ∷ check "check_booking_customer_not_provider" (differ "customer_id" "provider_id")
      ∷ foreign_key "customer_id" "users" "id" OnDelete.cascade
      ∷ foreign_key "provider_id" "users" "id" OnDelete.cascade
      ∷ primary_key "id"
      ∷ [];
}

abbrev pub reviews_table : Table
reviews_table = record {
  name = "reviews";
  columns =
      not_null "id" uuid
      ∷ not_null "booking_id" uuid
      ∷ not_null "customer_id" uuid
      ∷ not_null "provider_id" uuid
      ∷ not_null "rating" integer
      ∷ nullable "comment" text
      ∷ defaulted "created_at" timestamptz "now()"
      ∷ defaulted "updated_at" timestamptz "now()"
      ∷ [];
  rules =
      check "check_review_rating_range" (between "rating" 1 5)
      ∷ foreign_key "booking_id" "bookings" "id" OnDelete.cascade
      ∷ foreign_key "customer_id" "users" "id" OnDelete.cascade
      ∷ foreign_key "provider_id" "users" "id" OnDelete.cascade
      ∷ primary_key "id"
      ∷ unique none ("booking_id" ∷ [])
      ∷ [];
}

unfoldable pub upgrade : Migration
upgrade =
    create_type user_role
    >=> create_table users_table
    >=> create_index "ix_users_email" "users" ("email" ∷ []) true
    >=> create_type booking_status
    >=> create_table bookings_table
    >=> create_index "ix_bookings_customer_id" "bookings" ("customer_id" ∷ []) false
    >=> create_index "ix_bookings_provider_id" "bookings" ("provider_id" ∷ []) false
    >=> create_index "ix_bookings_start_time" "bookings" ("start_time" ∷ []) false
    >=> create_index "ix_bookings_status" "bookings" ("status" ∷ []) false
    >=> create_index "ix_bookings_customer_status" "bookings" ("customer_id" ∷ "status" ∷ []) false
    >=> create_index "ix_bookings_provider_status" "bookings" ("provider_id" ∷ "status" ∷ []) false
    >=> create_table reviews_table
    >=> create_index "ix_reviews_booking_id" "reviews" ("booking_id" ∷ []) true
    >=> create_index "ix_reviews_customer_id" "reviews" ("customer_id" ∷ []) false
    >=> create_index "ix_reviews_provider_id" "reviews" ("provider_id" ∷ []) false
    >=> create_index "ix_reviews_provider_rating" "reviews" ("provider_id" ∷ "rating" ∷ []) false

unfoldable pub downgrade : Migration
downgrade =
    drop_index "ix_reviews_provider_rating"
    >=> drop_index "ix_reviews_provider_id"
    >=> drop_index "ix_reviews_customer_id"
    >=> drop_index "ix_reviews_booking_id"
    >=> drop_table "reviews"
    >=> drop_index "ix_bookings_provider_status"
    >=> drop_index "ix_bookings_customer_status"
    >=> drop_index "ix_bookings_status"
    >=> drop_index "ix_bookings_start_time"
    >=> drop_index "ix_bookings_provider_id"
    >=> drop_index "ix_bookings_customer_id"
    >=> drop_table "bookings"
    >=> drop_index "ix_users_email"
    >=> drop_table "users"
    >=> drop_type "booking_status"
    >=> drop_type "user_role"
