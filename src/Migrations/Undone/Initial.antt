-- ===== src/Migrations/Undone/Initial.antt =====
-- What revision 0001 makes of a catalog, and that its downgrade undoes it.
use bodhrik_fullstack_assess.Common.{◌≡◌, true, false, some, [], ◌∷◌, arith, str_eq}
use bodhrik_fullstack_assess.Migrations.Catalog.{
  Catalog, Table, Index, EnumType, has_table, has_index, has_type, indexed, delete-absent,
}
use bodhrik_fullstack_assess.Migrations.Initial.{
  users_table, bookings_table, reviews_table, user_role, booking_status, upgrade, downgrade,
}

-- The names that revision 0001 takes are free.
pub record TakesInitial (c : Catalog) : Type 0 where
  pub user_role_type : has_type "user_role" c ≡ false
  pub booking_status_type : has_type "booking_status" c ≡ false
  pub users : has_table "users" c ≡ false
  pub users_indexed : indexed "users" c ≡ false
  pub bookings : has_table "bookings" c ≡ false
  pub bookings_indexed : indexed "bookings" c ≡ false
  pub reviews : has_table "reviews" c ≡ false
  pub reviews_indexed : indexed "reviews" c ≡ false
  pub ix_users_email : has_index "ix_users_email" c ≡ false
  pub ix_bookings_customer_id : has_index "ix_bookings_customer_id" c ≡ false
  pub ix_bookings_provider_id : has_index "ix_bookings_provider_id" c ≡ false
  pub ix_bookings_start_time : has_index "ix_bookings_start_time" c ≡ false
  pub ix_bookings_status : has_index "ix_bookings_status" c ≡ false
  pub ix_bookings_customer_status : has_index "ix_bookings_customer_status" c ≡ false
  pub ix_bookings_provider_status : has_index "ix_bookings_provider_status" c ≡ false
  pub ix_reviews_booking_id : has_index "ix_reviews_booking_id" c ≡ false
  pub ix_reviews_customer_id : has_index "ix_reviews_customer_id" c ≡ false
  pub ix_reviews_provider_id : has_index "ix_reviews_provider_id" c ≡ false
  pub ix_reviews_provider_rating : has_index "ix_reviews_provider_rating" c ≡ false

-- the catalog after revision 0001
abbrev pub with_initial : Catalog → Catalog
with_initial c = record {
  tables = reviews_table ∷ bookings_table ∷ users_table ∷ c.tables;
  indexes =
      record {
        name = "ix_reviews_provider_rating";
        table = "reviews";
        columns = "provider_id" ∷ "rating" ∷ [];
        is_unique = false;
      }
      ∷ record {
        name = "ix_reviews_provider_id";
        table = "reviews";
        columns = "provider_id" ∷ [];
        is_unique = false;
      }
      ∷ record {
        name = "ix_reviews_customer_id";
        table = "reviews";
        columns = "customer_id" ∷ [];
        is_unique = false;
      }
      ∷ record {
        name = "ix_reviews_booking_id";
        table = "reviews";
        columns = "booking_id" ∷ [];
        is_unique = true;
      }
      ∷ record {
        name = "ix_bookings_provider_status";
        table = "bookings";
        columns = "provider_id" ∷ "status" ∷ [];
        is_unique = false;
      }
      ∷ record {
        name = "ix_bookings_customer_status";
        table = "bookings";
        columns = "customer_id" ∷ "status" ∷ [];
        is_unique = false;
      }
      ∷ record {
        name = "ix_bookings_status";
        table = "bookings";
        columns = "status" ∷ [];
        is_unique = false;
      }
      ∷ record {
        name = "ix_bookings_start_time";
        table = "bookings";
        columns = "start_time" ∷ [];
        is_unique = false;
      }
      ∷ record {
        name = "ix_bookings_provider_id";
        table = "bookings";
        columns = "provider_id" ∷ [];
        is_unique = false;
      }
      ∷ record {
        name = "ix_bookings_customer_id";
        table = "bookings";
        columns = "customer_id" ∷ [];
        is_unique = false;
      }
      ∷ record {
        name = "ix_users_email";
        table = "users";
        columns = "email" ∷ [];
        is_unique = true;
      }
      ∷ c.indexes;
  types = booking_status ∷ user_role ∷ c.types;
}

pub upgrade_initial : (c : Catalog) → TakesInitial c → upgrade c ≡ some (with_initial c)
unfolding upgrade
upgrade_initial c h = ground arith

pub downgrade_initial : (c : Catalog) → TakesInitial c → downgrade (with_initial c) ≡ some c
unfolding downgrade
downgrade_initial c h = ground (
  arith,
  delete-absent (λ (e : EnumType). str_eq e.name "user_role") c.types h.user_role_type,
  delete-absent (λ (e : EnumType). str_eq e.name "booking_status") c.types h.booking_status_type,
  delete-absent (λ (t : Table). str_eq t.name "users") c.tables h.users,
  delete-absent (λ (i : Index). str_eq i.table "users") c.indexes h.users_indexed,
  delete-absent (λ (t : Table). str_eq t.name "bookings") c.tables h.bookings,
  delete-absent (λ (i : Index). str_eq i.table "bookings") c.indexes h.bookings_indexed,
  delete-absent (λ (t : Table). str_eq t.name "reviews") c.tables h.reviews,
  delete-absent (λ (i : Index). str_eq i.table "reviews") c.indexes h.reviews_indexed,
  delete-absent (λ (i : Index). str_eq i.name "ix_users_email") c.indexes h.ix_users_email,
  delete-absent (λ (i : Index). str_eq i.name "ix_bookings_customer_id") c.indexes
      h.ix_bookings_customer_id,
  delete-absent (λ (i : Index). str_eq i.name "ix_bookings_provider_id") c.indexes
      h.ix_bookings_provider_id,
  delete-absent (λ (i : Index). str_eq i.name "ix_bookings_start_time") c.indexes
      h.ix_bookings_start_time,
  delete-absent (λ (i : Index). str_eq i.name "ix_bookings_status") c.indexes h.ix_bookings_status,
  delete-absent (λ (i : Index). str_eq i.name "ix_bookings_customer_status") c.indexes
      h.ix_bookings_customer_status,
  delete-absent (λ (i : Index). str_eq i.name "ix_bookings_provider_status") c.indexes
      h.ix_bookings_provider_status,
  delete-absent (λ (i : Index). str_eq i.name "ix_reviews_booking_id") c.indexes
      h.ix_reviews_booking_id,
  delete-absent (λ (i : Index). str_eq i.name "ix_reviews_customer_id") c.indexes
      h.ix_reviews_customer_id,
  delete-absent (λ (i : Index). str_eq i.name "ix_reviews_provider_id") c.indexes
      h.ix_reviews_provider_id,
  delete-absent (λ (i : Index). str_eq i.name "ix_reviews_provider_rating") c.indexes
      h.ix_reviews_provider_rating,
)
