-- ===== src/Tests/Migrations.antt =====
-- The migrations of an empty catalog, and the rows of Data in the schema that they leave.
use bodhrik_fullstack_assess.Common.{
  ◌≡◌, refl, ◌⊎◌, true, false, not, ◌&&◌, some, [], ◌∷◌, any, is_some, map, leb,
}
use bodhrik_fullstack_assess.Models.{NotificationType, Notification}
use bodhrik_fullstack_assess.Models.Constraints.{
  booking_violation, review_violation, notification_violation, user_violation, same_slot,
}
use bodhrik_fullstack_assess.Session.{Session, err, multiple_results, open_session}
use bodhrik_fullstack_assess.Notifications.{new_notification}
use bodhrik_fullstack_assess.Auth.{UserLogin, authenticate_user}
use bodhrik_fullstack_assess.Auth.Login.{invalid_login}
use bodhrik_fullstack_assess.Schemas.Fields.{text_length}
use bodhrik_fullstack_assess.Migrations.Catalog.{Catalog, ◌>=>◌}
use bodhrik_fullstack_assess.Migrations.Rows.{
  Value, stored, user_row, user_fields, booking_fields, review_fields, notification_fields,
}
use bodhrik_fullstack_assess.Migrations.Insert.{accepts}
use bodhrik_fullstack_assess.Migrations.PasswordHash.{upgrade_rows}
use bodhrik_fullstack_assess.Migrations.Enforced.{schema, schema_enforced}
use bodhrik_fullstack_assess.Migrations.Backfill.{legacy_row, hashed, backfill_locked}
use bodhrik_fullstack_assess.Migrations.Undone.All.{
  TakesAll, upgrade_all, downgrade_all, with_all, migrations_undone,
}
use bodhrik_fullstack_assess.Tests.Data.{db, env, admin, customer, waiting, opinion}
use bodhrik_fullstack_assess.Tests.Auth.{lib}

-- the catalog of a new database, but for the table in which alembic keeps its revision
abbrev bare : Catalog
bare = record {
  tables = record { name = "alembic_version"; columns = []; rules = [] } ∷ [];
  indexes = [];
  types = [];
}

free : TakesAll bare
free = record {
  initial = record {
    user_role_type = refl;
    booking_status_type = refl;
    users = refl;
    users_indexed = refl;
    bookings = refl;
    bookings_indexed = refl;
    reviews = refl;
    reviews_indexed = refl;
    ix_users_email = refl;
    ix_bookings_customer_id = refl;
    ix_bookings_provider_id = refl;
    ix_bookings_start_time = refl;
    ix_bookings_status = refl;
    ix_bookings_customer_status = refl;
    ix_bookings_provider_status = refl;
    ix_reviews_booking_id = refl;
    ix_reviews_customer_id = refl;
    ix_reviews_provider_id = refl;
    ix_reviews_provider_rating = refl;
  };
  notifications = record {
    notification_type_type = refl;
    notifications = refl;
    notifications_indexed = refl;
    ix_notifications_user_id = refl;
    ix_notifications_booking_id = refl;
    ix_notifications_type = refl;
    ix_notifications_is_read = refl;
    ix_notifications_user_is_read = refl;
    ix_notifications_user_created_at = refl;
  };
}

migrations_undone_example :
    (upgrade_all bare ≡ some (with_all bare)) × ((upgrade_all >=> downgrade_all) bare ≡ some bare)
migrations_undone_example = migrations_undone bare free

abbrev news : Notification
news = new_notification 30 1000 3 NotificationType.booking_confirmed "Title" "Message" (some 10)

schema_enforced_example :
    let u = record admin { id = 9; email = "other@example.com" } in
    let b = record waiting { id = 99 } in
    let r = record opinion { id = 21; booking_id = 12 } in
    (accepts schema (stored db) "users" (user_fields u) ≡ (
      leb (text_length u.name) 255
      && (leb (text_length u.email) 255 && leb (text_length u.password_hash) 255)
      && not (is_some (user_violation db u))))
    × (accepts schema (stored db) "bookings" (booking_fields b)
        ≡ (leb (text_length b.service_name) 255 && not (is_some (booking_violation db b))))
    × (accepts schema (stored db) "reviews" (review_fields r)
        ≡ not (is_some (review_violation db r)))
    × (accepts schema (stored db) "notifications" (notification_fields news) ≡ (
        leb (text_length news.title) 255
        && (not (is_some (notification_violation db news))
            && not (any (λ m. same_slot m news) db.notifications))))
schema_enforced_example =
    schema_enforced db (record admin { id = 9; email = "other@example.com" })
      (record waiting { id = 99 }) (record opinion { id = 21; booking_id = 12 }) news

-- A free key is accepted; refused are a taken one, a slot that ends before it starts, and a status
-- that the enum does not have.
inserts :
    let fresh = record waiting { id = 99 } in
    (accepts schema (stored db) "bookings" (booking_fields fresh) ≡ true)
    × (accepts schema (stored db) "bookings" (booking_fields waiting) ≡ false)
    × (accepts schema (stored db) "bookings" (booking_fields (record fresh { end_time = 0 }))
        ≡ false)
    × (accepts schema
          (stored db)
          "bookings"
          (("status", Value.word "overdue") ∷ booking_fields fresh)
        ≡ false)
inserts = (refl, refl, refl, refl)

abbrev guess : UserLogin
guess = record { email = "name@example.com"; password = "password" }

abbrev migrated : Session
migrated =
    open_session env (record db { users = hashed "#secret" admin ∷ hashed "#secret" customer ∷ [] })

backfill_locked_example :
    (upgrade_rows lib.hashpw 0 "secret" (map legacy_row (admin ∷ customer ∷ []))
      ≡ some (map user_row migrated.working.users))
    × ((authenticate_user lib guess migrated ≡ (err invalid_login, migrated))
        ⊎ (authenticate_user lib guess migrated ≡ (err multiple_results, migrated)))
backfill_locked_example =
    backfill_locked lib 0 "secret" (admin ∷ customer ∷ []) guess migrated refl refl
