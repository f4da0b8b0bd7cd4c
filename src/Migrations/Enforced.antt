-- ===== src/Migrations/Enforced.antt =====
-- The schema of the three revisions refuses the rows that the constraints of app/models refuse.
use bodhrik_fullstack_assess.Common.{
  ℕ, String, leb, true, ◌≡◌, refl, ◌∙◌, Bool, not, ◌&&◌, ◌||◌, Option, none, some, List, [], ◌∷◌,
  arith, str_eq, any, map, is_some,
}
use bodhrik_fullstack_assess.Models.{
  type_eq, status_value, UserRole, BookingStatus, NotificationType, User, Booking, Review,
  Notification, Database,
}
use bodhrik_fullstack_assess.Models.Constraints.{
  has_user, has_booking, booking_violation, review_violation, notification_violation,
  user_violation, same_slot, null_eq, booking_exists_or_null,
}
use bodhrik_fullstack_assess.Schemas.Fields.{text_length}
use bodhrik_fullstack_assess.Migrations.Catalog.{ColumnType, Catalog}
use bodhrik_fullstack_assess.Migrations.Rows.{
  Value, equals, stored, user_row, booking_row, review_row, notification_row, type_label,
  role_label, maybe, is_null, user_fields, booking_fields, review_fields, notification_fields,
}
use bodhrik_fullstack_assess.Migrations.Insert.{accepts, agree, has_label, fits}
use bodhrik_fullstack_assess.Migrations.Undone.All.{with_all}

-- the schema of an empty catalog after the three revisions
abbrev pub schema : Catalog
schema = with_all (record { tables = []; indexes = []; types = [] })

any-map :
    {A B : Type 0} (p : B → Bool) (f : A → B) (xs : List A)
    → any p (map f xs) ≡ any (λ x. p (f x)) xs
any-map p f [] = refl
any-map p f (x ∷ xs) = ground (arith, any-map p f xs)

any-same :
    {A : Type 0} (p q : A → Bool) → ((x : A) → p x ≡ q x) → (xs : List A) → any p xs ≡ any q xs
any-same p q h [] = refl
any-same p q h (x ∷ xs) = ground (arith, h x, any-same p q h xs)

each_type :
    (P : NotificationType → Type 0)
    → P NotificationType.booking_created
    → P NotificationType.booking_confirmed
    → P NotificationType.booking_cancelled
    → P NotificationType.booking_reminder
    → P NotificationType.booking_completed
    → P NotificationType.booking_overdue
    → (a : NotificationType) → P a
each_type P a b c d e f NotificationType.booking_created = a
each_type P a b c d e f NotificationType.booking_confirmed = b
each_type P a b c d e f NotificationType.booking_cancelled = c
each_type P a b c d e f NotificationType.booking_reminder = d
each_type P a b c d e f NotificationType.booking_completed = e
each_type P a b c d e f NotificationType.booking_overdue = f

type_eq-label : (a b : NotificationType) → str_eq (type_label a) (type_label b) ≡ type_eq a b
type_eq-label =
    each_type (λ a. (b : NotificationType) → str_eq (type_label a) (type_label b) ≡ type_eq a b)
      (each_type _ refl refl refl refl refl refl) (each_type _ refl refl refl refl refl refl)
      (each_type _ refl refl refl refl refl refl) (each_type _ refl refl refl refl refl refl)
      (each_type _ refl refl refl refl refl refl) (each_type _ refl refl refl refl refl refl)

null_eq-maybe : (a b : Option ℕ) → equals (maybe Value.uuid a) (maybe Value.uuid b) ≡ null_eq a b
null_eq-maybe none b = refl
null_eq-maybe (some a) none = refl
null_eq-maybe (some a) (some b) = refl

slots :
    (n m : Notification)
    → agree ("user_id" ∷ "booking_id" ∷ "type" ∷ []) (notification_row m) (notification_row n)
      ≡ same_slot m n
slots n m = rw (null_eq-maybe m.booking_id n.booking_id, type_eq-label m.type n.type) refl

-- The enums of the schema have the labels of app/models.
role_fits : (a : UserRole) → has_label schema.types "user_role" (role_label a) ≡ true
role_fits UserRole.admin = refl
role_fits UserRole.provider = refl
role_fits UserRole.customer = refl

status_fits : (a : BookingStatus) → has_label schema.types "booking_status" (status_value a) ≡ true
status_fits BookingStatus.pending = refl
status_fits BookingStatus.confirmed = refl
status_fits BookingStatus.completed = refl
status_fits BookingStatus.cancelled = refl

type_fits :
    (a : NotificationType) → has_label schema.types "notification_type" (type_label a) ≡ true
type_fits = each_type _ refl refl refl refl refl refl

comment_fits : (o : Option String) → fits schema.types ColumnType.text (maybe Value.word o) ≡ true
comment_fits none = refl
comment_fits (some t) = refl

uuid_fits : (o : Option ℕ) → fits schema.types ColumnType.uuid (maybe Value.uuid o) ≡ true
uuid_fits none = refl
uuid_fits (some k) = refl

instant_fits :
    (o : Option ℕ) → fits schema.types ColumnType.timestamptz (maybe Value.instant o) ≡ true
instant_fits none = refl
instant_fits (some k) = refl

abbrev user_lengths : User → Bool
user_lengths u =
    leb (text_length u.name) 255
    && (leb (text_length u.email) 255 && leb (text_length u.password_hash) 255)

module _ (db : Database) where
  ids :
      (k : ℕ)
      → (any (λ y. equals (y "id") (Value.uuid k)) (map user_row db.users) ≡ has_user db k)
        × (any (λ y. equals (y "id") (Value.uuid k)) (map booking_row db.bookings)
            ≡ has_booking db k)
  ids k = (
    any-map (λ y. equals (y "id") (Value.uuid k)) user_row db.users,
    any-map (λ y. equals (y "id") (Value.uuid k)) booking_row db.bookings,
  )

  booking_found :
      (o : Option ℕ)
      → (is_null (maybe Value.uuid o)
          || any (λ y. equals (y "id") (maybe Value.uuid o)) (map booking_row db.bookings))
        ≡ booking_exists_or_null db o
  booking_found none = refl
  booking_found (some k) = (ids k).1

  booking_accepted :
      (b : Booking)
      → accepts schema (stored db) "bookings" (booking_fields b)
        ≡ (leb (text_length b.service_name) 255 && not (is_some (booking_violation db b)))
  unfolding booking_violation
  booking_accepted b =
      ground
        (arith, status_fits b.status, (ids b.customer_id).0, (ids b.provider_id).0, (ids b.id).1)

  review_accepted :
      (r : Review)
      → accepts schema (stored db) "reviews" (review_fields r)
        ≡ not (is_some (review_violation db r))
  unfolding review_violation
  review_accepted r = ground (
    arith,
    comment_fits r.comment,
    (ids r.customer_id).0,
    (ids r.provider_id).0,
    (ids r.booking_id).1,
    any-map (λ y. equals (y "id") (Value.uuid r.id)) review_row db.reviews,
    any-map (λ y. agree ("booking_id" ∷ []) y (review_row r)) review_row db.reviews,
  )

  user_accepted :
      (u : User)
      → accepts schema (stored db) "users" (user_fields u)
        ≡ (user_lengths u && not (is_some (user_violation db u)))
  unfolding user_violation
  user_accepted u = ground (
    arith,
    role_fits u.role,
    (ids u.id).0,
    any-map (λ y. agree ("email" ∷ []) y (user_row u)) user_row db.users,
  )

  notification_accepted :
      (n : Notification)
      → accepts schema (stored db) "notifications" (notification_fields n) ≡ (
          leb (text_length n.title) 255
          && (not (is_some (notification_violation db n))
              && not (any (λ m. same_slot m n) db.notifications)))
  unfolding notification_violation
  notification_accepted n = ground (
    arith,
    type_fits n.type,
    uuid_fits n.booking_id,
    instant_fits n.read_at,
    (ids n.user_id).0,
    booking_found n.booking_id,
    any-map (λ y. equals (y "id") (Value.uuid n.id)) notification_row db.notifications,
    any-map (λ y. agree ("user_id" ∷ "booking_id" ∷ "type" ∷ []) y (notification_row n))
          notification_row db.notifications
        ∙ any-same _ (λ m. same_slot m n) (slots n) db.notifications,
  )

-- The schema that the three revisions leave accepts a row of a table, with the labels that
-- app/models gives its enums, exactly where the constraints of app/models hold nothing back and
-- the texts of the VARCHAR columns have at most 255 characters; for notifications the unique slot
-- counts too. The ranges of instants and the character U+0000, which PostgreSQL refuses in a text,
-- are left aside.
pub schema_enforced :
    (db : Database) (u : User) (b : Booking) (r : Review) (n : Notification)
    → (accepts schema (stored db) "users" (user_fields u) ≡ (
        leb (text_length u.name) 255
        && (leb (text_length u.email) 255 && leb (text_length u.password_hash) 255)
        && not (is_some (user_violation db u))))
      × (accepts schema (stored db) "bookings" (booking_fields b)
          ≡ (leb (text_length b.service_name) 255 && not (is_some (booking_violation db b))))
      × (accepts schema (stored db) "reviews" (review_fields r)
          ≡ not (is_some (review_violation db r)))
      × (accepts schema (stored db) "notifications" (notification_fields n) ≡ (
          leb (text_length n.title) 255
          && (not (is_some (notification_violation db n))
              && not (any (λ m. same_slot m n) db.notifications))))
schema_enforced db u b r n =
    (user_accepted db u, booking_accepted db b, review_accepted db r, notification_accepted db n)
