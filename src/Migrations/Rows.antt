-- ===== src/Migrations/Rows.antt =====
-- The rows of app/models as a table stores them.
use bodhrik_fullstack_assess.Common.{
  ℕ, String, Bool, true, false, Option, none, some, List, [], ◌∷◌, map, str_eq, ◌==◌, if◌then◌else◌,
}
use bodhrik_fullstack_assess.Models.{
  UserRole, NotificationType, status_value, User, Booking, Review, Notification, Database,
}

-- `word` is a text or the label of an enum.
pub data Value : Type 0 where
  null : Value
  uuid instant integer : ℕ → Value
  word : String → Value
  truth : Bool → Value

abbrev pub Row : Type 0
Row = String → Value

abbrev pub is_null : Value → Bool
is_null Value.null = true
is_null _ = false

-- a NULL is equal to nothing, not even to a NULL
abbrev pub equals : Value → Value → Bool
equals (Value.uuid a) (Value.uuid b) = a == b
equals (Value.instant a) (Value.instant b) = a == b
equals (Value.integer a) (Value.integer b) = a == b
equals (Value.word a) (Value.word b) = str_eq a b
equals (Value.truth true) (Value.truth true) = true
equals (Value.truth false) (Value.truth false) = true
equals _ _ = false

-- the columns that are not named are NULL
abbrev pub row : List (String × Value) → Row
row [] k = Value.null
row ((n, v) ∷ fields) k = if str_eq n k then v else row fields k

abbrev pub maybe : {A : Type 0} → (A → Value) → Option A → Value
maybe f none = Value.null
maybe f (some a) = f a

abbrev pub role_label : UserRole → String
role_label UserRole.admin = "admin"
role_label UserRole.provider = "provider"
role_label UserRole.customer = "customer"

abbrev pub type_label : NotificationType → String
type_label NotificationType.booking_created = "booking_created"
type_label NotificationType.booking_confirmed = "booking_confirmed"
type_label NotificationType.booking_cancelled = "booking_cancelled"
type_label NotificationType.booking_reminder = "booking_reminder"
type_label NotificationType.booking_completed = "booking_completed"
type_label NotificationType.booking_overdue = "booking_overdue"

abbrev pub user_fields : User → List (String × Value)
user_fields u =
    ("id", Value.uuid u.id)
    ∷ ("name", Value.word u.name)
    ∷ ("email", Value.word u.email)
    ∷ ("role", Value.word (role_label u.role))
    ∷ ("password_hash", Value.word u.password_hash)
    ∷ ("created_at", Value.instant u.created_at)
    ∷ ("updated_at", Value.instant u.updated_at)
    ∷ []

abbrev pub user_row : User → Row
user_row u = row (user_fields u)

abbrev pub booking_fields : Booking → List (String × Value)
booking_fields b =
    ("id", Value.uuid b.id)
    ∷ ("customer_id", Value.uuid b.customer_id)
    ∷ ("provider_id", Value.uuid b.provider_id)
    ∷ ("service_name", Value.word b.service_name)
    ∷ ("start_time", Value.instant b.start_time)
    ∷ ("end_time", Value.instant b.end_time)
    ∷ ("status", Value.word (status_value b.status))
    ∷ ("created_at", Value.instant b.created_at)
    ∷ ("updated_at", Value.instant b.updated_at)
    ∷ []

abbrev pub booking_row : Booking → Row
booking_row b = row (booking_fields b)

abbrev pub review_fields : Review → List (String × Value)
review_fields r =
    ("id", Value.uuid r.id)
    ∷ ("booking_id", Value.uuid r.booking_id)
    ∷ ("customer_id", Value.uuid r.customer_id)
    ∷ ("provider_id", Value.uuid r.provider_id)
    ∷ ("rating", Value.integer r.rating)
    ∷ ("comment", maybe Value.word r.comment)
    ∷ ("created_at", Value.instant r.created_at)
    ∷ ("updated_at", Value.instant r.updated_at)
    ∷ []

abbrev pub review_row : Review → Row
review_row r = row (review_fields r)

abbrev pub notification_fields : Notification → List (String × Value)
notification_fields n =
    ("id", Value.uuid n.id)
    ∷ ("user_id", Value.uuid n.user_id)
    ∷ ("booking_id", maybe Value.uuid n.booking_id)
    ∷ ("type", Value.word (type_label n.type))
    ∷ ("title", Value.word n.title)
    ∷ ("message", Value.word n.message)
    ∷ ("is_read", Value.truth n.is_read)
    ∷ ("created_at", Value.instant n.created_at)
    ∷ ("read_at", maybe Value.instant n.read_at)
    ∷ []

abbrev pub notification_row : Notification → Row
notification_row n = row (notification_fields n)

-- the rows of each table of the database
abbrev pub stored : Database → String → List Row
stored db t =
    if str_eq t "users"
    then map user_row db.users
    else if str_eq t "bookings"
    then map booking_row db.bookings
    else if str_eq t "reviews"
    then map review_row db.reviews
    else if str_eq t "notifications"
    then map notification_row db.notifications
    else []
