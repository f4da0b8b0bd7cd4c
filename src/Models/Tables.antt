-- ===== src/Models/Tables.antt =====
-- The rows of app/models/{user,booking,review,notification}.py and the database that holds them.
-- A UUID is a number that is only compared; an instant is the number of microseconds since an
-- epoch, in UTC. A rating is a natural number: a negative one never reaches a table.
use bodhrik_fullstack_assess.Common.{ℕ, String, Bool, Option, List}
use bodhrik_fullstack_assess.Models.Enums.{UserRole, BookingStatus, NotificationType}

pub record User : Type 0 where
  pub id : ℕ
  pub name : String
  pub email : String
  pub role : UserRole
  pub password_hash : String
  pub created_at : ℕ
  pub updated_at : ℕ

pub record Booking : Type 0 where
  pub id : ℕ
  pub customer_id : ℕ
  pub provider_id : ℕ
  pub service_name : String
  pub start_time : ℕ
  pub end_time : ℕ
  pub status : BookingStatus
  pub created_at : ℕ
  pub updated_at : ℕ

pub record Review : Type 0 where
  pub id : ℕ
  pub booking_id : ℕ
  pub customer_id : ℕ
  pub provider_id : ℕ
  pub rating : ℕ
  pub comment : Option String
  pub created_at : ℕ
  pub updated_at : ℕ

pub record Notification : Type 0 where
  pub id : ℕ
  pub user_id : ℕ
  pub booking_id : Option ℕ
  pub type : NotificationType
  pub title : String
  pub message : String
  pub is_read : Bool
  pub created_at : ℕ
  pub read_at : Option ℕ

pub record Database : Type 0 where
  pub users : List User
  pub bookings : List Booking
  pub reviews : List Review
  pub notifications : List Notification
