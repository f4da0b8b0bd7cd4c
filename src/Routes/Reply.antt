-- ===== src/Routes/Reply.antt =====
-- What a route replies, and what it takes from the application.
use bodhrik_fullstack_assess.Common.{ℕ, String, Bool, Option, List}
use bodhrik_fullstack_assess.Models.{
  UserRole, NotificationType, User, Booking, Review, Notification,
}
use bodhrik_fullstack_assess.Session.{Result, ok, err, Action, pure, ◌>>=◌}
use bodhrik_fullstack_assess.Auth.{Library, TokenResponse}
use bodhrik_fullstack_assess.Providers.{Matching, ProviderAvailabilityResponse}
use bodhrik_fullstack_assess.Reviews.{ProviderReviewSummary}
use bodhrik_fullstack_assess.Statistics.{Rounding}
use bodhrik_fullstack_assess.Api.{ValidationError, respond, validation_exception_handler}
use bodhrik_fullstack_assess.Schemas.Fields.{Validated, valid, invalid, Messages}

-- `expire_minutes` is settings.ACCESS_TOKEN_EXPIRE_MINUTES
pub record App : Type 0 where
  pub library : Library
  pub messages : Messages
  pub matching : Matching
  pub rounding : Rounding
  pub expire_minutes : ℕ

-- UserResponse and ProviderResponse
pub record UserResponse : Type 0 where
  pub id : ℕ
  pub name : String
  pub email : String
  pub role : UserRole
  pub created_at : ℕ
  pub updated_at : ℕ

abbrev pub user_response : User → UserResponse
user_response u = record {
  id = u.id;
  name = u.name;
  email = u.email;
  role = u.role;
  created_at = u.created_at;
  updated_at = u.updated_at;
}

pub record NotificationResponse : Type 0 where
  pub id : ℕ
  pub booking_id : Option ℕ
  pub type : NotificationType
  pub title : String
  pub message : String
  pub is_read : Bool
  pub created_at : ℕ
  pub read_at : Option ℕ

abbrev pub notification_response : Notification → NotificationResponse
notification_response n = record {
  id = n.id;
  booking_id = n.booking_id;
  type = n.type;
  title = n.title;
  message = n.message;
  is_read = n.is_read;
  created_at = n.created_at;
  read_at = n.read_at;
}

pub record MarkAllReadResponse : Type 0 where
  pub message : String
  pub updated_count : ℕ

-- A body of a reply. BookingResponse and ReviewResponse have all the columns of their rows.
pub data Content : Type 0 where
  no_content : Content
  access : TokenResponse → Content
  profile : UserResponse → Content
  profiles : List UserResponse → Content
  availability : ProviderAvailabilityResponse → Content
  review_summary : ProviderReviewSummary → Content
  one_booking : Booking → Content
  many_bookings : List Booking → Content
  one_review : Review → Content
  many_reviews : List Review → Content
  one_notification : NotificationResponse → Content
  many_notifications : List NotificationResponse → Content
  marked : MarkAllReadResponse → Content

abbrev pub marked_reply : ℕ → Content
marked_reply count =
    marked (record { message = "All unread notifications marked as read"; updated_count = count })

-- A reply with its status code, or the errors of a RequestValidationError. Other exceptions are
-- those of the session's actions.
pub data Outcome : Type 0 where
  reply : ℕ → Content → Outcome
  unprocessable : List ValidationError → Outcome

-- FastAPI calls a route with its arguments where they are valid.
abbrev pub given : {A : Type 0} → Validated A → (A → Action Outcome) → Action Outcome
given (valid a) route = route a
given (invalid errors) route = pure (unprocessable errors)

-- `return service(…)` under a response model and a status code
abbrev pub returns : {A : Type 0} → ℕ → (A → Content) → Action A → Action Outcome
returns code content service = do a ← service; pure (reply code (content a))

-- the status code that the client sees
unfoldable pub status_code : (ℕ → String) → Result Outcome → ℕ
status_code integer (ok (reply code body)) = code
status_code integer (ok (unprocessable errors)) = (validation_exception_handler errors).status_code
status_code integer (err e) = (respond integer e).status_code
