-- ===== src/Schemas/Bodies.antt =====
-- The bodies of app/schemas/{auth,booking,review}.py and the query of a page, with their validators.
use bodhrik_fullstack_assess.Common.{
  ℕ, String, Bool, not, ◌||◌, Option, none, some, List, [], ◌∷◌, ◌++◌, leb, ◌==◌, any,
  if◌then◌else◌,
}
use bodhrik_fullstack_assess.Models.{BookingStatus}
use bodhrik_fullstack_assess.Api.{ValidationError}
use bodhrik_fullstack_assess.Api.Availability.{Datetime}
use bodhrik_fullstack_assess.Auth.{UserRegister, UserLogin}
use bodhrik_fullstack_assess.Bookings.Operations.{BookingCreate, BookingUpdate}
use bodhrik_fullstack_assess.Reviews.{ReviewCreate, ReviewUpdate}
use bodhrik_fullstack_assess.Schemas.Fields.{
  Validated, ℤ, pos, Messages, codes, in_body, value_error, error_if, or_else, checked,
  length_error, optional_length_error, range_error, optional_range_error, ge_zero_error,
  aware_error, optional_aware_error, natural, map_option,
}

pub record BookingCreateBody : Type 0 where
  pub provider_id : ℕ
  pub service_name : String
  pub start_time : Datetime
  pub end_time : Datetime

pub record BookingUpdateBody : Type 0 where
  pub service_name : Option String
  pub start_time : Option Datetime
  pub end_time : Option Datetime
  pub status : Option BookingStatus

pub record ReviewCreateBody : Type 0 where
  pub booking_id : ℕ
  pub rating : ℤ
  pub comment : Option String

pub record ReviewUpdateBody : Type 0 where
  pub rating : Option ℤ
  pub comment : Option String

pub record UserRegisterBody : Type 0 where
  pub name : String
  pub email : String
  pub password : String

pub record UserLoginBody : Type 0 where
  pub email : String
  pub password : String

-- `skip` and `limit`, where they were given
pub record PageQuery : Type 0 where
  pub skip : Option ℤ
  pub limit : Option ℤ

pub record Page : Type 0 where
  pub skip : ℕ
  pub limit : ℕ

-- the model validator, which runs where no field has an error
abbrev order_error : ℕ → ℕ → List ValidationError
order_error start_time end_time =
    error_if (leb end_time start_time)
      (value_error ("body" ∷ []) "end_time must be after start_time")

abbrev optional_order_error : Option Datetime → Option Datetime → List ValidationError
optional_order_error (some st) (some en) = order_error st.instant en.instant
optional_order_error _ _ = []

-- the part behind the last `@`, or all where there is none: `.split("@")[-1]`
abbrev pub last_part : List ℕ → List ℕ
last_part [] = []
last_part (c ∷ cs) =
    let rest = last_part cs in
    if any (λ d. d == b'@') cs then rest else if c == b'@' then cs else (c ∷ cs)

-- `"@" not in normalized or "." not in normalized.split("@")[-1]`
abbrev pub is_malformed : String → Bool
is_malformed normalized =
    not (any (λ c. c == b'@') (codes normalized))
    || not (any (λ c. c == b'.') (last_part (codes normalized)))

module _ (m : Messages) where
  unfoldable pub validate_booking_create : BookingCreateBody → Validated BookingCreate
  validate_booking_create b =
      checked
        (or_else
          (length_error m (in_body "service_name") 1 255 b.service_name
            ++ (aware_error "start_time" b.start_time ++ aware_error "end_time" b.end_time))
          (order_error b.start_time.instant b.end_time.instant))
        (record {
          provider_id = b.provider_id;
          service_name = b.service_name;
          start_time = b.start_time.instant;
          end_time = b.end_time.instant;
        })

  unfoldable pub validate_booking_update : BookingUpdateBody → Validated BookingUpdate
  validate_booking_update b =
      checked
        (or_else
          (optional_length_error m (in_body "service_name") 1 255 b.service_name
            ++ (optional_aware_error "start_time" b.start_time
                ++ optional_aware_error "end_time" b.end_time))
          (optional_order_error b.start_time b.end_time))
        (record {
          service_name = b.service_name;
          start_time = map_option (λ (d : Datetime). d.instant) b.start_time;
          end_time = map_option (λ (d : Datetime). d.instant) b.end_time;
          status = b.status;
        })

  unfoldable pub validate_review_create : ReviewCreateBody → Validated ReviewCreate
  validate_review_create b =
      checked
        (range_error m (in_body "rating") 1 5 b.rating
          ++ optional_length_error m (in_body "comment") 0 2000 b.comment)
        (record { booking_id = b.booking_id; rating = natural b.rating; comment = b.comment })

  unfoldable pub validate_review_update : ReviewUpdateBody → Validated ReviewUpdate
  validate_review_update b =
      checked
        (optional_range_error m (in_body "rating") 1 5 b.rating
          ++ optional_length_error m (in_body "comment") 0 2000 b.comment)
        (record { rating = map_option natural b.rating; comment = b.comment })

  -- `normalize` is `v.strip().lower()`
  unfoldable pub validate_user_register :
      (String → String) → UserRegisterBody → Validated UserRegister
  validate_user_register normalize b =
      checked
        (length_error m (in_body "name") 1 255 b.name
          ++ (or_else (length_error m (in_body "email") 3 255 b.email) (
                error_if (is_malformed (normalize b.email))
                  (value_error (in_body "email") "Invalid email address format"))
              ++ length_error m (in_body "password") 8 128 b.password))
        (record { name = b.name; email = normalize b.email; password = b.password })

  unfoldable pub validate_user_login : (String → String) → UserLoginBody → Validated UserLogin
  validate_user_login normalize b =
      checked
        (length_error m (in_body "email") 0 255 b.email
          ++ length_error m (in_body "password") 0 128 b.password)
        (record { email = normalize b.email; password = b.password })

  abbrev or_default_number : Option ℤ → ℕ → ℤ
  or_default_number none d = pos d
  or_default_number (some n) d = n

  -- `skip: int = Query(default=0, ge=0)`, `limit: int = Query(default=20, ge=1, le=100)`
  unfoldable pub validate_page : PageQuery → Validated Page
  validate_page q =
      checked
        (ge_zero_error m ("query" ∷ "skip" ∷ []) (or_default_number q.skip 0)
          ++ range_error m ("query" ∷ "limit" ∷ []) 1 100 (or_default_number q.limit 20))
        (record {
          skip = natural (or_default_number q.skip 0);
          limit = natural (or_default_number q.limit 20);
        })
