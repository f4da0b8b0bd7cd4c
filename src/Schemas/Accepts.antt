-- ===== src/Schemas/Accepts.antt =====
-- Which bodies pass their validators, and what the service is then given.
use bodhrik_fullstack_assess.Common.{ℕ, ◌≤◌, ◌<◌, String, ◌≡◌, ◌↔◌, true, false, some, arith}
use bodhrik_fullstack_assess.Auth.{UserRegister}
use bodhrik_fullstack_assess.Bookings.Operations.{BookingCreate, BookingUpdate}
use bodhrik_fullstack_assess.Reviews.{ReviewCreate, ReviewUpdate}
use bodhrik_fullstack_assess.Schemas.Fields.{valid, Messages, text_length}
use bodhrik_fullstack_assess.Schemas.Bodies.{
  BookingCreateBody, BookingUpdateBody, ReviewCreateBody, ReviewUpdateBody, UserRegisterBody,
  UserLoginBody, PageQuery, Page, is_malformed, validate_booking_create, validate_booking_update,
  validate_review_create, validate_review_update, validate_user_register, validate_user_login,
  validate_page,
}

-- A request for a booking that its schema takes.
pub record IsBookable (b : BookingCreateBody) : Type 0 where
  pub named : 1 ≤ text_length b.service_name
  pub short : text_length b.service_name ≤ 255
  pub start_aware : b.start_time.aware ≡ true
  pub end_aware : b.end_time.aware ≡ true
  pub ordered : b.start_time.instant < b.end_time.instant

abbrev pub requested : BookingCreateBody → BookingCreate
requested b = record {
  provider_id = b.provider_id;
  service_name = b.service_name;
  start_time = b.start_time.instant;
  end_time = b.end_time.instant;
}

module _ (m : Messages) where
  -- A body passes `BookingCreate` exactly when its service has a name of 1 to 255 characters, both
  -- times have a zone, and the slot ends after it starts; the service gets those very values.
  pub validate_booking_create_iff :
      (b : BookingCreateBody) (r : BookingCreate)
      → (validate_booking_create m b ≡ valid r) ↔ (IsBookable b × (r ≡ requested b))
  unfolding validate_booking_create
  validate_booking_create_iff b r = (λ h. (ground arith, ground arith), λ h. ground arith)

  -- What passes `BookingUpdate` with a start and an end has the start before the end.
  pub validate_booking_update_ordered :
      (b : BookingUpdateBody) (u : BookingUpdate) {st en : ℕ}
      → validate_booking_update m b ≡ valid u
      → u.start_time ≡ some st
      → u.end_time ≡ some en
      → st < en
  unfolding validate_booking_update
  validate_booking_update_ordered b u {st} {en} h hs he = ground arith

  -- A rating that `ReviewCreate` lets pass is from 1 to 5.
  pub validate_review_create_rating :
      (b : ReviewCreateBody) (r : ReviewCreate)
      → validate_review_create m b ≡ valid r
      → (1 ≤ r.rating) × (r.rating ≤ 5)
  unfolding validate_review_create
  validate_review_create_rating b r h = (ground arith, ground arith)

  pub validate_review_update_rating :
      (b : ReviewUpdateBody) (u : ReviewUpdate) {n : ℕ}
      → validate_review_update m b ≡ valid u
      → u.rating ≡ some n
      → (1 ≤ n) × (n ≤ 5)
  unfolding validate_review_update
  validate_review_update_rating b u {n} h e = (ground arith, ground arith)

  -- A registration that passes hands the name and the password on as they were sent and the email
  -- in its normal form, which is not malformed. The password has 8 to 128 characters, and the email
  -- as it was sent at most 255.
  pub validate_user_register_normal :
      (normalize : String → String) (b : UserRegisterBody) (r : UserRegister)
      → validate_user_register m normalize b ≡ valid r
      → (r ≡ record { name = b.name; email = normalize b.email; password = b.password })
        × (is_malformed (normalize b.email) ≡ false)
        × (8 ≤ text_length b.password)
        × (text_length b.password ≤ 128)
        × (text_length b.email ≤ 255)
  unfolding validate_user_register
  validate_user_register_normal normalize b r h =
      (ground arith, ground arith, ground arith, ground arith, ground arith)

  -- The same email and password pass `UserLogin` in the same normal form.
  pub validate_user_login_normal :
      (normalize : String → String) (b : UserLoginBody)
      → text_length b.password ≤ 128
      → text_length b.email ≤ 255
      → validate_user_login m normalize b
        ≡ valid (record { email = normalize b.email; password = b.password })
  unfolding validate_user_login
  validate_user_login_normal normalize b hp he = ground arith

  -- A query for a page that passes asks for 1 to 100 rows.
  pub validate_page_bounds :
      (q : PageQuery) (p : Page) → validate_page m q ≡ valid p → (1 ≤ p.limit) × (p.limit ≤ 100)
  unfolding validate_page
  validate_page_bounds q p h = (ground arith, ground arith)
