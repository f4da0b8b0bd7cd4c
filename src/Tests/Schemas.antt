-- ===== src/Tests/Schemas.antt =====
-- The validators of the request bodies.
use bodhrik_fullstack_assess.Common.{◌≤◌, ◌≡◌, refl, ◌↔◌, true, none, some, [], ◌∷◌}
use bodhrik_fullstack_assess.Schemas.Fields.{valid, invalid, pos, negsuc, Messages}
use bodhrik_fullstack_assess.Schemas.Bodies.{
  BookingCreateBody, ReviewCreateBody, UserRegisterBody, validate_booking_create,
  validate_review_create, validate_page,
}
use bodhrik_fullstack_assess.Models.Constraints.{booking_check, review_check}
use bodhrik_fullstack_assess.Bookings.Operations.{new_booking}
use bodhrik_fullstack_assess.Reviews.{new_review}
use bodhrik_fullstack_assess.Tests.Data.{customer, over}
use bodhrik_fullstack_assess.Schemas.Checks.{validated_checks}
use bodhrik_fullstack_assess.Schemas.Accepts.{
  IsBookable, requested, validate_booking_create_iff, validate_page_bounds,
}

abbrev pub messages : Messages
messages = record {
  too_short = λ n. "too short";
  too_long = λ n. "too long";
  not_ge = λ n. "too small";
  not_le = λ n. "too large";
}

abbrev wish : BookingCreateBody
wish = record {
  provider_id = 2;
  service_name = "Repair";
  start_time = record { instant = 200; aware = true };
  end_time = record { instant = 300; aware = true };
}

validate_booking_create_iff_example :
    (validate_booking_create messages wish ≡ valid (requested wish))
    ↔ (IsBookable wish × (requested wish ≡ requested wish))
validate_booking_create_iff_example = validate_booking_create_iff messages wish (requested wish)

wish_passes : validate_booking_create messages wish ≡ valid (requested wish)
unfolding validate_booking_create
wish_passes = refl

abbrev opinion : ReviewCreateBody
opinion = record { booking_id = 12; rating = pos 5; comment = none }

validated_checks_example :
    (review_check
        (new_review 50 1000 customer over (record { booking_id = 12; rating = 5; comment = none }))
      ≡ none)
    × (booking_check (new_booking 50 1000 3 (requested wish)) ≡ none)
unfolding validate_booking_create validate_review_create
validated_checks_example =
    validated_checks messages opinion (record { booking_id = 12; rating = 5; comment = none }) wish
      (requested wish) customer over 50 1000 refl refl refl

negative_refused :
    validate_review_create messages (record opinion { rating = negsuc 0 })
    ≡ invalid (record { loc = "body" ∷ "rating" ∷ []; msg = "too small" } ∷ [])
unfolding validate_review_create
negative_refused = refl

abbrev form : UserRegisterBody
form = record { name = "New"; email = "new@example.com"; password = "password" }

validate_page_bounds_example : (1 ≤ 50) × (50 ≤ 100)
unfolding validate_page
validate_page_bounds_example =
    validate_page_bounds messages (record { skip = some (pos 10); limit = some (pos 50) })
      (record { skip = 10; limit = 50 }) refl
