-- ===== src/Tests/Api.antt =====
-- The availability route and the headers.
use bodhrik_fullstack_assess.Common.{◌≡◌, refl, true, [], ◌∷◌}
use bodhrik_fullstack_assess.Session.{ok, http}
use bodhrik_fullstack_assess.Providers.{is_provider_available, get_provider_by_id}
use bodhrik_fullstack_assess.Bookings.Operations.{admit_booking}
use bodhrik_fullstack_assess.Tests.Data.{s}
use bodhrik_fullstack_assess.Providers.{check_provider_availability, ProviderAvailabilityResponse}
use bodhrik_fullstack_assess.Api.{
  has_header, send_with_security_headers, status_to_code, Detail, validation_exception_handler,
  respond,
}
use bodhrik_fullstack_assess.Api.Headers.{KeepsNames, send_with_security_headers_present}
use bodhrik_fullstack_assess.Api.Availability.{availability_route, availability_route_admits}

abbrev free_slot : ProviderAvailabilityResponse
free_slot = record { provider_id = 2; start_time = 200; end_time = 300; available = true }

availability_route_admits_example :
    admit_booking 4
      (record { provider_id = 2; service_name = "Repair"; start_time = 200; end_time = 300 })
      s
    ≡ (ok tt, s)
unfolding availability_route check_provider_availability get_provider_by_id is_provider_available
availability_route_admits_example =
    availability_route_admits 2 4 "Repair" (record { instant = 200; aware = true })
      (record { instant = 300; aware = true }) s free_slot refl refl refl

names : KeepsNames (λ n. n)
names = record { content_type = refl; frame = refl; referrer = refl }

send_with_security_headers_present_example :
    let sent = send_with_security_headers (λ n. n) (("x-frame-options", "SAMEORIGIN") ∷ []) in
    (has_header (λ n. n) "x-content-type-options" sent ≡ true)
    × (has_header (λ n. n) "x-frame-options" sent ≡ true)
    × (has_header (λ n. n) "referrer-policy" sent ≡ true)
send_with_security_headers_present_example =
    send_with_security_headers_present (λ n. n) (("x-frame-options", "SAMEORIGIN") ∷ []) names

naive_time :
    validation_exception_handler (
      record {
        loc = "body" ∷ "start_time" ∷ [];
        msg = "Value error, Datetime must be timezone-aware";
      }
      ∷ [])
    ≡ record {
      status_code = 422;
      code = "VALIDATION_ERROR";
      message = "Request validation failed.";
      detail = Detail.fields (("start_time", "Datetime must be timezone-aware") ∷ []);
      headers = [];
    }
naive_time = refl

not_found : (respond (λ n. "n") (http 404 "Booking not found" [])).code ≡ "NOT_FOUND"
unfolding respond status_to_code
not_found = refl
