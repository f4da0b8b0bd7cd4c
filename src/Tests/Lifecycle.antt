-- ===== src/Tests/Lifecycle.antt =====
-- Status transitions.
use bodhrik_fullstack_assess.Common.{◌≡◌, ◌↔◌, []}
use bodhrik_fullstack_assess.Models.{UserRole, BookingStatus}
use bodhrik_fullstack_assess.Session.{Exception, ok, http}
use bodhrik_fullstack_assess.Bookings.Transitions.{validate_status_transition}
use bodhrik_fullstack_assess.Bookings.Lifecycle.{Granted, validate_status_transition_iff}

validate_status_transition_iff_example :
    (validate_status_transition BookingStatus.pending BookingStatus.confirmed UserRole.provider
      ≡ ok tt)
    ↔ Granted UserRole.provider BookingStatus.pending BookingStatus.confirmed
validate_status_transition_iff_example =
    validate_status_transition_iff BookingStatus.pending BookingStatus.confirmed UserRole.provider

abbrev refusal : Exception
refusal = http 403 "Customers are not permitted to confirm or complete bookings" []
