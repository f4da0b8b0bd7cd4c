-- ===== src/Tests/Cancellation.antt =====
-- Cancellation and deletion.
use bodhrik_fullstack_assess.Common.{◌≡◌, refl, false}
use bodhrik_fullstack_assess.Models.{UserRole, BookingStatus, role_eq, Booking}
use bodhrik_fullstack_assess.Models.Constraints.{notification_violation}
use bodhrik_fullstack_assess.Notifications.{create_notification}
use bodhrik_fullstack_assess.Bookings.Transitions.{validate_status_transition}
use bodhrik_fullstack_assess.Bookings.Operations.{
  notify_unless_actor, is_terminal, notify_cancellation, get_booking_by_id, save_booking,
  cancel_booking, delete_booking, open_for_cancel, open_for_delete, write_cancellation,
}
use bodhrik_fullstack_assess.Tests.Data.{provider, customer, agreed, s}
use bodhrik_fullstack_assess.Bookings.Cancel.{
  cancelled_at, CancelledBooking, cancel_booking_effect, delete_booking_effect,
}

abbrev cancelled_agreed : Booking
cancelled_agreed = cancelled_at 1000 agreed

cancel_booking_effect_example :
    (old : Booking) × (is_terminal old.status ≡ false)
    × (cancelled_agreed ≡ cancelled_at s.now old)
    × CancelledBooking 11 provider old s (cancel_booking 11 provider s).1
unfolding cancel_booking open_for_cancel get_booking_by_id validate_status_transition
    write_cancellation notify_cancellation notify_unless_actor create_notification save_booking
    notification_violation
cancel_booking_effect_example = cancel_booking_effect 11 provider s refl

delete_booking_effect_example :
    (old : Booking) × (old.status ≡ BookingStatus.pending)
    × (role_eq customer.role UserRole.provider ≡ false)
    × CancelledBooking 10 customer old s (delete_booking 10 customer s).1
unfolding delete_booking open_for_delete write_cancellation notify_cancellation notify_unless_actor
    create_notification save_booking notification_violation
delete_booking_effect_example = delete_booking_effect 10 customer s refl
