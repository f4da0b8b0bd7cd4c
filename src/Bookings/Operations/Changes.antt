-- ===== src/Bookings/Operations/Changes.antt =====
-- Change, cancellation and deletion.
use bodhrik_fullstack_assess.Common.{
  ℕ, String, Bool, not, ◌&&◌, ◌||◌, Option, none, some, ◌<>◌, ⊤, leb, ◌==◌, if◌then◌else◌, is_some,
  or_default,
}
use bodhrik_fullstack_assess.Models.{
  UserRole, BookingStatus, NotificationType, role_eq, status_eq, status_value, User, Booking,
}
use bodhrik_fullstack_assess.Session.{
  Result, ok, Action, pure, http_error, query, ◌>>=◌, ◌>>◌, raise_if, or_raise, lift, on_error,
  find_booking, clock, flush_booking, refreshed_booking, commit, rollback,
}
use bodhrik_fullstack_assess.Notifications.{create_notification}
use bodhrik_fullstack_assess.Bookings.Transitions.{validate_status_transition}
use bodhrik_fullstack_assess.Bookings.Operations.Requests.{
  notify_cancellation, check_provider_conflict, is_participant, get_booking_by_id,
}

-- a BookingUpdate that its validators have passed
pub record BookingUpdate : Type 0 where
  pub service_name : Option String
  pub start_time : Option ℕ
  pub end_time : Option ℕ
  pub status : Option BookingStatus

abbrev pub is_terminal : BookingStatus → Bool
is_terminal status =
    status_eq status BookingStatus.cancelled || status_eq status BookingStatus.completed

-- validation of the target status, where one is given
abbrev validate_target : BookingStatus → Option BookingStatus → UserRole → Result ⊤
validate_target current none role = ok tt
validate_target current (some target) role = validate_status_transition current target role

-- the guard on terminal bookings
reject_terminal : Booking → BookingUpdate → User → Action ⊤
reject_terminal booking booking_update current_user =
    if is_terminal booking.status
    then (lift (validate_target booking.status booking_update.status current_user.role)
        >> http_error 400 ("Cannot modify a " <> status_value booking.status <> " booking"))
    else pure tt

-- the notifications on a status change; `booking` has the new status
notify_status : Booking → User → Action ⊤
notify_status booking actor = elim booking.status [
  | BookingStatus.confirmed ↦
      (create_notification booking.customer_id NotificationType.booking_confirmed
          "Booking Confirmed"
          ("Your booking for " <> booking.service_name <> " has been confirmed.") (some booking.id)
        >> pure tt)
  | BookingStatus.completed ↦
      (create_notification booking.customer_id NotificationType.booking_completed
          "Booking Completed"
          ("Your booking for " <> booking.service_name <> " has been completed.") (some booking.id)
        >> pure tt)
  | BookingStatus.cancelled ↦ notify_cancellation booking actor
  | BookingStatus.pending ↦ pure tt
]

-- 1. status transition
unfoldable pub apply_status : Option BookingStatus → Booking → User → Action Booking
unfolding notify_status
apply_status none booking actor = pure booking
apply_status (some target) booking actor =
    if status_eq target booking.status then pure booking else do
      lift (validate_status_transition booking.status target actor.role)
      notify_status (record booking { status = target }) actor
      pure (record booking { status = target })

-- 2. rescheduling
unfoldable pub apply_schedule : Option ℕ → Option ℕ → Booking → Action Booking
apply_schedule start_time end_time booking =
    if is_some start_time || is_some end_time
    then (do
      let new_start = or_default start_time booking.start_time
      let new_end = or_default end_time booking.end_time
      raise_if (leb new_end new_start) 400 "end_time must be after start_time"
      check_provider_conflict booking.provider_id new_start new_end (some booking.id)
      pure (record booking { start_time = new_start; end_time = new_end }))
    else pure booking

-- 3. service name
abbrev pub apply_service_name : Option String → Booking → Booking
apply_service_name none booking = booking
apply_service_name (some service_name) booking = record booking { service_name = service_name }

-- `try: db.commit(); db.refresh(booking); return booking`, with the rollback of its `except`
unfoldable pub save_booking : Booking → Booking → Action Booking
save_booking loaded booking = do
  on_error (flush_booking loaded booking >> commit) rollback
  now ← clock
  pure (refreshed_booking now loaded booking)

-- the reads and guards of `update_booking`, before its first write
unfoldable pub open_for_update : ℕ → BookingUpdate → User → Action Booking
unfolding reject_terminal
open_for_update booking_id booking_update current_user = do
  found ← query (find_booking booking_id)
  booking ← or_raise found 404 "Booking not found"
  raise_if (not (is_participant current_user booking)) 403 "Not authorized to modify this booking"
  reject_terminal booking booking_update current_user
  pure booking

-- its three steps and the commit
unfoldable pub write_update : BookingUpdate → User → Booking → Action Booking
write_update booking_update current_user booking = do
  moved ← apply_status booking_update.status booking current_user
  rescheduled ← apply_schedule booking_update.start_time booking_update.end_time moved
  save_booking booking (apply_service_name booking_update.service_name rescheduled)

unfoldable pub update_booking : ℕ → BookingUpdate → User → Action Booking
update_booking booking_id booking_update current_user = do
  booking ← open_for_update booking_id booking_update current_user
  write_update booking_update current_user booking

-- the write that `cancel_booking` and `delete_booking` share
unfoldable pub write_cancellation : User → Booking → Action Booking
write_cancellation current_user booking = do
  notify_cancellation (record booking { status = BookingStatus.cancelled }) current_user
  save_booking booking (record booking { status = BookingStatus.cancelled })

unfoldable pub open_for_cancel : ℕ → User → Action Booking
open_for_cancel booking_id current_user = do
  booking ← get_booking_by_id booking_id current_user
  lift (validate_status_transition booking.status BookingStatus.cancelled current_user.role)
  pure booking

unfoldable pub cancel_booking : ℕ → User → Action Booking
cancel_booking booking_id current_user = do
  booking ← open_for_cancel booking_id current_user
  write_cancellation current_user booking

-- the reads and guards of `delete_booking`
unfoldable pub open_for_delete : ℕ → User → Action Booking
open_for_delete booking_id current_user = do
  found ← query (find_booking booking_id)
  booking ← or_raise found 404 "Booking not found"
  raise_if (role_eq current_user.role UserRole.provider) 403
      "Providers are not permitted to delete bookings"
  raise_if
      (role_eq current_user.role UserRole.customer && not (booking.customer_id == current_user.id))
      403 "Not authorized to delete this booking"
  raise_if (status_eq booking.status BookingStatus.completed) 400
      "Completed bookings are historical business records and cannot be deleted"
  raise_if (status_eq booking.status BookingStatus.confirmed) 400
      "Confirmed bookings cannot be deleted directly; please use the cancellation workflow"
  raise_if (status_eq booking.status BookingStatus.cancelled) 400 "Booking is already cancelled"
  pure booking

unfoldable pub delete_booking : ℕ → User → Action ⊤
delete_booking booking_id current_user = do
  booking ← open_for_delete booking_id current_user
  write_cancellation current_user booking
  pure tt
