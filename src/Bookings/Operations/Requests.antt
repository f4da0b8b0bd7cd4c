-- ===== src/Bookings/Operations/Requests.antt =====
-- Conflicts, notifications, creation and reading.
use bodhrik_fullstack_assess.Common.{
  ℕ, String, Bool, true, not, ◌&&◌, ◌||◌, Option, none, some, List, ◌<>◌, ⊤, ltb, ◌==◌,
  if◌then◌else◌,
}
use bodhrik_fullstack_assess.Common.Table.{select, order_by, page}
use bodhrik_fullstack_assess.Models.{
  UserRole, BookingStatus, NotificationType, role_eq, status_eq, User, Booking,
}
use bodhrik_fullstack_assess.Session.{
  Action, pure, query, ◌>>=◌, ◌>>◌, raise_if, or_raise, on_error, find_user, find_booking, uuid4,
  clock, insert_booking, commit, rollback,
}
use bodhrik_fullstack_assess.Notifications.{create_notification}
use bodhrik_fullstack_assess.Providers.{is_provider_available}

-- a participant other than the actor hears of the cancellation
unfoldable pub notify_unless_actor : ℕ → ℕ → Booking → Action ⊤
notify_unless_actor actor_id user_id booking = if actor_id == user_id then pure tt else do
  create_notification user_id NotificationType.booking_cancelled "Booking Cancelled"
      ("Booking for " <> booking.service_name <> " has been cancelled.") (some booking.id)
  pure tt

unfoldable pub notify_cancellation : Booking → User → Action ⊤
notify_cancellation booking actor = do
  notify_unless_actor actor.id booking.customer_id booking
  notify_unless_actor actor.id booking.provider_id booking

unfoldable pub check_provider_conflict : ℕ → ℕ → ℕ → Option ℕ → Action ⊤
check_provider_conflict provider_id start_time end_time exclude = do
  available ← is_provider_available provider_id start_time end_time exclude
  raise_if (not available) 409 "Provider has an overlapping booking for the requested time slot"

-- a BookingCreate that its validators have passed
pub record BookingCreate : Type 0 where
  pub provider_id : ℕ
  pub service_name : String
  pub start_time : ℕ
  pub end_time : ℕ

abbrev pub new_booking : ℕ → ℕ → ℕ → BookingCreate → Booking
new_booking id now customer_id booking_in = record {
  id = id;
  customer_id = customer_id;
  provider_id = booking_in.provider_id;
  service_name = booking_in.service_name;
  start_time = booking_in.start_time;
  end_time = booking_in.end_time;
  status = BookingStatus.pending;
  created_at = now;
  updated_at = now;
}

-- steps 1 to 4 of `create_booking`: everything that it checks before it writes
unfoldable pub admit_booking : ℕ → BookingCreate → Action ⊤
admit_booking customer_id booking_in = do
  raise_if (customer_id == booking_in.provider_id) 400
      "Customer cannot book themselves as a provider"
  found ← query (find_user booking_in.provider_id)
  user ← or_raise found 404 "Provider not found"
  raise_if (not (role_eq user.role UserRole.provider)) 400
      "Selected user is not registered as a service provider"
  check_provider_conflict booking_in.provider_id booking_in.start_time booking_in.end_time none

-- step 5: the row, its notification and the commit
unfoldable pub persist_booking : ℕ → BookingCreate → Action Booking
persist_booking customer_id booking_in = do
  id ← uuid4
  now ← clock
  insert_booking (new_booking id now customer_id booking_in)
  create_notification booking_in.provider_id NotificationType.booking_created "New Booking Request"
      ("A new booking request for " <> booking_in.service_name <> " has been submitted.") (some id)
  on_error commit rollback
  pure (new_booking id now customer_id booking_in)

unfoldable pub create_booking : ℕ → BookingCreate → Action Booking
create_booking customer_id booking_in = do
  admit_booking customer_id booking_in
  persist_booking customer_id booking_in

-- the three tests of who may see or change a booking
abbrev pub is_participant : User → Booking → Bool
is_participant user booking =
    role_eq user.role UserRole.admin
    || ((role_eq user.role UserRole.customer && booking.customer_id == user.id)
        || (role_eq user.role UserRole.provider && booking.provider_id == user.id))

unfoldable pub get_booking_by_id : ℕ → User → Action Booking
get_booking_by_id booking_id current_user = do
  found ← query (find_booking booking_id)
  booking ← or_raise found 404 "Booking not found"
  raise_if (not (is_participant current_user booking)) 403 "Not authorized to access this booking"
  pure booking

-- WHERE by the caller's role
abbrev pub is_visible : User → Booking → Bool
is_visible user booking = elim user.role [
  | UserRole.customer ↦ booking.customer_id == user.id
  | UserRole.provider ↦ booking.provider_id == user.id
  | UserRole.admin ↦ true
]

abbrev pub has_status : Option BookingStatus → Booking → Bool
has_status none booking = true
has_status (some status) booking = status_eq booking.status status

-- ORDER BY start_time ASC, id ASC
abbrev pub earliest_first : Booking → Booking → Bool
earliest_first b c =
    ltb b.start_time c.start_time || (b.start_time == c.start_time && ltb b.id c.id)

unfoldable pub list_bookings : User → Option BookingStatus → ℕ → ℕ → Action (List Booking)
list_bookings current_user status_filter skip limit = query (λ db. page skip limit (
    order_by earliest_first
      (select (λ b. is_visible current_user b && has_status status_filter b) db.bookings)))
