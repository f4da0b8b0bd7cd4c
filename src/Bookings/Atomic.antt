-- ===== src/Bookings/Atomic.antt =====
-- What each operation of booking_service.py has committed when it ends.
use bodhrik_fullstack_assess.Common.{ℕ, ◌≡◌, Option, none, some, arith}
use bodhrik_fullstack_assess.Models.{BookingStatus, User, Booking}
use bodhrik_fullstack_assess.Session.{Session, Action}
use bodhrik_fullstack_assess.Session.Laws.{Transaction}
use bodhrik_fullstack_assess.Notifications.{create_notification}
use bodhrik_fullstack_assess.Providers.{is_provider_available}
use bodhrik_fullstack_assess.Bookings.Operations.{
  notify_unless_actor, BookingCreate, BookingUpdate, notify_cancellation, check_provider_conflict,
  admit_booking, persist_booking, create_booking, get_booking_by_id, apply_status, apply_schedule,
  save_booking, update_booking, cancel_booking, delete_booking, open_for_update, open_for_cancel,
  open_for_delete, write_update, write_cancellation,
}

-- Nothing is committed by the call.
abbrev pub Pending : {A : Type 0} → Action A → Type 0
Pending {A} m = (s : Session) → (m s).1.committed ≡ s.committed

pub notify_cancellation-Pending :
    (b : Booking) (actor : User) → Pending (notify_cancellation b actor)
unfolding notify_cancellation notify_unless_actor create_notification
notify_cancellation-Pending b actor s = ground arith

pub admit_booking_session : (c : ℕ) (b : BookingCreate) (s : Session) → (admit_booking c b s).1 ≡ s
unfolding admit_booking check_provider_conflict is_provider_available
admit_booking_session c b s = ground arith

persist_booking-Transaction :
    (c : ℕ) (b : BookingCreate) (s : Session) → Transaction s (persist_booking c b s)
unfolding persist_booking create_notification
persist_booking-Transaction c b s = ground arith

pub create_booking-Transaction :
    (c : ℕ) (b : BookingCreate) (s : Session) → Transaction s (create_booking c b s)
unfolding create_booking
create_booking-Transaction c b s =
    ground (arith, admit_booking_session c b s, persist_booking-Transaction c b s)

pub apply_status-Pending :
    (t : Option BookingStatus) (b : Booking) (actor : User) → Pending (apply_status t b actor)
unfolding apply_status create_notification
apply_status-Pending none b actor s = ground arith
apply_status-Pending (some t) b actor s =
    ground (arith, notify_cancellation-Pending (record b { status = t }) actor s)

apply_schedule-Pending : (st en : Option ℕ) (b : Booking) → Pending (apply_schedule st en b)
unfolding apply_schedule check_provider_conflict is_provider_available
apply_schedule-Pending st en b s = ground arith

save_booking-Transaction : (b c : Booking) (s : Session) → Transaction s (save_booking b c s)
unfolding save_booking
save_booking-Transaction b c s = ground arith

module _ (k : ℕ) (actor : User) (s : Session) where
  pub open_for_update_session : (u : BookingUpdate) → (open_for_update k u actor s).1 ≡ s
  unfolding open_for_update
  open_for_update_session u = ground arith

  pub open_for_cancel_session : (open_for_cancel k actor s).1 ≡ s
  unfolding open_for_cancel get_booking_by_id
  open_for_cancel_session = ground arith

  pub open_for_delete_session : (open_for_delete k actor s).1 ≡ s
  unfolding open_for_delete
  open_for_delete_session = ground arith

write_update-Transaction :
    (u : BookingUpdate) (actor : User) (b : Booking) (s : Session)
    → Transaction s (write_update u actor b s)
unfolding write_update
write_update-Transaction u actor b s =
    grind (arith, apply_status-Pending, apply_schedule-Pending, save_booking-Transaction)

write_cancellation-Transaction :
    (actor : User) (b : Booking) (s : Session) → Transaction s (write_cancellation actor b s)
unfolding write_cancellation
write_cancellation-Transaction actor b s =
    grind (arith, notify_cancellation-Pending, save_booking-Transaction)

pub update_booking-Transaction :
    (k : ℕ) (u : BookingUpdate) (actor : User) (s : Session)
    → Transaction s (update_booking k u actor s)
unfolding update_booking
update_booking-Transaction k u actor s =
    grind (arith, open_for_update_session, write_update-Transaction)

pub cancel_booking-Transaction :
    (k : ℕ) (actor : User) (s : Session) → Transaction s (cancel_booking k actor s)
unfolding cancel_booking
cancel_booking-Transaction k actor s =
    grind (arith, open_for_cancel_session, write_cancellation-Transaction)

pub delete_booking-Transaction :
    (k : ℕ) (actor : User) (s : Session) → Transaction s (delete_booking k actor s)
unfolding delete_booking
delete_booking-Transaction k actor s =
    grind (arith, open_for_delete_session, write_cancellation-Transaction)
