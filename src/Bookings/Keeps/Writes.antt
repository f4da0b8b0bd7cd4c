-- ===== src/Bookings/Keeps/Writes.antt =====
-- The writing halves of `update_booking`, `cancel_booking` and `delete_booking`.
use bodhrik_fullstack_assess.Common.{ℕ, ◌≡◌, sym, subst, false, some}
use bodhrik_fullstack_assess.Models.{BookingStatus, User, Booking, Database}
use bodhrik_fullstack_assess.Session.{Session, Action, ◌>>=◌, find_booking}
use bodhrik_fullstack_assess.Common.Separate.{clashes_elsewhere, first-elsewhere}
use bodhrik_fullstack_assess.Session.Laws.{bind_keeps}
use bodhrik_fullstack_assess.Bookings.Schedule.{clash, clash_sym, IsScheduled}
use bodhrik_fullstack_assess.Bookings.Atomic.{apply_status-Pending, notify_cancellation-Pending}
use bodhrik_fullstack_assess.Bookings.Operations.{
  BookingUpdate, is_terminal, notify_cancellation, apply_status, apply_schedule, save_booking,
  apply_service_name, write_update, write_cancellation,
}
use bodhrik_fullstack_assess.Bookings.Keeps.Rows.{
  IsScheduled-of_bookings, notify_cancellation-SameBookings, apply_status-SameBookings,
  apply_schedule_session, save_booking-IsScheduled,
}
use bodhrik_fullstack_assess.Bookings.Keeps.Slots.{
  apply_schedule_free, apply_status_row, status_free, cancelled_free, name_free,
}

-- steps 2 and 3 of `update_booking` and its commit
abbrev finish_update : BookingUpdate → Booking → Booking → Action Booking
finish_update u loaded moved = do
  c ← apply_schedule u.start_time u.end_time moved
  save_booking loaded (apply_service_name u.service_name c)

pub finish_update-IsScheduled :
    (u : BookingUpdate) (b m : Booking) (s : Session)
    → clashes_elsewhere (λ (d : Booking). d.id) m clash s.working.bookings ≡ false
    → IsScheduled s.committed
    → IsScheduled s.working
    → IsScheduled (finish_update u b m s).1.working
finish_update-IsScheduled u b m s free old h =
    bind_keeps (λ s'. IsScheduled s'.working) (apply_schedule u.start_time u.end_time m)
      (λ c. save_booking b (apply_service_name u.service_name c)) s
      (rw (apply_schedule_session u.start_time u.end_time m s) h)
      (λ c e. rw (apply_schedule_session u.start_time u.end_time m s) (
        save_booking-IsScheduled b (apply_service_name u.service_name c) s
          (name_free s.working.bookings u.service_name c
            (apply_schedule_free u.start_time u.end_time m s free e))
          old h))

pub write_update-IsScheduled :
    (u : BookingUpdate) (actor : User) (b : Booking) (s : Session)
    → is_terminal b.status ≡ false
    → clashes_elsewhere (λ (d : Booking). d.id) b clash s.working.bookings ≡ false
    → IsScheduled s.committed
    → IsScheduled s.working
    → IsScheduled (write_update u actor b s).1.working
unfolding write_update
write_update-IsScheduled u actor b s live free old h =
    let same = apply_status-SameBookings u.status b actor s in
    let h' = IsScheduled-of_bookings same h in
    bind_keeps (λ s'. IsScheduled s'.working) (apply_status u.status b actor) (finish_update u b) s
      h'
      (λ m e.
        finish_update-IsScheduled u b m (apply_status u.status b actor s).1
          (rw (same, apply_status_row u.status b actor s e)
            (status_free s.working.bookings b m.status live free))
          (subst IsScheduled (sym (apply_status-Pending u.status b actor s)) old) h')

pub write_cancellation-IsScheduled :
    (actor : User) (b : Booking) (s : Session)
    → clashes_elsewhere (λ (d : Booking). d.id) b clash s.working.bookings ≡ false
    → IsScheduled s.committed
    → IsScheduled s.working
    → IsScheduled (write_cancellation actor b s).1.working
unfolding write_cancellation
write_cancellation-IsScheduled actor b s free old h =
    let c = record b { status = BookingStatus.cancelled } in
    let same = notify_cancellation-SameBookings c actor s in
    let h' = IsScheduled-of_bookings same h in
    bind_keeps (λ s'. IsScheduled s'.working) (notify_cancellation c actor) (λ _. save_booking b c)
      s h'
      (λ _ _.
        save_booking-IsScheduled b c (notify_cancellation c actor s).1
          (rw same (cancelled_free s.working.bookings b free))
          (subst IsScheduled (sym (notify_cancellation-Pending c actor s)) old) h')

-- the row under a key clashes with no other
pub found_free :
    (k : ℕ) (b : Booking) (db : Database)
    → find_booking k db ≡ some b
    → IsScheduled db
    → clashes_elsewhere (λ (d : Booking). d.id) b clash db.bookings ≡ false
found_free k b db e h =
    first-elsewhere (λ d. d.id) clash clash_sym k db.bookings b e h.unique h.separate
