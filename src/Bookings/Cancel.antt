-- ===== src/Bookings/Cancel.antt =====
-- `cancel_booking` and `delete_booking`.
use bodhrik_fullstack_assess.Common.{
  ℕ, ◌≡◌, refl, sym, subst, ap, ◌∙◌, ◌⊎◌, true, false, some, arith, ⊤, ◌==◌, if◌then◌else◌,
}
use bodhrik_fullstack_assess.Models.{
  UserRole, BookingStatus, NotificationType, role_eq, User, Booking,
}
use bodhrik_fullstack_assess.Session.{
  Session, Result, ok, pure, ◌>>◌, find_booking, booking_changed,
}
use bodhrik_fullstack_assess.Session.Laws.{bind_inv}
use bodhrik_fullstack_assess.Notifications.{create_notification}
use bodhrik_fullstack_assess.Bookings.Transitions.{validate_status_transition}
use bodhrik_fullstack_assess.Bookings.Atomic.{open_for_cancel_session, open_for_delete_session}
use bodhrik_fullstack_assess.Bookings.Operations.{
  notify_unless_actor, is_terminal, is_participant, notify_cancellation, get_booking_by_id,
  save_booking, cancel_booking, delete_booking, open_for_cancel, open_for_delete,
  write_cancellation,
}
use bodhrik_fullstack_assess.Notifications.Create.{is_told}
use bodhrik_fullstack_assess.Bookings.Keeps.Rows.{notify_cancellation-SameBookings}
use bodhrik_fullstack_assess.Bookings.Save.{Saved-table, save_booking_outcome, save_booking-Saved}
use bodhrik_fullstack_assess.Bookings.Told.{told_of_cancellation, notify_cancellation_told}

abbrev pub cancelled_row : Booking → Booking
cancelled_row b = record b { status = BookingStatus.cancelled }

-- The row that a cancellation at the time `now` leaves.
abbrev pub cancelled_at : ℕ → Booking → Booking
cancelled_at now b = record b { status = BookingStatus.cancelled; updated_at = now }

changed_by_cancel :
    (b : Booking) → is_terminal b.status ≡ false → booking_changed b (cancelled_row b) ≡ true
changed_by_cancel b live = ground arith

notify_cancellation_now :
    (b : Booking) (actor : User) (s : Session) → (notify_cancellation b actor s).1.now ≡ s.now
unfolding notify_cancellation notify_unless_actor create_notification
notify_cancellation_now b actor s = ground arith

module _ (actor : User) (b : Booking) (s : Session) {row : Booking}
    (h : (write_cancellation actor b s).0 ≡ ok row) where
  write_cancellation_steps :
      ((notify_cancellation (cancelled_row b) actor s).0 ≡ ok tt)
      × (write_cancellation actor b s
          ≡ save_booking b (cancelled_row b) (notify_cancellation (cancelled_row b) actor s).1)
  unfolding write_cancellation
  write_cancellation_steps =
      let (_, sent, step) =
        bind_inv (notify_cancellation (cancelled_row b) actor)
          (λ _. save_booking b (cancelled_row b)) s h in
      (sent, step)

  write_cancellation_told :
      (v : ℕ)
      → (v ≡ b.customer_id) ⊎ (v ≡ b.provider_id)
      → (actor.id == v) ≡ false
      → told_of_cancellation v b (write_cancellation actor b s).1.committed.notifications ≡ true
  write_cancellation_told v who ne =
      let (sent, steps) = write_cancellation_steps in
      let s₁ = (notify_cancellation (cancelled_row b) actor s).1 in
      let saved : (save_booking b (cancelled_row b) s₁).0 ≡ ok row = rw steps at h in
      let (_, kept) = save_booking_outcome b (cancelled_row b) s₁ saved in
      rw (steps, kept)
        (ground (arith, notify_cancellation_told (cancelled_row b) actor s v sent who ne))

  write_cancellation-row :
      (k : ℕ)
      → find_booking k s.working ≡ some b
      → is_terminal b.status ≡ false
      → (row ≡ cancelled_at s.now b)
        × ((j : ℕ)
            → find_booking j (write_cancellation actor b s).1.committed
              ≡ (if j == k then some row else find_booking j s.working))
  write_cancellation-row k found live =
      let (sent, steps) = write_cancellation_steps in
      let s₁ = (notify_cancellation (cancelled_row b) actor s).1 in
      let saved : (save_booking b (cancelled_row b) s₁).0 ≡ ok row = rw steps at h in
      let same = notify_cancellation-SameBookings (cancelled_row b) actor s in
      let found' : find_booking k s₁.working ≡ some b = rw same found in
      let changed = changed_by_cancel b live in
      let (is_row, _) = save_booking_outcome b (cancelled_row b) s₁ saved in
      let done =
        save_booking-Saved k b (cancelled_row b) s₁ found' refl (λ e. absurd (ground arith))
          saved in
      (
        rw (is_row, changed, notify_cancellation_now (cancelled_row b) actor s) refl,
        λ j.
            rw steps
              (Saved-table k row s₁ (save_booking b (cancelled_row b) s₁).1 done j ∙ rw same refl),
      )

open_for_cancel_guards :
    (k : ℕ) (actor : User) (s : Session) {b : Booking}
    → (open_for_cancel k actor s).0 ≡ ok b
    → (find_booking k s.working ≡ some b)
      × (is_participant actor b ≡ true)
      × (is_terminal b.status ≡ false)
unfolding open_for_cancel get_booking_by_id validate_status_transition
open_for_cancel_guards k actor s {b} h = ground arith

open_for_delete_guards :
    (k : ℕ) (actor : User) (s : Session) {b : Booking}
    → (open_for_delete k actor s).0 ≡ ok b
    → (find_booking k s.working ≡ some b)
      × (b.status ≡ BookingStatus.pending)
      × (is_participant actor b ≡ true)
      × (role_eq actor.role UserRole.provider ≡ false)
unfolding open_for_delete
open_for_delete_guards k actor s {b} h = ground arith

-- A cancellation or deletion that goes through: the booking `old` under the key, of which the
-- actor is a participant, has become a cancelled one, and no other booking has changed.
pub record CancelledBooking (k : ℕ) (actor : User) (old : Booking) (s s' : Session) : Type 0 where
  pub found : find_booking k s.working ≡ some old
  pub allowed : is_participant actor old ≡ true
  pub table :
      (j : ℕ)
      → find_booking j s'.committed
        ≡ (if j == k then some (cancelled_at s.now old) else find_booking j s.working)

-- A cancellation that returns has cancelled the booking under the key, which was pending or
-- confirmed and of which the caller is a participant; it returns the row as it is then stored.
pub cancel_booking_effect :
    (k : ℕ) (actor : User) (s : Session) {row : Booking}
    → (cancel_booking k actor s).0 ≡ ok row
    → (old : Booking) × (is_terminal old.status ≡ false)
      × (row ≡ cancelled_at s.now old)
      × CancelledBooking k actor old s (cancel_booking k actor s).1
unfolding cancel_booking
cancel_booking_effect k actor s {row} h =
    let (b, opened, step) = bind_inv (open_for_cancel k actor) (write_cancellation actor) s h in
    let eq : cancel_booking k actor s ≡ write_cancellation actor b s =
      step ∙ ap (write_cancellation actor b) (open_for_cancel_session k actor s) in
    let (found, allowed, live) = open_for_cancel_guards k actor s opened in
    let (is_row, table) = write_cancellation-row actor b s (rw eq at h) k found live in
    (
      b,
      live,
      is_row,
      record { found = found; allowed = allowed; table = λ j. rw (eq, ← is_row) (table j) },
    )

-- A deletion that returns has removed no row: it has cancelled the booking under the key, which
-- was pending, for its customer or an administrator and never for a provider.
pub delete_booking_effect :
    (k : ℕ) (actor : User) (s : Session)
    → (delete_booking k actor s).0 ≡ ok tt
    → (old : Booking) × (old.status ≡ BookingStatus.pending)
      × (role_eq actor.role UserRole.provider ≡ false)
      × CancelledBooking k actor old s (delete_booking k actor s).1
unfolding delete_booking
delete_booking_effect k actor s h =
    let then_done = λ (b : Booking). write_cancellation actor b >> pure tt in
    let (b, opened, step) = bind_inv (open_for_delete k actor) then_done s h in
    let eq : delete_booking k actor s ≡ then_done b s =
      step ∙ ap (then_done b) (open_for_delete_session k actor s) in
    let (found, waiting, allowed, not_provider) = open_for_delete_guards k actor s opened in
    let (row, written, step') =
      bind_inv (write_cancellation actor b) (λ _. pure tt) s
        (ap (λ (r : Result ⊤ × Session). r.0) (sym eq) ∙ h) in
    let (is_row, table) = write_cancellation-row actor b s written k found (ground arith) in
    (
      b,
      waiting,
      not_provider,
      record { found = found; allowed = allowed; table = λ j. rw (eq, step', ← is_row) (table j) },
    )

-- Of the customer and the provider of a booking that has been cancelled, whoever is not the
-- caller has a notification of it, committed with it.
pub cancel_booking_told :
    (k : ℕ) (actor : User) (s : Session) (v : ℕ) {row : Booking}
    → (cancel_booking k actor s).0 ≡ ok row
    → (v ≡ row.customer_id) ⊎ (v ≡ row.provider_id)
    → (actor.id == v) ≡ false
    → is_told v row.id NotificationType.booking_cancelled
        (cancel_booking k actor s).1.committed.notifications
      ≡ true
unfolding cancel_booking
cancel_booking_told k actor s v {row} h who ne =
    let (b, opened, step) = bind_inv (open_for_cancel k actor) (write_cancellation actor) s h in
    let eq : cancel_booking k actor s ≡ write_cancellation actor b s =
      step ∙ ap (write_cancellation actor b) (open_for_cancel_session k actor s) in
    let (found, allowed, live) = open_for_cancel_guards k actor s opened in
    let written : (write_cancellation actor b s).0 ≡ ok row = rw eq at h in
    let (is_row, _) = write_cancellation-row actor b s written k found live in
    rw eq (
      subst
        (λ (x : Booking).
          is_told v x.id NotificationType.booking_cancelled
            (write_cancellation actor b s).1.committed.notifications
          ≡ true)
        (sym is_row) (write_cancellation_told actor b s written v (rw is_row at who) ne))
