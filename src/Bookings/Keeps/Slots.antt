-- ===== src/Bookings/Keeps/Slots.antt =====
-- The row that an operation is about to save, against the others.
use bodhrik_fullstack_assess.Common.{
  ℕ, String, ◌≡◌, refl, ◌⊎◌, inl, inr, false, Option, none, some, List, arith, or_default, any,
}
use bodhrik_fullstack_assess.Models.{BookingStatus, User, Booking}
use bodhrik_fullstack_assess.Session.{Session, ok, find_booking}
use bodhrik_fullstack_assess.Common.Separate.{clashes_elsewhere}
use bodhrik_fullstack_assess.Providers.{is_provider_available, conflicts}
use bodhrik_fullstack_assess.Bookings.Schedule.{
  clash, conflicts-clash_elsewhere, elsewhere_same_slot,
}
use bodhrik_fullstack_assess.Bookings.Operations.{
  BookingUpdate, is_terminal, check_provider_conflict, get_booking_by_id, apply_status,
  apply_schedule, apply_service_name, open_for_update, open_for_cancel, open_for_delete,
}

abbrev pub rescheduled : Option ℕ → Option ℕ → Booking → Booking
rescheduled st en b = record b {
  start_time = or_default st b.start_time;
  end_time = or_default en b.end_time;
}

-- `apply_schedule` returns the row as it is, or moved to a slot that was found free.
pub apply_schedule_outcome :
    (st en : Option ℕ) (b : Booking) (s : Session) {c : Booking}
    → (apply_schedule st en b s).0 ≡ ok c
    → let d = rescheduled st en b in
      (c ≡ b)
      ⊎ ((c ≡ d)
          × (any (conflicts d.provider_id d.start_time d.end_time (some d.id)) s.working.bookings
              ≡ false))
unfolding apply_schedule check_provider_conflict is_provider_available
apply_schedule_outcome st en b s {c} h = ground arith

-- What it returns clashes with no other row, if what it was given does not.
pub apply_schedule_free :
    (st en : Option ℕ) (b : Booking) (s : Session) {c : Booking}
    → clashes_elsewhere (λ (d : Booking). d.id) b clash s.working.bookings ≡ false
    → (apply_schedule st en b s).0 ≡ ok c
    → clashes_elsewhere (λ (d : Booking). d.id) c clash s.working.bookings ≡ false
apply_schedule_free st en b s {c} free h = elim (apply_schedule_outcome st en b s h) [
  | inl same ↦ rw same free
  | inr (e, found) ↦ rw e (conflicts-clash_elsewhere s.working.bookings (rescheduled st en b) found)
]

-- `apply_status` changes the status alone.
pub apply_status_row :
    (t : Option BookingStatus) (b : Booking) (actor : User) (s : Session) {c : Booking}
    → (apply_status t b actor s).0 ≡ ok c
    → c ≡ record b { status = c.status }
unfolding apply_status
apply_status_row none b actor s {c} h = ground arith
apply_status_row (some t) b actor s {c} h = ground arith

module _ (k : ℕ) (s : Session) {b : Booking} where
  -- The row that `update_booking` goes on with is the one under its key, and is active.
  pub open_for_update_row :
      (u : BookingUpdate) (actor : User)
      → (open_for_update k u actor s).0 ≡ ok b
      → (find_booking k s.working ≡ some b) × (is_terminal b.status ≡ false)
  unfolding open_for_update
  open_for_update_row u actor h = ground arith

  pub open_for_cancel_row :
      (actor : User) → (open_for_cancel k actor s).0 ≡ ok b → find_booking k s.working ≡ some b
  unfolding open_for_cancel get_booking_by_id
  open_for_cancel_row actor h = ground arith

  pub open_for_delete_row :
      (actor : User) → (open_for_delete k actor s).0 ≡ ok b → find_booking k s.working ≡ some b
  unfolding open_for_delete
  open_for_delete_row actor h = ground arith

-- Of an active booking the status may change: no clash arises from that.
pub status_free :
    (bs : List Booking) (b : Booking) (t : BookingStatus)
    → is_terminal b.status ≡ false
    → clashes_elsewhere (λ (d : Booking). d.id) b clash bs ≡ false
    → clashes_elsewhere (λ (d : Booking). d.id) (record b { status = t }) clash bs ≡ false
unfolding clash
status_free bs b t live free =
    elsewhere_same_slot bs b (record b { status = t }) refl (λ d e. ground arith) free

pub cancelled_free :
    (bs : List Booking) (b : Booking)
    → clashes_elsewhere (λ (d : Booking). d.id) b clash bs ≡ false
    → clashes_elsewhere
        (λ (d : Booking). d.id)
        (record b { status = BookingStatus.cancelled })
        clash
        bs
      ≡ false
unfolding clash
cancelled_free bs b free =
    elsewhere_same_slot bs b (record b { status = BookingStatus.cancelled }) refl
      (λ d e. ground arith) free

pub name_free :
    (bs : List Booking) (n : Option String) (b : Booking)
    → clashes_elsewhere (λ (d : Booking). d.id) b clash bs ≡ false
    → clashes_elsewhere (λ (d : Booking). d.id) (apply_service_name n b) clash bs ≡ false
unfolding clash
name_free bs none b free = free
name_free bs (some n) b free = free
