-- ===== src/Bookings/Update.antt =====
-- What `update_booking` may change, and what it refuses.
use bodhrik_fullstack_assess.Common.{
  ℕ, String, ◌≡◌, refl, sym, ap, ◌∙◌, inl, inr, true, false, Option, none, some, arith, eq_iff,
  ◌==◌, if◌then◌else◌, Bool-cases,
}
use bodhrik_fullstack_assess.Models.{UserRole, BookingStatus, status_eq, User, Booking}
use bodhrik_fullstack_assess.Session.{
  Session, Exception, Result, ok, err, ◌>>=◌, find_booking, refreshed_booking, booking_changed,
}
use bodhrik_fullstack_assess.Session.Laws.{Result-cases, Transaction-err, bind_inv}
use bodhrik_fullstack_assess.Bookings.Transitions.{validate_status_transition}
use bodhrik_fullstack_assess.Bookings.Atomic.{open_for_update_session, update_booking-Transaction}
use bodhrik_fullstack_assess.Bookings.Operations.{
  BookingUpdate, is_terminal, is_participant, apply_status, apply_schedule, save_booking,
  update_booking, apply_service_name, open_for_update, write_update,
}
use bodhrik_fullstack_assess.Bookings.Keeps.Rows.{apply_status-SameBookings, apply_schedule_session}
use bodhrik_fullstack_assess.Bookings.Keeps.Slots.{
  apply_status_row, apply_schedule_outcome, open_for_update_row,
}
use bodhrik_fullstack_assess.Bookings.Save.{Saved-table, save_booking_outcome, save_booking-Saved}

-- The caller of an update that gets past the guards takes part in the booking.
open_for_update_participant :
    (k : ℕ) (s : Session) (u : BookingUpdate) (actor : User) {b : Booking}
    → (open_for_update k u actor s).0 ≡ ok b
    → is_participant actor b ≡ true
unfolding open_for_update
open_for_update_participant k s u actor {b} h = ground arith

-- The row that the three steps make of `b`.
abbrev changed_row : Booking → Booking → Booking
changed_row b c = record b {
  service_name = c.service_name;
  start_time = c.start_time;
  end_time = c.end_time;
  status = c.status;
}

status_eq-eq : (a b : BookingStatus) → status_eq a b ≡ true → a ≡ b
status_eq-eq a b h = ground arith

-- A row that differs from the loaded one in no compared column is the loaded one.
unchanged_row : (b c : Booking) → c ≡ changed_row b c → booking_changed b c ≡ false → c ≡ b
unchanged_row b c e h =
    ground (arith, eq_iff b.service_name c.service_name, status_eq-eq b.status c.status)

stay_valid :
    (a : BookingStatus) (role : UserRole)
    → is_terminal a ≡ false
    → validate_status_transition a a role ≡ ok tt
unfolding validate_status_transition
stay_valid a role h = ground arith

apply_status_valid :
    (t : Option BookingStatus) (b : Booking) (actor : User) (s : Session) {m : Booking}
    → is_terminal b.status ≡ false
    → (apply_status t b actor s).0 ≡ ok m
    → validate_status_transition b.status m.status actor.role ≡ ok tt
unfolding apply_status
apply_status_valid none b actor s {m} live h = ground (arith, stay_valid b.status actor.role)
apply_status_valid (some t) b actor s {m} live h = ground (arith, stay_valid b.status actor.role)

apply_schedule_row :
    (st en : Option ℕ) (m : Booking) (s : Session) {c : Booking}
    → (apply_schedule st en m s).0 ≡ ok c
    → c ≡ record m { start_time = c.start_time; end_time = c.end_time }
apply_schedule_row st en m s {c} h = elim (apply_schedule_outcome st en m s h) [
  | inl same ↦ ground arith
  | inr (moved, _) ↦ ground arith
]

named_row :
    (n : Option String) (b m c : Booking)
    → m ≡ record b { status = m.status }
    → c ≡ record m { start_time = c.start_time; end_time = c.end_time }
    → apply_service_name n c ≡ changed_row b (apply_service_name n c)
named_row none b m c em ec = ground arith
named_row (some n) b m c em ec = ground arith

same_status : (n : Option String) (c : Booking) → (apply_service_name n c).status ≡ c.status
same_status none c = refl
same_status (some n) c = refl

-- What an update that goes through has done to the row under the key `k`.
pub record Updated (k : ℕ) (actor : User) (row : Booking) (s s' : Session) : Type 0 where
  pub old : Booking
  pub found : find_booking k s.working ≡ some old
  pub allowed : is_participant actor old ≡ true
  pub live : is_terminal old.status ≡ false
  pub same_id : row.id ≡ old.id
  pub same_customer : row.customer_id ≡ old.customer_id
  pub same_provider : row.provider_id ≡ old.provider_id
  pub same_creation : row.created_at ≡ old.created_at
  pub granted : validate_status_transition old.status row.status actor.role ≡ ok tt
  pub table :
      (j : ℕ)
      → find_booking j s'.committed ≡ (if j == k then some row else find_booking j s.working)

refreshed_row :
    (now : ℕ) (b d row : Booking)
    → row ≡ refreshed_booking now b d
    → d ≡ changed_row b d
    → (row.id ≡ b.id)
      × (row.customer_id ≡ b.customer_id)
      × (row.provider_id ≡ b.provider_id)
      × (row.created_at ≡ b.created_at)
      × (row.status ≡ d.status)
refreshed_row now b d row e shape = elim (Bool-cases (booking_changed b d)) [
  | inl changed ↦ ground arith
  | inr same ↦ ground arith
]

module _ (k : ℕ) (u : BookingUpdate) (actor : User) (b : Booking) (s : Session) where
  abbrev moved_session : Session
  moved_session = (apply_status u.status b actor s).1

  abbrev final_row : Booking → Booking
  final_row c = apply_service_name u.service_name c

  -- An update that goes through is a series of three steps and a commit.
  write_update_steps :
      {row : Booking}
      → (write_update u actor b s).0 ≡ ok row
      → (m : Booking) × (c : Booking) × ((apply_status u.status b actor s).0 ≡ ok m)
        × ((apply_schedule u.start_time u.end_time m moved_session).0 ≡ ok c)
        × (write_update u actor b s ≡ save_booking b (final_row c) moved_session)
  unfolding write_update
  write_update_steps {row} h =
      let (m, moved, step) =
        bind_inv (apply_status u.status b actor)
          (λ m. apply_schedule u.start_time u.end_time m >>= λ c. save_booking b (final_row c)) s
          h in
      let (c, placed, step') =
        bind_inv (apply_schedule u.start_time u.end_time m) (λ c. save_booking b (final_row c))
          moved_session (sym (ap (λ (r : Result Booking × Session). r.0) step) ∙ h) in
      (
        m,
        c,
        moved,
        placed,
        step
            ∙ step'
            ∙ ap (save_booking b (final_row c))
                (apply_schedule_session u.start_time u.end_time m moved_session),
      )

  write_update-Updated :
      {row : Booking}
      → find_booking k s.working ≡ some b
      → is_participant actor b ≡ true
      → is_terminal b.status ≡ false
      → (write_update u actor b s).0 ≡ ok row
      → Updated k actor row s (write_update u actor b s).1
  write_update-Updated {row} found allowed live h =
      let (m, c, moved, placed, steps) = write_update_steps h in
      let d = final_row c in
      let em = apply_status_row u.status b actor s moved in
      let placed_row = apply_schedule_row u.start_time u.end_time m moved_session placed in
      let shape = named_row u.service_name b m c em placed_row in
      let saved : (save_booking b d moved_session).0 ≡ ok row = rw steps at h in
      let same = apply_status-SameBookings u.status b actor s in
      let found' : find_booking k moved_session.working ≡ some b = rw same found in
      let (is_row, _) = save_booking_outcome b d moved_session saved in
      let (i, cu, p, cr, st) = refreshed_row moved_session.now b d row is_row shape in
      let done =
        save_booking-Saved k b d moved_session found' (ground arith) (unchanged_row b d shape)
          saved in
      record {
        old = b;
        found = found;
        allowed = allowed;
        live = live;
        same_id = i;
        same_customer = cu;
        same_provider = p;
        same_creation = cr;
        granted =
            rw (st ∙ same_status u.service_name c ∙ ap (λ (x : Booking). x.status) placed_row)
              (apply_status_valid u.status b actor s live moved);
        table = λ j. rw steps (
            Saved-table k row moved_session (save_booking b d moved_session).1 done j
            ∙ rw same refl);
      }

-- An update that returns has changed the one booking, of which the caller is a participant and
-- which was pending or confirmed. Its id, customer, provider and creation time are as they were;
-- its status is the old one or one that the caller may move it to; it is what a query under the
-- key now finds in the committed database, and what any other key finds is as before.
pub update_booking_effect :
    (k : ℕ) (u : BookingUpdate) (actor : User) (s : Session) {row : Booking}
    → (update_booking k u actor s).0 ≡ ok row
    → Updated k actor row s (update_booking k u actor s).1
unfolding update_booking
update_booking_effect k u actor s {row} h =
    let (b, opened, step) = bind_inv (open_for_update k u actor) (write_update u actor) s h in
    let (found, live) = open_for_update_row k s u actor opened in
    let eq : update_booking k u actor s ≡ write_update u actor b s =
      step ∙ ap (write_update u actor b) (open_for_update_session k actor s u) in
    rw eq (
      write_update-Updated k u actor b s found (open_for_update_participant k s u actor opened) live
        (rw eq at h))

-- A cancelled or completed booking is never changed: every update of it raises, and leaves the
-- committed database as it was.
pub update_booking_terminal :
    (k : ℕ) (u : BookingUpdate) (actor : User) (s : Session) {b : Booking}
    → find_booking k s.working ≡ some b
    → is_terminal b.status ≡ true
    → ((e : Exception) × ((update_booking k u actor s).0 ≡ err e))
      × ((update_booking k u actor s).1.committed ≡ s.committed)
update_booking_terminal k u actor s {b} found over =
    elim (Result-cases (update_booking k u actor s).0) [
      | inl (row, h) ↦
          let done = update_booking_effect k u actor s h in
          absurd (ground (arith, done.found, done.live))
      | inr (e, h) ↦ (
        (e, h),
        Transaction-err s (update_booking k u actor s) (update_booking-Transaction k u actor s) h,
      )
    ]
