-- ===== src/Bookings/Keeps/Rows.antt =====
-- What the pieces of the operations do to the table of bookings and its schedule.
use bodhrik_fullstack_assess.Common.{
  ℕ, String, ◌≡◌, sym, subst, ◌⊎◌, inl, inr, false, Option, none, some, [], ◌∷◌, ◌++◌, arith, ◌==◌,
  Bool-cases, any,
}
use bodhrik_fullstack_assess.Models.{BookingStatus, NotificationType, User, Booking, Database}
use bodhrik_fullstack_assess.Session.{
  Session, ok, Action, set_booking, add_booking, refreshed_booking, booking_changed,
}
use bodhrik_fullstack_assess.Common.Separate.{
  Separate, UniqueKeys, append-Separate, put, put-UniqueKeys, put-Separate, clashes_elsewhere,
}
use bodhrik_fullstack_assess.Models.Constraints.{booking_violation}
use bodhrik_fullstack_assess.Notifications.{create_notification}
use bodhrik_fullstack_assess.Providers.{is_provider_available, conflicts}
use bodhrik_fullstack_assess.Bookings.Schedule.{clash, clash_sym, IsScheduled, conflicts-clash}
use bodhrik_fullstack_assess.Bookings.Operations.{
  notify_unless_actor, BookingCreate, new_booking, notify_cancellation, check_provider_conflict,
  admit_booking, persist_booking, apply_status, apply_schedule, save_booking,
}

-- the table of bookings is left alone
abbrev pub SameBookings : {A : Type 0} → Action A → Type 0
SameBookings {A} m = (s : Session) → (m s).1.working.bookings ≡ s.working.bookings

pub create_notification-SameBookings :
    (u : ℕ) (type : NotificationType) (title message : String) (b : Option ℕ)
    → SameBookings (create_notification u type title message b)
unfolding create_notification
create_notification-SameBookings u type title message b s = ground arith

pub notify_cancellation-SameBookings :
    (b : Booking) (actor : User) → SameBookings (notify_cancellation b actor)
unfolding notify_cancellation notify_unless_actor create_notification
notify_cancellation-SameBookings b actor s = ground arith

pub apply_status-SameBookings :
    (t : Option BookingStatus) (b : Booking) (actor : User) → SameBookings (apply_status t b actor)
unfolding apply_status create_notification
apply_status-SameBookings none b actor s = ground arith
apply_status-SameBookings (some t) b actor s =
    ground (arith, notify_cancellation-SameBookings (record b { status = t }) actor s)

pub apply_schedule_session :
    (st en : Option ℕ) (b : Booking) (s : Session) → (apply_schedule st en b s).1 ≡ s
unfolding apply_schedule check_provider_conflict is_provider_available
apply_schedule_session st en b s = ground arith

-- A slot that `admit_booking` has let through is free.
pub admit_booking_free :
    (c : ℕ) (b : BookingCreate) (s : Session)
    → (admit_booking c b s).0 ≡ ok tt
    → any (conflicts b.provider_id b.start_time b.end_time none) s.working.bookings ≡ false
unfolding admit_booking check_provider_conflict is_provider_available
admit_booking_free c b s h = ground arith

pub insert-IsScheduled :
    (b : Booking) (db : Database)
    → any (λ c. c.id == b.id) db.bookings ≡ false
    → any (conflicts b.provider_id b.start_time b.end_time none) db.bookings ≡ false
    → IsScheduled db
    → IsScheduled (add_booking b db)
insert-IsScheduled b db absent free h = record {
  unique =
      append-Separate (λ (x y : Booking). x.id == y.id) (λ x y. ground arith) db.bookings b absent
        h.unique;
  separate =
      append-Separate clash clash_sym db.bookings b (conflicts-clash db.bookings b free) h.separate;
}

pub IsScheduled-of_bookings :
    {db db' : Database} → db'.bookings ≡ db.bookings → IsScheduled db → IsScheduled db'
IsScheduled-of_bookings e h = record {
  unique = subst (UniqueKeys (λ (b : Booking). b.id)) (sym e) h.unique;
  separate = subst (Separate clash) (sym e) h.separate;
}

-- What becomes of the table of bookings: nothing, or a rollback, or one more row with a new id.
pub persist_booking_outcome :
    (c : ℕ) (b : BookingCreate) (s : Session)
    → let bs = (persist_booking c b s).1.working.bookings in
      let row = new_booking (s.uuid s.drawn) s.now c b in
      (bs ≡ s.working.bookings)
      ⊎ (bs ≡ s.committed.bookings)
      ⊎ ((any (λ d. d.id == row.id) s.working.bookings ≡ false)
          × (bs ≡ s.working.bookings ++ row ∷ []))
unfolding persist_booking booking_violation create_notification
persist_booking_outcome c b s = ground arith

pub persist_booking-IsScheduled :
    (c : ℕ) (b : BookingCreate) (s : Session)
    → any (conflicts b.provider_id b.start_time b.end_time none) s.working.bookings ≡ false
    → IsScheduled s.committed
    → IsScheduled s.working
    → IsScheduled (persist_booking c b s).1.working
persist_booking-IsScheduled c b s free old h = elim (persist_booking_outcome c b s) [
  | inl same ↦ IsScheduled-of_bookings same h
  | inr (inl undone) ↦ IsScheduled-of_bookings undone old
  | inr (inr (absent, e)) ↦
      IsScheduled-of_bookings e
        (insert-IsScheduled (new_booking (s.uuid s.drawn) s.now c b) s.working absent free h)
]

pub save_booking_outcome :
    (b c : Booking) (s : Session)
    → let bs = (save_booking b c s).1.working.bookings in
      (bs ≡ s.working.bookings)
      ⊎ (bs ≡ s.committed.bookings)
      ⊎ (bs ≡ put (λ d. d.id) (refreshed_booking s.now b c) s.working.bookings)
unfolding save_booking
save_booking_outcome b c s = ground arith

pub put-IsScheduled :
    (c : Booking) (db : Database)
    → clashes_elsewhere (λ (d : Booking). d.id) c clash db.bookings ≡ false
    → IsScheduled db
    → IsScheduled (set_booking c db)
put-IsScheduled c db free h = record {
  unique = put-UniqueKeys (λ d. d.id) c db.bookings h.unique;
  separate = put-Separate (λ d. d.id) c clash clash_sym db.bookings h.unique free h.separate;
}

pub set-IsScheduled :
    (now : ℕ) (b c : Booking) (db : Database)
    → clashes_elsewhere (λ (d : Booking). d.id) c clash db.bookings ≡ false
    → IsScheduled db
    → IsScheduled (set_booking (refreshed_booking now b c) db)
unfolding clash
set-IsScheduled now b c db free h = elim (Bool-cases (booking_changed b c)) [
  | inl e ↦ rw e (put-IsScheduled (record c { updated_at = now }) db free h)
  | inr e ↦ rw e (put-IsScheduled c db free h)
]

-- A row that clashes with no other row is saved.
pub save_booking-IsScheduled :
    (b c : Booking) (s : Session)
    → clashes_elsewhere (λ (d : Booking). d.id) c clash s.working.bookings ≡ false
    → IsScheduled s.committed
    → IsScheduled s.working
    → IsScheduled (save_booking b c s).1.working
save_booking-IsScheduled b c s free old h = elim (save_booking_outcome b c s) [
  | inl same ↦ IsScheduled-of_bookings same h
  | inr (inl undone) ↦ IsScheduled-of_bookings undone old
  | inr (inr e) ↦ IsScheduled-of_bookings e (set-IsScheduled s.now b c s.working free h)
]
