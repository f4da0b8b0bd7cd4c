-- ===== src/Routes/Consistent/BookingFrames.antt =====
-- The booking service leaves users and reviews alone and doubles no notification.
use bodhrik_fullstack_assess.Common.{
  arith, All, All-append, none, ◌≡◌, ℕ, suc, String, Bool-cases, Option-cases, ◌++◌, inl, inr,
  Option, none, some, List, [], ◌∷◌, ⊤, ◌<>◌, ◌==◌,
}
use bodhrik_fullstack_assess.Models.{
  BookingStatus, status_eq, NotificationType, User, Booking, Review,
}
use bodhrik_fullstack_assess.Session.{
  Session, Action, pure, lift, insert_booking, flush_booking, booking_changed, refreshed_booking,
  clock, on_error, commit, rollback, ◌>>=◌, ◌>>◌,
}
use bodhrik_fullstack_assess.Models.Constraints.{booking_violation, booking_check}
use bodhrik_fullstack_assess.Notifications.{create_notification}
use bodhrik_fullstack_assess.Bookings.Operations.{
  BookingCreate, BookingUpdate, new_booking, notify_unless_actor, notify_cancellation,
  admit_booking, persist_booking, create_booking, apply_status, apply_schedule, apply_service_name,
  save_booking, open_for_update, write_update, update_booking, write_cancellation, open_for_cancel,
  cancel_booking, open_for_delete, delete_booking,
}
use bodhrik_fullstack_assess.Bookings.Transitions.{validate_status_transition}
use bodhrik_fullstack_assess.Bookings.Atomic.{
  admit_booking_session, open_for_update_session, open_for_cancel_session, open_for_delete_session,
}
use bodhrik_fullstack_assess.Bookings.Keeps.Rows.{apply_schedule_session}
use bodhrik_fullstack_assess.Models.{Database}
use bodhrik_fullstack_assess.Common.Table.{All-update_where}
use bodhrik_fullstack_assess.Routes.Consistent.Frames.{
  IsProper, Framed, Keeps, Keeps-bind, Keeps-then, Keeps-if, Keeps-reading,
  Keeps-create_notification, Keeps-rollback, Keeps-commit, Keeps-on_error,
}

-- An INSERT that goes through is of a proper row, and so is an UPDATE.
inserted-IsProper : (db : Database) (b : Booking) → booking_violation db b ≡ none → IsProper b
unfolding booking_violation
inserted-IsProper db b h = (ground arith, ground arith)

checked-IsProper :
    (now : ℕ) (c : Booking) → booking_check c ≡ none → IsProper (record c { updated_at = now })
checked-IsProper now c h = (ground arith, ground arith)

module _ (us : List User) (rs : List Review) where
  -- a session whose bookings alone are changed
  Framed-bookings :
      (bs : List Booking) (s : Session)
      → All IsProper bs
      → Framed us rs s
      → Framed us rs (record s { working = record s.working { bookings = bs } })
  Framed-bookings bs s proper h = record {
    users = h.users;
    reviews = h.reviews;
    proper = proper;
    slots = h.slots;
    stored_users = h.stored_users;
    stored_reviews = h.stored_reviews;
    stored_proper = h.stored_proper;
    stored_slots = h.stored_slots;
  }

  Keeps-insert_booking : (b : Booking) → Keeps us rs (insert_booking b)
  Keeps-insert_booking b s h = elim (Option-cases (booking_violation s.working b)) [
    | inl free ↦ rw free (
        Framed-bookings (s.working.bookings ++ b ∷ []) s
          (All-append IsProper s.working.bookings (b ∷ []) h.proper
            (inserted-IsProper s.working b free, tt))
          h)
    | inr (c, broken) ↦ rw broken h
  ]

  Keeps-flush_booking : (b c : Booking) → Keeps us rs (flush_booking b c)
  Keeps-flush_booking b c s h = elim (Bool-cases (booking_changed b c)) [
    | inr same ↦ rw same h
    | inl changed ↦ elim (Option-cases (booking_check c)) [
      | inl free ↦
          rw (changed, free)
            (Framed-bookings _ s
              (All-update_where IsProper (λ (d : Booking). d.id == c.id)
                (record c { updated_at = s.now }) s.working.bookings (checked-IsProper s.now c free)
                h.proper)
              h)
      | inr (x, broken) ↦ rw (changed, broken) h
    ]
  ]

  Keeps-save_booking : (b c : Booking) → Keeps us rs (save_booking b c)
  unfolding save_booking
  Keeps-save_booking b c =
      Keeps-bind us rs (on_error (flush_booking b c >> commit) rollback)
        (λ _. clock >>= λ now. pure (refreshed_booking now b c))
        (Keeps-on_error us rs (flush_booking b c >> commit) rollback
          (Keeps-then us rs (flush_booking b c) commit (Keeps-flush_booking b c)
            (Keeps-commit us rs))
          (Keeps-rollback us rs))
        (λ _ _ h. h)

  Keeps-notify_unless_actor : (a u : ℕ) (b : Booking) → Keeps us rs (notify_unless_actor a u b)
  unfolding notify_unless_actor
  Keeps-notify_unless_actor a u b s h = elim (Bool-cases (a == u)) [
    | inl own ↦ rw own h
    | inr other ↦ rw other (
        Keeps-bind us rs
          (create_notification u NotificationType.booking_cancelled "Booking Cancelled"
            ("Booking for " <> b.service_name <> " has been cancelled.") (some b.id))
          (λ _. pure tt)
          (Keeps-create_notification us rs u NotificationType.booking_cancelled "Booking Cancelled"
            ("Booking for " <> b.service_name <> " has been cancelled.") (some b.id))
          (λ _ _ k. k) s h)
  ]

  Keeps-notify_cancellation :
      (b : Booking) (actor : User) → Keeps us rs (notify_cancellation b actor)
  unfolding notify_cancellation
  Keeps-notify_cancellation b actor =
      Keeps-bind us rs (notify_unless_actor actor.id b.customer_id b)
        (λ _. notify_unless_actor actor.id b.provider_id b)
        (Keeps-notify_unless_actor actor.id b.customer_id b)
        (λ _. Keeps-notify_unless_actor actor.id b.provider_id b)

  Keeps-persist_booking : (c : ℕ) (b : BookingCreate) → Keeps us rs (persist_booking c b)
  unfolding persist_booking
  Keeps-persist_booking c b s h =
      let id = s.uuid s.drawn in
      let row = new_booking id s.now c b in
      let message = "A new booking request for " <> b.service_name <> " has been submitted." in
      let tell =
        create_notification b.provider_id NotificationType.booking_created "New Booking Request"
          message (some id) in
      let s' : Session = record s { drawn = suc s.drawn } in
      let h' : Framed us rs s' = record {
        users = h.users;
        reviews = h.reviews;
        proper = h.proper;
        slots = h.slots;
        stored_users = h.stored_users;
        stored_reviews = h.stored_reviews;
        stored_proper = h.stored_proper;
        stored_slots = h.stored_slots;
      } in
      Keeps-then us rs (insert_booking row) (tell >> (on_error commit rollback >> pure row))
        (Keeps-insert_booking row)
        (Keeps-then us rs tell (on_error commit rollback >> pure row)
          (Keeps-create_notification us rs b.provider_id NotificationType.booking_created
            "New Booking Request" message (some id))
          (Keeps-then us rs (on_error commit rollback) (pure row)
            (Keeps-on_error us rs commit rollback (Keeps-commit us rs) (Keeps-rollback us rs))
            (λ _ k. k)))
        s' h'

  pub Keeps-create_booking : (c : ℕ) (b : BookingCreate) → Keeps us rs (create_booking c b)
  unfolding create_booking
  Keeps-create_booking c b =
      Keeps-then us rs (admit_booking c b) (persist_booking c b)
        (Keeps-reading us rs (admit_booking c b) (admit_booking_session c b))
        (Keeps-persist_booking c b)

  Keeps-write_cancellation : (actor : User) (b : Booking) → Keeps us rs (write_cancellation actor b)
  unfolding write_cancellation
  Keeps-write_cancellation actor b =
      let c = record b { status = BookingStatus.cancelled } in
      Keeps-then us rs (notify_cancellation c actor) (save_booking b c)
        (Keeps-notify_cancellation c actor) (Keeps-save_booking b c)

  -- a status with its notifications, where the transition is valid
  Keeps-move :
      (b : Booking) (t : BookingStatus) (actor : User) (notify : Action ⊤)
      → Keeps us rs notify
      → Keeps us rs (
          lift (validate_status_transition b.status t actor.role)
          >> (notify >> pure (record b { status = t })))
  Keeps-move b t actor notify k =
      Keeps-then us rs (lift (validate_status_transition b.status t actor.role))
        (notify >> pure (record b { status = t })) (λ _ h. h)
        (Keeps-then us rs notify (pure (record b { status = t })) k (λ _ h. h))

  -- one notification of the customer
  Keeps-tell :
      (u : ℕ) (type : NotificationType) (title message : String) (b : Option ℕ)
      → Keeps us rs (create_notification u type title message b >> pure tt)
  Keeps-tell u type title message b =
      Keeps-then us rs (create_notification u type title message b) (pure tt)
        (Keeps-create_notification us rs u type title message b) (λ _ h. h)

  Keeps-apply_status :
      (t : Option BookingStatus) (b : Booking) (actor : User) → Keeps us rs (apply_status t b actor)
  unfolding apply_status
  Keeps-apply_status none b actor = λ _ h. h
  Keeps-apply_status (some BookingStatus.pending) b actor =
      Keeps-if us rs (status_eq BookingStatus.pending b.status) (pure b) _ (λ _ h. h)
        (Keeps-move b BookingStatus.pending actor (pure tt) (λ _ h. h))
  Keeps-apply_status (some BookingStatus.confirmed) b actor =
      Keeps-if us rs (status_eq BookingStatus.confirmed b.status) (pure b) _ (λ _ h. h)
        (Keeps-move b BookingStatus.confirmed actor
          (create_notification b.customer_id NotificationType.booking_confirmed "Booking Confirmed"
              ("Your booking for " <> b.service_name <> " has been confirmed.") (some b.id)
            >> pure tt)
          (Keeps-tell b.customer_id NotificationType.booking_confirmed "Booking Confirmed"
            ("Your booking for " <> b.service_name <> " has been confirmed.") (some b.id)))
  Keeps-apply_status (some BookingStatus.completed) b actor =
      Keeps-if us rs (status_eq BookingStatus.completed b.status) (pure b) _ (λ _ h. h)
        (Keeps-move b BookingStatus.completed actor
          (create_notification b.customer_id NotificationType.booking_completed "Booking Completed"
              ("Your booking for " <> b.service_name <> " has been completed.") (some b.id)
            >> pure tt)
          (Keeps-tell b.customer_id NotificationType.booking_completed "Booking Completed"
            ("Your booking for " <> b.service_name <> " has been completed.") (some b.id)))
  Keeps-apply_status (some BookingStatus.cancelled) b actor =
      let c = record b { status = BookingStatus.cancelled } in
      Keeps-if us rs (status_eq BookingStatus.cancelled b.status) (pure b) _ (λ _ h. h)
        (Keeps-move b BookingStatus.cancelled actor (notify_cancellation c actor)
          (Keeps-notify_cancellation c actor))

  Keeps-write_update :
      (u : BookingUpdate) (actor : User) (b : Booking) → Keeps us rs (write_update u actor b)
  unfolding write_update
  Keeps-write_update u actor b =
      Keeps-bind us rs (apply_status u.status b actor)
        (λ m. apply_schedule u.start_time u.end_time m >>= λ c.
          save_booking b (apply_service_name u.service_name c))
        (Keeps-apply_status u.status b actor)
        (λ m.
          Keeps-bind us rs (apply_schedule u.start_time u.end_time m)
            (λ c. save_booking b (apply_service_name u.service_name c))
            (Keeps-reading us rs (apply_schedule u.start_time u.end_time m)
              (apply_schedule_session u.start_time u.end_time m))
            (λ c. Keeps-save_booking b (apply_service_name u.service_name c)))

  pub Keeps-update_booking :
      (k : ℕ) (u : BookingUpdate) (actor : User) → Keeps us rs (update_booking k u actor)
  unfolding update_booking
  Keeps-update_booking k u actor =
      Keeps-bind us rs (open_for_update k u actor) (write_update u actor)
        (Keeps-reading us rs (open_for_update k u actor) (λ s. open_for_update_session k actor s u))
        (Keeps-write_update u actor)

  pub Keeps-cancel_booking : (k : ℕ) (actor : User) → Keeps us rs (cancel_booking k actor)
  unfolding cancel_booking
  Keeps-cancel_booking k actor =
      Keeps-bind us rs (open_for_cancel k actor) (write_cancellation actor)
        (Keeps-reading us rs (open_for_cancel k actor) (open_for_cancel_session k actor))
        (Keeps-write_cancellation actor)

  pub Keeps-delete_booking : (k : ℕ) (actor : User) → Keeps us rs (delete_booking k actor)
  unfolding delete_booking
  Keeps-delete_booking k actor =
      Keeps-bind us rs (open_for_delete k actor) (λ b. write_cancellation actor b >> pure tt)
        (Keeps-reading us rs (open_for_delete k actor) (open_for_delete_session k actor))
        (λ b.
          Keeps-then us rs (write_cancellation actor b) (pure tt) (Keeps-write_cancellation actor b)
            (λ _ h. h))
