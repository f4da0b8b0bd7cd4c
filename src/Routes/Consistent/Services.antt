-- ===== src/Routes/Consistent/Services.antt =====
-- Each service keeps a database consistent, whatever the call meets.
use bodhrik_fullstack_assess.Common.{ℕ, refl, sym, subst}
use bodhrik_fullstack_assess.Models.{User, Database}
use bodhrik_fullstack_assess.Session.{Session, Action, Environment, open_session, serve}
use bodhrik_fullstack_assess.Bookings.Operations.{
  BookingCreate, BookingUpdate, create_booking, update_booking, cancel_booking, delete_booking,
}
use bodhrik_fullstack_assess.Bookings.Schedule.{IsScheduled}
use bodhrik_fullstack_assess.Bookings.Keeps
use bodhrik_fullstack_assess.Bookings.Keeps.{perform-IsScheduled}
use bodhrik_fullstack_assess.Reviews.{
  ReviewCreate, ReviewUpdate, create_review, update_review, delete_review,
}
use bodhrik_fullstack_assess.Reviews.Table
use bodhrik_fullstack_assess.Reviews.Table.{IsReviewed, perform-IsReviewed}
use bodhrik_fullstack_assess.Notifications.{mark_all_as_read, mark_notification_as_read}
use bodhrik_fullstack_assess.Auth.{Library, UserRegister, register_user}
use bodhrik_fullstack_assess.Routes.Consistent.Completed.{
  KeepsCompleted, create_booking-KeepsCompleted, update_booking-KeepsCompleted,
  cancel_booking-KeepsCompleted, delete_booking-KeepsCompleted,
}
use bodhrik_fullstack_assess.Routes.Consistent.Frames.{Framed, Keeps}
use bodhrik_fullstack_assess.Routes.Consistent.BookingFrames.{
  Keeps-create_booking, Keeps-update_booking, Keeps-cancel_booking, Keeps-delete_booking,
}
use bodhrik_fullstack_assess.Routes.Consistent.Backed.{
  create_review-AllBacked, update_review-AllBacked, delete_review-AllBacked_served,
}
use bodhrik_fullstack_assess.Routes.Consistent.Untouched.{
  create_review-OnlyReviews, update_review-OnlyReviews, delete_review-OnlyReviews,
  mark_all_as_read-OnlyNotifications, mark_notification_as_read-OnlyNotifications,
}
use bodhrik_fullstack_assess.Routes.Consistent.Marks.{
  mark_all_as_read-IsTidy, mark_notification_as_read-IsTidy,
}
use bodhrik_fullstack_assess.Routes.Consistent.Served.{
  ServedBy, ServedBy-of_bookings, ServedBy-more, create_booking-ServedBy, update_booking-ServedBy,
  cancel_booking-ServedBy, delete_booking-ServedBy,
}
use bodhrik_fullstack_assess.Common.{List, inl, inr, ◌∷◌, []}
use bodhrik_fullstack_assess.Routes.Consistent.Users.{
  row, register_user_outcome, register_user-HasUniqueUsers, register_user-OnlyUsers,
}
use bodhrik_fullstack_assess.Routes.Consistent.Invariant.{
  IsConsistent, from_bookings, from_reviews, from_notifications, from_users,
}

module _ (env : Environment) (db : Database) (h : IsConsistent db) where
  abbrev opened : Session
  opened = open_session env db

  pub framed : Framed db.users db.reviews opened
  framed = record {
    users = refl;
    reviews = refl;
    proper = h.proper;
    slots = h.tidy;
    stored_users = refl;
    stored_reviews = refl;
    stored_proper = h.proper;
    stored_slots = h.tidy;
  }

  booking_call :
      {A : Type 0} (m : Action A)
      → IsScheduled (m opened).1.committed
      → ServedBy db.users (m opened).1.committed
      → KeepsCompleted db (m opened).1.committed
      → Keeps db.users db.reviews m
      → IsConsistent (m opened).1.committed
  booking_call m scheduled served keep frame =
      let f = frame opened framed in
      from_bookings db (m opened).1.committed h scheduled f.stored_proper served keep f.stored_users
        f.stored_reviews f.stored_slots

  pub create_booking-IsConsistent :
      (user : User) (b : BookingCreate) → IsConsistent (create_booking user.id b opened).1.committed
  unfolding Keeps.perform serve
  create_booking-IsConsistent user b =
      booking_call (create_booking user.id b)
        (perform-IsScheduled env user (Keeps.Request.create b) db h.scheduled)
        (create_booking-ServedBy opened refl h.served user.id b)
        (create_booking-KeepsCompleted opened refl user.id b)
        (Keeps-create_booking db.users db.reviews user.id b)

  pub update_booking-IsConsistent :
      (k : ℕ) (u : BookingUpdate) (user : User)
      → IsConsistent (update_booking k u user opened).1.committed
  unfolding Keeps.perform serve
  update_booking-IsConsistent k u user =
      booking_call (update_booking k u user)
        (perform-IsScheduled env user (Keeps.Request.update k u) db h.scheduled)
        (update_booking-ServedBy opened refl db.users h.served k u user)
        (update_booking-KeepsCompleted opened refl k u user)
        (Keeps-update_booking db.users db.reviews k u user)

  pub cancel_booking-IsConsistent :
      (k : ℕ) (user : User) → IsConsistent (cancel_booking k user opened).1.committed
  unfolding Keeps.perform serve
  cancel_booking-IsConsistent k user =
      booking_call (cancel_booking k user)
        (perform-IsScheduled env user (Keeps.Request.cancel k) db h.scheduled)
        (cancel_booking-ServedBy opened refl db.users h.served k user)
        (cancel_booking-KeepsCompleted opened refl k user)
        (Keeps-cancel_booking db.users db.reviews k user)

  pub delete_booking-IsConsistent :
      (k : ℕ) (user : User) → IsConsistent (delete_booking k user opened).1.committed
  unfolding Keeps.perform serve
  delete_booking-IsConsistent k user =
      booking_call (delete_booking k user)
        (perform-IsScheduled env user (Keeps.Request.remove k) db h.scheduled)
        (delete_booking-ServedBy opened refl db.users h.served k user)
        (delete_booking-KeepsCompleted opened refl k user)
        (Keeps-delete_booking db.users db.reviews k user)

  pub create_review-IsConsistent :
      (user : User) (r : ReviewCreate) → IsConsistent (create_review user r opened).1.committed
  unfolding serve Table.perform
  create_review-IsConsistent user r =
      from_reviews db (create_review user r opened).1.committed h
        (create_review-OnlyReviews env db user r)
        (perform-IsReviewed env (Table.Request.create user r) db h.reviewed)
        (create_review-AllBacked env db h.backed user r)

  pub update_review-IsConsistent :
      (k : ℕ) (u : ReviewUpdate) (user : User)
      → IsConsistent (update_review k u user opened).1.committed
  unfolding serve Table.perform
  update_review-IsConsistent k u user =
      from_reviews db (update_review k u user opened).1.committed h
        (update_review-OnlyReviews env db k u user)
        (perform-IsReviewed env (Table.Request.update k u user) db h.reviewed)
        (update_review-AllBacked env db h.backed k u user)

  pub delete_review-IsConsistent :
      (k : ℕ) (user : User) → IsConsistent (delete_review k user opened).1.committed
  unfolding serve Table.perform
  delete_review-IsConsistent k user =
      from_reviews db (delete_review k user opened).1.committed h
        (delete_review-OnlyReviews env db k user)
        (perform-IsReviewed env (Table.Request.delete k user) db h.reviewed)
        (delete_review-AllBacked_served env db h.backed k user)

  pub mark_all_as_read-IsConsistent : (u : ℕ) → IsConsistent (mark_all_as_read u opened).1.committed
  unfolding serve
  mark_all_as_read-IsConsistent u =
      from_notifications db (mark_all_as_read u opened).1.committed h
        (mark_all_as_read-OnlyNotifications env db u) (mark_all_as_read-IsTidy env db u h.tidy)

  pub mark_notification_as_read-IsConsistent :
      (k u : ℕ) → IsConsistent (mark_notification_as_read k u opened).1.committed
  unfolding serve
  mark_notification_as_read-IsConsistent k u =
      from_notifications db (mark_notification_as_read k u opened).1.committed h
        (mark_notification_as_read-OnlyNotifications env db k u)
        (mark_notification_as_read-IsTidy env db k u h.tidy)

  still_served :
      (lib : Library) (salt : ℕ) (r : UserRegister)
      → let d = (register_user lib salt r opened).1.committed in ServedBy d.users d
  unfolding serve
  still_served lib salt r =
      let d = (register_user lib salt r opened).1.committed in
      let (bs, _, _) = register_user-OnlyUsers env db lib salt r in
      let old : ServedBy db.users d = ServedBy-of_bookings db.users db d bs h.served in
      elim (register_user_outcome env db lib salt r) [
        | inl same ↦ subst (λ (xs : List User). ServedBy xs d) (sym same) old
        | inr more ↦
            subst (λ (xs : List User). ServedBy xs d) (sym more)
              (ServedBy-more db.users (row env db lib salt r ∷ []) d old)
      ]

  pub register_user-IsConsistent :
      (lib : Library) (salt : ℕ) (r : UserRegister)
      → IsConsistent (register_user lib salt r opened).1.committed
  unfolding serve
  register_user-IsConsistent lib salt r =
      from_users db (register_user lib salt r opened).1.committed h
        (register_user-HasUniqueUsers env db lib salt r h.accounts) (still_served lib salt r)
        (register_user-OnlyUsers env db lib salt r)
