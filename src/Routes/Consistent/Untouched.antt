-- ===== src/Routes/Consistent/Untouched.antt =====
-- What the review service and the marks of notifications leave alone.
use bodhrik_fullstack_assess.Common.{ℕ, ◌≡◌, refl, arith}
use bodhrik_fullstack_assess.Models.{User, Review, Database}
use bodhrik_fullstack_assess.Session.{Environment, open_session, serve}
use bodhrik_fullstack_assess.Session.Laws.{bind_keeps}
use bodhrik_fullstack_assess.Reviews.{
  ReviewCreate, ReviewUpdate, persist_review, create_review, update_review, open_own_review,
  save_review, delete_review,
}
use bodhrik_fullstack_assess.Reviews.Guards.{admit_review_session, open_own_review_session}
use bodhrik_fullstack_assess.Notifications.{mark_notification_as_read, mark_all_as_read}

-- only the reviews have changed
abbrev pub OnlyReviews : Database → Database → Type 0
OnlyReviews db d =
    (d.users ≡ db.users) × (d.bookings ≡ db.bookings) × (d.notifications ≡ db.notifications)

module _ (env : Environment) (db : Database) where
  pub create_review-OnlyReviews :
      (user : User) (r : ReviewCreate) → OnlyReviews db (serve env (create_review user r) db).1
  unfolding serve create_review persist_review
  create_review-OnlyReviews user r =
      ground (arith, admit_review_session user r (open_session env db))

  save_review-OnlyReviews :
      (u : ReviewUpdate) (r : Review)
      → OnlyReviews db (save_review u r (open_session env db)).1.committed
  unfolding save_review
  save_review-OnlyReviews u r = ground arith

  pub update_review-OnlyReviews :
      (k : ℕ) (u : ReviewUpdate) (user : User)
      → OnlyReviews db (serve env (update_review k u user) db).1
  unfolding serve update_review
  update_review-OnlyReviews k u user =
      let s = open_session env db in
      bind_keeps (λ t. OnlyReviews db t.committed) (open_own_review k user) (save_review u) s
        (rw (open_own_review_session k user s) (refl, refl, refl))
        (λ r _. rw (open_own_review_session k user s) (save_review-OnlyReviews u r))

  pub delete_review-OnlyReviews :
      (k : ℕ) (user : User) → OnlyReviews db (serve env (delete_review k user) db).1
  unfolding serve delete_review
  delete_review-OnlyReviews k user = ground arith

-- only the notifications have changed
abbrev pub OnlyNotifications : Database → Database → Type 0
OnlyNotifications db d =
    (d.users ≡ db.users) × (d.bookings ≡ db.bookings) × (d.reviews ≡ db.reviews)

module _ (env : Environment) (db : Database) where
  pub mark_all_as_read-OnlyNotifications :
      (u : ℕ) → OnlyNotifications db (serve env (mark_all_as_read u) db).1
  unfolding serve mark_all_as_read
  mark_all_as_read-OnlyNotifications u = ground arith

  pub mark_notification_as_read-OnlyNotifications :
      (k u : ℕ) → OnlyNotifications db (serve env (mark_notification_as_read k u) db).1
  unfolding serve mark_notification_as_read
  mark_notification_as_read-OnlyNotifications k u = ground arith
