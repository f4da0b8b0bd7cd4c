-- ===== src/Routes/Consistent/JobFrames.antt =====
-- The jobs leave users and reviews alone and double no notification.
use bodhrik_fullstack_assess.Common.{ℕ, String, Bool, some, List, [], ◌∷◌, ◌+◌}
use bodhrik_fullstack_assess.Models.{NotificationType, User, Booking, Review}
use bodhrik_fullstack_assess.Session.{Action, pure, commit, ◌>>=◌, ◌>>◌}
use bodhrik_fullstack_assess.Common.Table.{select}
use bodhrik_fullstack_assess.Notifications.{create_notification}
use bodhrik_fullstack_assess.Jobs.{notify_pair, for_each, run_job, created}
use bodhrik_fullstack_assess.Routes.Consistent.Frames.{
  Keeps, Keeps-bind, Keeps-then, Keeps-create_notification, Keeps-commit,
}

module _ (us : List User) (rs : List Review) where
  Keeps-notify_pair :
      (type : NotificationType) (title cm pm : String) (b : Booking)
      → Keeps us rs (notify_pair type title cm pm b)
  unfolding notify_pair
  Keeps-notify_pair type title cm pm b =
      Keeps-bind us rs (create_notification b.customer_id type title cm (some b.id))
        (λ cust. create_notification b.provider_id type title pm (some b.id) >>= λ prov.
          pure (created cust + created prov))
        (Keeps-create_notification us rs b.customer_id type title cm (some b.id))
        (λ cust.
          Keeps-bind us rs (create_notification b.provider_id type title pm (some b.id))
            (λ prov. pure (created cust + created prov))
            (Keeps-create_notification us rs b.provider_id type title pm (some b.id)) (λ _ _ h. h))

  Keeps-for_each :
      (body : Booking → Action ℕ)
      → ((b : Booking) → Keeps us rs (body b))
      → (bs : List Booking) (n : ℕ) → Keeps us rs (for_each body bs n)
  unfolding for_each
  Keeps-for_each body hb [] n = λ _ h. h
  Keeps-for_each body hb (b ∷ bs) n =
      Keeps-bind us rs (body b) (λ m. for_each body bs (n + m)) (hb b)
        (λ m. Keeps-for_each body hb bs (n + m))

  pub Keeps-run_job :
      (due : ℕ → Booking → Bool) (type : NotificationType) (title : String)
      (cm pm : Booking → String)
      → Keeps us rs (run_job due (λ b. notify_pair type title (cm b) (pm b) b))
  unfolding run_job
  Keeps-run_job due type title cm pm s h =
      let body = λ (b : Booking). notify_pair type title (cm b) (pm b) b in
      Keeps-bind us rs (for_each body (select (due s.now) s.working.bookings) 0)
        (λ n. commit >> pure n)
        (Keeps-for_each body (λ b. Keeps-notify_pair type title (cm b) (pm b) b)
          (select (due s.now) s.working.bookings) 0)
        (λ n. Keeps-then us rs commit (pure n) (Keeps-commit us rs) (λ _ k. k)) s h
