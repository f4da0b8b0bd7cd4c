-- ===== src/Jobs/Pair.antt =====
-- One pass of a job's loop: what it tells, keeps and counts.
use bodhrik_fullstack_assess.Common.{
  ℕ, suc, ◌+◌, String, ◌≡◌, refl, ap, ◌∙◌, true, false, ◌&&◌, Option, none, some, [], ◌∷◌, arith,
  ◌==◌, length, length-append, any-append,
}
use bodhrik_fullstack_assess.Models.{NotificationType, type_eq, Booking, Notification}
use bodhrik_fullstack_assess.Session.{Session, ok, pure, ◌>>=◌}
use bodhrik_fullstack_assess.Session.Laws.{bind_keeps, bind_inv}
use bodhrik_fullstack_assess.Notifications.{create_notification, new_notification}
use bodhrik_fullstack_assess.Notifications.Slots.{IsDeduplicated}
use bodhrik_fullstack_assess.Notifications.Create.{
  is_told, create_notification_keeps, create_notification_told, create_notification-IsDeduplicated,
}
use bodhrik_fullstack_assess.Models.Constraints.{null_eq}
use bodhrik_fullstack_assess.Jobs.{created, notify_pair}

-- Only notifications are written, and nothing is committed.
pub record OnlyNotifies (s s' : Session) : Type 0 where
  pub users : s'.working.users ≡ s.working.users
  pub bookings : s'.working.bookings ≡ s.working.bookings
  pub reviews : s'.working.reviews ≡ s.working.reviews
  pub committed : s'.committed ≡ s.committed
  pub online : s'.online ≡ s.online
  pub now : s'.now ≡ s.now

pub OnlyNotifies-trans : {s t u : Session} → OnlyNotifies s t → OnlyNotifies t u → OnlyNotifies s u
OnlyNotifies-trans h k = record {
  users = k.users ∙ h.users;
  bookings = k.bookings ∙ h.bookings;
  reviews = k.reviews ∙ h.reviews;
  committed = k.committed ∙ h.committed;
  online = k.online ∙ h.online;
  now = k.now ∙ h.now;
}

module _ (type : NotificationType) (title cm pm : String) (b : Booking) (s : Session) where
  pub notify_pair-OnlyNotifies : OnlyNotifies s (notify_pair type title cm pm b s).1
  unfolding notify_pair create_notification
  notify_pair-OnlyNotifies = record {
    users = ground arith;
    bookings = ground arith;
    reviews = ground arith;
    committed = ground arith;
    online = ground arith;
    now = ground arith;
  }

  -- A pass that returns has made both calls.
  pair_inv :
      {n : ℕ}
      → (notify_pair type title cm pm b s).0 ≡ ok n
      → let first_call = create_notification b.customer_id type title cm (some b.id) s in
        let second_call =
          create_notification b.provider_id type title pm (some b.id) first_call.1 in
        (cust : Option Notification) × (prov : Option Notification) × (first_call.0 ≡ ok cust)
        × (second_call.0 ≡ ok prov)
        × (n ≡ created cust + created prov)
        × ((notify_pair type title cm pm b s).1 ≡ second_call.1)
  unfolding notify_pair
  pair_inv {n} h =
      let m = create_notification b.customer_id type title cm (some b.id) in
      let (cust, e, step) =
        bind_inv m
          (λ c. create_notification b.provider_id type title pm (some b.id) >>= λ p.
            pure (created c + created p))
          s h in
      let (prov, e', step') =
        bind_inv (create_notification b.provider_id type title pm (some b.id))
          (λ p. pure (created cust + created p)) (m s).1 (rw step at h) in
      (cust, prov, e, e', ground arith, ap (λ r. r.1) (step ∙ step'))

module _ (u : ℕ) (type : NotificationType) (title message : String) (b : ℕ) (s : Session) where
  -- Nobody is told about another booking.
  pub create_notification_elsewhere :
      (v k : ℕ) (t : NotificationType)
      → (b == k) ≡ false
      → is_told v k t (create_notification u type title message (some b) s).1.working.notifications
        ≡ is_told v k t s.working.notifications
  unfolding create_notification
  create_notification_elsewhere v k t h = ground (
    arith,
    any-append (λ n. n.user_id == v && (null_eq n.booking_id (some k) && type_eq n.type t))
        s.working.notifications
        (new_notification (s.uuid s.drawn) s.now u type title message (some b) ∷ []),
  )

  create_notification_counts :
      {r : Option Notification}
      → (create_notification u type title message (some b) s).0 ≡ ok r
      → length (create_notification u type title message (some b) s).1.working.notifications
        ≡ length s.working.notifications + created r
  unfolding create_notification
  create_notification_counts {r} h = ground (
    arith,
    length-append s.working.notifications
        (new_notification (s.uuid s.drawn) s.now u type title message (some b) ∷ []),
  )

  -- Who is told already is not told again.
  create_notification_told_before :
      is_told u b type s.working.notifications ≡ true
      → create_notification u type title message (some b) s
        ≡ (ok none, record s { drawn = suc s.drawn })
  unfolding create_notification
  create_notification_told_before h = rw h refl

module _ (type : NotificationType) (title cm pm : String) (b : Booking) (s : Session) where
  -- The count is the growth of the table.
  pub notify_pair_counts :
      {n : ℕ}
      → (notify_pair type title cm pm b s).0 ≡ ok n
      → length (notify_pair type title cm pm b s).1.working.notifications
        ≡ length s.working.notifications + n
  notify_pair_counts {n} h =
      let (cust, prov, e, e', sum, left) = pair_inv type title cm pm b s h in
      let s' = (create_notification b.customer_id type title cm (some b.id) s).1 in
      rw left (
        ground (
          arith,
          sum,
          create_notification_counts b.customer_id type title cm b.id s e,
          create_notification_counts b.provider_id type title pm b.id s' e',
        ))

  -- Both are told after a pass that did not raise.
  pub notify_pair_told :
      {n : ℕ}
      → (notify_pair type title cm pm b s).0 ≡ ok n
      → let ns = (notify_pair type title cm pm b s).1.working.notifications in
        (is_told b.customer_id b.id type ns ≡ true) × (is_told b.provider_id b.id type ns ≡ true)
  notify_pair_told {n} h =
      let (cust, prov, e, e', sum, left) = pair_inv type title cm pm b s h in
      let s' = (create_notification b.customer_id type title cm (some b.id) s).1 in
      rw left (
        create_notification_keeps b.provider_id type title pm (some b.id) s' b.customer_id b.id type
            (create_notification_told b.customer_id type title cm b.id s e),
        create_notification_told b.provider_id type title pm b.id s' e',
      )

  -- Where both are told already, a pass counts nothing and writes nothing.
  pub notify_pair_again :
      is_told b.customer_id b.id type s.working.notifications ≡ true
      → is_told b.provider_id b.id type s.working.notifications ≡ true
      → ((notify_pair type title cm pm b s).0 ≡ ok 0)
        × ((notify_pair type title cm pm b s).1.working ≡ s.working)
  unfolding notify_pair
  notify_pair_again h h' =
      let told = create_notification_told_before b.customer_id type title cm b.id s h in
      let told' =
        create_notification_told_before b.provider_id type title pm b.id
          (record s { drawn = suc s.drawn }) h' in
      (ground (arith, told, told'), ground (arith, told, told'))

  -- What each call keeps, the pass keeps.
  pair_keeps :
      (P : Session → Type 0)
      → P s
      → ((u : ℕ) (message : String) (s' : Session)
          → P s'
          → P (create_notification u type title message (some b.id) s').1)
      → P (notify_pair type title cm pm b s).1
  unfolding notify_pair
  pair_keeps P h step =
      let first_call = create_notification b.customer_id type title cm (some b.id) in
      let second_call = create_notification b.provider_id type title pm (some b.id) in
      bind_keeps P first_call (λ c. second_call >>= λ p. pure (created c + created p)) s
        (step b.customer_id cm s h)
        (λ c _.
          bind_keeps P second_call (λ p. pure (created c + created p)) (first_call s).1
            (step b.provider_id pm (first_call s).1 (step b.customer_id cm s h))
            (λ p _. step b.provider_id pm (first_call s).1 (step b.customer_id cm s h)))

  -- What was told stays told.
  pub notify_pair_keeps :
      (v k : ℕ) (t : NotificationType)
      → is_told v k t s.working.notifications ≡ true
      → is_told v k t (notify_pair type title cm pm b s).1.working.notifications ≡ true
  unfolding notify_pair
  notify_pair_keeps v k t h =
      pair_keeps (λ s'. is_told v k t s'.working.notifications ≡ true) h
        (λ u m s' h'. create_notification_keeps u type title m (some b.id) s' v k t h')

  pub notify_pair-IsDeduplicated :
      IsDeduplicated s.working.notifications
      → IsDeduplicated (notify_pair type title cm pm b s).1.working.notifications
  unfolding notify_pair
  notify_pair-IsDeduplicated h =
      pair_keeps (λ s'. IsDeduplicated s'.working.notifications) h
        (λ u m s' h'. create_notification-IsDeduplicated u type title m (some b.id) s' h')

  pub notify_pair_elsewhere :
      (v k : ℕ) (t : NotificationType)
      → (b.id == k) ≡ false
      → is_told v k t (notify_pair type title cm pm b s).1.working.notifications
        ≡ is_told v k t s.working.notifications
  notify_pair_elsewhere v k t ne =
      pair_keeps
        (λ s'. is_told v k t s'.working.notifications ≡ is_told v k t s.working.notifications) refl
        (λ u m s' h'. create_notification_elsewhere u type title m b.id s' v k t ne ∙ h')
