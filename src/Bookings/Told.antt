-- ===== src/Bookings/Told.antt =====
-- Who hears of a cancellation.
use bodhrik_fullstack_assess.Common.{
  ℕ, ◌≡◌, ◌⊎◌, inl, inr, Bool, true, false, some, List, arith, ◌<>◌, ◌==◌,
}
use bodhrik_fullstack_assess.Models.{NotificationType, User, Booking, Notification}
use bodhrik_fullstack_assess.Session.{Session, ok, pure}
use bodhrik_fullstack_assess.Session.Laws.{bind_inv}
use bodhrik_fullstack_assess.Notifications.{create_notification}
use bodhrik_fullstack_assess.Bookings.Operations.{notify_unless_actor, notify_cancellation}
use bodhrik_fullstack_assess.Notifications.Create.{
  is_told, create_notification_told, create_notification_keeps, create_notification_others,
}

abbrev pub told_of_cancellation : ℕ → Booking → List Notification → Bool
told_of_cancellation v b ns = is_told v b.id NotificationType.booking_cancelled ns

module _ (a u : ℕ) (b : Booking) (s : Session) where
  abbrev heard : ℕ → List Notification → Bool
  heard v ns = told_of_cancellation v b ns

  notify_unless_actor_told :
      (notify_unless_actor a u b s).0 ≡ ok tt
      → (a == u) ≡ false
      → heard u (notify_unless_actor a u b s).1.working.notifications ≡ true
  unfolding notify_unless_actor
  notify_unless_actor_told h ne =
      let message = "Booking for " <> b.service_name <> " has been cancelled." in
      let (r, sent, step) =
        bind_inv
          (create_notification u NotificationType.booking_cancelled "Booking Cancelled" message
            (some b.id))
          (λ _. pure tt) s (rw ne at h) in
      rw ne (
        rw step (
          create_notification_told u NotificationType.booking_cancelled "Booking Cancelled" message
            b.id s sent))

  notify_unless_actor_keeps :
      (v : ℕ)
      → heard v s.working.notifications ≡ true
      → heard v (notify_unless_actor a u b s).1.working.notifications ≡ true
  unfolding notify_unless_actor
  notify_unless_actor_keeps v h = ground (
    arith,
    create_notification_keeps u NotificationType.booking_cancelled "Booking Cancelled"
        ("Booking for " <> b.service_name <> " has been cancelled.") (some b.id) s v b.id
        NotificationType.booking_cancelled,
  )

  notify_unless_actor_others :
      (v : ℕ)
      → (u == v) ≡ false
      → heard v (notify_unless_actor a u b s).1.working.notifications
        ≡ heard v s.working.notifications
  unfolding notify_unless_actor
  notify_unless_actor_others v ne = ground (
    arith,
    create_notification_others u NotificationType.booking_cancelled "Booking Cancelled"
        ("Booking for " <> b.service_name <> " has been cancelled.") (some b.id) s v b.id
        NotificationType.booking_cancelled,
  )

-- After the notifications of a cancellation, a participant other than the actor is told.
pub notify_cancellation_told :
    (b : Booking) (actor : User) (s : Session) (v : ℕ)
    → (notify_cancellation b actor s).0 ≡ ok tt
    → (v ≡ b.customer_id) ⊎ (v ≡ b.provider_id)
    → (actor.id == v) ≡ false
    → told_of_cancellation v b (notify_cancellation b actor s).1.working.notifications ≡ true
unfolding notify_cancellation
notify_cancellation_told b actor s v h who ne =
    let s₁ = (notify_unless_actor actor.id b.customer_id b s).1 in
    let (_, sent, step) =
      bind_inv (notify_unless_actor actor.id b.customer_id b)
        (λ _. notify_unless_actor actor.id b.provider_id b) s h in
    let sent' : (notify_unless_actor actor.id b.provider_id b s₁).0 ≡ ok tt = rw step at h in
    rw step (elim who [
      | inl e ↦
          notify_unless_actor_keeps actor.id b.provider_id b s₁ v
            (rw e (notify_unless_actor_told actor.id b.customer_id b s sent (rw e at ne)))
      | inr e ↦ rw e (notify_unless_actor_told actor.id b.provider_id b s₁ sent' (rw e at ne))
    ])

-- Nobody else is.
pub notify_cancellation_others :
    (b : Booking) (actor : User) (s : Session) (v : ℕ)
    → (b.customer_id == v) ≡ false
    → (b.provider_id == v) ≡ false
    → told_of_cancellation v b (notify_cancellation b actor s).1.working.notifications
      ≡ told_of_cancellation v b s.working.notifications
unfolding notify_cancellation
notify_cancellation_others b actor s v nc np = ground (
  arith,
  notify_unless_actor_others actor.id b.customer_id b s v nc,
  notify_unless_actor_others actor.id b.provider_id b
      (notify_unless_actor actor.id b.customer_id b s).1 v np,
)
