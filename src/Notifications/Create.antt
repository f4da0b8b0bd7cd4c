-- ===== src/Notifications/Create.antt =====
-- `create_notification` and the slot of a user, a booking and a type.
use bodhrik_fullstack_assess.Common.{
  ◌≢◌, refl, List, Bool, false, ◌&&◌, ◌==◌, any, any-append, [], ◌∷◌, true, ℕ, String, ◌≡◌, Option,
  none, some, arith,
}
use bodhrik_fullstack_assess.Models.Constraints.{null_eq}
use bodhrik_fullstack_assess.Models.{type_eq, Notification, NotificationType, Notification}
use bodhrik_fullstack_assess.Session.{Session, ok}
use bodhrik_fullstack_assess.Notifications.{create_notification, new_notification}
use bodhrik_fullstack_assess.Notifications.Slots.{
  IsDeduplicated, append-IsDeduplicated, any-append_slot, null_slot_free,
}

module _ (u : ℕ) (type : NotificationType) (title message : String) (b : Option ℕ)
    (s : Session) where
  -- The row that the call would insert.
  abbrev row : Notification
  row = new_notification (s.uuid s.drawn) s.now u type title message b

  -- Every call leaves a table without duplicates as one.
  pub create_notification-IsDeduplicated :
      IsDeduplicated s.working.notifications
      → IsDeduplicated (create_notification u type title message b s).1.working.notifications
  unfolding create_notification
  create_notification-IsDeduplicated h =
      ground (arith, append-IsDeduplicated s.working.notifications row)

  -- Nothing is committed.
  pub create_notification_committed :
      (create_notification u type title message b s).1.committed ≡ s.committed
  unfolding create_notification
  create_notification_committed = ground arith

-- After a call that did not raise, a second one for the same user, booking and type returns
-- `None` and changes no table, whatever title and message it carries.
pub create_notification_twice :
    (u : ℕ) (type : NotificationType) (title message title' message' : String) (b : ℕ) (s : Session)
    → {r : Option Notification} → (create_notification u type title message (some b) s).0 ≡ ok r
    → let s' = (create_notification u type title message (some b) s).1 in
      let again = create_notification u type title' message' (some b) s' in
      (again.0 ≡ ok none) × (again.1.working ≡ s'.working)
unfolding create_notification
create_notification_twice u type title message title' message' b s e = ground (
  arith,
  any-append_slot s.working.notifications (row u type title message (some b) s)
      (row u type title' message' (some b) s),
)

-- The table holds a notification of the type for the user about the booking.
abbrev pub is_told : ℕ → ℕ → NotificationType → List Notification → Bool
is_told user_id booking_id type ns =
    any
      (λ n. n.user_id == user_id && (null_eq n.booking_id (some booking_id) && type_eq n.type type))
      ns

module _ (u : ℕ) (type : NotificationType) (title message : String) (b : Option ℕ)
    (s : Session) where
  abbrev after : List Notification
  after = (create_notification u type title message b s).1.working.notifications

  -- What was in the table stays there.
  pub create_notification_keeps :
      (v k : ℕ) (t : NotificationType)
      → is_told v k t s.working.notifications ≡ true
      → is_told v k t (create_notification u type title message b s).1.working.notifications ≡ true
  unfolding create_notification
  create_notification_keeps v k t h = ground (
    arith,
    any-append (λ n. n.user_id == v && (null_eq n.booking_id (some k) && type_eq n.type t))
        s.working.notifications (row u type title message b s ∷ []),
  )

  -- No other user is told anything.
  pub create_notification_others :
      (v k : ℕ) (t : NotificationType)
      → (u == v) ≡ false
      → is_told v k t (create_notification u type title message b s).1.working.notifications
        ≡ is_told v k t s.working.notifications
  unfolding create_notification
  create_notification_others v k t h = ground (
    arith,
    any-append (λ n. n.user_id == v && (null_eq n.booking_id (some k) && type_eq n.type t))
        s.working.notifications (row u type title message b s ∷ []),
  )

-- After a call that did not raise, the user is told.
pub create_notification_told :
    (u : ℕ) (type : NotificationType) (title message : String) (b : ℕ) (s : Session)
    → {r : Option Notification} → (create_notification u type title message (some b) s).0 ≡ ok r
    → is_told u b type (create_notification u type title message (some b) s).1.working.notifications
      ≡ true
unfolding create_notification
create_notification_told u type title message b s {r} h = ground (
  arith,
  any-append (λ n. n.user_id == u && (null_eq n.booking_id (some b) && type_eq n.type type))
      s.working.notifications (row u type title message (some b) s ∷ []),
)

-- A notification about no booking is inserted each time: NULL equals nothing, so the unique
-- constraint never holds such a row back.
pub create_notification_null :
    (u : ℕ) (type : NotificationType) (title message : String) (s : Session)
    → (create_notification u type title message none s).0 ≢ ok none
unfolding create_notification
create_notification_null u type title message s h =
    ground (arith, null_slot_free s.working.notifications (row u type title message none s) refl)
