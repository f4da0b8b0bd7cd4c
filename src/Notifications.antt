-- ===== src/Notifications.antt =====
-- app/services/notification_service.py. The proofs are in the modules below.
pub mod Slots
pub mod Create
pub mod Read
use bodhrik_fullstack_assess.Common.{
  ℕ, String, Bool, true, false, not, ◌&&◌, ◌||◌, Option, none, some, List, length, ltb, ◌==◌, ⊤,
  if◌then◌else◌,
}
use bodhrik_fullstack_assess.Common.Table.{select, update_where, order_by, page}
use bodhrik_fullstack_assess.Models.{NotificationType, Notification, Database}
use bodhrik_fullstack_assess.Session.{
  Session, Action, pure, query, http_error, or_raise, raise_if, on_error, ◌>>=◌, ◌>>◌, uuid4, clock,
  find_notification, insert_or_ignore, execute, commit, rollback,
}

-- the row that `insert(Notification).values(…)` sends: `is_read` and `read_at` by default
abbrev pub new_notification :
    ℕ → ℕ → ℕ → NotificationType → String → String → Option ℕ → Notification
new_notification id now user_id type title message booking_id = record {
  id = id;
  user_id = user_id;
  booking_id = booking_id;
  type = type;
  title = title;
  message = message;
  is_read = false;
  created_at = now;
  read_at = none;
}

unfoldable pub create_notification :
    ℕ → NotificationType → String → String → Option ℕ → Action (Option Notification)
create_notification user_id type title message booking_id = do
  id ← uuid4
  now ← clock
  insert_or_ignore (new_notification id now user_id type title message booking_id)

-- ORDER BY created_at DESC, id DESC
abbrev pub newest_first : Notification → Notification → Bool
newest_first n m = ltb m.created_at n.created_at || (n.created_at == m.created_at && ltb m.id n.id)

abbrev pub is_listed : ℕ → Bool → Notification → Bool
is_listed user_id unread_only n = n.user_id == user_id && (not unread_only || not n.is_read)

unfoldable pub list_notifications : ℕ → ℕ → ℕ → Bool → Action (List Notification)
list_notifications user_id skip limit unread_only = query (λ db.
    page skip limit
      (order_by newest_first (select (is_listed user_id unread_only) db.notifications)))

abbrev pub mark_read : ℕ → Notification → Notification
mark_read now n = record n { is_read = true; read_at = some now }

-- the flush of the changed row
abbrev pub set_notification : Notification → Database → Database
set_notification n db = record db {
  notifications = update_where (λ m. m.id == n.id) (λ _. n) db.notifications;
}

unfoldable pub mark_notification_as_read : ℕ → ℕ → Action Notification
mark_notification_as_read notification_id user_id = do
  found ← query (find_notification notification_id)
  notification ← or_raise found 404 "Notification not found"
  raise_if (not (notification.user_id == user_id)) 403 "Not authorized to access this notification"
  now ← clock
  if notification.is_read then pure notification else do
    on_error (execute (set_notification (mark_read now notification)) >> commit) rollback
    pure (mark_read now notification)

abbrev pub is_unread_of : ℕ → Notification → Bool
is_unread_of user_id n = n.user_id == user_id && not n.is_read

-- returns `result.rowcount`
unfoldable pub mark_all_as_read : ℕ → Action ℕ
mark_all_as_read user_id = do
  now ← clock
  count ← query (λ db. length (select (is_unread_of user_id) db.notifications))
  execute (λ db. record db {
    notifications = update_where (is_unread_of user_id) (mark_read now) db.notifications;
  })
  on_error commit rollback
  pure count
