-- ===== src/Routes/Notifications.antt =====
-- app/api/v1/notifications.py.
use bodhrik_fullstack_assess.Common.{ℕ, String, Bool, Option, map}
use bodhrik_fullstack_assess.Session.{Action, ◌>>=◌}
use bodhrik_fullstack_assess.Auth.{get_current_user}
use bodhrik_fullstack_assess.Notifications.{
  list_notifications, mark_all_as_read, mark_notification_as_read,
}
use bodhrik_fullstack_assess.Schemas.Bodies.{PageQuery, validate_page}
use bodhrik_fullstack_assess.Routes.Reply.{
  App, notification_response, one_notification, many_notifications, marked_reply, Outcome, given,
  returns,
}

module _ (app : App) (token : Option String) where
  unfoldable pub list_notifications_route : Bool → PageQuery → Action Outcome
  list_notifications_route unread_only query = do
    current_user ← get_current_user app.library token
    given (validate_page app.messages query) λ page.
        returns 200 (λ ns. many_notifications (map notification_response ns))
          (list_notifications current_user.id page.skip page.limit unread_only)

  unfoldable pub mark_all_notifications_read_route : Action Outcome
  mark_all_notifications_read_route = do
    current_user ← get_current_user app.library token
    returns 200 marked_reply (mark_all_as_read current_user.id)

  unfoldable pub mark_notification_read_route : ℕ → Action Outcome
  mark_notification_read_route notification_id = do
    current_user ← get_current_user app.library token
    returns 200 (λ n. one_notification (notification_response n))
        (mark_notification_as_read notification_id current_user.id)
