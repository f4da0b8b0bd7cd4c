-- ===== src/Tests/Notifications.antt =====
-- Notifications.
use bodhrik_fullstack_assess.Common.{◌≡◌, refl, none, some, [], ◌∷◌, length}
use bodhrik_fullstack_assess.Common.Table.{select}
use bodhrik_fullstack_assess.Models.{NotificationType, Notification}
use bodhrik_fullstack_assess.Session.{Session, ok, open_session}
use bodhrik_fullstack_assess.Models.Constraints.{notification_violation}
use bodhrik_fullstack_assess.Notifications.{create_notification, new_notification}
use bodhrik_fullstack_assess.Tests.Data.{db, env, s}
use bodhrik_fullstack_assess.Notifications.Create.{create_notification_twice}
use bodhrik_fullstack_assess.Notifications.{mark_all_as_read, is_unread_of}
use bodhrik_fullstack_assess.Notifications.Read.{of_others, mark_all_as_read_lem}

abbrev note : Notification
note = new_notification 30 900 3 NotificationType.booking_reminder "Title" "Text" (some 11)

abbrev other_note : Notification
other_note = new_notification 31 900 2 NotificationType.booking_reminder "Title" "Text" (some 11)

abbrev told : Session
told = open_session env (record db { notifications = note ∷ other_note ∷ [] })

create_notification_twice_example :
    let s' = (create_notification 3 NotificationType.booking_overdue "A" "B" (some 11) s).1 in
    let again = create_notification 3 NotificationType.booking_overdue "C" "D" (some 11) s' in
    (again.0 ≡ ok none) × (again.1.working ≡ s'.working)
unfolding create_notification notification_violation
create_notification_twice_example =
    create_notification_twice 3 NotificationType.booking_overdue "A" "B" "C" "D" 11 s
      {r = some (new_notification 50 1000 3 NotificationType.booking_overdue "A" "B" (some 11))}
      refl

mark_all_as_read_example :
    let s' = (mark_all_as_read 3 told).1 in
    ((mark_all_as_read 3 told).0 ≡ ok (length (select (is_unread_of 3) told.working.notifications)))
    × (select (is_unread_of 3) s'.committed.notifications ≡ [])
    × (select (of_others 3) s'.committed.notifications
        ≡ select (of_others 3) told.working.notifications)
mark_all_as_read_example = mark_all_as_read_lem 3 told refl
