-- ===== src/Notifications/Read.antt =====
-- Reading and marking notifications.
use bodhrik_fullstack_assess.Common.{
  ◌&&◌, ℕ, ◌≤◌, ◌≡◌, refl, true, false, not, Option, none, some, List, [], ◌∷◌, arith, length, All,
  length-take-le, ◌==◌, Bool, drop,
}
use bodhrik_fullstack_assess.Common.Table.{
  select, update_where, All-select, All-page, order_by, page,
}
use bodhrik_fullstack_assess.Models.{Notification}
use bodhrik_fullstack_assess.Session.{Session, Result, ok, err, http, find_notification}
use bodhrik_fullstack_assess.Notifications.{
  list_notifications, newest_first, is_listed, mark_read, is_unread_of, mark_notification_as_read,
  mark_all_as_read,
}

abbrev pub IsListed : ℕ → Bool → Notification → Type 0
IsListed user_id unread_only n = (n.user_id ≡ user_id) × ((unread_only && n.is_read) ≡ false)

is_listed-IsListed :
    (u : ℕ) (unread_only : Bool) (ns : List Notification)
    → All (λ n. is_listed u unread_only n ≡ true) ns
    → All (IsListed u unread_only) ns
is_listed-IsListed u unread_only [] h = tt
is_listed-IsListed u unread_only (n ∷ ns) h =
    ((ground arith, ground arith), is_listed-IsListed u unread_only ns h.1)

-- A page holds at most `limit` notifications, all of them of the caller, and unread ones only
-- where these were asked for.
pub list_notifications_scoped :
    (u skip limit : ℕ) (unread_only : Bool) (s : Session)
    → (ns : List Notification) × (list_notifications u skip limit unread_only s ≡ (ok ns, s))
      × All (IsListed u unread_only) ns
      × (length ns ≤ limit)
unfolding list_notifications
list_notifications_scoped u skip limit unread_only s =
    let found = select (is_listed u unread_only) s.working.notifications in
    let rows = order_by newest_first found in
    (
      page skip limit rows,
      refl,
      All-page (IsListed u unread_only) newest_first skip limit found (
          is_listed-IsListed u unread_only found
            (All-select (is_listed u unread_only) s.working.notifications)),
      length-take-le limit (drop skip rows),
    )

-- After `mark_all_as_read` no notification of the caller is unread.
select-update_where :
    (u now : ℕ) (ns : List Notification)
    → select (is_unread_of u) (update_where (is_unread_of u) (mark_read now) ns) ≡ []
select-update_where u now [] = refl
select-update_where u now (n ∷ ns) = ground (arith, select-update_where u now ns)

abbrev pub of_others : ℕ → Notification → Bool
of_others u n = not (n.user_id == u)

others-update_where :
    (u now : ℕ) (ns : List Notification)
    → select (of_others u) (update_where (is_unread_of u) (mark_read now) ns)
      ≡ select (of_others u) ns
others-update_where u now [] = refl
others-update_where u now (n ∷ ns) = ground (arith, others-update_where u now ns)

-- Where the commit goes through, `mark_all_as_read` returns how many notifications of the caller
-- were unread, leaves none of them unread in the committed table, and keeps those of others.
pub mark_all_as_read_lem :
    (u : ℕ) (s : Session)
    → s.online ≡ true
    → let s' = (mark_all_as_read u s).1 in
      ((mark_all_as_read u s).0 ≡ ok (length (select (is_unread_of u) s.working.notifications)))
      × (select (is_unread_of u) s'.committed.notifications ≡ [])
      × (select (of_others u) s'.committed.notifications
          ≡ select (of_others u) s.working.notifications)
unfolding mark_all_as_read
mark_all_as_read_lem u s h = ground (
  arith,
  select-update_where u s.now s.working.notifications,
  others-update_where u s.now s.working.notifications,
)

-- Which answer `mark_notification_as_read` gives, by the row that it finds: 404, 403, the row
-- unchanged if it was read before, or the row marked as read now.
abbrev pub read_reply : ℕ → Session → Option Notification → Result Notification
read_reply u s none = err (http 404 "Notification not found" [])
read_reply u s (some n) = elim (n.user_id == u) [
  | false ↦ err (http 403 "Not authorized to access this notification" [])
  | true ↦ elim n.is_read [ true ↦ ok n | false ↦ ok (mark_read s.now n) ]
]

-- Where the server is there, the answer is the one that `read_reply` gives for the row under the
-- key: 404 where there is none, 403 for another user's, the row as it is if it was read, and
-- otherwise the row marked as read now.
pub mark_notification_as_read_reply :
    (k u : ℕ) (s : Session)
    → s.online ≡ true
    → (mark_notification_as_read k u s).0 ≡ read_reply u s (find_notification k s.working)
unfolding mark_notification_as_read
mark_notification_as_read_reply k u s h = ground arith
