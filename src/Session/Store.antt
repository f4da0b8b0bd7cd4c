-- ===== src/Session/Store.antt =====
-- Reading by primary key, INSERT and UPDATE under the constraints, and the end of a transaction.
use bodhrik_fullstack_assess.Common.{
  ℕ, suc, String, Bool, true, false, not, ◌&&◌, Option, none, some, List, [], ◌∷◌, ◌++◌, ⊤, ◌==◌,
  str_eq, any, if◌then◌else◌,
}
use bodhrik_fullstack_assess.Common.Table.{first, update_where}
use bodhrik_fullstack_assess.Models.{status_eq, User, Booking, Review, Notification, Database}
use bodhrik_fullstack_assess.Models.Constraints.{
  Constraint, booking_violation, booking_check, review_violation, review_check,
  notification_violation, same_slot, user_violation,
}
use bodhrik_fullstack_assess.Session.Monad.{
  Session, Result, ok, err, Action, integrity, operational, multiple_results, pure, raise,
}

-- db.get(User, k), db.get(Booking, k) and so on
abbrev pub find_user : ℕ → Database → Option User
find_user k db = first (λ u. u.id == k) db.users

abbrev pub find_booking : ℕ → Database → Option Booking
find_booking k db = first (λ b. b.id == k) db.bookings

abbrev pub find_review : ℕ → Database → Option Review
find_review k db = first (λ r. r.id == k) db.reviews

abbrev pub find_notification : ℕ → Database → Option Notification
find_notification k db = first (λ n. n.id == k) db.notifications

-- the column default `uuid.uuid4`
abbrev pub uuid4 : Action ℕ
uuid4 s = (ok (s.uuid s.drawn), record s { drawn = suc s.drawn })

-- `datetime.now(UTC)`, and the server's now()
abbrev pub clock : Action ℕ
clock s = (ok s.now, s)

-- what a constraint answers to a write
abbrev write : Option Constraint → Database → Action ⊤
write none db s = (ok tt, record s { working = db })
write (some c) db s = (err (integrity c), s)

abbrev pub add_booking : Booking → Database → Database
add_booking b db = record db { bookings = db.bookings ++ b ∷ [] }

abbrev pub set_booking : Booking → Database → Database
set_booking b db = record db { bookings = update_where (λ c. c.id == b.id) (λ _. b) db.bookings }

abbrev pub add_review : Review → Database → Database
add_review r db = record db { reviews = db.reviews ++ r ∷ [] }

abbrev pub set_review : Review → Database → Database
set_review r db = record db { reviews = update_where (λ c. c.id == r.id) (λ _. r) db.reviews }

abbrev pub add_notification : Notification → Database → Database
add_notification n db = record db { notifications = db.notifications ++ n ∷ [] }

-- `db.add(booking); db.flush()`
abbrev pub insert_booking : Booking → Action ⊤
insert_booking b s = write (booking_violation s.working b) (add_booking b s.working) s

-- A commit sends UPDATE for a loaded row only if a column's value has changed; the column
-- `updated_at` has `onupdate=func.now()`, and `db.refresh` reads the row back.
abbrev pub booking_changed : Booking → Booking → Bool
booking_changed b c = not (
    str_eq b.service_name c.service_name
    && (b.start_time == c.start_time && (b.end_time == c.end_time && status_eq b.status c.status)))

abbrev pub refreshed_booking : ℕ → Booking → Booking → Booking
refreshed_booking now b c = if booking_changed b c then record c { updated_at = now } else c

-- the row `b` was loaded, `c` is what the service has made of it
abbrev pub flush_booking : Booking → Booking → Action ⊤
flush_booking b c s =
    if booking_changed b c
    then write (booking_check c) (set_booking (refreshed_booking s.now b c) s.working) s
    else (ok tt, s)

abbrev pub insert_review : Review → Action ⊤
insert_review r s = write (review_violation s.working r) (add_review r s.working) s

abbrev pub text_eq : Option String → Option String → Bool
text_eq none none = true
text_eq (some a) (some b) = str_eq a b
text_eq _ _ = false

abbrev pub review_changed : Review → Review → Bool
review_changed q r = not (q.rating == r.rating && text_eq q.comment r.comment)

abbrev pub refreshed_review : ℕ → Review → Review → Review
refreshed_review now q r = if review_changed q r then record r { updated_at = now } else r

abbrev pub flush_review : Review → Review → Action ⊤
flush_review q r s =
    if review_changed q r
    then write (review_check r) (set_review (refreshed_review s.now q r) s.working) s
    else (ok tt, s)

abbrev pub add_user : User → Database → Database
add_user u db = record db { users = db.users ++ u ∷ [] }

abbrev pub insert_user : User → Action ⊤
insert_user u s = write (user_violation s.working u) (add_user u s.working) s

-- `.scalar_one_or_none()`
abbrev pub scalar_one_or_none : {A : Type 0} → List A → Action (Option A)
scalar_one_or_none [] = pure none
scalar_one_or_none (x ∷ []) = pure (some x)
scalar_one_or_none (x ∷ y ∷ rest) = raise multiple_results

-- INSERT … ON CONFLICT ON CONSTRAINT uq_notifications_user_booking_type DO NOTHING RETURNING
abbrev pub insert_or_ignore : Notification → Action (Option Notification)
insert_or_ignore n s =
    if any (λ m. same_slot m n) s.working.notifications
    then (ok none, s)
    else elim (notification_violation s.working n) [
      | none ↦ (ok (some n), record s { working = add_notification n s.working })
      | some c ↦ (err (integrity c), s)
    ]

-- an UPDATE or DELETE statement that breaks no constraint
abbrev pub execute : (Database → Database) → Action ⊤
execute f s = (ok tt, record s { working = f s.working })

abbrev pub commit : Action ⊤
commit s = if s.online then (ok tt, record s { committed = s.working }) else (err operational, s)

abbrev pub rollback : Action ⊤
rollback s = (ok tt, record s { working = s.committed })

-- What a request meets outside the program.
pub record Environment : Type 0 where
  pub online : Bool
  pub now : ℕ
  pub uuid : ℕ → ℕ

-- `SessionLocal()`
abbrev pub open_session : Environment → Database → Session
open_session env db = record {
  committed = db;
  working = db;
  online = env.online;
  now = env.now;
  uuid = env.uuid;
  drawn = 0;
}

-- `get_db`: a request runs in a session of its own, which is closed whatever the request did, so
-- that what it has not committed is undone.
unfoldable pub serve : {A : Type 0} → Environment → Action A → Database → Result A × Database
serve env m db = let (r, s) = m (open_session env db) in (r, s.committed)
