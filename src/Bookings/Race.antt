-- ===== src/Bookings/Race.antt =====
-- Two requests at once. Each statement sees what is committed when it runs (READ COMMITTED), and
-- `create_booking` takes no lock between its availability query and its insertion.
use bodhrik_fullstack_assess.Common.{
  ℕ, suc, ◌<◌, ◌≡◌, refl, sym, ap, ◌∙◌, subst, true, false, ◌||◌, some, List, [], ◌∷◌, ◌++◌, ◌<>◌,
  ◌==◌, arith, ⊤, any, any-append,
}
use bodhrik_fullstack_assess.Models.{NotificationType, Booking, Notification, Database}
use bodhrik_fullstack_assess.Session.{Session, Result, ok, Environment, open_session}
use bodhrik_fullstack_assess.Common.Separate.{Separate, Separate-last}
use bodhrik_fullstack_assess.Models.Constraints.{
  has_user, booking_violation, notification_violation,
}
use bodhrik_fullstack_assess.Notifications.{create_notification, new_notification}
use bodhrik_fullstack_assess.Bookings.Schedule.{clash, IsScheduled}
use bodhrik_fullstack_assess.Bookings.Operations.{
  BookingCreate, new_booking, admit_booking, persist_booking,
}
use bodhrik_fullstack_assess.Bookings.Fresh.{IsFresh, persist_booking_ok}
use bodhrik_fullstack_assess.Bookings.Create.{admit_booking_passed, found-any}

-- A call of `create_booking` by a customer, in its environment.
pub record Call : Type 0 where
  pub env : Environment
  pub customer_id : ℕ
  pub booking_in : BookingCreate

-- The database, and the calls that have passed their checks and not yet written.
pub record System : Type 0 where
  pub database : Database
  pub admitted : List Call

abbrev pub admits : Call → Database → Result ⊤
admits c db = (admit_booking c.customer_id c.booking_in (open_session c.env db)).0

abbrev pub writes : Call → Database → Result Booking × Session
writes c db = persist_booking c.customer_id c.booking_in (open_session c.env db)

-- One call passes its checks, or the call that has waited longest writes and commits.
pub data Step : System → System → Type 0 where
  check :
      (c : Call) (t : System)
      → admits c t.database ≡ ok tt
      → Step t (record t { admitted = t.admitted ++ c ∷ [] })
  write :
      (c : Call) (rest : List Call) (t : System)
      → t.admitted ≡ c ∷ rest
      → Step t (record { database = (writes c t.database).1.committed; admitted = rest })

pub data Reach (t : System) : System → Type 0 where
  here : Reach t t
  next : {u v : System} → Reach t u → Step u v → Reach t v

abbrev pub idle : Database → System
idle db = record { database = db; admitted = [] }

-- A write that succeeds appends its row.
persist_appends :
    (c : ℕ) (b : BookingCreate) (s : Session) {row : Booking}
    → (persist_booking c b s).0 ≡ ok row
    → (persist_booking c b s).1.committed.bookings ≡ s.working.bookings ++ row ∷ []
unfolding persist_booking booking_violation create_notification
persist_appends c b s {row} h = ground arith

two_appended :
    (bs : List Booking) (a b : Booking)
    → clash b a ≡ true
    → ¬ Separate clash ((bs ++ a ∷ []) ++ b ∷ [])
two_appended bs a b e h =
    let apart : (any (λ y. clash b y) bs || (clash b a || false)) ≡ false =
      sym (any-append (λ y. clash b y) bs (a ∷ [])) ∙ Separate-last clash (bs ++ a ∷ []) b h in
    ground arith

-- The call can be answered with 201 from this database.
pub record IsPossible (db : Database) (c : Call) : Type 0 where
  pub admitted : admits c db ≡ ok tt
  pub online : c.env.online ≡ true
  pub customer : has_user db c.customer_id ≡ true
  pub ordered : c.booking_in.start_time < c.booking_in.end_time
  pub fresh : IsFresh (open_session c.env db)

-- The two calls draw other ids, and ask one provider for overlapping slots.
pub record IsRival (c d : Call) : Type 0 where
  pub booking_id : (c.env.uuid 0 == d.env.uuid 0) ≡ false
  pub notification_id : (c.env.uuid 1 == d.env.uuid 1) ≡ false
  pub provider : c.booking_in.provider_id ≡ d.booking_in.provider_id
  pub overlap :
      (c.booking_in.start_time < d.booking_in.end_time)
      × (d.booking_in.start_time < c.booking_in.end_time)

-- the row that a call writes
abbrev pub row_of : Call → Booking
row_of c = new_booking (c.env.uuid 0) c.env.now c.customer_id c.booking_in

-- A write changes no user, and the only notification that it adds has the second id drawn.
persist_keeps :
    (c : ℕ) (b : BookingCreate) (s : Session) (k : ℕ) {row : Booking}
    → (persist_booking c b s).0 ≡ ok row
    → any (λ (n : Notification). n.id == k) s.working.notifications ≡ false
    → (s.uuid (suc s.drawn) == k) ≡ false
    → let db = (persist_booking c b s).1.committed in
      (db.users ≡ s.working.users)
      × (any (λ (n : Notification). n.id == k) db.notifications ≡ false)
unfolding persist_booking booking_violation create_notification notification_violation
persist_keeps c b s k {row} h new apart = ground (
  arith,
  any-append (λ (n : Notification). n.id == k) s.working.notifications
      (new_notification (s.uuid (suc s.drawn)) s.now b.provider_id NotificationType.booking_created
          "New Booking Request"
          ("A new booking request for " <> b.service_name <> " has been submitted.")
          (some (s.uuid s.drawn))
        ∷ []),
)

-- A call that was admitted writes its row to any database with the same users and no row with its
-- ids.
admitted_writes :
    (db db' : Database) (c : Call)
    → IsPossible db c
    → db'.users ≡ db.users
    → IsFresh (open_session c.env db')
    → (writes c db').0 ≡ ok (row_of c)
admitted_writes db db' c can same fresh =
    let (ne, (u, found, _), _) =
      admit_booking_passed c.customer_id c.booking_in (open_session c.env db) can.admitted in
    let provider : has_user db c.booking_in.provider_id ≡ true =
      found-any c.booking_in.provider_id db.users found in
    persist_booking_ok c.customer_id c.booking_in (open_session c.env db') fresh can.online
      (rw same can.customer) (rw same provider) ne can.ordered

rows_clash : (c d : Call) → IsRival c d → clash (row_of d) (row_of c) ≡ true
unfolding clash
rows_clash c d rival = ground (arith, rival.provider, rival.overlap.0, rival.overlap.1)

-- Two calls that ask one provider for overlapping slots, each of which can be answered with 201
-- from the database as it stands, can both be written: an order of their checks and writes ends
-- with both rows in the table, nobody waiting, and a schedule with bookings that overlap. It takes
-- that the ids that they draw are new and differ.
pub create_booking_race :
    (db : Database) (c d : Call)
    → IsPossible db c
    → IsPossible db d
    → IsRival c d
    → (t : System) × Reach (idle db) t
      × (t.database.bookings ≡ (db.bookings ++ row_of c ∷ []) ++ row_of d ∷ [])
      × (t.admitted ≡ [])
      × (¬ IsScheduled t.database)
create_booking_race db c d can can' rival =
    let s : System = record { database = db; admitted = c ∷ [] } in
    let t : System = record { database = db; admitted = c ∷ d ∷ [] } in
    let u : System = record { database = (writes c db).1.committed; admitted = d ∷ [] } in
    let v : System = record { database = (writes d u.database).1.committed; admitted = [] } in
    let cw = admitted_writes db db c can refl can.fresh in
    let appended = persist_appends c.customer_id c.booking_in (open_session c.env db) cw in
    let (users, notification) =
      persist_keeps c.customer_id c.booking_in (open_session c.env db) (d.env.uuid 1) cw
        can'.fresh.notification rival.notification_id in
    let booking : any (λ (b : Booking). b.id == d.env.uuid 0) u.database.bookings ≡ false =
      ap (any (λ (b : Booking). b.id == d.env.uuid 0)) appended
      ∙ any-append (λ (b : Booking). b.id == d.env.uuid 0) db.bookings (row_of c ∷ [])
      ∙ ground (arith, can'.fresh.booking, rival.booking_id) in
    let dw =
      admitted_writes db u.database d can' users
        (record { booking = booking; notification = notification }) in
    let both : v.database.bookings ≡ (db.bookings ++ row_of c ∷ []) ++ row_of d ∷ [] =
      persist_appends d.customer_id d.booking_in (open_session d.env u.database) dw
      ∙ ap (λ (bs : List Booking). bs ++ row_of d ∷ []) appended in
    (
      v,
      next
          (next (next (next here (check c (idle db) can.admitted)) (check d s can'.admitted))
            (write c (d ∷ []) t refl))
          (write d [] u refl),
      both,
      refl,
      λ h.
          two_appended db.bookings (row_of c) (row_of d) (rows_clash c d rival)
            (subst (Separate clash) both h.separate),
    )
