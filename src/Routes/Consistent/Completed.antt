-- ===== src/Routes/Consistent/Completed.antt =====
-- The booking service never touches a completed booking.
use bodhrik_fullstack_assess.Common.{
  ℕ, ◌≡◌, ap, ◌∙◌, inl, inr, Bool, some, List, [], ◌∷◌, ◌++◌, arith, ◌==◌,
}
use bodhrik_fullstack_assess.Common.Table.{first}
use bodhrik_fullstack_assess.Models.{BookingStatus, User, Booking, Database}
use bodhrik_fullstack_assess.Session.{Session, Exception, Result, err, find_booking}
use bodhrik_fullstack_assess.Session.Laws.{Result-cases, Transaction, Transaction-err}
use bodhrik_fullstack_assess.Bookings.Operations.{
  BookingCreate, BookingUpdate, create_booking, update_booking, cancel_booking, delete_booking,
}
use bodhrik_fullstack_assess.Bookings.Atomic.{
  create_booking-Transaction, update_booking-Transaction, cancel_booking-Transaction,
  delete_booking-Transaction,
}
use bodhrik_fullstack_assess.Bookings.Create.{create_booking_created}
use bodhrik_fullstack_assess.Bookings.Update.{update_booking_effect}
use bodhrik_fullstack_assess.Bookings.Cancel.{cancel_booking_effect, delete_booking_effect}

-- Each completed booking is found in the second database as it is found in the first.
abbrev pub KeepsCompleted : Database → Database → Type 0
KeepsCompleted db db' =
    (k : ℕ) (b : Booking)
    → find_booking k db ≡ some b
    → b.status ≡ BookingStatus.completed
    → find_booking k db' ≡ some b

pub KeepsCompleted-of_bookings :
    (db db' : Database) → db'.bookings ≡ db.bookings → KeepsCompleted db db'
KeepsCompleted-of_bookings db db' e k b found done =
    ap (first (λ (c : Booking). c.id == k)) e ∙ found

first-append :
    (p : Booking → Bool) (xs ys : List Booking) {b : Booking}
    → first p xs ≡ some b
    → first p (xs ++ ys) ≡ some b
first-append p [] ys {b} h = cc
first-append p (x ∷ xs) ys {b} h = ground (arith, first-append p xs ys {b = b})

-- Of a transaction that has failed there is nothing to see.
failed :
    {A : Type 0} (s : Session) (r : Result A × Session) {e : Exception}
    → Transaction s r
    → r.0 ≡ err e
    → KeepsCompleted s.committed (r.1).committed
failed s r t h =
    KeepsCompleted-of_bookings s.committed (r.1).committed
      (ap (λ (d : Database). d.bookings) (Transaction-err s r t h))

module _ (s : Session) (fresh : s.working ≡ s.committed) where
  same : (k : ℕ) → find_booking k s.working ≡ find_booking k s.committed
  same k = ap (find_booking k) fresh

  pub create_booking-KeepsCompleted :
      (c : ℕ) (b : BookingCreate) → KeepsCompleted s.committed (create_booking c b s).1.committed
  create_booking-KeepsCompleted c b = elim (Result-cases (create_booking c b s).0) [
    | inl (row, h) ↦ λ j d found over.
        let (_, rows, _, _, _) = create_booking_created c b s h in
        ap (first (λ (x : Booking). x.id == j)) rows
        ∙ first-append (λ x. x.id == j) s.working.bookings (row ∷ []) (same j ∙ found)
    | inr (e, h) ↦ failed s (create_booking c b s) (create_booking-Transaction c b s) h
  ]

  pub update_booking-KeepsCompleted :
      (k : ℕ) (u : BookingUpdate) (actor : User)
      → KeepsCompleted s.committed (update_booking k u actor s).1.committed
  update_booking-KeepsCompleted k u actor = elim (Result-cases (update_booking k u actor s).0) [
    | inl (row, h) ↦ λ j d found over.
        let done = update_booking_effect k u actor s h in
        ground (arith, done.table j, done.found, done.live, same j)
    | inr (e, h) ↦ failed s (update_booking k u actor s) (update_booking-Transaction k u actor s) h
  ]

  pub cancel_booking-KeepsCompleted :
      (k : ℕ) (actor : User) → KeepsCompleted s.committed (cancel_booking k actor s).1.committed
  cancel_booking-KeepsCompleted k actor = elim (Result-cases (cancel_booking k actor s).0) [
    | inl (row, h) ↦ λ j d found over.
        let (old, live, _, done) = cancel_booking_effect k actor s h in
        ground (arith, done.table j, done.found, live, same j)
    | inr (e, h) ↦ failed s (cancel_booking k actor s) (cancel_booking-Transaction k actor s) h
  ]

  pub delete_booking-KeepsCompleted :
      (k : ℕ) (actor : User) → KeepsCompleted s.committed (delete_booking k actor s).1.committed
  delete_booking-KeepsCompleted k actor = elim (Result-cases (delete_booking k actor s).0) [
    | inl (row, h) ↦ λ j d found over.
        let (old, waiting, _, done) = delete_booking_effect k actor s h in
        ground (arith, done.table j, done.found, waiting, same j)
    | inr (e, h) ↦ failed s (delete_booking k actor s) (delete_booking-Transaction k actor s) h
  ]
