-- ===== src/Routes/Consistent/Served.antt =====
-- The provider of each booking is a user who is a provider.
use bodhrik_fullstack_assess.Common.{
  ℕ, ◌≡◌, refl, sym, ap, ◌∙◌, ◌⊎◌, inl, inr, Bool, true, ◌&&◌, some, List, [], ◌∷◌, ◌++◌, arith,
  ◌==◌, any, any-append, Bool-cases, if◌then◌else◌,
}
use bodhrik_fullstack_assess.Common.Table.{first}
use bodhrik_fullstack_assess.Models.{UserRole, role_eq, User, Booking, Database}
use bodhrik_fullstack_assess.Session.{Session, Exception, Result, err, find_booking}
use bodhrik_fullstack_assess.Session.Laws.{Result-cases, Transaction, Transaction-err}
use bodhrik_fullstack_assess.Bookings.Operations.{
  BookingCreate, BookingUpdate, create_booking, update_booking, cancel_booking, delete_booking,
}
use bodhrik_fullstack_assess.Bookings.Atomic.{
  create_booking-Transaction, update_booking-Transaction, cancel_booking-Transaction,
  delete_booking-Transaction,
}
use bodhrik_fullstack_assess.Bookings.Create.{create_booking_created}
use bodhrik_fullstack_assess.Bookings.Update.{update_booking_effect}
use bodhrik_fullstack_assess.Bookings.Cancel.{cancel_booking_effect, delete_booking_effect}

abbrev pub provides : ℕ → List User → Bool
provides k us = any (λ u. u.id == k && role_eq u.role UserRole.provider) us

-- Each booking that is found has a provider among these users.
abbrev pub ServedBy : List User → Database → Type 0
ServedBy us db =
    (k : ℕ) (b : Booking) → find_booking k db ≡ some b → provides b.provider_id us ≡ true

pub ServedBy-of_bookings :
    (us : List User) (db d : Database) → d.bookings ≡ db.bookings → ServedBy us db → ServedBy us d
ServedBy-of_bookings us db d e h k b found =
    h k b (ap (first (λ (c : Booking). c.id == k)) (sym e) ∙ found)

pub ServedBy-more : (us vs : List User) (db : Database) → ServedBy us db → ServedBy (us ++ vs) db
ServedBy-more us vs db h k b found =
    any-append (λ u. u.id == b.provider_id && role_eq u.role UserRole.provider) us vs
    ∙ ground (arith, h k b found)

found_provides :
    (k : ℕ) (us : List User) {u : User}
    → first (λ v. v.id == k) us ≡ some u
    → role_eq u.role UserRole.provider ≡ true
    → provides k us ≡ true
found_provides k [] {u} h role = cc
found_provides k (v ∷ us) {u} h role = ground (arith, found_provides k us {u = u})

first-append_inv :
    (p : Booking → Bool) (xs : List Booking) (y b : Booking)
    → first p (xs ++ y ∷ []) ≡ some b
    → (first p xs ≡ some b) ⊎ (y ≡ b)
first-append_inv p [] y b h = inr (ground arith)
first-append_inv p (x ∷ xs) y b h = elim (Bool-cases (p x)) [
  | inl e ↦ inl (ground arith)
  | inr e ↦ ground (arith, first-append_inv p xs y b)
]

module _ (s : Session) (fresh : s.working ≡ s.committed) (us : List User)
    (h : ServedBy us s.committed) where
  here : ServedBy us s.working
  here k b found = h k b (ap (find_booking k) (sym fresh) ∙ found)

  -- of a transaction that has failed there is nothing to see
  unchanged :
      {A : Type 0} (r : Result A × Session) {e : Exception}
      → Transaction s r
      → r.0 ≡ err e
      → ServedBy us (r.1).committed
  unchanged r t x =
      ServedBy-of_bookings us s.committed (r.1).committed
        (ap (λ (d : Database). d.bookings) (Transaction-err s r t x)) h

  -- one row has been replaced by one with the same provider
  replaced :
      (k : ℕ) (d : Database) (old row : Booking)
      → find_booking k s.working ≡ some old
      → row.provider_id ≡ old.provider_id
      → ((j : ℕ) → find_booking j d ≡ (if j == k then some row else find_booking j s.working))
      → ServedBy us d
  replaced k d old row found same table j b e = elim (Bool-cases (j == k)) [
    | inl own ↦
        let is_row : row ≡ b = ground (arith, table j) in
        ap (λ (c : Booking). provides c.provider_id us) (sym is_row)
        ∙ ap (λ p. provides p us) same
        ∙ here k old found
    | inr other ↦ here j b (ground (arith, table j))
  ]

  pub update_booking-ServedBy :
      (k : ℕ) (u : BookingUpdate) (actor : User)
      → ServedBy us (update_booking k u actor s).1.committed
  update_booking-ServedBy k u actor = elim (Result-cases (update_booking k u actor s).0) [
    | inl (row, e) ↦
        let done = update_booking_effect k u actor s e in
        replaced k (update_booking k u actor s).1.committed done.old row done.found
          done.same_provider done.table
    | inr (x, e) ↦ unchanged (update_booking k u actor s) (update_booking-Transaction k u actor s) e
  ]

  pub cancel_booking-ServedBy :
      (k : ℕ) (actor : User) → ServedBy us (cancel_booking k actor s).1.committed
  cancel_booking-ServedBy k actor = elim (Result-cases (cancel_booking k actor s).0) [
    | inl (row, e) ↦
        let (old, _, _, done) = cancel_booking_effect k actor s e in
        replaced k (cancel_booking k actor s).1.committed old _ done.found refl done.table
    | inr (x, e) ↦ unchanged (cancel_booking k actor s) (cancel_booking-Transaction k actor s) e
  ]

  pub delete_booking-ServedBy :
      (k : ℕ) (actor : User) → ServedBy us (delete_booking k actor s).1.committed
  delete_booking-ServedBy k actor = elim (Result-cases (delete_booking k actor s).0) [
    | inl (row, e) ↦
        let (old, _, _, done) = delete_booking_effect k actor s e in
        replaced k (delete_booking k actor s).1.committed old _ done.found refl done.table
    | inr (x, e) ↦ unchanged (delete_booking k actor s) (delete_booking-Transaction k actor s) e
  ]

pub create_booking-ServedBy :
    (s : Session)
    → s.working ≡ s.committed
    → ServedBy s.working.users s.committed
    → (c : ℕ) (b : BookingCreate) → ServedBy s.working.users (create_booking c b s).1.committed
create_booking-ServedBy s fresh h c b = elim (Result-cases (create_booking c b s).0) [
  | inl (row, e) ↦ λ j d found.
      let (is_row, rows, (u, known, role), _, _) = create_booking_created c b s e in
      elim (first-append_inv (λ x. x.id == j) s.working.bookings row d
        (ap (first (λ (x : Booking). x.id == j)) (sym rows) ∙ found)) [
          | inl old ↦ h j d (ap (find_booking j) (sym fresh) ∙ old)
          | inr new ↦
              ap (λ (x : Booking). provides x.provider_id s.working.users) (sym new ∙ is_row)
              ∙ found_provides b.provider_id s.working.users known role
        ]
  | inr (x, e) ↦
      unchanged s fresh s.working.users h (create_booking c b s) (create_booking-Transaction c b s)
        e
]
