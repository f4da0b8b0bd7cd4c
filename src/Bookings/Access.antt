-- ===== src/Bookings/Access.antt =====
-- Who sees which booking, one at a time and in lists.
use bodhrik_fullstack_assess.Common.{
  ℕ, ◌≤◌, ◌≡◌, refl, ◌↔◌, Bool, true, ◌&&◌, Option, some, List, arith, length, drop, length-take-le,
  All,
}
use bodhrik_fullstack_assess.Common.Table.{select, order_by, page, All-select, All-page}
use bodhrik_fullstack_assess.Models.{BookingStatus, User, Booking}
use bodhrik_fullstack_assess.Session.{Session, ok, find_booking}
use bodhrik_fullstack_assess.Bookings.Operations.{
  is_participant, is_visible, has_status, earliest_first, get_booking_by_id, list_bookings,
}
use bodhrik_fullstack_assess.Common.Separate.{
  UniqueKeys, UniqueKeys-found, All-both, All-select_keeps,
}

-- A booking is returned exactly when it stands under the key and the caller is its customer, its
-- provider or an administrator; the call changes nothing.
pub get_booking_by_id_iff :
    (k : ℕ) (user : User) (s : Session) (b : Booking)
    → (get_booking_by_id k user s ≡ (ok b, s))
      ↔ ((find_booking k s.working ≡ some b) × (is_participant user b ≡ true))
unfolding get_booking_by_id
get_booking_by_id_iff k user s b = (λ h. (ground arith, ground arith), λ h. ground arith)

is_visible-participant : (user : User) (b : Booking) → is_visible user b ≡ is_participant user b
is_visible-participant user b = ground arith

-- Every row of a page of `list_bookings` has the wanted status and is one that
-- `get_booking_by_id` returns to the same caller; a page has at most `limit` rows.
pub list_bookings_get :
    (user : User) (status : Option BookingStatus) (skip limit : ℕ) (s : Session)
    → UniqueKeys (λ (b : Booking). b.id) s.working.bookings
    → (bs : List Booking) × (list_bookings user status skip limit s ≡ (ok bs, s))
      × All (λ b. (has_status status b ≡ true) × (get_booking_by_id b.id user s ≡ (ok b, s))) bs
      × (length bs ≤ limit)
unfolding list_bookings
list_bookings_get user status skip limit s u =
    let test : Booking → Bool = λ b. is_visible user b && has_status status b in
    let found = select test s.working.bookings in
    let rows = order_by earliest_first found in
    (
      page skip limit rows,
      refl,
      All-page (λ b. (has_status status b ≡ true) × (get_booking_by_id b.id user s ≡ (ok b, s)))
          earliest_first skip limit found
          (All-both
            (λ b here passed. (
              ground arith,
              (get_booking_by_id_iff b.id user s b).1
                  (here, ground (arith, is_visible-participant user b)),
            ))
            found
            (All-select_keeps (λ b. find_booking b.id s.working ≡ some b) test s.working.bookings
              (UniqueKeys-found (λ b. b.id) s.working.bookings u))
            (All-select test s.working.bookings)),
      length-take-le limit (drop skip rows),
    )
