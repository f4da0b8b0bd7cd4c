-- ===== src/Bookings/Schedule.antt =====
-- The schedule of a provider: no two of its active bookings overlap.
use bodhrik_fullstack_assess.Common.{
  ◌≤◌, ◌<◌, ◌≡◌, ◌≢◌, ◌↔◌, ◌⊎◌, Bool, true, false, not, ◌&&◌, none, some, List, arith, ltb, ◌==◌,
  any,
}
use bodhrik_fullstack_assess.Models.{BookingStatus, status_eq, Booking, Database}
use bodhrik_fullstack_assess.Common.Separate.{Separate, UniqueKeys, any_mono, clashes_elsewhere}
use bodhrik_fullstack_assess.Providers.{conflicts}

-- Both bookings are active, have one provider, and share an instant.
unfoldable pub clash : Booking → Booking → Bool
clash a b =
    a.provider_id == b.provider_id
    && (not (status_eq a.status BookingStatus.cancelled)
        && (not (status_eq b.status BookingStatus.cancelled)
            && (ltb a.start_time b.end_time && ltb b.start_time a.end_time)))

pub clash_sym : (a b : Booking) → clash a b ≡ clash b a
unfolding clash
clash_sym a b = ground arith

-- What `clash` says of two bookings of one provider that are both active.
pub clash-free_iff :
    (a b : Booking)
    → a.provider_id ≡ b.provider_id
    → a.status ≢ BookingStatus.cancelled
    → b.status ≢ BookingStatus.cancelled
    → a.start_time < a.end_time
    → b.start_time < b.end_time
    → (clash a b ≡ false) ↔ ((a.end_time ≤ b.start_time) ⊎ (b.end_time ≤ a.start_time))
unfolding clash
clash-free_iff a b p sa sb ta tb = ground arith

-- The table of bookings: ids are unique, and no provider has two active bookings that overlap.
pub record IsScheduled (db : Database) : Type 0 where
  pub unique : UniqueKeys (λ (b : Booking). b.id) db.bookings
  pub separate : Separate clash db.bookings

-- The availability test of the requested slot is `clash` with the row that takes the slot.
pub conflicts-clash :
    (bs : List Booking) (b : Booking)
    → any (conflicts b.provider_id b.start_time b.end_time none) bs ≡ false
    → any (λ c. clash c b) bs ≡ false
conflicts-clash bs b h =
    any_mono (conflicts b.provider_id b.start_time b.end_time none) (λ c. clash c b) bs
      (λ c e. unfold clash in ground arith) h

-- The same with the row itself left out.
pub conflicts-clash_elsewhere :
    (bs : List Booking) (b : Booking)
    → any (conflicts b.provider_id b.start_time b.end_time (some b.id)) bs ≡ false
    → clashes_elsewhere (λ c. c.id) b clash bs ≡ false
conflicts-clash_elsewhere bs b h =
    any_mono (conflicts b.provider_id b.start_time b.end_time (some b.id))
      (λ c. not (c.id == b.id) && clash c b) bs (λ c e. unfold clash in ground arith) h

-- A row that keeps its place in the schedule, or leaves it, clashes with nothing new.
pub elsewhere_same_slot :
    (bs : List Booking) (b c : Booking)
    → b.id ≡ c.id
    → ((d : Booking) → clash d c ≡ true → clash d b ≡ true)
    → clashes_elsewhere (λ d. d.id) b clash bs ≡ false
    → clashes_elsewhere (λ d. d.id) c clash bs ≡ false
elsewhere_same_slot bs b c e sub h =
    any_mono (λ d. not (d.id == b.id) && clash d b) (λ d. not (d.id == c.id) && clash d c) bs
      (λ d t. ground (arith, sub d)) h
