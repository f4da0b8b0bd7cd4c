-- ===== src/Bookings/Save.antt =====
-- The commit that ends an update, a cancellation and a deletion.
use bodhrik_fullstack_assess.Common.{
  ℕ, ◌≡◌, refl, sym, ◌∙◌, ◌≢◌, inl, inr, false, some, arith, ◌==◌, if◌then◌else◌, ==_iff,
  Bool-cases,
}
use bodhrik_fullstack_assess.Models.{Booking}
use bodhrik_fullstack_assess.Session.{
  Session, ok, find_booking, set_booking, refreshed_booking, booking_changed,
}
use bodhrik_fullstack_assess.Bookings.Operations.{save_booking}
use bodhrik_fullstack_assess.Common.Separate.{first-put_self, first-put_ne, first-key}

-- What a saved row leaves in the committed database, for a row that was loaded under `k`.
pub record Saved (k : ℕ) (row : Booking) (s s' : Session) : Type 0 where
  pub here : find_booking k s'.committed ≡ some row
  pub others : (j : ℕ) → j ≢ k → find_booking j s'.committed ≡ find_booking j s.working
  pub told : s'.committed.notifications ≡ s.working.notifications

pub save_booking_outcome :
    (b c : Booking) (s : Session) {row : Booking}
    → (save_booking b c s).0 ≡ ok row
    → (row ≡ refreshed_booking s.now b c)
      × ((save_booking b c s).1.committed
          ≡ (if booking_changed b c then set_booking row s.working else s.working))
unfolding save_booking
save_booking_outcome b c s {row} h = ground arith

pub save_booking-Saved :
    (k : ℕ) (b c : Booking) (s : Session) {row : Booking}
    → find_booking k s.working ≡ some b
    → c.id ≡ b.id
    → (booking_changed b c ≡ false → c ≡ b)
    → (save_booking b c s).0 ≡ ok row
    → Saved k row s (save_booking b c s).1
save_booking-Saved k b c s {row} found e same h =
    let (is_row, kept) = save_booking_outcome b c s h in
    let id : row.id ≡ k =
      ground (arith, first-key (λ d. d.id) k s.working.bookings {x = b} found) in
    elim (Bool-cases (booking_changed b c)) [
      | inl changed ↦
          let db : (save_booking b c s).1.committed ≡ set_booking row s.working =
            rw changed at kept in
          record {
            here = rw db (first-put_self (λ d. d.id) k s.working.bookings row (rw found refl) id);
            others = λ j ne.
                rw db (first-put_ne (λ d. d.id) j s.working.bookings row (λ p. ne (sym p ∙ id)));
            told = rw db refl;
          }
      | inr unchanged ↦
          let db : (save_booking b c s).1.committed ≡ s.working = rw unchanged at kept in
          record {
            here = rw db (ground (arith, same unchanged));
            others = λ j ne. rw db refl;
            told = rw db refl;
          }
    ]

-- The same for every key at once.
pub Saved-table :
    (k : ℕ) (row : Booking) (s s' : Session)
    → Saved k row s s'
    → (j : ℕ)
    → find_booking j s'.committed ≡ (if j == k then some row else find_booking j s.working)
Saved-table k row s s' done j = elim (Bool-cases (j == k)) [
  | inl e ↦ rw (e, (==_iff j k).0 e) done.here
  | inr e ↦ rw e (done.others j (λ p. ground arith))
]
