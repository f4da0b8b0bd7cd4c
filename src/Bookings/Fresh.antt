-- ===== src/Bookings/Fresh.antt =====
-- A booking whose ids are new is written.
use bodhrik_fullstack_assess.Common.{
  ℕ, suc, ◌<◌, ◌≡◌, true, false, [], ◌∷◌, arith, ◌==◌, any, any-append,
}
use bodhrik_fullstack_assess.Models.{Booking, Notification}
use bodhrik_fullstack_assess.Models.Constraints.{
  has_user, booking_violation, notification_violation,
}
use bodhrik_fullstack_assess.Session.{Session, ok}
use bodhrik_fullstack_assess.Notifications.{create_notification}
use bodhrik_fullstack_assess.Bookings.Operations.{BookingCreate, new_booking, persist_booking}

-- The ids that the two rows draw are new.
pub record IsFresh (s : Session) : Type 0 where
  pub booking : any (λ (b : Booking). b.id == s.uuid s.drawn) s.working.bookings ≡ false
  pub notification :
      any (λ (n : Notification). n.id == s.uuid (suc s.drawn)) s.working.notifications ≡ false

pub persist_booking_ok :
    (c : ℕ) (b : BookingCreate) (s : Session)
    → IsFresh s
    → s.online ≡ true
    → has_user s.working c ≡ true
    → has_user s.working b.provider_id ≡ true
    → (c == b.provider_id) ≡ false
    → b.start_time < b.end_time
    → (persist_booking c b s).0 ≡ ok (new_booking (s.uuid s.drawn) s.now c b)
unfolding persist_booking booking_violation create_notification notification_violation
persist_booking_ok c b s fresh up cu pu ne lt =
    let row = new_booking (s.uuid s.drawn) s.now c b in
    ground (arith, any-append (λ (d : Booking). d.id == row.id) s.working.bookings (row ∷ []))
