-- ===== src/Reviews/Guards.antt =====
-- Who may review, see, change and delete.
use bodhrik_fullstack_assess.Common.{ℕ, ◌≡◌, ap, ◌∙◌, ◌↔◌, true, false, some, [], ◌∷◌, ◌++◌, arith}
use bodhrik_fullstack_assess.Models.{UserRole, BookingStatus, role_eq, User, Booking, Review}
use bodhrik_fullstack_assess.Session.{Session, ok, find_booking, find_review}
use bodhrik_fullstack_assess.Models.Constraints.{review_violation}
use bodhrik_fullstack_assess.Session.Laws.{bind_inv, Transaction}
use bodhrik_fullstack_assess.Reviews.{
  ReviewCreate, ReviewUpdate, new_review, has_review, admit_review, persist_review, create_review,
  may_see, get_review_by_id, update_review, open_own_review, save_review, delete_review,
}

pub admit_review_session :
    (user : User) (r : ReviewCreate) (s : Session) → (admit_review user r s).1 ≡ s
unfolding admit_review
admit_review_session user r s = ground arith

pub admit_review_passed :
    (user : User) (r : ReviewCreate) (s : Session) {b : Booking}
    → (admit_review user r s).0 ≡ ok b
    → (role_eq user.role UserRole.customer ≡ true)
      × (find_booking r.booking_id s.working ≡ some b)
      × (b.customer_id ≡ user.id)
      × (b.status ≡ BookingStatus.completed)
      × (has_review r.booking_id s.working ≡ false)
unfolding admit_review
admit_review_passed user r s {b} h = ground arith

pub create_review-Transaction :
    (user : User) (r : ReviewCreate) (s : Session) → Transaction s (create_review user r s)
unfolding create_review persist_review review_violation admit_review
create_review-Transaction user r s = ground arith

pub open_own_review_session : (k : ℕ) (user : User) (s : Session) → (open_own_review k user s).1 ≡ s
unfolding open_own_review
open_own_review_session k user s = ground arith

pub save_review-Transaction :
    (u : ReviewUpdate) (r : Review) (s : Session) → Transaction s (save_review u r s)
unfolding save_review
save_review-Transaction u r s = ground arith

pub update_review-Transaction :
    (k : ℕ) (u : ReviewUpdate) (user : User) (s : Session)
    → Transaction s (update_review k u user s)
unfolding update_review
update_review-Transaction k u user s =
    grind (arith, open_own_review_session, save_review-Transaction)

pub delete_review-Transaction :
    (k : ℕ) (user : User) (s : Session) → Transaction s (delete_review k user s)
unfolding delete_review
delete_review-Transaction k user s = ground arith

persist_review_written :
    (user : User) (r : ReviewCreate) (b : Booking) (s : Session) {row : Review}
    → (persist_review user r b s).0 ≡ ok row
    → (row ≡ new_review (s.uuid s.drawn) s.now user b r)
      × ((persist_review user r b s).1.committed.reviews ≡ s.working.reviews ++ row ∷ [])
unfolding persist_review review_violation
persist_review_written user r b s {row} h = ground arith

-- A review that is accepted is the caller's, who is a customer, about a completed booking of
-- theirs that had no review; it names the booking's provider and is appended to the table.
pub create_review_accepted :
    (user : User) (r : ReviewCreate) (s : Session) {row : Review}
    → (create_review user r s).0 ≡ ok row
    → (b : Booking) × (role_eq user.role UserRole.customer ≡ true)
      × (find_booking r.booking_id s.working ≡ some b)
      × (b.customer_id ≡ user.id)
      × (b.status ≡ BookingStatus.completed)
      × (has_review r.booking_id s.working ≡ false)
      × (row ≡ new_review (s.uuid s.drawn) s.now user b r)
      × ((create_review user r s).1.committed.reviews ≡ s.working.reviews ++ row ∷ [])
unfolding create_review
create_review_accepted user r s {row} h =
    let (b, passed, step) = bind_inv (admit_review user r) (persist_review user r) s h in
    let eq : create_review user r s ≡ persist_review user r b s =
      step ∙ ap (persist_review user r b) (admit_review_session user r s) in
    let (role, found, own, done, new) = admit_review_passed user r s passed in
    let (is_row, rows) = persist_review_written user r b s (rw eq at h) in
    (b, role, found, own, done, new, is_row, rw eq rows)

-- `get_review_by_id` returns a review exactly when it stands under the key and the caller is its
-- author, its provider or an administrator.
pub get_review_by_id_iff :
    (k : ℕ) (user : User) (s : Session) (r : Review)
    → (get_review_by_id k user s ≡ (ok r, s))
      ↔ ((find_review k s.working ≡ some r) × (may_see user r ≡ true))
unfolding get_review_by_id
get_review_by_id_iff k user s r = (λ h. (ground arith, ground arith), λ h. ground arith)
