-- ===== src/Routes/Consistent/Backed.antt =====
-- Each stored review is about a completed booking of its customer with its provider. The review
-- service checks it when the review is written, and the booking service keeps it.
use bodhrik_fullstack_assess.Common.{
  ℕ, ◌≡◌, refl, sym, ap, ◌∙◌, subst, inl, inr, Bool, some, List, [], ◌∷◌, arith, ◌==◌, Bool-cases,
  All, All-append,
}
use bodhrik_fullstack_assess.Common.Table.{All-update_where, first, delete_where}
use bodhrik_fullstack_assess.Common.Separate.{first-key}
use bodhrik_fullstack_assess.Models.{BookingStatus, User, Booking, Review, Database}
use bodhrik_fullstack_assess.Session.{
  Session, ok, find_booking, refreshed_review, Environment, open_session, serve,
}
use bodhrik_fullstack_assess.Session.Laws.{bind_keeps, Transaction-keeps}
use bodhrik_fullstack_assess.Reviews.{
  ReviewCreate, ReviewUpdate, new_review, admit_review, persist_review, create_review, revised,
  update_review, open_own_review, save_review, delete_review,
}
use bodhrik_fullstack_assess.Reviews.Guards.{
  admit_review_session, admit_review_passed, open_own_review_session, create_review-Transaction,
  update_review-Transaction, delete_review-Transaction,
}
use bodhrik_fullstack_assess.Reviews.Table.{
  persist_review_outcome, save_review_outcome, delete_review_outcome, open_own_review_row,
}
use bodhrik_fullstack_assess.Routes.Consistent.Completed.{KeepsCompleted}

-- The review's booking is there and completed, with the customer and the provider of the review.
pub record IsBacked (db : Database) (r : Review) : Type 0 where
  pub booking : Booking
  pub found : find_booking r.booking_id db ≡ some booking
  pub done : booking.status ≡ BookingStatus.completed
  pub by_customer : booking.customer_id ≡ r.customer_id
  pub of_provider : booking.provider_id ≡ r.provider_id

module _ {A : Type 0} (P : A → Type 0) where
  All-delete_where : (p : A → Bool) (xs : List A) → All P xs → All P (delete_where p xs)
  All-delete_where p [] h = tt
  All-delete_where p (x ∷ xs) h = elim (Bool-cases (p x)) [
    | inl e ↦ rw e (All-delete_where p xs h.1)
    | inr e ↦ rw e (h.0, All-delete_where p xs h.1)
  ]

  All-first : (p : A → Bool) (xs : List A) (x : A) → All P xs → first p xs ≡ some x → P x
  All-first p [] x h e = absurd (cc)
  All-first p (y ∷ ys) x h e = elim (Bool-cases (p y)) [
    | inl t ↦ let same : y ≡ x = ground arith in subst P same h.0
    | inr t ↦ let later : first p ys ≡ some x = ground arith in All-first p ys x h.1 later
  ]

pub All-map :
    {A : Type 0} {P Q : A → Type 0} → ((x : A) → P x → Q x) → (xs : List A) → All P xs → All Q xs
All-map f [] h = tt
All-map f (x ∷ xs) h = (f x h.0, All-map f xs h.1)

-- Bookings may change if the completed ones do not.
pub IsBacked-bookings :
    (db db' : Database) (r : Review) → KeepsCompleted db db' → IsBacked db r → IsBacked db' r
IsBacked-bookings db db' r keep b = record {
  booking = b.booking;
  found = keep r.booking_id b.booking b.found b.done;
  done = b.done;
  by_customer = b.by_customer;
  of_provider = b.of_provider;
}

-- Only three columns of the review count.
IsBacked-columns :
    (db : Database) (q r : Review)
    → r.booking_id ≡ q.booking_id
    → r.customer_id ≡ q.customer_id
    → r.provider_id ≡ q.provider_id
    → IsBacked db q
    → IsBacked db r
IsBacked-columns db q r hb hc hp b = record {
  booking = b.booking;
  found = rw hb b.found;
  done = b.done;
  by_customer = b.by_customer ∙ sym hc;
  of_provider = b.of_provider ∙ sym hp;
}

module _ (db : Database) where
  abbrev pub AllBacked : Database → Type 0
  AllBacked d = All (IsBacked db) d.reviews

  persist_review-AllBacked :
      (user : User) (r : ReviewCreate) (b : Booking) (s : Session)
      → IsBacked db (new_review (s.uuid s.drawn) s.now user b r)
      → AllBacked s.committed
      → AllBacked s.working
      → AllBacked (persist_review user r b s).1.working
  persist_review-AllBacked user r b s row old h = elim (persist_review_outcome user r b s) [
    | inl undone ↦ rw undone old
    | inr (inl same) ↦ rw same h
    | inr (inr (free, e)) ↦ rw e (
        All-append (IsBacked db) s.working.reviews (new_review (s.uuid s.drawn) s.now user b r ∷ [])
          h (row, tt))
  ]

  save_review-AllBacked :
      (k : ℕ) (u : ReviewUpdate) (r : Review) (s : Session)
      → first (λ x. x.id == k) s.working.reviews ≡ some r
      → AllBacked s.committed
      → AllBacked s.working
      → AllBacked (save_review u r s).1.working
  save_review-AllBacked k u r s found old h = elim (save_review_outcome u r s) [
    | inl undone ↦ rw undone old
    | inr (inl same) ↦ rw same h
    | inr (inr (valid, e)) ↦
        let row = refreshed_review s.now r (revised u r) in
        rw e (
          All-update_where (IsBacked db) (λ x. x.id == row.id) row s.working.reviews
            (IsBacked-columns db r row (ground arith) (ground arith) (ground arith)
              (All-first (IsBacked db) (λ x. x.id == k) s.working.reviews r h found))
            h)
  ]

  delete_review-AllBacked :
      (k : ℕ) (user : User) (s : Session)
      → AllBacked s.committed
      → AllBacked s.working
      → AllBacked (delete_review k user s).1.working
  delete_review-AllBacked k user s old h = elim (delete_review_outcome k user s) [
    | inl undone ↦ rw undone old
    | inr (inl same) ↦ rw same h
    | inr (inr e) ↦ rw e (All-delete_where (IsBacked db) (λ r. r.id == k) s.working.reviews h)
  ]

-- The row of a review that has been admitted.
admitted-IsBacked :
    (id now : ℕ) (user : User) (r : ReviewCreate) (s : Session) {b : Booking}
    → (admit_review user r s).0 ≡ ok b
    → IsBacked s.working (new_review id now user b r)
admitted-IsBacked id now user r s {b} e =
    let (_, found, own, done, _) = admit_review_passed user r s e in
    record {
      booking = b;
      found =
          ap (λ (k : ℕ). find_booking k s.working)
            (first-key (λ (c : Booking). c.id) r.booking_id s.working.bookings found)
          ∙ found;
      done = done;
      by_customer = own;
      of_provider = refl;
    }

module _ (env : Environment) (db : Database) (h : AllBacked db db) where
  abbrev opened : Session
  opened = open_session env db

  pub create_review-AllBacked :
      (user : User) (r : ReviewCreate) → AllBacked db (serve env (create_review user r) db).1
  unfolding serve create_review
  create_review-AllBacked user r =
      Transaction-keeps (AllBacked db) opened (create_review user r opened)
        (create_review-Transaction user r opened) h
        (bind_keeps (λ t. AllBacked db t.working) (admit_review user r) (persist_review user r)
          opened (rw (admit_review_session user r opened) h)
          (λ b e. rw (admit_review_session user r opened) (
            persist_review-AllBacked db user r b opened
              (admitted-IsBacked (env.uuid 0) env.now user r opened e) h h)))

  pub update_review-AllBacked :
      (k : ℕ) (u : ReviewUpdate) (user : User)
      → AllBacked db (serve env (update_review k u user) db).1
  unfolding serve update_review
  update_review-AllBacked k u user =
      Transaction-keeps (AllBacked db) opened (update_review k u user opened)
        (update_review-Transaction k u user opened) h
        (bind_keeps (λ t. AllBacked db t.working) (open_own_review k user) (save_review u) opened
          (rw (open_own_review_session k user opened) h)
          (λ r e.
            rw (open_own_review_session k user opened)
              (save_review-AllBacked db k u r opened (open_own_review_row k user opened e) h h)))

  pub delete_review-AllBacked_served :
      (k : ℕ) (user : User) → AllBacked db (serve env (delete_review k user) db).1
  unfolding serve
  delete_review-AllBacked_served k user =
      Transaction-keeps (AllBacked db) opened (delete_review k user opened)
        (delete_review-Transaction k user opened) h (delete_review-AllBacked db k user opened h h)
