-- ===== src/Reviews/Table.antt =====
-- The table of reviews: its keys, and the range of its ratings.
use bodhrik_fullstack_assess.Common.{
  ℕ, ◌≡◌, ◌⊎◌, inl, inr, Bool, none, some, List, [], ◌∷◌, ◌++◌, arith, ◌==◌, Bool-cases,
  Option-cases, All, All-append,
}
use bodhrik_fullstack_assess.Common.Table.{first, delete_where}
use bodhrik_fullstack_assess.Models.{User, Booking, Review, Database}
use bodhrik_fullstack_assess.Session.{
  Session, ok, find_review, refreshed_review, Environment, open_session, serve,
}
use bodhrik_fullstack_assess.Models.Constraints.{review_violation, review_check}
use bodhrik_fullstack_assess.Session.Laws.{bind_keeps, Transaction-keeps}
use bodhrik_fullstack_assess.Reviews.{
  ReviewCreate, ReviewUpdate, new_review, admit_review, persist_review, create_review, revised,
  update_review, open_own_review, save_review, delete_review,
}
use bodhrik_fullstack_assess.Common.Separate.{
  Separate, UniqueKeys, append-Separate, delete_where-Separate, put, put-UniqueKeys, put-Separate,
  first-elsewhere, first-key,
}
use bodhrik_fullstack_assess.Statistics.Distribution.{InRange}
use bodhrik_fullstack_assess.Reviews.Guards.{
  admit_review_session, open_own_review_session, create_review-Transaction,
  update_review-Transaction, delete_review-Transaction,
}

abbrev pub same_booking : Review → Review → Bool
same_booking q r = q.booking_id == r.booking_id

-- Keys are unique, no booking has two reviews, and ratings are from 1 to 5.
pub record IsReviewed (rs : List Review) : Type 0 where
  pub unique : UniqueKeys (λ (r : Review). r.id) rs
  pub one_each : Separate same_booking rs
  pub ranges : All (λ (r : Review). InRange r.rating) rs

id_sym : (q r : Review) → (q.id == r.id) ≡ (r.id == q.id)
id_sym q r = ground arith

booking_sym : (q r : Review) → same_booking q r ≡ same_booking r q
booking_sym q r = ground arith

pub append-IsReviewed :
    (db : Database) (r : Review)
    → review_violation db r ≡ none
    → IsReviewed db.reviews
    → IsReviewed (db.reviews ++ r ∷ [])
unfolding review_violation
append-IsReviewed db r e h = record {
  unique = append-Separate (λ x y. x.id == y.id) id_sym db.reviews r (ground arith) h.unique;
  one_each = append-Separate same_booking booking_sym db.reviews r (ground arith) h.one_each;
  ranges =
      All-append (λ r. InRange r.rating) db.reviews (r ∷ []) h.ranges
        ((ground arith, ground arith), tt);
}

All-put :
    (y : Review) (rs : List Review)
    → InRange y.rating
    → All (λ (r : Review). InRange r.rating) rs
    → All (λ (r : Review). InRange r.rating) (put (λ r. r.id) y rs)
All-put y [] hy h = tt
All-put y (r ∷ rs) hy h = elim (Bool-cases (r.id == y.id)) [
  | inl e ↦ rw e (hy, All-put y rs hy h.1)
  | inr e ↦ rw e (h.0, All-put y rs hy h.1)
]

put-IsReviewed :
    (k : ℕ) (rs : List Review) (q r : Review)
    → first (λ x. x.id == k) rs ≡ some q
    → r.id ≡ q.id
    → r.booking_id ≡ q.booking_id
    → review_check r ≡ none
    → IsReviewed rs
    → IsReviewed (put (λ x. x.id) r rs)
put-IsReviewed k rs q r found id booking e h = record {
  unique = put-UniqueKeys (λ x. x.id) r rs h.unique;
  one_each =
      put-Separate (λ x. x.id) r same_booking booking_sym rs h.unique
        (rw (id, booking)
          (first-elsewhere (λ x. x.id) same_booking booking_sym k rs q found h.unique h.one_each))
        h.one_each;
  ranges = All-put r rs (ground arith, ground arith) h.ranges;
}

All-delete :
    (p : Review → Bool) (rs : List Review)
    → All (λ (r : Review). InRange r.rating) rs
    → All (λ (r : Review). InRange r.rating) (delete_where p rs)
All-delete p [] h = tt
All-delete p (r ∷ rs) h = elim (Bool-cases (p r)) [
  | inl e ↦ rw e (All-delete p rs h.1)
  | inr e ↦ rw e (h.0, All-delete p rs h.1)
]

delete-IsReviewed :
    (p : Review → Bool) (rs : List Review) → IsReviewed rs → IsReviewed (delete_where p rs)
delete-IsReviewed p rs h = record {
  unique = delete_where-Separate (λ x y. x.id == y.id) p rs h.unique;
  one_each = delete_where-Separate same_booking p rs h.one_each;
  ranges = All-delete p rs h.ranges;
}

pub persist_review_outcome :
    (user : User) (r : ReviewCreate) (b : Booking) (s : Session)
    → let row = new_review (s.uuid s.drawn) s.now user b r in
      let rs = (persist_review user r b s).1.working.reviews in
      (rs ≡ s.committed.reviews)
      ⊎ (rs ≡ s.working.reviews)
      ⊎ ((review_violation s.working row ≡ none) × (rs ≡ s.working.reviews ++ row ∷ []))
unfolding persist_review
persist_review_outcome user r b s = ground arith

persist_review-IsReviewed :
    (user : User) (r : ReviewCreate) (b : Booking) (s : Session)
    → IsReviewed s.committed.reviews
    → IsReviewed s.working.reviews
    → IsReviewed (persist_review user r b s).1.working.reviews
persist_review-IsReviewed user r b s old h = elim (persist_review_outcome user r b s) [
  | inl undone ↦ rw undone old
  | inr (inl same) ↦ rw same h
  | inr (inr (free, e)) ↦
      rw e (append-IsReviewed s.working (new_review (s.uuid s.drawn) s.now user b r) free h)
]

pub open_own_review_row :
    (k : ℕ) (user : User) (s : Session) {r : Review}
    → (open_own_review k user s).0 ≡ ok r
    → first (λ x. x.id == k) s.working.reviews ≡ some r
unfolding open_own_review
open_own_review_row k user s {r} e = ground arith

pub save_review_outcome :
    (u : ReviewUpdate) (r : Review) (s : Session)
    → let row = refreshed_review s.now r (revised u r) in
      let rs = (save_review u r s).1.working.reviews in
      (rs ≡ s.committed.reviews)
      ⊎ (rs ≡ s.working.reviews)
      ⊎ ((review_check row ≡ none) × (rs ≡ put (λ x. x.id) row s.working.reviews))
unfolding save_review
save_review_outcome u r s = ground arith

pub refreshed-keys :
    (now : ℕ) (u : ReviewUpdate) (r : Review)
    → let row = refreshed_review now r (revised u r) in
      (row.id ≡ r.id) × (row.booking_id ≡ r.booking_id)
refreshed-keys now u r = (ground arith, ground arith)

save_review-IsReviewed :
    (k : ℕ) (u : ReviewUpdate) (r : Review) (s : Session)
    → first (λ x. x.id == k) s.working.reviews ≡ some r
    → IsReviewed s.committed.reviews
    → IsReviewed s.working.reviews
    → IsReviewed (save_review u r s).1.working.reviews
save_review-IsReviewed k u r s found old h = elim (save_review_outcome u r s) [
  | inl undone ↦ rw undone old
  | inr (inl same) ↦ rw same h
  | inr (inr (valid, e)) ↦
      let (id, booking) = refreshed-keys s.now u r in
      rw e (
        put-IsReviewed k s.working.reviews r (refreshed_review s.now r (revised u r)) found id
          booking valid h)
]

pub delete_review_outcome :
    (k : ℕ) (user : User) (s : Session)
    → let rs = (delete_review k user s).1.working.reviews in
      (rs ≡ s.committed.reviews)
      ⊎ (rs ≡ s.working.reviews)
      ⊎ (rs ≡ delete_where (λ r. r.id == k) s.working.reviews)
unfolding delete_review
delete_review_outcome k user s = elim (Option-cases (find_review k s.working)) [
  | inl e ↦ ground arith
  | inr (r, e) ↦ ground (arith, first-key (λ (x : Review). x.id) k s.working.reviews {x = r} e)
]

delete_review-IsReviewed :
    (k : ℕ) (user : User) (s : Session)
    → IsReviewed s.committed.reviews
    → IsReviewed s.working.reviews
    → IsReviewed (delete_review k user s).1.working.reviews
delete_review-IsReviewed k user s old h = elim (delete_review_outcome k user s) [
  | inl undone ↦ rw undone old
  | inr (inl same) ↦ rw same h
  | inr (inr e) ↦ rw e (delete-IsReviewed (λ r. r.id == k) s.working.reviews h)
]

-- one of the three requests that write reviews
pub data Request : Type 0 where
  create : User → ReviewCreate → Request
  update : ℕ → ReviewUpdate → User → Request
  delete : ℕ → User → Request

-- the database after the request has been served
unfoldable pub perform : Environment → Request → Database → Database
perform env (create user r) db = (serve env (create_review user r) db).1
perform env (update k u user) db = (serve env (update_review k u user) db).1
perform env (delete k user) db = (serve env (delete_review k user) db).1

-- Whatever a request for creating, changing or deleting a review meets, afterwards keys are unique,
-- no booking has two reviews and all ratings are from 1 to 5, if that was so before.
pub perform-IsReviewed :
    (env : Environment) (q : Request) (db : Database)
    → IsReviewed db.reviews
    → IsReviewed (perform env q db).reviews
unfolding perform serve create_review update_review
perform-IsReviewed env (create user r) db h =
    let s = open_session env db in
    Transaction-keeps (λ d. IsReviewed d.reviews) s (create_review user r s)
      (create_review-Transaction user r s) h
      (bind_keeps (λ s'. IsReviewed s'.working.reviews) (admit_review user r)
        (persist_review user r) s (rw (admit_review_session user r s) h)
        (λ b e. rw (admit_review_session user r s) (persist_review-IsReviewed user r b s h h)))
perform-IsReviewed env (update k u user) db h =
    let s = open_session env db in
    Transaction-keeps (λ d. IsReviewed d.reviews) s (update_review k u user s)
      (update_review-Transaction k u user s) h
      (bind_keeps (λ s'. IsReviewed s'.working.reviews) (open_own_review k user) (save_review u) s
        (rw (open_own_review_session k user s) h)
        (λ r e.
          rw (open_own_review_session k user s)
            (save_review-IsReviewed k u r s (open_own_review_row k user s e) h h)))
perform-IsReviewed env (delete k user) db h =
    let s = open_session env db in
    Transaction-keeps (λ d. IsReviewed d.reviews) s (delete_review k user s)
      (delete_review-Transaction k user s) h (delete_review-IsReviewed k user s h h)
