-- ===== src/Reviews/Race.antt =====
-- Requests for reviews at once. Each statement sees what is committed when it runs (READ COMMITTED),
-- and `create_review` takes no lock between its query for an existing review and its insertion.
use bodhrik_fullstack_assess.Common.{
  ◌≡◌, ◌∙◌, ◌⊎◌, inl, inr, true, none, List, [], ◌∷◌, ◌++◌, arith, ◌==◌, any, any-append,
}
use bodhrik_fullstack_assess.Models.{User, Booking, Review, Database}
use bodhrik_fullstack_assess.Models.Constraints.{review_violation}
use bodhrik_fullstack_assess.Session.{Session, Result, ok, err, http, Environment, open_session}
use bodhrik_fullstack_assess.Reviews.{ReviewCreate, new_review, admit_review, persist_review}
use bodhrik_fullstack_assess.Reviews.Table.{IsReviewed, append-IsReviewed}

-- A call of `create_review` by a user, in its environment.
pub record Call : Type 0 where
  pub env : Environment
  pub user : User
  pub review_in : ReviewCreate

-- The database, and the calls that have passed their checks and not yet written, each with the
-- booking that it has loaded.
pub record System : Type 0 where
  pub database : Database
  pub admitted : List (Call × Booking)

abbrev pub admits : Call → Database → Result Booking
admits c db = (admit_review c.user c.review_in (open_session c.env db)).0

abbrev pub writes : Call → Booking → Database → Result Review × Session
writes c b db = persist_review c.user c.review_in b (open_session c.env db)

-- One call passes its checks, or one of those that have passed them writes.
pub data Step : System → System → Type 0 where
  check :
      (c : Call) (b : Booking) (t : System)
      → admits c t.database ≡ ok b
      → Step t (record t { admitted = t.admitted ++ (c, b) ∷ [] })
  write :
      (before after : List (Call × Booking)) (c : Call) (b : Booking) (t : System)
      → t.admitted ≡ before ++ (c, b) ∷ after
      → Step t
          (record { database = (writes c b t.database).1.committed; admitted = before ++ after })

pub data Reach (t : System) : System → Type 0 where
  here : Reach t t
  next : {u v : System} → Reach t u → Step u v → Reach t v

abbrev pub idle : Database → System
idle db = record { database = db; admitted = [] }

write_outcome :
    (c : Call) (b : Booking) (db : Database)
    → let row = new_review (c.env.uuid 0) c.env.now c.user b c.review_in in
      let rs = (writes c b db).1.committed.reviews in
      (rs ≡ db.reviews) ⊎ ((review_violation db row ≡ none) × (rs ≡ db.reviews ++ row ∷ []))
unfolding persist_review
write_outcome c b db = ground arith

write-IsReviewed :
    (c : Call) (b : Booking) (db : Database)
    → IsReviewed db.reviews
    → IsReviewed (writes c b db).1.committed.reviews
write-IsReviewed c b db h = elim (write_outcome c b db) [
  | inl same ↦ rw same h
  | inr (free, e) ↦
      rw e (append-IsReviewed db (new_review (c.env.uuid 0) c.env.now c.user b c.review_in) free h)
]

-- However the checks and the writes of any number of calls interleave, no booking gets two reviews,
-- ids stay unique and ratings stay from 1 to 5.
pub Reach-IsReviewed :
    (db : Database) (t : System)
    → Reach (idle db) t
    → IsReviewed db.reviews
    → IsReviewed t.database.reviews
Reach-IsReviewed db _ here h = h
Reach-IsReviewed db _ (next {u} r (check c b _ e)) h = Reach-IsReviewed db u r h
Reach-IsReviewed db _ (next {u} r (write before after c b _ e)) h =
    write-IsReviewed c b u.database (Reach-IsReviewed db u r h)

write_appends :
    (c : Call) (b : Booking) (db : Database) {row : Review}
    → (writes c b db).0 ≡ ok row
    → (row.booking_id ≡ b.id) × ((writes c b db).1.committed.reviews ≡ db.reviews ++ row ∷ [])
unfolding persist_review
write_appends c b db {row} done = (ground arith, ground arith)

-- A booking that has a review gets no other.
write_conflicts :
    (d : Call) (b : Booking) (db : Database)
    → any (λ (q : Review). q.booking_id == b.id) db.reviews ≡ true
    → ((writes d b db).0 ≡ err (http 409 "A review already exists for this booking" []))
      × ((writes d b db).1.committed ≡ db)
unfolding persist_review review_violation
write_conflicts d b db taken = (ground arith, ground arith)

-- Of two calls about one booking, whatever they saw in their checks, the one that writes after the
-- other's write went through answers 409 and leaves the database as it was.
pub create_review_second :
    (db : Database) (c d : Call) (b b' : Booking) {row : Review}
    → b.id ≡ b'.id
    → (writes c b db).0 ≡ ok row
    → let db' = (writes c b db).1.committed in
      ((writes d b' db').0 ≡ err (http 409 "A review already exists for this booking" []))
      × ((writes d b' db').1.committed ≡ db')
create_review_second db c d b b' {row} same done =
    let (about, rows) = write_appends c b db done in
    write_conflicts d b' (writes c b db).1.committed (
      rw rows
        (any-append (λ (q : Review). q.booking_id == b'.id) db.reviews (row ∷ []) ∙ ground arith))
