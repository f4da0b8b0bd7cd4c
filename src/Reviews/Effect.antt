-- ===== src/Reviews/Effect.antt =====
-- What a change or a removal of a review does to the table.
use bodhrik_fullstack_assess.Common.{
  ℕ, ◌≡◌, inl, inr, true, none, some, List, [], ◌∷◌, arith, ◌==◌, if◌then◌else◌, Option-cases,
}
use bodhrik_fullstack_assess.Common.Table.{first, delete_where}
use bodhrik_fullstack_assess.Models.{User, Review}
use bodhrik_fullstack_assess.Session.{Session, ok, find_review}
use bodhrik_fullstack_assess.Session.Laws.{bind_inv}
use bodhrik_fullstack_assess.Reviews.{may_delete, delete_review}
use bodhrik_fullstack_assess.Session.Laws.{bind_inv}
use bodhrik_fullstack_assess.Common.Separate.{first-key}

first-delete_where :
    (k j : ℕ) (rs : List Review)
    → first (λ r. r.id == j) (delete_where (λ r. r.id == k) rs)
      ≡ (if j == k then none else first (λ r. r.id == j) rs)
first-delete_where k j [] = ground arith
first-delete_where k j (r ∷ rs) = ground (arith, first-delete_where k j rs)

delete_review_written :
    (k : ℕ) (user : User) (s : Session)
    → (delete_review k user s).0 ≡ ok tt
    → (r : Review) × (find_review k s.working ≡ some r)
      × (may_delete user r ≡ true)
      × ((delete_review k user s).1.committed.reviews
          ≡ delete_where (λ x. x.id == k) s.working.reviews)
unfolding delete_review
delete_review_written k user s h = elim (Option-cases (find_review k s.working)) [
  | inl e ↦ absurd (ground arith)
  | inr (r, e) ↦
      let id : r.id ≡ k = first-key (λ (x : Review). x.id) k s.working.reviews e in
      (r, e, ground arith, ground (arith, id))
]

-- A removal of a review that is accepted was asked for by its author or by an administrator. It
-- takes that review away and no other.
pub delete_review_effect :
    (k : ℕ) (user : User) (s : Session)
    → (delete_review k user s).0 ≡ ok tt
    → (r : Review) × (find_review k s.working ≡ some r)
      × (may_delete user r ≡ true)
      × ((j : ℕ)
          → find_review j (delete_review k user s).1.committed
            ≡ (if j == k then none else find_review j s.working))
delete_review_effect k user s h =
    let (r, found, may, rows) = delete_review_written k user s h in
    (r, found, may, λ j. rw rows (first-delete_where k j s.working.reviews))
