-- ===== src/Tests/Reviews.antt =====
-- Reviews and the figures about them.
use bodhrik_fullstack_assess.Common.{
  ℕ, ◌+◌, ◌*◌, ◌/◌, ◌≡◌, refl, true, false, none, some, [], ◌∷◌, ◌++◌, arith, ◌==◌, if◌then◌else◌,
  length,
}
use bodhrik_fullstack_assess.Common.Table.{select}
use bodhrik_fullstack_assess.Models.{UserRole, BookingStatus, role_eq, Booking, Review}
use bodhrik_fullstack_assess.Session.{find_booking, find_review}
use bodhrik_fullstack_assess.Providers.{get_provider_by_id}
use bodhrik_fullstack_assess.Tests.Data.{env, admin, customer, over, opinion, db, s}
use bodhrik_fullstack_assess.Models.Constraints.{review_violation}
use native.Mathlib.Nat.{div-mul-le_self, lt-div-mul-add}
use bodhrik_fullstack_assess.Providers.{get_provider_by_id}
use bodhrik_fullstack_assess.Statistics.{
  Rounding, ratings_of, sum, lookup, distribution, average_rating,
}
use bodhrik_fullstack_assess.Statistics.Distribution.{at}
use bodhrik_fullstack_assess.Reviews.{
  ReviewCreate, ReviewUpdate, ProviderReviewSummary, get_provider_review_summary, new_review,
  has_review, admit_review, persist_review, create_review, may_delete, delete_review,
}
use bodhrik_fullstack_assess.Reviews.Guards.{create_review_accepted}
use bodhrik_fullstack_assess.Reviews.Table.{IsReviewed}
use bodhrik_fullstack_assess.Reviews.Race
use bodhrik_fullstack_assess.Reviews.Race.{
  writes, check, write, here, next, Reach-IsReviewed, create_review_second,
}
use bodhrik_fullstack_assess.Session.{err, http}
use bodhrik_fullstack_assess.Reviews.Effect.{delete_review_effect}
use bodhrik_fullstack_assess.Reviews.Summary.{about, summary_counts}

pub reviewed : IsReviewed db.reviews
reviewed = record {
  unique = (refl, tt);
  one_each = (refl, tt);
  ranges = ((omega arith, omega arith), tt);
}

abbrev praise : ReviewCreate
praise = record { booking_id = 12; rating = 5; comment = none }

abbrev praised : Review
praised = new_review 50 1000 customer over praise

create_review_accepted_example :
    (b : Booking) × (role_eq customer.role UserRole.customer ≡ true)
    × (find_booking 12 s.working ≡ some b)
    × (b.customer_id ≡ customer.id)
    × (b.status ≡ BookingStatus.completed)
    × (has_review 12 s.working ≡ false)
    × (praised ≡ new_review (s.uuid s.drawn) s.now customer b praise)
    × ((create_review customer praise s).1.committed.reviews ≡ s.working.reviews ++ praised ∷ [])
unfolding create_review admit_review persist_review review_violation
create_review_accepted_example = create_review_accepted customer praise s {row = praised} refl

abbrev harsher : ReviewUpdate
harsher = record { rating = some 1; comment = none }

abbrev harsh : Review
harsh = record opinion { rating = 1; updated_at = 1000 }

delete_review_effect_example :
    (r : Review) × (find_review 20 s.working ≡ some r)
    × (may_delete admin r ≡ true)
    × ((j : ℕ)
        → find_review j (delete_review 20 admin s).1.committed
          ≡ (if j == 20 then none else find_review j s.working))
unfolding delete_review
delete_review_effect_example = delete_review_effect 20 admin s refl

pub twice : (q c : ℕ) → 2 * q * c ≡ q * (2 * c)
twice q c = ground arith

abbrev pub half_up : ℕ → ℕ → ℕ
half_up total count = (200 * total + count) / (2 * count)

-- Exact division, rounded half up.
abbrev pub rounding : Rounding
rounding = record {
  hundredths = half_up;
  not_above = λ total count h.
      omega (
        arith,
        div-mul-le_self (200 * total + count) (2 * count),
        twice (half_up total count) count,
      );
  not_below = λ total count h. omega (
    arith,
    lt-div-mul-add {a = 200 * total + count} {b = 2 * count} (omega arith),
    twice (half_up total count) count,
  );
}

abbrev summary : ProviderReviewSummary
summary = record {
  provider_id = 2;
  review_count = 1;
  average_rating = 400;
  rating_distribution = (1, 0) ∷ (2, 0) ∷ (3, 0) ∷ (4, 1) ∷ (5, 0) ∷ [];
}

summary_counts_example :
    let d = summary.rating_distribution in
    (lookup 4 d ≡ some (length (select (about 2 4) s.working.reviews)))
    × (at 1 d + at 2 d + at 3 d + at 4 d + at 5 d ≡ summary.review_count)
    × (summary.review_count
        ≡ length (select (λ (r : Review). r.provider_id == 2) s.working.reviews))
unfolding get_provider_review_summary get_provider_by_id ratings_of distribution average_rating sum
summary_counts_example =
    summary_counts rounding 2 s summary refl reviewed 4 (omega arith) (omega arith)

-- two tabs of one customer
abbrev one_tab : Race.Call
one_tab = record { env = env; user = customer; review_in = praise }

abbrev other_tab : Race.Call
other_tab = record {
  env = record env { uuid = λ n. 60 + n };
  user = customer;
  review_in = record praise { rating = 1 };
}

-- Both pass their checks; the one that was checked last writes first.
abbrev raced : Race.System
raced = record {
  database = (writes one_tab over (writes other_tab over db).1.committed).1.committed;
  admitted = [];
}

race_path : Race.Reach (Race.idle db) raced
unfolding admit_review
race_path =
    next
      (next
        (next (next here (check one_tab over (Race.idle db) refl))
          (check other_tab over (record { database = db; admitted = (one_tab, over) ∷ [] }) refl))
        (write ((one_tab, over) ∷ []) [] other_tab over
          (record { database = db; admitted = (one_tab, over) ∷ (other_tab, over) ∷ [] }) refl))
      (write [] [] one_tab over
        (record {
          database = (writes other_tab over db).1.committed;
          admitted = (one_tab, over) ∷ [];
        })
        refl)

Reach-IsReviewed_example : IsReviewed raced.database.reviews
Reach-IsReviewed_example = Reach-IsReviewed db raced race_path reviewed

create_review_second_example :
    let db' = (writes one_tab over db).1.committed in
    ((writes other_tab over db').0 ≡ err (http 409 "A review already exists for this booking" []))
    × ((writes other_tab over db').1.committed ≡ db')
unfolding persist_review review_violation
create_review_second_example =
    create_review_second db one_tab other_tab over over {row = praised} refl refl
