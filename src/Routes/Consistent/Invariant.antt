-- ===== src/Routes/Consistent/Invariant.antt =====
-- What holds of a database between any two events, and what of it a call has to show that changes
-- some of the tables only.
use bodhrik_fullstack_assess.Common.{◌≡◌, sym, subst, All}
use bodhrik_fullstack_assess.Models.{User, Database}
use bodhrik_fullstack_assess.Bookings.Schedule.{IsScheduled}
use bodhrik_fullstack_assess.Bookings.Keeps.Rows.{IsScheduled-of_bookings}
use bodhrik_fullstack_assess.Reviews.Table.{IsReviewed}
use bodhrik_fullstack_assess.Routes.Consistent.Completed.{
  KeepsCompleted, KeepsCompleted-of_bookings,
}
use bodhrik_fullstack_assess.Routes.Consistent.Frames.{IsTidy, IsProper}
use bodhrik_fullstack_assess.Routes.Consistent.Backed.{
  IsBacked, IsBacked-bookings, AllBacked, All-map,
}
use bodhrik_fullstack_assess.Routes.Consistent.Untouched.{OnlyReviews, OnlyNotifications}
use bodhrik_fullstack_assess.Routes.Consistent.Served.{ServedBy, ServedBy-of_bookings}
use bodhrik_fullstack_assess.Common.{List}
use bodhrik_fullstack_assess.Routes.Consistent.Users.{HasUniqueUsers}

-- Ids are unique; each booking ends after it starts and is of two people, one of them a provider; no
-- provider has two active bookings that overlap; no booking has two reviews,
-- ratings are from 1 to 5, and each review is about a completed booking of its customer with its
-- provider; no notification stands twice; no two users have one email.
pub record IsConsistent (db : Database) : Type 0 where
  pub scheduled : IsScheduled db
  pub proper : All IsProper db.bookings
  pub served : ServedBy db.users db
  pub reviewed : IsReviewed db.reviews
  pub backed : All (IsBacked db) db.reviews
  pub tidy : IsTidy db.notifications
  pub accounts : HasUniqueUsers db.users

module _ (db d : Database) (h : IsConsistent db) where
  still_backed : d.reviews ≡ db.reviews → KeepsCompleted db d → AllBacked d d
  still_backed rs keep =
      subst (All (IsBacked d)) (sym rs)
        (All-map (λ r. IsBacked-bookings db d r keep) db.reviews h.backed)

  -- by what a call has changed: bookings and notifications, reviews, notifications, or users
  pub from_bookings :
      IsScheduled d
      → All IsProper d.bookings
      → ServedBy db.users d
      → KeepsCompleted db d
      → d.users ≡ db.users
      → d.reviews ≡ db.reviews
      → IsTidy d.notifications
      → IsConsistent d
  from_bookings scheduled proper served keep us rs tidy = record {
    scheduled = scheduled;
    proper = proper;
    served = subst (λ (xs : List User). ServedBy xs d) (sym us) served;
    reviewed = rw rs h.reviewed;
    backed = still_backed rs keep;
    tidy = tidy;
    accounts = rw us h.accounts;
  }

  pub from_reviews : OnlyReviews db d → IsReviewed d.reviews → AllBacked db d → IsConsistent d
  from_reviews (us, bs, ns) reviewed backed = record {
    scheduled = IsScheduled-of_bookings bs h.scheduled;
    proper = rw bs h.proper;
    served =
        subst (λ (xs : List User). ServedBy xs d) (sym us)
          (ServedBy-of_bookings db.users db d bs h.served);
    reviewed = reviewed;
    backed =
        All-map (λ r. IsBacked-bookings db d r (KeepsCompleted-of_bookings db d bs)) d.reviews
          backed;
    tidy = rw ns h.tidy;
    accounts = rw us h.accounts;
  }

  pub from_notifications : OnlyNotifications db d → IsTidy d.notifications → IsConsistent d
  from_notifications (us, bs, rs) tidy = record {
    scheduled = IsScheduled-of_bookings bs h.scheduled;
    proper = rw bs h.proper;
    served =
        subst (λ (xs : List User). ServedBy xs d) (sym us)
          (ServedBy-of_bookings db.users db d bs h.served);
    reviewed = rw rs h.reviewed;
    backed = still_backed rs (KeepsCompleted-of_bookings db d bs);
    tidy = tidy;
    accounts = rw us h.accounts;
  }

  pub from_users :
      HasUniqueUsers d.users
      → ServedBy d.users d
      → (d.bookings ≡ db.bookings) × (d.reviews ≡ db.reviews) × (d.notifications ≡ db.notifications)
      → IsConsistent d
  from_users accounts served (bs, rs, ns) = record {
    scheduled = IsScheduled-of_bookings bs h.scheduled;
    proper = rw bs h.proper;
    served = served;
    reviewed = rw rs h.reviewed;
    backed = still_backed rs (KeepsCompleted-of_bookings db d bs);
    tidy = rw ns h.tidy;
    accounts = accounts;
  }
