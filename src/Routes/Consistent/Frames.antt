-- ===== src/Routes/Consistent/Frames.antt =====
-- What a call may leave alone: users, reviews, and that notifications are not doubled.
use bodhrik_fullstack_assess.Common.{
  All, ◌<◌, ℕ, String, ◌≡◌, Bool, true, false, any, ◌++◌, if◌then◌else◌, ◌⊎◌, inl, inr, subst, sym,
  Option, List, [], ◌∷◌, arith, ⊤, ◌==◌,
}
use bodhrik_fullstack_assess.Models.{
  Booking, NotificationType, User, Review, Notification, Database,
}
use bodhrik_fullstack_assess.Session.{
  Session, Action, Result, ok, err, operational, on_error, commit, rollback, ◌>>=◌, ◌>>◌,
}
use bodhrik_fullstack_assess.Session.Laws.{bind_keeps, Result-cases}
use bodhrik_fullstack_assess.Common.Separate.{UniqueKeys, append-Separate}
use bodhrik_fullstack_assess.Models.Constraints.{notification_violation}
use bodhrik_fullstack_assess.Notifications.{create_notification, new_notification}
use bodhrik_fullstack_assess.Notifications.Slots.{IsDeduplicated}
use bodhrik_fullstack_assess.Notifications.Create.{
  create_notification-IsDeduplicated, create_notification_committed,
}

-- Keys are unique, and no two notifications hold one slot.
pub record IsTidy (ns : List Notification) : Type 0 where
  pub unique : UniqueKeys (λ (n : Notification). n.id) ns
  pub apart : IsDeduplicated ns

create_notification_outcome :
    (u : ℕ) (type : NotificationType) (title message : String) (b : Option ℕ) (s : Session)
    → let ns = (create_notification u type title message b s).1.working.notifications in
      let row = new_notification (s.uuid s.drawn) s.now u type title message b in
      (ns ≡ s.working.notifications)
      ⊎ ((any (λ n. n.id == row.id) s.working.notifications ≡ false)
          × (ns ≡ s.working.notifications ++ row ∷ []))
unfolding create_notification notification_violation
create_notification_outcome u type title message b s = ground arith

create_notification_bookings :
    (u : ℕ) (type : NotificationType) (title message : String) (b : Option ℕ) (s : Session)
    → s.working.bookings ≡ (create_notification u type title message b s).1.working.bookings
unfolding create_notification notification_violation
create_notification_bookings u type title message b s = ground arith

create_notification_unique :
    (u : ℕ) (type : NotificationType) (title message : String) (b : Option ℕ) (s : Session)
    → UniqueKeys (λ (n : Notification). n.id) s.working.notifications
    → UniqueKeys
        (λ (n : Notification). n.id)
        (create_notification u type title message b s).1.working.notifications
create_notification_unique u type title message b s h =
    elim (create_notification_outcome u type title message b s) [
      | inl same ↦ rw same h
      | inr (absent, e) ↦ rw e (
          append-Separate (λ (n m : Notification). n.id == m.id) (λ n m. ground arith)
            s.working.notifications (new_notification (s.uuid s.drawn) s.now u type title message b)
            absent h)
    ]

-- It ends after it starts, and nobody books themselves.
abbrev pub IsProper : Booking → Type 0
IsProper b = (b.start_time < b.end_time) × ((b.customer_id == b.provider_id) ≡ false)

-- Both databases of a session have these users and reviews, proper bookings, and no notification
-- twice.
pub record Framed (us : List User) (rs : List Review) (s : Session) : Type 0 where
  pub users : s.working.users ≡ us
  pub reviews : s.working.reviews ≡ rs
  pub proper : All IsProper s.working.bookings
  pub slots : IsTidy s.working.notifications
  pub stored_users : s.committed.users ≡ us
  pub stored_reviews : s.committed.reviews ≡ rs
  pub stored_proper : All IsProper s.committed.bookings
  pub stored_slots : IsTidy s.committed.notifications

module _ (us : List User) (rs : List Review) where
  abbrev pub Keeps : {A : Type 0} → Action A → Type 0
  Keeps m = (s : Session) → Framed us rs s → Framed us rs (m s).1

  pub Keeps-bind :
      {A B : Type 0} (m : Action A) (f : A → Action B)
      → Keeps m
      → ((a : A) → Keeps (f a))
      → Keeps (m >>= f)
  Keeps-bind m f hm hf s h = bind_keeps (Framed us rs) m f s (hm s h) (λ a _. hf a (m s).1 (hm s h))

  pub Keeps-then : {A B : Type 0} (m : Action A) (k : Action B) → Keeps m → Keeps k → Keeps (m >> k)
  Keeps-then m k hm hk = Keeps-bind m (λ _. k) hm (λ _. hk)

  pub Keeps-if :
      {A : Type 0} (b : Bool) (m n : Action A) → Keeps m → Keeps n → Keeps (if b then m else n)
  Keeps-if true m n hm hn = hm
  Keeps-if false m n hm hn = hn

  -- a call that only reads
  pub Keeps-reading : {A : Type 0} (m : Action A) → ((s : Session) → (m s).1 ≡ s) → Keeps m
  Keeps-reading m same s h = rw (same s) h

  pub Keeps-create_notification :
      (u : ℕ) (type : NotificationType) (title message : String) (b : Option ℕ)
      → Keeps (create_notification u type title message b)
  unfolding create_notification
  Keeps-create_notification u type title message b s h = record {
    users = ground arith;
    reviews = ground arith;
    proper = subst (All IsProper) (create_notification_bookings u type title message b s) h.proper;
    slots = record {
      unique = create_notification_unique u type title message b s h.slots.unique;
      apart = create_notification-IsDeduplicated u type title message b s h.slots.apart;
    };
    stored_users = ground arith;
    stored_reviews = ground arith;
    stored_proper =
        subst (λ (d : Database). All IsProper d.bookings)
          (sym (create_notification_committed u type title message b s)) h.stored_proper;
    stored_slots =
        subst (λ (d : Database). IsTidy d.notifications)
          (sym (create_notification_committed u type title message b s)) h.stored_slots;
  }

  framed_if :
      {A : Type 0} (b : Bool) (p q : Result A × Session)
      → Framed us rs p.1
      → Framed us rs q.1
      → Framed us rs (if b then p else q).1
  framed_if true p q hp hq = hp
  framed_if false p q hp hq = hq

  -- the two ends of a transaction
  settled : (s : Session) → Framed us rs s → Framed us rs (record s { committed = s.working })
  settled s h = record {
    users = h.users;
    reviews = h.reviews;
    proper = h.proper;
    slots = h.slots;
    stored_users = h.users;
    stored_reviews = h.reviews;
    stored_proper = h.proper;
    stored_slots = h.slots;
  }

  pub Keeps-rollback : Keeps rollback
  Keeps-rollback s h = record {
    users = h.stored_users;
    reviews = h.stored_reviews;
    proper = h.stored_proper;
    slots = h.stored_slots;
    stored_users = h.stored_users;
    stored_reviews = h.stored_reviews;
    stored_proper = h.stored_proper;
    stored_slots = h.stored_slots;
  }

  pub Keeps-commit : Keeps commit
  Keeps-commit s h =
      framed_if s.online (ok tt, record s { committed = s.working }) (err operational, s)
        (settled s h) h

  pub Keeps-on_error :
      {A : Type 0} (m : Action A) (handler : Action ⊤)
      → Keeps m
      → Keeps handler
      → Keeps (on_error m handler)
  Keeps-on_error m handler hm hh s h = elim (Result-cases (m s).0) [
    | inl (a, e) ↦ rw (e, on_error) (hm s h)
    | inr (x, e) ↦ rw (e, on_error) (hh (m s).1 (hm s h))
  ]
