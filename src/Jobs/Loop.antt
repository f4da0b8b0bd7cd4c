-- ===== src/Jobs/Loop.antt =====
-- A job's loop over all its bookings, and the job as a whole.
use bodhrik_fullstack_assess.Common.{
  ℕ, ◌+◌, String, ◌≡◌, refl, sym, ap, ◌∙◌, subst, inl, inr, Bool, true, false, List, [], ◌∷◌, arith,
  ⊤, ◌==◌, if◌then◌else◌, Bool-cases, length, any, All,
}
use bodhrik_fullstack_assess.Common.Table.{select}
use bodhrik_fullstack_assess.Models.{NotificationType, Booking, Notification, Database}
use bodhrik_fullstack_assess.Session.{
  Exception, err, Session, Result, ok, Action, pure, ◌>>=◌, ◌>>◌, commit, Environment, open_session,
  serve,
}
use bodhrik_fullstack_assess.Session.Laws.{bind_keeps, bind_inv, bind_ok, bind_err, Result-cases}
use bodhrik_fullstack_assess.Notifications.Slots.{IsDeduplicated}
use bodhrik_fullstack_assess.Notifications.Create.{is_told}
use bodhrik_fullstack_assess.Jobs.{notify_pair, for_each, run_job}
use bodhrik_fullstack_assess.Jobs.Pair.{
  OnlyNotifies, OnlyNotifies-trans, notify_pair-OnlyNotifies, notify_pair_counts, notify_pair_told,
  notify_pair_again, notify_pair_keeps, notify_pair_elsewhere, notify_pair-IsDeduplicated,
}
use bodhrik_fullstack_assess.Session.Commit.{
  commit_online, commit_failed, commit_returned, commit_outcome,
}

-- A message is made of the booking it is about.
module _ (type : NotificationType) (title : String) (cm pm : Booking → String) where
  -- a loop body of booking_jobs.py
  abbrev pub pass : Booking → Action ℕ
  pass b = notify_pair type title (cm b) (pm b) b

  -- Both parties of a booking are told.
  abbrev pub BothTold : List Notification → Booking → Type 0
  BothTold ns b =
      (is_told b.customer_id b.id type ns ≡ true) × (is_told b.provider_id b.id type ns ≡ true)

  BothTold-keeps :
      (c b : Booking) (s : Session)
      → BothTold s.working.notifications b
      → BothTold (pass c s).1.working.notifications b
  BothTold-keeps c b s (h, h') = (
    notify_pair_keeps type title (cm c) (pm c) c s b.customer_id b.id type h,
    notify_pair_keeps type title (cm c) (pm c) c s b.provider_id b.id type h',
  )

  for_each-OnlyNotifies :
      (bs : List Booking) (n : ℕ) (s : Session) → OnlyNotifies s (for_each pass bs n s).1
  unfolding for_each
  for_each-OnlyNotifies [] n s = record {
    users = refl;
    bookings = refl;
    reviews = refl;
    committed = refl;
    online = refl;
    now = refl;
  }
  for_each-OnlyNotifies (b ∷ bs) n s =
      let here = notify_pair-OnlyNotifies type title (cm b) (pm b) b s in
      bind_keeps (λ s'. OnlyNotifies s s') (pass b) (λ m. for_each pass bs (n + m)) s here
        (λ m _. OnlyNotifies-trans here (for_each-OnlyNotifies bs (n + m) (pass b s).1))

  for_each-IsDeduplicated :
      (bs : List Booking) (n : ℕ) (s : Session)
      → IsDeduplicated s.working.notifications
      → IsDeduplicated (for_each pass bs n s).1.working.notifications
  unfolding for_each
  for_each-IsDeduplicated [] n s h = h
  for_each-IsDeduplicated (b ∷ bs) n s h =
      let here = notify_pair-IsDeduplicated type title (cm b) (pm b) b s h in
      bind_keeps (λ s'. IsDeduplicated s'.working.notifications) (pass b)
        (λ m. for_each pass bs (n + m)) s here
        (λ m _. for_each-IsDeduplicated bs (n + m) (pass b s).1 here)

  for_each_keeps :
      (c : Booking) (bs : List Booking) (n : ℕ) (s : Session)
      → BothTold s.working.notifications c
      → BothTold (for_each pass bs n s).1.working.notifications c
  unfolding for_each
  for_each_keeps c [] n s h = h
  for_each_keeps c (b ∷ bs) n s h =
      let here = BothTold-keeps b c s h in
      bind_keeps (λ s'. BothTold s'.working.notifications c) (pass b)
        (λ m. for_each pass bs (n + m)) s here
        (λ m _. for_each_keeps c bs (n + m) (pass b s).1 here)

  -- A loop that ends has told both parties of each booking, and has counted what it added.
  pub for_each_told :
      (bs : List Booking) (n : ℕ) (s : Session) {total : ℕ}
      → (for_each pass bs n s).0 ≡ ok total
      → All (BothTold (for_each pass bs n s).1.working.notifications) bs
        × (length (for_each pass bs n s).1.working.notifications + n
            ≡ length s.working.notifications + total)
  unfolding for_each
  for_each_told [] n s h = (tt, ground arith)
  for_each_told (b ∷ bs) n s {total} h =
      let (m, e, step) = bind_inv (pass b) (λ m. for_each pass bs (n + m)) s h in
      let s' = (pass b s).1 in
      let (told, count) = for_each_told bs (n + m) s' (rw step at h) in
      let both = notify_pair_told type title (cm b) (pm b) b s e in
      let grown = notify_pair_counts type title (cm b) (pm b) b s e in
      subst
        (λ (r : Result ℕ × Session).
          All (BothTold r.1.working.notifications) (b ∷ bs)
          × (length r.1.working.notifications + n ≡ length s.working.notifications + total))
        (sym step) ((for_each_keeps b bs (n + m) s' both, told), omega (arith, count, grown))

  -- Where all are told already the loop adds nothing.
  pub for_each_again :
      (bs : List Booking) (n : ℕ) (s : Session)
      → All (BothTold s.working.notifications) bs
      → ((for_each pass bs n s).0 ≡ ok n) × ((for_each pass bs n s).1.working ≡ s.working)
  unfolding for_each
  for_each_again [] n s h = (refl, refl)
  for_each_again (b ∷ bs) n s h =
      let (zero_counted, same) = notify_pair_again type title (cm b) (pm b) b s h.0.0 h.0.1 in
      let s' = (pass b s).1 in
      let step = bind_ok (pass b) (λ m. for_each pass bs (n + m)) s zero_counted in
      let (none_counted, unchanged) =
        for_each_again bs (n + 0) s'
          (subst (λ (db : Database). All (BothTold db.notifications) bs) (sym same) h.1) in
      rw step (none_counted ∙ ap ok (omega arith), unchanged ∙ same)

  -- About a booking that the loop does not come to nobody is told.
  for_each_elsewhere :
      (v k : ℕ) (t : NotificationType) (bs : List Booking) (n : ℕ) (s : Session)
      → any (λ (b : Booking). b.id == k) bs ≡ false
      → is_told v k t (for_each pass bs n s).1.working.notifications
        ≡ is_told v k t s.working.notifications
  unfolding for_each
  for_each_elsewhere v k t [] n s h = refl
  for_each_elsewhere v k t (b ∷ bs) n s h =
      let here = notify_pair_elsewhere type title (cm b) (pm b) b s v k t (ground arith) in
      bind_keeps
        (λ s'. is_told v k t s'.working.notifications ≡ is_told v k t s.working.notifications)
        (pass b) (λ m. for_each pass bs (n + m)) s here
        (λ m _. for_each_elsewhere v k t bs (n + m) (pass b s).1 (ground arith) ∙ here)

  module _ (due : ℕ → Booking → Bool) (env : Environment) (db : Database) where
    abbrev due_bookings : List Booking
    due_bookings = select (due env.now) db.bookings

    abbrev looped : Result ℕ × Session
    looped = for_each pass due_bookings 0 (open_session env db)

    -- A job that returns has gone through its loop and has committed.
    run_job_inv :
        {n : ℕ}
        → (serve env (run_job due pass) db).0 ≡ ok n
        → (looped.0 ≡ ok n) × ((serve env (run_job due pass) db).1 ≡ looped.1.working)
    unfolding serve run_job for_each
    run_job_inv {n} h =
        let s = open_session env db in
        let (m, e, step) = bind_inv (for_each pass due_bookings 0) (λ m. commit >> pure m) s h in
        let (same, written) = commit_returned m (for_each pass due_bookings 0 s).1 (rw step at h) in
        (e ∙ ap ok same, rw step written)

    pub run_job-IsDeduplicated :
        IsDeduplicated db.notifications
        → IsDeduplicated (serve env (run_job due pass) db).1.notifications
    unfolding serve run_job
    run_job-IsDeduplicated h =
        let s = open_session env db in
        let kept : IsDeduplicated looped.1.committed.notifications =
          rw (for_each-OnlyNotifies due_bookings 0 s).committed h in
        bind_keeps (λ s'. IsDeduplicated s'.committed.notifications) (for_each pass due_bookings 0)
          (λ m. commit >> pure m) s kept
          (λ m _. elim (commit_outcome m looped.1) [
            | inl written ↦ rw written (for_each-IsDeduplicated due_bookings 0 s h)
            | inr same ↦ rw same kept
          ])

    -- A job that returns `n` has told both parties of each due booking and has added `n` rows; it
    -- has told nobody about another booking and has changed no other table.
    pub run_job_effect :
        {n : ℕ}
        → (serve env (run_job due pass) db).0 ≡ ok n
        → let db' = (serve env (run_job due pass) db).1 in
          All (BothTold db'.notifications) due_bookings
          × (length db'.notifications ≡ length db.notifications + n)
          × ((v k : ℕ) (t : NotificationType)
              → (if any (λ b. b.id == k) due_bookings
                  then ⊤
                  else is_told v k t db'.notifications ≡ is_told v k t db.notifications))
          × (db'.bookings ≡ db.bookings)
          × (db'.reviews ≡ db.reviews)
          × (db'.users ≡ db.users)
    run_job_effect {n} h =
        let s = open_session env db in
        let (done, left) = run_job_inv h in
        let (told, count) = for_each_told due_bookings 0 s done in
        let only = for_each-OnlyNotifies due_bookings 0 s in
        subst
          (λ (d : Database).
            All (BothTold d.notifications) due_bookings
            × (length d.notifications ≡ length db.notifications + n)
            × ((v k : ℕ) (t : NotificationType)
                → (if any (λ b. b.id == k) due_bookings
                    then ⊤
                    else is_told v k t d.notifications ≡ is_told v k t db.notifications))
            × (d.bookings ≡ db.bookings)
            × (d.reviews ≡ db.reviews)
            × (d.users ≡ db.users))
          (sym left)
          (
            told,
            omega (arith, count),
            λ v k t. elsewhere v k t,
            only.bookings,
            only.reviews,
            only.users,
          )
      where
        elsewhere :
            (v k : ℕ) (t : NotificationType)
            → (if any (λ b. b.id == k) due_bookings
                then ⊤
                else is_told v k t looped.1.working.notifications ≡ is_told v k t db.notifications)
        elsewhere v k t = elim (Bool-cases (any (λ (b : Booking). b.id == k) due_bookings)) [
          | inl e ↦ rw e tt
          | inr e ↦ rw e (for_each_elsewhere v k t due_bookings 0 (open_session env db) e)
        ]

    -- A second run that meets the same bookings due creates nothing and leaves every table alone.
    pub run_job_again :
        (env' : Environment) {n : ℕ}
        → (serve env (run_job due pass) db).0 ≡ ok n
        → env'.online ≡ true
        → let db' = (serve env (run_job due pass) db).1 in
          select (due env'.now) db'.bookings ≡ due_bookings
          → serve env' (run_job due pass) db' ≡ (ok 0, db')
    unfolding serve run_job
    run_job_again env' {n} h online same_due =
        let db' = (serve env (run_job due pass) db).1 in
        let s' = open_session env' db' in
        let bs = select (due env'.now) db'.bookings in
        let told = subst (All (BothTold db'.notifications)) (sym same_due) (run_job_effect h).0 in
        let (zero_counted, same) = for_each_again bs 0 s' told in
        let t = (for_each pass bs 0 s').1 in
        let step : (for_each pass bs 0 >>= λ m. commit >> pure m) s' ≡ (commit >> pure 0) t =
          bind_ok (for_each pass bs 0) (λ m. commit >> pure m) s' zero_counted in
        let up : t.online ≡ true = (for_each-OnlyNotifies bs 0 s').online ∙ online in
        let done : (commit >> pure 0) t ≡ (ok 0, record t { committed = t.working }) =
          commit_online 0 t up in
        ap (λ (r : Result ℕ × Session). (r.0, r.1.committed)) (step ∙ done)
        ∙ ap (λ d. (ok 0, d)) same

    -- A job that raises has changed nothing.
    pub run_job_failed :
        {e : Exception}
        → (serve env (run_job due pass) db).0 ≡ err e
        → (serve env (run_job due pass) db).1 ≡ db
    unfolding serve run_job for_each
    run_job_failed {e} h =
        let s = open_session env db in
        let kept = (for_each-OnlyNotifies due_bookings 0 s).committed in
        elim (Result-cases looped.0) [
          | inl (m, done) ↦
              let step : (for_each pass due_bookings 0 >>= λ m. commit >> pure m) s
                  ≡ (commit >> pure m) looped.1 =
                bind_ok (for_each pass due_bookings 0) (λ m. commit >> pure m) s done in
              rw step (commit_failed m looped.1 (rw step at h) ∙ kept)
          | inr (x, raised) ↦
              let step : (for_each pass due_bookings 0 >>= λ m. commit >> pure m) s
                  ≡ (err x, looped.1) =
                bind_err (for_each pass due_bookings 0) (λ m. commit >> pure m) s raised in
              rw step kept
        ]
