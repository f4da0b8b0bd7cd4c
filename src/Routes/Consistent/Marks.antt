-- ===== src/Routes/Consistent/Marks.antt =====
-- Marking notifications as read keeps their keys and slots.
use bodhrik_fullstack_assess.Common.{
  ℕ, ◌≡◌, refl, sym, ◌∙◌, ◌⊎◌, inl, inr, Bool, none, some, List, [], ◌∷◌, arith, ◌==◌, any,
  Bool-cases, Option-cases,
}
use bodhrik_fullstack_assess.Common.Table.{first, update_where}
use bodhrik_fullstack_assess.Common.Separate.{
  Separate, any_mono, put, put-UniqueKeys, put-Separate, first-elsewhere,
}
use bodhrik_fullstack_assess.Models.{Notification, Database}
use bodhrik_fullstack_assess.Models.Constraints.{same_slot}
use bodhrik_fullstack_assess.Session.{Environment, serve, find_notification}
use bodhrik_fullstack_assess.Notifications.{
  mark_read, is_unread_of, mark_notification_as_read, mark_all_as_read,
}
use bodhrik_fullstack_assess.Routes.Consistent.Frames.{IsTidy}

-- Marking changes neither a key nor a slot.
any-mark :
    (p : Notification → Bool) (now : ℕ) (test : Notification → Bool) (ns : List Notification)
    → ((n : Notification) → test (mark_read now n) ≡ test n)
    → any test (update_where p (mark_read now) ns) ≡ any test ns
any-mark p now test [] same = refl
any-mark p now test (n ∷ ns) same = ground (arith, any-mark p now test ns same, same n)

mark-Separate :
    (r : Notification → Notification → Bool) (p : Notification → Bool) (now : ℕ)
    → ((n m : Notification) → r (mark_read now n) m ≡ r n m)
    → ((n m : Notification) → r n (mark_read now m) ≡ r n m)
    → (ns : List Notification) → Separate r ns
    → Separate r (update_where p (mark_read now) ns)
mark-Separate r p now left right [] h = tt
mark-Separate r p now left right (n ∷ ns) h = elim (Bool-cases (p n)) [
  | inl e ↦ rw e (
    any-mark p now (λ m. r m (mark_read now n)) ns (λ m. left m (mark_read now n))
        ∙ any_mono (λ m. r m n) (λ m. r m (mark_read now n)) ns (λ m t. sym (right m n) ∙ t) h.0,
    mark-Separate r p now left right ns h.1,
  )
  | inr e ↦ rw e (
    any-mark p now (λ m. r m n) ns (λ m. left m n) ∙ h.0,
    mark-Separate r p now left right ns h.1,
  )
]

mark-IsTidy :
    (p : Notification → Bool) (now : ℕ) (ns : List Notification)
    → IsTidy ns
    → IsTidy (update_where p (mark_read now) ns)
mark-IsTidy p now ns h = record {
  unique = mark-Separate (λ n m. n.id == m.id) p now (λ n m. refl) (λ n m. refl) ns h.unique;
  apart = mark-Separate same_slot p now (λ n m. refl) (λ n m. refl) ns h.apart;
}

same_slot_sym : (n m : Notification) → same_slot n m ≡ same_slot m n
same_slot_sym n m = ground arith

-- The row that was found is written back as read.
put-IsTidy :
    (k now : ℕ) (ns : List Notification) (n : Notification)
    → first (λ m. m.id == k) ns ≡ some n
    → IsTidy ns
    → IsTidy (put (λ m. m.id) (mark_read now n) ns)
put-IsTidy k now ns n found h = record {
  unique = put-UniqueKeys (λ m. m.id) (mark_read now n) ns h.unique;
  apart =
      put-Separate (λ m. m.id) (mark_read now n) same_slot same_slot_sym ns h.unique
        (first-elsewhere (λ m. m.id) same_slot same_slot_sym k ns n found h.unique h.apart) h.apart;
}

module _ (env : Environment) (db : Database) where
  mark_all_as_read_outcome :
      (u : ℕ)
      → let ns = (serve env (mark_all_as_read u) db).1.notifications in
        (ns ≡ db.notifications)
        ⊎ (ns ≡ update_where (is_unread_of u) (mark_read env.now) db.notifications)
  unfolding serve mark_all_as_read
  mark_all_as_read_outcome u = ground arith

  pub mark_all_as_read-IsTidy :
      (u : ℕ) → IsTidy db.notifications → IsTidy (serve env (mark_all_as_read u) db).1.notifications
  mark_all_as_read-IsTidy u h = elim (mark_all_as_read_outcome u) [
    | inl same ↦ rw same h
    | inr e ↦ rw e (mark-IsTidy (is_unread_of u) env.now db.notifications h)
  ]

  mark_found :
      (k u : ℕ) (n : Notification)
      → find_notification k db ≡ some n
      → let ns = (serve env (mark_notification_as_read k u) db).1.notifications in
        (ns ≡ db.notifications) ⊎ (ns ≡ put (λ m. m.id) (mark_read env.now n) db.notifications)
  unfolding serve mark_notification_as_read
  mark_found k u n e = ground arith

  mark_missing :
      (k u : ℕ)
      → find_notification k db ≡ none
      → (serve env (mark_notification_as_read k u) db).1.notifications ≡ db.notifications
  unfolding serve mark_notification_as_read
  mark_missing k u e = ground arith

  pub mark_notification_as_read-IsTidy :
      (k u : ℕ)
      → IsTidy db.notifications
      → IsTidy (serve env (mark_notification_as_read k u) db).1.notifications
  mark_notification_as_read-IsTidy k u h = elim (Option-cases (find_notification k db)) [
    | inl missing ↦ rw (mark_missing k u missing) h
    | inr (n, found) ↦ elim (mark_found k u n found) [
      | inl same ↦ rw same h
      | inr e ↦ rw e (put-IsTidy k env.now db.notifications n found h)
    ]
  ]
