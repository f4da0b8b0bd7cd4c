-- ===== src/Session/Commit.antt =====
-- How a call that ends with a commit ends.
use bodhrik_fullstack_assess.Common.{ℕ, ◌≡◌, refl, ◌⊎◌, inl, inr, true, arith, ⊤, Bool-cases}
use bodhrik_fullstack_assess.Session.Store.{commit}
use bodhrik_fullstack_assess.Session.Monad.{Session, Exception, ok, err, pure, ◌>>◌}
use bodhrik_fullstack_assess.Session.Laws.{bind_inv}

pub commit_done : (s : Session) → {a : ⊤} → (commit s).0 ≡ ok a → (commit s).1.committed ≡ s.working
commit_done s h = elim (Bool-cases s.online) [ inl e ↦ rw e refl | inr e ↦ absurd (ground arith) ]

pub commit_online :
    (m : ℕ) (s : Session)
    → s.online ≡ true
    → (commit >> pure m) s ≡ (ok m, record s { committed = s.working })
commit_online m s e = rw e refl

pub commit_failed :
    (m : ℕ) (s : Session) {e : Exception}
    → ((commit >> pure m) s).0 ≡ err e
    → ((commit >> pure m) s).1.committed ≡ s.committed
commit_failed m s {e} h = elim (Bool-cases s.online) [
  | inl up ↦ absurd (ground (arith, commit_online m s up))
  | inr down ↦ rw down refl
]

pub commit_returned :
    (m : ℕ) (s : Session) {n : ℕ}
    → ((commit >> pure m) s).0 ≡ ok n
    → (m ≡ n) × (((commit >> pure m) s).1.committed ≡ s.working)
commit_returned m s {n} h =
    let (_, done, step) = bind_inv commit (λ _. pure m) s h in
    let same : (pure m (commit s).1).0 ≡ ok n = rw step at h in
    (ground arith, rw step (commit_done s done))

pub commit_outcome :
    (m : ℕ) (s : Session)
    → (((commit >> pure m) s).1.committed ≡ s.working)
      ⊎ (((commit >> pure m) s).1.committed ≡ s.committed)
commit_outcome m s = elim (Bool-cases s.online) [
  | inl e ↦ inl (rw e refl)
  | inr e ↦ inr (rw e refl)
]
