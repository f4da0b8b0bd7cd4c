-- ===== src/Session/Laws.antt =====
-- How a transaction ends, and what an invariant has to do with it.
use bodhrik_fullstack_assess.Common.{◌≡◌, refl, sym, subst, ◌⊎◌, inl, inr}
use native.Mathlib.Omega.{arith}
use bodhrik_fullstack_assess.Models.{Database}
use bodhrik_fullstack_assess.Session.Monad.{Session, Exception, Result, ok, err, Action, ◌>>=◌}

-- How a call that began at `s` has ended: what it wrote is committed, or nothing is.
abbrev pub Transaction : {A : Type 0} → Session → Result A × Session → Type 0
Transaction s (ok _, s') = s'.committed ≡ s'.working
Transaction s (err _, s') = s'.committed ≡ s.committed

-- A transaction keeps what its writes keep.
pub Transaction-keeps :
    {A : Type 0} (P : Database → Type 0) (s : Session) (r : Result A × Session)
    → Transaction s r
    → P s.committed
    → P (r.1).working
    → P (r.1).committed
Transaction-keeps P s (ok a, s') t h w = subst P (sym t) w
Transaction-keeps P s (err e, s') t h w = subst P (sym t) h

-- To show `P` of the session that `m >>= f` leaves, show it where `m` raises, and of `f` where it
-- returns.
pub bind_keeps :
    {A B : Type 0} (P : Session → Type 0) (m : Action A) (f : A → Action B) (s : Session)
    → P (m s).1
    → ((a : A) → (m s).0 ≡ ok a → P (f a (m s).1).1)
    → P ((m >>= f) s).1
bind_keeps {A} {B} P m f s hm hf = go (m s).0 refl
  where
    go :
        (r : Result A)
        → (m s).0 ≡ r
        → P
            (elim r as (λ _. Result B × Session) [
              | ok a ↦ f a (m s).1
              | err e ↦ (err e, (m s).1)
            ]).1
    go (ok a) e = hf a e
    go (err e) _ = hm

pub Result-cases :
    {A : Type 0} (r : Result A) → ((a : A) × (r ≡ ok a)) ⊎ ((e : Exception) × (r ≡ err e))
Result-cases (ok a) = inl (a, refl)
Result-cases (err e) = inr (e, refl)

module _ {A B : Type 0} (m : Action A) (f : A → Action B) (s : Session) where
  -- A block goes on, in the session that its first call left, or raises what the call raised.
  pub bind_ok : {a : A} → (m s).0 ≡ ok a → (m >>= f) s ≡ f a (m s).1
  bind_ok e = rw (e, ◌>>=◌)

  pub bind_err : {e : Exception} → (m s).0 ≡ err e → (m >>= f) s ≡ (err e, (m s).1)
  bind_err e = rw (e, ◌>>=◌)

-- A block that returns has gone through its first call.
pub bind_inv :
    {A B : Type 0} (m : Action A) (f : A → Action B) (s : Session) {b : B}
    → ((m >>= f) s).0 ≡ ok b
    → (a : A) × ((m s).0 ≡ ok a) × ((m >>= f) s ≡ f a (m s).1)
bind_inv m f s h = elim (Result-cases (m s).0) [
  | inl (a, e) ↦ (a, e, bind_ok m f s e)
  | inr (e, raised) ↦ absurd (ground (arith, bind_err m f s raised))
]

-- A transaction that raises has committed nothing.
pub Transaction-err :
    {A : Type 0} (s : Session) (r : Result A × Session) {e : Exception}
    → Transaction s r
    → (r.0 ≡ err e)
    → (r.1).committed ≡ s.committed
Transaction-err s (ok a, s') t h = absurd (ground arith)
Transaction-err s (err e, s') t h = t
