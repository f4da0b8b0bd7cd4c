-- ===== src/Common/Separate.antt =====
-- Tables whose rows are pairwise unrelated: unique keys, free slots, schedules without overlap.
-- A relation is a Boolean test on two rows.
use bodhrik_fullstack_assess.Common.Lists.{any, any-append, All}
use bodhrik_fullstack_assess.Common.Table.{select, first, update_where, delete_where}
use bodhrik_fullstack_assess.Common.Tests.{◌==◌, ==_iff, Bool-cases, is_some}
use Prim.Native.Nat.{ℕ}
use mathlib.Core.Path.{◌≡◌, refl, sym, ◌∙◌, subst}
use mathlib.Core.Logic.{inl, inr, ◌≢◌}
use mathlib.Core.Bool.{Bool, true, false, not, ◌&&◌, ◌||◌}
use mathlib.Core.List.{List, [], ◌∷◌, ◌++◌}
use mathlib.Core.Option.{some}
use native.Mathlib.Omega.{arith}

-- No row is related to a later one.
abbrev pub Separate {ℓ} : {A : Type ℓ} → (A → A → Bool) → List A → Type 0
Separate r [] = Unit
Separate r (x ∷ xs) = (any (λ y. r y x) xs ≡ false) × Separate r xs

-- No two rows have one key.
abbrev pub UniqueKeys {ℓ} : {A : Type ℓ} → (A → ℕ) → List A → Type 0
UniqueKeys key = Separate (λ x y. key x == key y)

module _ {ℓ} {A : Type ℓ} where
  -- A weaker test fails wherever a stronger one fails.
  pub any_mono :
      (p q : A → Bool) (xs : List A)
      → ((x : A) → q x ≡ true → p x ≡ true)
      → any p xs ≡ false
      → any q xs ≡ false
  any_mono p q [] mono h = refl
  any_mono p q (x ∷ xs) mono h = elim (Bool-cases (q x)) [
    | inl e ↦ absurd (ground (arith, mono x e))
    | inr e ↦ rw e (any_mono p q xs mono (ground arith))
  ]

  pub any-update_where :
      (p q : A → Bool) (y : A) (xs : List A)
      → p y ≡ false
      → any p xs ≡ false
      → any p (update_where q (λ _. y) xs) ≡ false
  any-update_where p q y [] e h = refl
  any-update_where p q y (x ∷ xs) e h = ground (arith, any-update_where p q y xs)

  any-delete_where :
      (p q : A → Bool) (xs : List A) → any p xs ≡ false → any p (delete_where q xs) ≡ false
  any-delete_where p q [] h = refl
  any-delete_where p q (x ∷ xs) h = ground (arith, any-delete_where p q xs)

module _ {ℓ} {A : Type ℓ} (r : A → A → Bool) where
  pub append-Separate :
      ((x y : A) → r x y ≡ r y x)
      → (xs : List A) (x : A) → any (λ y. r y x) xs ≡ false
      → Separate r xs
      → Separate r (xs ++ x ∷ [])
  append-Separate symm [] x free h = (refl, tt)
  append-Separate symm (y ∷ ys) x free h = (
    rw (any-append (λ z. r z y) ys (x ∷ [])) (ground (arith, symm x y)),
    append-Separate symm ys x (ground arith) h.1,
  )

  pub delete_where-Separate :
      (q : A → Bool) (xs : List A) → Separate r xs → Separate r (delete_where q xs)
  delete_where-Separate q [] h = tt
  delete_where-Separate q (x ∷ xs) h = elim (Bool-cases (q x)) [
    | inl e ↦ rw e (delete_where-Separate q xs h.1)
    | inr e ↦ rw e (any-delete_where (λ y. r y x) q xs h.0, delete_where-Separate q xs h.1)
  ]

module _ {ℓ} {A : Type ℓ} (key : A → ℕ) (y : A) where
  -- the row whose key is that of `y` becomes `y`
  abbrev pub put : List A → List A
  put xs = update_where (λ x. key x == key y) (λ _. y) xs

  any-put_key : (k : ℕ) (xs : List A) → any (λ x. key x == k) (put xs) ≡ any (λ x. key x == k) xs
  any-put_key k [] = refl
  any-put_key k (x ∷ xs) = ground (arith, any-put_key k xs)

  put_absent : (xs : List A) → any (λ x. key x == key y) xs ≡ false → put xs ≡ xs
  put_absent [] h = refl
  put_absent (x ∷ xs) h = ground (arith, put_absent xs)

  pub put-UniqueKeys : (xs : List A) → UniqueKeys key xs → UniqueKeys key (put xs)
  put-UniqueKeys [] u = tt
  put-UniqueKeys (x ∷ xs) u = elim (Bool-cases (key x == key y)) [
    | inl e ↦ rw e (any-put_key (key y) xs ∙ ground arith, put-UniqueKeys xs u.1)
    | inr e ↦ rw e (any-put_key (key x) xs ∙ u.0, put-UniqueKeys xs u.1)
  ]

  same_key :
      (x : A) (xs : List A)
      → (key x == key y) ≡ true
      → any (λ z. key z == key x) xs ≡ false
      → any (λ z. key z == key y) xs ≡ false
  same_key x xs e = subst (λ k. any (λ z. key z == k) xs ≡ false) ((==_iff (key x) (key y)).0 e)

  abbrev pub clashes_elsewhere : (A → A → Bool) → List A → Bool
  clashes_elsewhere r xs = any (λ x. not (key x == key y) && r x y) xs

  elsewhere_absent :
      (r : A → A → Bool) (xs : List A)
      → any (λ x. key x == key y) xs ≡ false
      → clashes_elsewhere r xs ≡ any (λ x. r x y) xs
  elsewhere_absent r [] h = refl
  elsewhere_absent r (x ∷ xs) h = ground (arith, elsewhere_absent r xs)

  -- A row may be replaced by one that is related to none of the other rows.
  pub put-Separate :
      (r : A → A → Bool)
      → ((a b : A) → r a b ≡ r b a)
      → (xs : List A) → UniqueKeys key xs
      → clashes_elsewhere r xs ≡ false
      → Separate r xs
      → Separate r (put xs)
  put-Separate r symm [] u free h = tt
  put-Separate r symm (x ∷ xs) u free h = elim (Bool-cases (key x == key y)) [
    | inl e ↦
        let absent : any (λ z. key z == key y) xs ≡ false = same_key x xs e u.0 in
        let rest : clashes_elsewhere r xs ≡ false = ground arith in
        rw (e, put_absent xs absent) (sym (elsewhere_absent r xs absent) ∙ rest, h.1)
    | inr e ↦ rw e (
      any-update_where (λ z. r z x) (λ z. key z == key y) y xs (ground (arith, symm x y)) h.0,
      put-Separate r symm xs u.1 (ground arith) h.1,
    )
  ]

module _ {ℓ} {A : Type ℓ} (key : A → ℕ) where
  pub first-key : (k : ℕ) (xs : List A) {x : A} → first (λ y. key y == k) xs ≡ some x → key x ≡ k
  first-key k [] e = cc
  first-key k (y ∷ ys) {x} e = ground (arith, first-key k ys {x = x})

  first-holds :
      (p q : A → Bool) (xs : List A) {x : A} → first p xs ≡ some x → any q xs ≡ false → q x ≡ false
  first-holds p q [] e h = cc
  first-holds p q (y ∷ ys) {x} e h = ground (arith, first-holds p q ys {x = x})

  -- The row that is found by its key is related to none of the others.
  pub first-elsewhere :
      (r : A → A → Bool)
      → ((a b : A) → r a b ≡ r b a)
      → (k : ℕ) (xs : List A) (x : A) → first (λ y. key y == k) xs ≡ some x
      → UniqueKeys key xs
      → Separate r xs
      → clashes_elsewhere key x r xs ≡ false
  first-elsewhere r symm k [] x e u h = refl
  first-elsewhere r symm k (y ∷ ys) x e u h = elim (Bool-cases (key y == k)) [
    | inl found ↦
        let same : y ≡ x = ground arith in
        subst (λ z. clashes_elsewhere key z r (y ∷ ys) ≡ false) same
          (ground (
            arith,
            any_mono (λ z. r z y) (λ z. not (key z == key y) && r z y) ys (λ z t. ground arith) h.0,
          ))
    | inr later ↦
        let e' : first (λ z. key z == k) ys ≡ some x = ground arith in
        ground (
          arith,
          first-holds (λ z. key z == k) (λ z. r z y) ys {x = x} e' h.0,
          symm x y,
          first-elsewhere r symm k ys x e' u.1 h.1,
        )
  ]

  -- A row that was written by its key is found under it, and the other keys are as before.
  pub first-put_self :
      (k : ℕ) (xs : List A) (y : A)
      → is_some (first (λ x. key x == k) xs) ≡ true
      → key y ≡ k
      → first (λ x. key x == k) (put key y xs) ≡ some y
  first-put_self k [] y e h = cc
  first-put_self k (x ∷ xs) y e h = ground (arith, first-put_self k xs y)

  pub first-put_ne :
      (k : ℕ) (xs : List A) (y : A)
      → key y ≢ k
      → first (λ x. key x == k) (put key y xs) ≡ first (λ x. key x == k) xs
  first-put_ne k [] y h = refl
  first-put_ne k (x ∷ xs) y h = ground (arith, first-put_ne k xs y)

module _ {ℓ} {A : Type ℓ} (r : A → A → Bool) where
  -- In a separate table the last row is related to none before it.
  pub Separate-last :
      (xs : List A) (x : A) → Separate r (xs ++ x ∷ []) → any (λ y. r x y) xs ≡ false
  Separate-last [] x h = refl
  Separate-last (y ∷ ys) x h =
      let apart : (any (λ z. r z y) ys || (r x y || false)) ≡ false =
        sym (any-append (λ z. r z y) ys (x ∷ [])) ∙ h.0 in
      ground (arith, Separate-last ys x h.1)

module _ {ℓ} {A : Type ℓ} where
  any-All : (p : A → Bool) (xs : List A) → any p xs ≡ false → All (λ x. p x ≡ false) xs
  any-All p [] h = tt
  any-All p (x ∷ xs) h = (ground arith, any-All p xs (ground arith))

  pub All-both {κ κ₁ κ₂} :
      {P : A → Type κ} {Q : A → Type κ₁} {R : A → Type κ₂}
      → ((x : A) → P x → Q x → R x)
      → (xs : List A) → All P xs
      → All Q xs
      → All R xs
  All-both f [] p q = tt
  All-both f (x ∷ xs) p q = (f x p.0 q.0, All-both f xs p.1 q.1)

  pub All-select_keeps {κ} :
      (P : A → Type κ) (p : A → Bool) (xs : List A) → All P xs → All P (select p xs)
  All-select_keeps P p [] h = tt
  All-select_keeps P p (x ∷ xs) h = elim (Bool-cases (p x)) [
    | inl e ↦ rw e (h.0, All-select_keeps P p xs h.1)
    | inr e ↦ rw e (All-select_keeps P p xs h.1)
  ]

module _ {ℓ} {A : Type ℓ} (key : A → ℕ) where
  -- With unique keys every row is the one that is found under its key.
  pub UniqueKeys-found :
      (xs : List A) → UniqueKeys key xs → All (λ x. first (λ y. key y == key x) xs ≡ some x) xs
  UniqueKeys-found [] u = tt
  UniqueKeys-found (x ∷ xs) u = (
    ground arith,
    All-both (λ z absent found. ground arith) xs (any-All (λ z. key z == key x) xs u.0)
        (UniqueKeys-found xs u.1),
  )
