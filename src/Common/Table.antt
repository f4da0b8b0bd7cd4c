-- ===== src/Common/Table.antt =====
-- How a query reads a table: WHERE, ORDER BY, OFFSET and LIMIT over a list of rows.
use Prim.Native.Nat.{ℕ}
use mathlib.Core.Path.{◌≡◌, refl}
use mathlib.Core.Bool.{Bool, true, false}
use mathlib.Core.List.{List, [], ◌∷◌}
use mathlib.Core.Option.{Option, none, some}
use native.Mathlib.Omega.{arith}
use bodhrik_fullstack_assess.Common.Tests.{if◌then◌else◌, Bool-cases}
use bodhrik_fullstack_assess.Common.Lists.{take, drop, any, All, All-take, All-drop}
use mathlib.Core.Logic.{inl, inr}

module _ {ℓ} {A : Type ℓ} where
  -- the rows that pass WHERE, in table order
  abbrev pub select : (A → Bool) → List A → List A
  select p [] = []
  select p (x ∷ xs) = if p x then x ∷ select p xs else select p xs

  -- `.scalars().first()`
  abbrev pub first : (A → Bool) → List A → Option A
  first p [] = none
  first p (x ∷ xs) = if p x then some x else first p xs

  -- UPDATE … SET by `f` WHERE `p`
  abbrev pub update_where : (A → Bool) → (A → A) → List A → List A
  update_where p f [] = []
  update_where p f (x ∷ xs) = (if p x then f x else x) ∷ update_where p f xs

  -- DELETE WHERE `p`
  abbrev pub delete_where : (A → Bool) → List A → List A
  delete_where p [] = []
  delete_where p (x ∷ xs) = if p x then delete_where p xs else x ∷ delete_where p xs

  -- ORDER BY, by insertion: `before x y` is true where `x` may stand in front of `y`
  abbrev pub insert_by : (A → A → Bool) → A → List A → List A
  insert_by before x [] = x ∷ []
  insert_by before x (y ∷ ys) = if before x y then x ∷ y ∷ ys else y ∷ insert_by before x ys

  unfoldable pub order_by : (A → A → Bool) → List A → List A
  order_by before [] = []
  order_by before (x ∷ xs) = insert_by before x (order_by before xs)

  -- OFFSET `skip` LIMIT `limit`
  abbrev pub page : ℕ → ℕ → List A → List A
  page skip limit xs = take limit (drop skip xs)

module _ {ℓ} {A : Type ℓ} (p : A → Bool) where
  pub All-select : (xs : List A) → All (λ x. p x ≡ true) (select p xs)
  All-select [] = tt
  All-select (x ∷ xs) = elim (Bool-cases (p x)) [
    | inl e ↦ rw e (e, All-select xs)
    | inr e ↦ rw e (All-select xs)
  ]

  pub first-test : (xs : List A) {x : A} → first p xs ≡ some x → p x ≡ true
  first-test [] {x} e = cc
  first-test (y ∷ ys) {x} e = ground (arith, first-test ys {x = x})

  pub first-any : (xs : List A) → first p xs ≡ none → any p xs ≡ false
  first-any [] e = refl
  first-any (y ∷ ys) e = ground (arith, first-any ys)

module _ {ℓ κ} {A : Type ℓ} (P : A → Type κ) (before : A → A → Bool) where
  All-insert_by : (x : A) (xs : List A) → P x → All P xs → All P (insert_by before x xs)
  All-insert_by x [] hx h = (hx, tt)
  All-insert_by x (y ∷ ys) hx h = elim (Bool-cases (before x y)) [
    | inl e ↦ rw e (hx, h)
    | inr e ↦ rw e (h.0, All-insert_by x ys hx h.1)
  ]

  pub All-order_by : (xs : List A) → All P xs → All P (order_by before xs)
  unfolding order_by
  All-order_by [] h = tt
  All-order_by (x ∷ xs) h = All-insert_by x (order_by before xs) h.0 (All-order_by xs h.1)

  -- What holds of every row holds of every row on a page of them.
  pub All-page :
      (skip limit : ℕ) (xs : List A) → All P xs → All P (page skip limit (order_by before xs))
  All-page skip limit xs h =
      All-take P limit (drop skip (order_by before xs))
        (All-drop P skip (order_by before xs) (All-order_by xs h))

module _ {A : Type 0} (P : A → Type 0) where
  pub All-update_where :
      (p : A → Bool) (y : A) (xs : List A) → P y → All P xs → All P (update_where p (λ _. y) xs)
  All-update_where p y [] hy h = tt
  All-update_where p y (x ∷ xs) hy h = elim (Bool-cases (p x)) [
    | inl e ↦ rw e (hy, All-update_where p y xs hy h.1)
    | inr e ↦ rw e (h.0, All-update_where p y xs hy h.1)
  ]
