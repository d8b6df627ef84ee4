-- ===== src/Base/Sorting.antt =====
-- Lists in an order, and sorting as far as a caller may rely on it.
use Prim.Native.Nat.{ℕ, zero, suc}
use mathlib.Core.Path.{◌≡◌, refl, ◌∙◌}
use mathlib.Core.Logic.{inl, inr}
use mathlib.Core.Bool.{Bool, true, false, not}
use mathlib.Core.List.{List, [], ◌∷◌}
use native.Mathlib.Omega.{arith}
use spottr.Base.Tests.{if◌then◌else◌, Bool-cases}
use spottr.Base.Lists.{take, drop, All, All-mono}
use spottr.Base.Counts.{count}

module _ {A : Type 0} (le : A → A → Bool) where
  abbrev pub Below : A → List A → Type 0
  Below x xs = All (λ y. le x y ≡ true) xs

  abbrev pub Sorted : List A → Type 0
  Sorted [] = Unit
  Sorted (x ∷ xs) = Below x xs × Sorted xs

-- Every test passes as often in the one list as in the other.
abbrev pub SameCounts : {A : Type 0} → List A → List A → Type 0
SameCounts {A} xs ys = (p : A → Bool) → count p xs ≡ count p ys

-- A sort: it keeps the members and puts them in the order.
pub record Ordered (A : Type 0) (le : A → A → Bool) : Type 0 where
  pub visit : List A → List A
  pub visit-count : (p : A → Bool) (xs : List A) → count p (visit xs) ≡ count p xs
  pub visit-Sorted : (xs : List A) → Sorted le (visit xs)

module _ {A : Type 0} (p : A → Bool) where
  pub All-none : (xs : List A) → count (λ x. not (p x)) xs ≡ 0 → All (λ x. p x ≡ true) xs
  All-none [] h = tt
  All-none (x ∷ xs) h = elim (Bool-cases (p x)) [
    | inl e ↦ (e, All-none xs (ground (arith, e, h)))
    | inr e ↦ absurd (ground (arith, e, h))
  ]

  pub none-All : (xs : List A) → All (λ x. p x ≡ true) xs → count (λ x. not (p x)) xs ≡ 0
  none-All [] h = refl
  none-All (x ∷ xs) (h, hs) = ground (arith, h, none-All xs hs)

-- Insertion sort is one.
module _ {A : Type 0} (le : A → A → Bool) where
  abbrev insert : A → List A → List A
  insert x [] = x ∷ []
  insert x (y ∷ ys) = let rest = insert x ys in if le x y then x ∷ y ∷ ys else y ∷ rest

  abbrev sort : List A → List A
  sort [] = []
  sort (x ∷ xs) = insert x (sort xs)

  count-insert : (p : A → Bool) (x : A) (xs : List A) → count p (insert x xs) ≡ count p (x ∷ xs)
  count-insert p x [] = refl
  count-insert p x (y ∷ ys) = ground (arith, count-insert p x ys)

  pub count-sort : (p : A → Bool) (xs : List A) → count p (sort xs) ≡ count p xs
  count-sort p [] = refl
  count-sort p (x ∷ xs) = count-insert p x (sort xs) ∙ ground (arith, count-sort p xs)

  module _ (total : (x y : A) → le x y ≡ false → le y x ≡ true)
      (trans : (x y z : A) → le x y ≡ true → le y z ≡ true → le x z ≡ true) where
    Below-insert :
        (y x : A) (xs : List A) → le y x ≡ true → Below le y xs → Below le y (insert x xs)
    Below-insert y x [] h b = (h, tt)
    Below-insert y x (z ∷ zs) h (hz, b) = elim (Bool-cases (le x z)) [
      | inl e ↦ rw e (h, (hz, b))
      | inr e ↦ rw e (hz, Below-insert y x zs h b)
    ]

    insert-Sorted : (x : A) (xs : List A) → Sorted le xs → Sorted le (insert x xs)
    insert-Sorted x [] s = (tt, tt)
    insert-Sorted x (y ∷ ys) (b, s) = elim (Bool-cases (le x y)) [
      | inl e ↦ rw e ((e, All-mono _ _ (λ z h. trans x y z e h) ys b), (b, s))
      | inr e ↦ rw e (Below-insert y x ys (total x y e) b, insert-Sorted x ys s)
    ]

    pub sort-Sorted : (xs : List A) → Sorted le (sort xs)
    sort-Sorted [] = tt
    sort-Sorted (x ∷ xs) = insert-Sorted x (sort xs) (sort-Sorted xs)

    abbrev pub insertion : Ordered A le
    insertion = record { visit = sort; visit-count = count-sort; visit-Sorted = sort-Sorted }

-- The first members of a sorted list come before the rest.
module _ {A : Type 0} (le : A → A → Bool) where
  Below-drop : (x : A) (n : ℕ) (xs : List A) → Below le x xs → Below le x (drop n xs)
  Below-drop x zero xs h = h
  Below-drop x (suc n) [] h = h
  Below-drop x (suc n) (y ∷ xs) h = Below-drop x n xs h.1

  pub take-Below :
      (n : ℕ) (xs : List A) → Sorted le xs → All (λ x. Below le x (drop n xs)) (take n xs)
  take-Below zero xs s = tt
  take-Below (suc n) [] s = tt
  take-Below (suc n) (x ∷ xs) (b, s) = (Below-drop x n xs b, take-Below n xs s)

  Below-take : (x : A) (n : ℕ) (xs : List A) → Below le x xs → Below le x (take n xs)
  Below-take x zero xs h = tt
  Below-take x (suc n) [] h = tt
  Below-take x (suc n) (y ∷ xs) (h, hs) = (h, Below-take x n xs hs)

  pub Sorted-take : (n : ℕ) (xs : List A) → Sorted le xs → Sorted le (take n xs)
  Sorted-take zero xs s = tt
  Sorted-take (suc n) [] s = tt
  Sorted-take (suc n) (x ∷ xs) (b, s) = (Below-take x n xs b, Sorted-take n xs s)
