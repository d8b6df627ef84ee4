-- ===== src/Base/Counts.antt =====
-- How many members of a list pass a test.
use Prim.Native.Nat.{ℕ, zero, suc, ◌+◌, ◌≤◌, ◌<◌}
use mathlib.Core.Path.{◌≡◌, refl, ap, subst}
use mathlib.Core.Logic.{inl, inr}
use mathlib.Core.Bool.{Bool, true, not, ◌&&◌}
use mathlib.Core.List.{List, [], ◌∷◌}
use native.Mathlib.Omega.{arith}
use spottr.Base.Tests.{Bool-cases, if◌then◌else◌}
use spottr.Base.Lists.{length, keep, take, drop, exists, All, All-mono}

module _ {ℓ} {A : Type ℓ} where
  abbrev pub count : (A → Bool) → List A → ℕ
  count p xs = length (keep p xs)

  pub count-cons-le : (p : A → Bool) (x : A) (xs : List A) → count p xs ≤ count p (x ∷ xs)
  count-cons-le p x xs = ground arith

  pub count_split :
      (p q : A → Bool) (xs : List A)
      → count p xs ≡ count (λ x. p x && q x) xs + count (λ x. p x && not (q x)) xs
  count_split p q [] = refl
  count_split p q (x ∷ xs) = ground (arith, count_split p q xs)

  pub count_mono :
      (p q : A → Bool) (xs : List A)
      → All (λ x. p x ≡ true → q x ≡ true) xs
      → count p xs ≤ count q xs
  count_mono p q [] h = omega arith
  count_mono p q (x ∷ xs) (h, hs) = elim (Bool-cases (p x)) [
    | inl e ↦ rw (e, h e) (omega (arith, count_mono p q xs hs))
    | inr e ↦ rw e (ground (arith, count_mono p q xs hs))
  ]

  pub count-keep : (p q : A → Bool) (xs : List A) → count p (keep q xs) ≡ count (λ x. p x && q x) xs
  count-keep p q [] = refl
  count-keep p q (x ∷ xs) = ground (arith, count-keep p q xs)

  pub keep-keep :
      (p q : A → Bool) (xs : List A)
      → All (λ x. p x ≡ true → q x ≡ true) xs
      → keep p (keep q xs) ≡ keep p xs
  keep-keep p q [] h = refl
  keep-keep p q (x ∷ xs) (h, hs) = elim (Bool-cases (p x)) [
    | inl e ↦ rw (e, h e, e, keep-keep p q xs hs) refl
    | inr e ↦ elim (Bool-cases (q x)) [
      | inl f ↦ rw (e, f, e, keep-keep p q xs hs) refl
      | inr f ↦ rw (e, f, keep-keep p q xs hs) refl
    ]
  ]

  pub keep-same : (p q : A → Bool) (xs : List A) → All (λ x. p x ≡ q x) xs → keep p xs ≡ keep q xs
  keep-same p q [] h = refl
  keep-same p q (x ∷ xs) (h, hs) = rw (h, keep-same p q xs hs) refl

  pub exists-count : (p : A → Bool) (xs : List A) → exists p xs ≡ true → 0 < count p xs
  exists-count p [] h = absurd (ground (arith, h))
  exists-count p (x ∷ xs) h = ground (arith, exists-count p xs)

  pub count-exists : (p : A → Bool) (xs : List A) → 0 < count p xs → exists p xs ≡ true
  count-exists p [] h = absurd (omega (arith, h))
  count-exists p (x ∷ xs) h = ground (arith, count-exists p xs)

  pub exists-take :
      (p : A → Bool) (n : ℕ) (xs : List A) → exists p (take n xs) ≡ true → exists p xs ≡ true
  exists-take p zero xs h = absurd (ground (arith, h))
  exists-take p (suc n) [] h = h
  exists-take p (suc n) (x ∷ xs) h = ground (arith, exists-take p n xs)

  pub take-whole : (n : ℕ) (xs : List A) → length xs ≤ n → take n xs ≡ xs
  take-whole zero [] h = refl
  take-whole zero (x ∷ xs) h = absurd (omega (arith, h))
  take-whole (suc n) [] h = refl
  take-whole (suc n) (x ∷ xs) h = ap (λ r. x ∷ r) (take-whole n xs (omega (arith, h)))

  pub count-take-le : (p : A → Bool) (n : ℕ) (xs : List A) → count p (take n xs) ≤ count p xs
  count-take-le p zero xs = omega arith
  count-take-le p (suc n) [] = omega arith
  count-take-le p (suc n) (x ∷ xs) = ground (arith, count-take-le p n xs)

  pub length-take-less :
      (n : ℕ) (xs : List A) → length (take n xs) < n → length (take n xs) ≡ length xs
  length-take-less zero xs h = absurd (omega (arith, h))
  length-take-less (suc n) [] h = refl
  length-take-less (suc n) (x ∷ xs) h = ap suc (length-take-less n xs (omega (arith, h)))

  pub count_whole : (p : A → Bool) (xs : List A) → All (λ x. p x ≡ true) xs → count p xs ≡ length xs
  count_whole p [] h = refl
  count_whole p (x ∷ xs) (h, hs) = rw h (ap suc (count_whole p xs hs))

  -- A member that passes a test is found by every test that it passes.
  pub exists-All :
      (same : A → A → Bool) (xs : List A)
      → ((x : A) → same x x ≡ true)
      → All (λ x. exists (λ y. same y x) xs ≡ true) xs
  exists-All same [] h = tt
  exists-All same (x ∷ xs) h =
      (ground (arith, h x), All-mono _ _ (λ y e. ground (arith, e)) xs (exists-All same xs h))

  pub count-All :
      (same : A → A → Bool) (q : A → Bool) (xs : List A)
      → ((x : A) → same x x ≡ true)
      → All (λ x. q x ≡ true → 0 < count (λ y. same y x && q y) xs) xs
  count-All same q [] h = tt
  count-All same q (x ∷ xs) h = (
    λ e. ground (arith, h x, e),
    All-mono _ _ (λ y f e. ground (arith, f e)) xs (count-All same q xs h),
  )

module _ {ℓ} {A : Type ℓ} where
  pub All-of : (P : A → Type 0) (xs : List A) → ((x : A) → P x) → All P xs
  All-of P [] h = tt
  All-of P (x ∷ xs) h = (h x, All-of P xs h)

  pub All-both :
      (P Q R : A → Type 0)
      → ((x : A) → P x → Q x → R x)
      → (xs : List A) → All P xs
      → All Q xs
      → All R xs
  All-both P Q R f [] h k = tt
  All-both P Q R f (x ∷ xs) (h, hs) (k, ks) = (f x h k, All-both P Q R f xs hs ks)

  pub All-kept : (p : A → Bool) (xs : List A) → All (λ x. p x ≡ true) (keep p xs)
  All-kept p [] = tt
  All-kept p (x ∷ xs) = elim (Bool-cases (p x)) [
    | inl e ↦ rw e (e, All-kept p xs)
    | inr e ↦ rw e (All-kept p xs)
  ]

  -- What holds of the members that pass, as a rule for all members.
  pub All-passing :
      (P : A → Type 0) (p : A → Bool) (xs : List A)
      → All P (keep p xs)
      → All (λ x. p x ≡ true → P x) xs
  All-passing P p [] h = tt
  All-passing P p (x ∷ xs) h = elim (Bool-cases (p x)) [
    | inl e ↦
        let (first, rest) = subst (λ c. All P (if c then x ∷ keep p xs else keep p xs)) e h in
        ((λ k. first), All-passing P p xs rest)
    | inr e ↦
        let rest = subst (λ c. All P (if c then x ∷ keep p xs else keep p xs)) e h in
        ((λ k. absurd (cc (e, k))), All-passing P p xs rest)
  ]

  pub All-found :
      (P : A → Type 0) (p : A → Bool) (xs : List A)
      → All P xs
      → 0 < count p xs
      → (x : A) × P x × (p x ≡ true)
  All-found P p [] h n = absurd (omega (arith, n))
  All-found P p (x ∷ xs) (h, hs) n = elim (Bool-cases (p x)) [
    | inl e ↦ (x, h, e)
    | inr e ↦ All-found P p xs hs (ground (arith, e, n))
  ]

  pub keep-both : (p q : A → Bool) (xs : List A) → keep q (keep p xs) ≡ keep (λ x. p x && q x) xs
  keep-both p q [] = refl
  keep-both p q (x ∷ xs) = elim (Bool-cases (p x)) [
    | inl e ↦ rw (e, keep-both p q xs) refl
    | inr e ↦ rw (e, keep-both p q xs) refl
  ]

  pub keep-all : (xs : List A) → keep (λ x. true) xs ≡ xs
  keep-all [] = refl
  keep-all (x ∷ xs) = ap (λ r. x ∷ r) (keep-all xs)

  pub count-take-drop :
      (p : A → Bool) (n : ℕ) (xs : List A) → count p xs ≡ count p (take n xs) + count p (drop n xs)
  count-take-drop p zero xs = omega arith
  count-take-drop p (suc n) [] = refl
  count-take-drop p (suc n) (x ∷ xs) = ground (arith, count-take-drop p n xs)
