-- ===== src/Db/Maintenance/Round.antt =====
-- maintenance.go: which entries of a cache a round of the eviction takes.
use spottr.Base.{
  All-of, All-both, All-kept, All-passing, All-found, keep-both, keep-all, count-take-drop, ltb,
  exists-All, exists-All, ltb, Ordered, ℕ, ◌≤◌, ◌<◌, ◌≡◌, refl, sym, ap, ◌∙◌, subst, ◌⊎◌, inl, inr,
  Bool, true, false, not, ◌&&◌, ◌==◌, List, arith, Bool-cases, All, All-mono, All-keep, take, drop,
  keep, count, count-keep, count_split, exists-count, count-exists, count-take-le, take-Below,
}
use spottr.Text.{Bytes, eqb}
use spottr.Text.Laws.{eqb_refl}
use spottr.Db.Caches.{Blob}
use spottr.Db.Maintenance.{older, is_oldest, evict_batch}

abbrev pub has_id : Bytes → Blob → Bool
has_id k b = eqb b.message_id k

-- `message_id` is the PRIMARY KEY of both tables.
abbrev pub UniqueKeys : List Blob → Type 0
UniqueKeys blobs = (k : Bytes) → count (has_id k) blobs ≤ 1

-- What an eviction makes of an entry: it passes the test, or it was fetched no later than every
-- entry that is left.
abbrev pub KeptOrOldest : (Blob → Bool) → List Blob → Blob → Type 0
KeptOrOldest kept left x = (kept x ≡ true) ⊎ All (λ (y : Blob). x.fetched_at ≤ y.fetched_at) left

-- What is left of a table is what passes a test.
abbrev pub OldestGone : List Blob → List Blob → Type 0
OldestGone blobs left =
    (kept : Blob → Bool) × (left ≡ keep kept blobs) × All (KeptOrOldest kept left) blobs

-- An entry, as far as its key and its age tell.
abbrev same : Blob → Blob → Bool
same x b = has_id x.message_id b && b.fetched_at == x.fetched_at

same_refl : (x : Blob) → same x x ≡ true
same_refl x = rw (eqb_refl x.message_id) (ground arith)

pub keep-UniqueKeys :
    (p : Blob → Bool) (blobs : List Blob) → UniqueKeys blobs → UniqueKeys (keep p blobs)
keep-UniqueKeys p blobs u k =
    omega (arith, u k, count-keep (has_id k) p blobs, count_split (has_id k) p blobs)

-- Nothing is gone.
pub all-OldestGone : (blobs left : List Blob) → left ≡ blobs → OldestGone blobs left
all-OldestGone blobs left h = (
  (λ b. true),
  h ∙ sym (keep-all blobs),
  All-of (KeptOrOldest (λ b. true) left) blobs (λ b. inl refl),
)

pub OldestGone-from :
    (blobs blobs' left : List Blob)
    → blobs ≡ blobs'
    → OldestGone blobs left
    → OldestGone blobs' left
OldestGone-from blobs blobs' left e h = subst (λ k. OldestGone k left) e h

-- One eviction, and then another.
pub next-OldestGone :
    (blobs left last : List Blob)
    → OldestGone blobs left
    → OldestGone left last
    → OldestGone blobs last
next-OldestGone blobs left last (k, e, h) (k', e', h') =
    let later =
      All-passing (KeptOrOldest k' last) k blobs (subst (All (KeptOrOldest k' last)) e h') in
    let fate : (x : Blob)
        → KeptOrOldest k left x
        → (k x ≡ true → KeptOrOldest k' last x)
        → KeptOrOldest (λ b. k b && k' b) last x =
      λ x one two. elim one [
        | inr old ↦ inr (subst (All _) (sym e') (All-keep _ k' left old))
        | inl t ↦ elim (two t) [ inl t' ↦ inl (cc (t, t')) | inr old ↦ inr old ]
      ] in
    (
      (λ b. k b && k' b),
      e' ∙ (ap (keep k') e ∙ keep-both k k' blobs),
      All-both _ _ _ fate blobs h later,
    )

ltb_lt : (m n : ℕ) → ltb m n ≡ true → m < n
ltb_lt m n h = ground (arith, h)

not-true : (b : Bool) → not b ≡ true → b ≡ false
not-true b h = ground (arith, h)

zero_count : (n : ℕ) → ltb 0 n ≡ false → n ≡ 0
zero_count n h = ground (arith, h)

module _ (order : Ordered Blob older) (blobs : List Blob) (u : UniqueKeys blobs) where
  -- Where the key of an entry is chosen, the entry is.
  chosen-same :
      (x : Blob)
      → 0 < count (same x) blobs
      → is_oldest order blobs x ≡ true
      → 0 < count (same x) (take evict_batch (order.visit blobs))
  chosen-same x here gone =
      let k = x.message_id in
      let age : Blob → Bool = λ b. b.fetched_at == x.fetched_at in
      let twin : Blob → Bool = λ b. has_id k b && not (age b) in
      let sorted = order.visit blobs in
      let chosen = take evict_batch sorted in
      omega (
        arith,
        here,
        u k,
        count_split (has_id k) age blobs,
        order.visit-count twin blobs,
        count-take-le twin evict_batch sorted,
        count_split (has_id k) age chosen,
        exists-count (has_id k) chosen gone,
      )

  -- An entry whose key is not chosen is behind the chosen ones.
  behind-same :
      (y : Blob)
      → 0 < count (same y) blobs
      → is_oldest order blobs y ≡ false
      → 0 < count (same y) (drop evict_batch (order.visit blobs))
  behind-same y here left =
      let k = y.message_id in
      let sorted = order.visit blobs in
      let chosen = take evict_batch sorted in
      elim (Bool-cases (ltb 0 (count (has_id k) chosen))) [
        | inl c ↦ absurd (cc (left, count-exists (has_id k) chosen (ltb_lt 0 _ c)))
        | inr c ↦ omega (
          arith,
          here,
          order.visit-count (same y) blobs,
          count-take-drop (same y) evict_batch sorted,
          count_split (has_id k) (λ b. b.fetched_at == y.fetched_at) chosen,
          zero_count (count (has_id k) chosen) c,
        )
      ]

  gone-older :
      (x y : Blob)
      → 0 < count (same x) blobs
      → 0 < count (same y) blobs
      → is_oldest order blobs x ≡ true
      → is_oldest order blobs y ≡ false
      → x.fetched_at ≤ y.fetched_at
  gone-older x y here there gone left =
      let sorted = order.visit blobs in
      let (a, below, a-same) =
        All-found _ (same x) (take evict_batch sorted)
          (take-Below older evict_batch sorted (order.visit-Sorted blobs))
          (chosen-same x here gone) in
      let (b, le, b-same) =
        All-found _ (same y) (drop evict_batch sorted) below (behind-same y there left) in
      ground (arith, le, a-same, b-same)

  abbrev stays : Blob → Bool
  stays b = not (is_oldest order blobs b)

  -- A member that stays.
  abbrev Stayed : Blob → Type 0
  Stayed y = (0 < count (same y) blobs) × (is_oldest order blobs y ≡ false)

  pub round-OldestGone : OldestGone blobs (keep stays blobs)
  round-OldestGone =
      let own : All (λ x. 0 < count (same x) blobs) blobs =
        All-mono _ _ (λ x. exists-count (same x) blobs) blobs
          (exists-All (λ y x. same x y) blobs same_refl) in
      let left : All Stayed (keep stays blobs) =
        All-both _ _ _ (λ y one two. (one, not-true _ two)) (keep stays blobs)
          (All-keep _ stays blobs own) (All-kept stays blobs) in
      let fate : (x : Blob) → 0 < count (same x) blobs → KeptOrOldest stays (keep stays blobs) x =
        λ x here. elim (Bool-cases (is_oldest order blobs x)) [
          | inr e ↦ inl (ap not e)
          | inl e ↦ inr (
              All-mono _ _ (λ y (there, stay). gone-older x y here there e stay) (keep stays blobs)
                left)
        ] in
      (stays, refl, All-mono _ _ fate blobs own)
