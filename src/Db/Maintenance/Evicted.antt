-- ===== src/Db/Maintenance/Evicted.antt =====
-- maintenance.go: what the eviction leaves in the caches.
use spottr.Db.Caches.Laws.{fails_calm}
use spottr.Text.{eqb}
use spottr.Text.Laws.{eqb_refl}
use spottr.Base.{
  Ordered, subst, ℕ, zero, suc, ◌≤◌, ◌<◌, ◌+◌, ◌≡◌, refl, ap, ◌∙◌, ◌⊎◌, Bool, true, false, not,
  ◌==◌, List, [], ◌∷◌, Option, none, Error, arith, Bool-cases, inl, inr, length, take, keep, count,
  leb, leb→le, count_whole, count-take-le, exists-All, length-take-less, ok,
}
use spottr.Db.Caches.{Vault, Blob, step}
use spottr.Db.Maintenance.{
  older, Table, images, nzbs, blobs_of, with_blobs, bytes_of, bytes_read, cache_bytes, is_oldest,
  evict_batch, Evicting, evict_rounds, evict_table, evict_cache_to, evict_both,
}

abbrev pub size_of : Vault → ℕ
size_of v = bytes_of v.nzbs + bytes_of v.images

pub cache_bytes_calm : (v : Vault) → v.db.faults ≡ [] → cache_bytes v ≡ ok (size_of v)
unfolding cache_bytes
cache_bytes_calm v calm = rw calm refl

pub read_calm : (v : Vault) → v.db.faults ≡ [] → (bytes_read v).db.faults ≡ []
read_calm v calm = rw calm refl

count_true {ℓ} : {A : Type ℓ} (xs : List A) → count (λ x. true) xs ≡ length xs
count_true [] = refl
count_true (x ∷ xs) = ap suc (count_true xs)

count_not {ℓ} :
    {A : Type ℓ} (p : A → Bool) (xs : List A) → count p xs + count (λ x. not (p x)) xs ≡ length xs
count_not p [] = refl
count_not p (x ∷ xs) = ground (arith, count_not p xs)

empty_length {ℓ} : {A : Type ℓ} (xs : List A) → length xs ≡ 0 → xs ≡ []
empty_length [] h = refl
empty_length (x ∷ xs) h = absurd (omega (arith, h))

-- The table that a loop leaves alone.
abbrev pub other : Table → Table
other images = nzbs
other nzbs = images

pub blobs-with : (t : Table) (bs : List Blob) (v : Vault) → blobs_of t (with_blobs t bs v) ≡ bs
blobs-with images bs v = refl
blobs-with nzbs bs v = refl

pub other-with :
    (t : Table) (bs : List Blob) (v : Vault)
    → blobs_of (other t) (with_blobs t bs v) ≡ blobs_of (other t) v
other-with images bs v = refl
other-with nzbs bs v = refl

with-calm :
    (t : Table) (bs : List Blob) (v : Vault)
    → v.db.faults ≡ []
    → (step (with_blobs t bs v)).db.faults ≡ []
with-calm images bs v calm = rw calm refl
with-calm nzbs bs v calm = rw calm refl

pub blobs-read : (t : Table) (v : Vault) → blobs_of t (bytes_read v) ≡ blobs_of t v
blobs-read images v = ground arith
blobs-read nzbs v = ground arith

pub blobs-step : (t : Table) (v : Vault) → blobs_of t (step v) ≡ blobs_of t v
blobs-step images v = refl
blobs-step nzbs v = refl

size-read : (v : Vault) → size_of (bytes_read v) ≡ size_of v
size-read v = ground arith

not_zero : (n : ℕ) → (n == 0) ≡ false → 0 < n
not_zero n h = ground (arith, h)

module _ (order : Ordered Blob older) where
  -- A round on a table with entries deletes one at least.
  more_zero : (blobs : List Blob) → count (is_oldest order blobs) blobs ≡ 0 → blobs ≡ []
  more_zero blobs h =
      let all = order.visit blobs in
      let gone = is_oldest order blobs in
      let chosen = take evict_batch all in
      let own = count_whole gone chosen (
        exists-All (λ (x y : Blob). eqb x.message_id y.message_id) chosen
          (λ x. eqb_refl x.message_id)) in
      let none_chosen : length chosen ≡ 0 =
        omega (arith, own, count-take-le gone evict_batch all, order.visit-count gone blobs, h) in
      let size = length-take-less evict_batch all (omega (arith, none_chosen)) in
      empty_length blobs (
        omega (
          arith,
          size,
          none_chosen,
          count_true blobs,
          count_true all,
          order.visit-count (λ x. true) blobs,
        ))

  module _ (stop : ℕ → Bool) (max_bytes : ℕ) where
    abbrev Trimmed : Table → Vault → Evicting → Type 0
    Trimmed t v r =
        (r.error ≡ none)
        × (r.vault.db.faults ≡ [])
        × (r.total ≡ size_of r.vault)
        × (blobs_of (other t) r.vault ≡ blobs_of (other t) v)
        × ((r.total ≤ max_bytes) ⊎ (blobs_of t r.vault ≡ []))

    evict_rounds-Trimmed :
        (rounds : ℕ) (t : Table) (n : ℕ) (v : Vault)
        → v.db.faults ≡ []
        → ((k : ℕ) → stop k ≡ false)
        → length (blobs_of t v) < rounds
        → Trimmed t v (evict_rounds order stop max_bytes rounds t n (size_of v) v)
    unfolding evict_rounds
    evict_rounds-Trimmed zero t n v calm on enough = absurd (omega (arith, enough))
    evict_rounds-Trimmed (suc rounds) t n v calm on enough =
        let blobs = blobs_of t v in
        let gone = is_oldest order blobs in
        let more = count gone blobs in
        let v1 = step (with_blobs t (keep (λ b. not (gone b)) blobs) v) in
        let (f, calm') = fails_calm v.db calm in
        elim (Bool-cases (leb (size_of v) max_bytes)) [
          | inl l ↦ rw (l, evict_rounds) (refl, calm, refl, refl, inl (ground (arith, l)))
          | inr l ↦ elim (Bool-cases (more == 0)) [
            | inl m ↦
                rw (l, on rounds, f, m, evict_rounds)
                  (
                    refl,
                    calm',
                    refl,
                    blobs-step (other t) v,
                    inr (blobs-step t v ∙ more_zero blobs (ground (arith, m))),
                  )
            | inr m ↦
                let left = keep (λ b. not (gone b)) blobs in
                let v2 = bytes_read v1 in
                let calm1 = with-calm t left v calm in
                let here =
                  blobs-read t v1 ∙ (blobs-step t (with_blobs t left v) ∙ blobs-with t left v) in
                let there =
                  blobs-read (other t) v1
                  ∙ (blobs-step (other t) (with_blobs t left v) ∙ other-with t left v) in
                let ih =
                  evict_rounds-Trimmed rounds t (n + more) v2 (read_calm v1 calm1) on (
                    omega (arith, ap length here, count_not gone blobs, not_zero more m, enough)) in
                let (fine, quiet, sum, kept, done) =
                  subst
                    (λ k. Trimmed t v2 (evict_rounds order stop max_bytes rounds t (n + more) k v2))
                    (size-read v1) ih in
                rw (l, on rounds, f, m, cache_bytes_calm v1 calm1, evict_rounds)
                  (fine, quiet, sum, kept ∙ there, done)
          ]
        ]

    evict_table-Trimmed :
        (t : Table) (v : Vault)
        → v.db.faults ≡ []
        → ((k : ℕ) → stop k ≡ false)
        → Trimmed t v (evict_table order stop max_bytes t (size_of v) v)
    unfolding evict_table
    evict_table-Trimmed t v calm on =
        evict_rounds-Trimmed (suc (length (blobs_of t v))) t 0 v calm on (omega arith)

    -- How an eviction from `v` to `v'` ends.
    abbrev pub Evicted : Vault → Option Error → Vault → Type 0
    Evicted v e v' =
        (e ≡ none)
        × ((size_of v' ≤ max_bytes) ⊎ ((v'.images ≡ []) × (v'.nzbs ≡ [])))
        × ((v'.nzbs ≡ v.nzbs) ⊎ (v'.images ≡ []))

    evict_table-small :
        (t : Table) (total : ℕ) (v : Vault)
        → total ≤ max_bytes
        → (evict_table order stop max_bytes t total v).vault ≡ v
    unfolding evict_table evict_rounds
    evict_table-small t total v le =
        let l : leb total max_bytes ≡ true = ground (arith, le) in
        rw (l, evict_table, evict_rounds) refl

    -- The second table, behind the first.
    second-Evicted :
        (v : Vault) (first second : Evicting)
        → Trimmed images v first
        → Trimmed nzbs first.vault second
        → (first.total ≤ max_bytes → second.vault ≡ first.vault)
        → Evicted v second.error second.vault
    second-Evicted v first second (fine, quiet, sum, kept, inl le)
          (fine2, quiet2, sum2, kept2, done2) small =
        let same = small le in
        (
          fine2,
          inl (omega (arith, le, sum, ap (λ w. size_of w) same)),
          inl (ap (λ w. w.nzbs) same ∙ kept),
        )
    second-Evicted v first second (fine, quiet, sum, kept, inr e)
          (fine2, quiet2, sum2, kept2, inl le) small =
        (fine2, inl (omega (arith, le, sum2)), inr (kept2 ∙ e))
    second-Evicted v first second (fine, quiet, sum, kept, inr e)
          (fine2, quiet2, sum2, kept2, inr e2) small =
        (fine2, inr (kept2 ∙ e, e2), inr (kept2 ∙ e))

    evict_both-Evicted :
        (v : Vault)
        → v.db.faults ≡ []
        → ((k : ℕ) → stop k ≡ false)
        → Evicted v
            (evict_both order stop max_bytes (size_of v) v).1.error
            (evict_both order stop max_bytes (size_of v) v).1.vault
    evict_both-Evicted v calm on =
        let first = evict_table order stop max_bytes images (size_of v) v in
        let (fine, quiet, sum, kept, done) = evict_table-Trimmed images v calm on in
        let w = evict_table order stop max_bytes nzbs first.total first.vault in
        let second : Trimmed nzbs first.vault w =
          rw sum (evict_table-Trimmed nzbs first.vault quiet on) in
        rw (fine, evict_both)
          (second-Evicted v first w (fine, quiet, sum, kept, done) second
            (evict_table-small nzbs first.total first.vault))

    -- Where SQLite does not fail and the context is not over, an eviction ends without an error and
    -- leaves caches of at most `max_bytes` together, or none of their entries. Cached NZBs are
    -- deleted only where no cached image is left.
    pub evict_cache_to-Evicted :
        (v : Vault)
        → v.db.faults ≡ []
        → ((k : ℕ) → stop k ≡ false)
        → Evicted v
            (evict_cache_to order stop max_bytes v).1.error
            (evict_cache_to order stop max_bytes v).1.vault
    unfolding evict_cache_to
    evict_cache_to-Evicted v calm on =
        let calm' = read_calm v calm in
        let same = size-read v in
        let kept : (bytes_read v).nzbs ≡ v.nzbs = blobs-read nzbs v in
        elim (Bool-cases (leb (size_of v) max_bytes)) [
          | inl l ↦
              rw (cache_bytes_calm v calm, l, evict_cache_to)
                (refl, inl (omega (arith, same, leb→le (size_of v) max_bytes l)), inl kept)
          | inr l ↦
              let (fine, small, spared) =
                subst
                  (λ k.
                    Evicted (bytes_read v)
                      (evict_both order stop max_bytes k (bytes_read v)).1.error
                      (evict_both order stop max_bytes k (bytes_read v)).1.vault)
                  same (evict_both-Evicted (bytes_read v) calm' on) in
              rw (cache_bytes_calm v calm, l, evict_cache_to)
                (fine, small, elim spared [ inl k ↦ inl (k ∙ kept) | inr e ↦ inr e ])
        ]
