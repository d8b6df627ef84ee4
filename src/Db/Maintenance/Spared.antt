-- ===== src/Db/Maintenance/Spared.antt =====
-- maintenance.go: an eviction leaves the spots alone.
use spottr.Base.{
  Ordered, ℕ, zero, suc, ◌+◌, ◌≡◌, refl, ◌∙◌, Bool, not, ◌==◌, List, arith, Option-cases,
  Result-cases, Bool-cases, inl, inr, length, keep, count, leb, Result, ok, err,
}
use spottr.Db.Tables.{Row, fails}
use spottr.Db.Caches.{Vault, Blob, step}
use spottr.Db.Maintenance.{
  older, Table, images, nzbs, blobs_of, with_blobs, bytes_read, cache_bytes, is_oldest, Evicting,
  evict_rounds, evict_table, evict_cache_to, after_bytes, evict_both,
}

spots-with :
    (t : Table) (bs : List Blob) (v : Vault) → (step (with_blobs t bs v)).db.spots ≡ v.db.spots
spots-with images bs v = refl
spots-with nzbs bs v = refl

pub spots-read : (v : Vault) → (bytes_read v).db.spots ≡ v.db.spots
spots-read v = ground arith

module _ (order : Ordered Blob older) (stop : ℕ → Bool) (max_bytes : ℕ) where
  spots-after_bytes :
      (rest : ℕ → Evicting) (n total : ℕ) (v : Vault) (r : Result ℕ) (rows : List Row)
      → v.db.spots ≡ rows
      → ((size : ℕ) → (rest size).vault.db.spots ≡ rows)
      → (after_bytes order stop max_bytes rest n total v r).vault.db.spots ≡ rows
  spots-after_bytes rest n total v (err e) rows h k = spots-read v ∙ h
  spots-after_bytes rest n total v (ok size) rows h k = k size

  evict_rounds-spots :
      (rounds : ℕ) (t : Table) (n total : ℕ) (v : Vault)
      → (evict_rounds order stop max_bytes rounds t n total v).vault.db.spots ≡ v.db.spots
  unfolding evict_rounds
  evict_rounds-spots zero t n total v = refl
  evict_rounds-spots (suc rounds) t n total v =
      let blobs = blobs_of t v in
      let gone = is_oldest order blobs in
      let left = keep (λ b. not (gone b)) blobs in
      let v1 = step (with_blobs t left v) in
      let same = spots-with t left v in
      elim (Bool-cases (leb total max_bytes)) [
        | inl l ↦ rw (l, evict_rounds) refl
        | inr l ↦ elim (Bool-cases (stop rounds)) [
          | inl s ↦ rw (l, s, evict_rounds) refl
          | inr s ↦ elim (Bool-cases (fails v.db)) [
            | inl f ↦ rw (l, s, f, evict_rounds) refl
            | inr f ↦ elim (Bool-cases (count gone blobs == 0)) [
              | inl m ↦ rw (l, s, f, m, evict_rounds) refl
              | inr m ↦
                  rw (l, s, f, m, evict_rounds)
                    (spots-after_bytes _ (n + count gone blobs) total v1 (cache_bytes v1) v.db.spots
                      same
                      (λ size.
                        evict_rounds-spots rounds t (n + count gone blobs) size (bytes_read v1)
                        ∙ (spots-read v1 ∙ same)))
            ]
          ]
        ]
      ]

  both-spots :
      (total : ℕ) (v : Vault)
      → (evict_both order stop max_bytes total v).1.vault.db.spots ≡ v.db.spots
  unfolding evict_table
  both-spots total v =
      let first = evict_table order stop max_bytes images total v in
      let same : first.vault.db.spots ≡ v.db.spots =
        evict_rounds-spots (suc (length v.images)) images 0 total v in
      elim (Option-cases first.error) [
        | inr (e, h) ↦ rw (h, evict_both) same
        | inl h ↦
            rw (h, evict_both)
              (evict_rounds-spots (suc (length first.vault.nzbs)) nzbs 0 first.total first.vault
                ∙ same)
      ]

  -- An eviction leaves the spots alone.
  pub evict_cache_to-spots :
      (v : Vault) → (evict_cache_to order stop max_bytes v).1.vault.db.spots ≡ v.db.spots
  unfolding evict_cache_to
  evict_cache_to-spots v = elim (Result-cases (cache_bytes v)) [
    | inl (e, h) ↦ rw (h, evict_cache_to) (spots-read v)
    | inr (total, h) ↦ elim (Bool-cases (leb total max_bytes)) [
      | inl l ↦ rw (h, l, evict_cache_to) (spots-read v)
      | inr l ↦ rw (h, l, evict_cache_to) (both-spots total (bytes_read v) ∙ spots-read v)
    ]
  ]
