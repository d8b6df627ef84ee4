-- ===== src/Db/Maintenance/Oldest.antt =====
-- maintenance.go: which entries of a cache an eviction takes.
use spottr.Base.{
  Ordered, ℕ, zero, suc, ◌+◌, ◌≡◌, refl, sym, ◌∙◌, subst, inl, inr, Bool, not, ◌==◌, Result, ok,
  err, Bool-cases, Option-cases, Result-cases, keep, count, leb, length,
}
use spottr.Db.Tables.{fails}
use spottr.Db.Caches.{Vault, Blob, step}
use spottr.Db.Maintenance.{
  older, Table, images, nzbs, blobs_of, with_blobs, bytes_read, cache_bytes, is_oldest, Evicting,
  evict_rounds, evict_table, evict_cache_to, evict_both, after_bytes,
}
use spottr.Db.Maintenance.Evicted.{other, blobs-with, other-with, blobs-read, blobs-step}
use spottr.Db.Maintenance.Round.{
  UniqueKeys, OldestGone, keep-UniqueKeys, all-OldestGone, OldestGone-from, next-OldestGone,
  round-OldestGone,
}

module _ (order : Ordered Blob older) (stop : ℕ → Bool) (max_bytes : ℕ) where
  -- A loop over one table: what it takes there, and that it leaves the other one alone.
  abbrev Took : Table → Vault → Vault → Type 0
  Took t v w =
      OldestGone (blobs_of t v) (blobs_of t w) × (blobs_of (other t) w ≡ blobs_of (other t) v)

  Took-none :
      (t : Table) (v w : Vault)
      → blobs_of t w ≡ blobs_of t v
      → blobs_of (other t) w ≡ blobs_of (other t) v
      → Took t v w
  Took-none t v w h h' = (all-OldestGone (blobs_of t v) (blobs_of t w) h, h')

  Took-after :
      (t : Table) (v v1 w : Vault)
      → OldestGone (blobs_of t v) (blobs_of t v1)
      → blobs_of (other t) v1 ≡ blobs_of (other t) v
      → Took t v1 w
      → Took t v w
  Took-after t v v1 w one same (two, same') =
      (next-OldestGone (blobs_of t v) (blobs_of t v1) (blobs_of t w) one two, same' ∙ same)

  after_bytes-Took :
      (t : Table) (v : Vault) (rest : ℕ → Evicting) (n total : ℕ) (v1 : Vault) (r : Result ℕ)
      → Took t v (bytes_read v1)
      → ((size : ℕ) → Took t v (rest size).vault)
      → Took t v (after_bytes order stop max_bytes rest n total v1 r).vault
  after_bytes-Took t v rest n total v1 (err e) h k = h
  after_bytes-Took t v rest n total v1 (ok size) h k = k size

  evict_rounds-Took :
      (rounds : ℕ) (t : Table) (n total : ℕ) (v : Vault)
      → UniqueKeys (blobs_of t v)
      → Took t v (evict_rounds order stop max_bytes rounds t n total v).vault
  unfolding evict_rounds
  evict_rounds-Took zero t n total v u = Took-none t v v refl refl
  evict_rounds-Took (suc rounds) t n total v u =
      let blobs = blobs_of t v in
      let gone = is_oldest order blobs in
      let left = keep (λ b. not (gone b)) blobs in
      let v1 = step (with_blobs t left v) in
      let v2 = bytes_read v1 in
      let here : blobs_of t v2 ≡ left =
        blobs-read t v1 ∙ (blobs-step t (with_blobs t left v) ∙ blobs-with t left v) in
      let there : blobs_of (other t) v2 ≡ blobs_of (other t) v =
        blobs-read (other t) v1
        ∙ (blobs-step (other t) (with_blobs t left v) ∙ other-with t left v) in
      let one = subst (OldestGone blobs) (sym here) (round-OldestGone order blobs u) in
      let u' = subst UniqueKeys (sym here) (keep-UniqueKeys (λ b. not (gone b)) blobs u) in
      elim (Bool-cases (leb total max_bytes)) [
        | inl l ↦ rw (l, evict_rounds) (Took-none t v v refl refl)
        | inr l ↦ elim (Bool-cases (stop rounds)) [
          | inl s ↦ rw (l, s, evict_rounds) (Took-none t v v refl refl)
          | inr s ↦ elim (Bool-cases (fails v.db)) [
            | inl f ↦
                rw (l, s, f, evict_rounds)
                  (Took-none t v (step v) (blobs-step t v) (blobs-step (other t) v))
            | inr f ↦ elim (Bool-cases (count gone blobs == 0)) [
              | inl m ↦
                  rw (l, s, f, m, evict_rounds)
                    (Took-none t v (step v) (blobs-step t v) (blobs-step (other t) v))
              | inr m ↦
                  rw (l, s, f, m, evict_rounds)
                    (after_bytes-Took t v _ (n + count gone blobs) total v1 (cache_bytes v1)
                      (one, there)
                      (λ size.
                        Took-after t v v2 _ one there
                          (evict_rounds-Took rounds t (n + count gone blobs) size v2 u')))
            ]
          ]
        ]
      ]

  -- Both tables, from `v` to `w`.
  abbrev pub OldestGoneBoth : Vault → Vault → Type 0
  OldestGoneBoth v w = OldestGone v.images w.images × OldestGone v.nzbs w.nzbs

  evict_table-Took :
      (t : Table) (total : ℕ) (v : Vault)
      → UniqueKeys (blobs_of t v)
      → Took t v (evict_table order stop max_bytes t total v).vault
  unfolding evict_table
  evict_table-Took t total v u = evict_rounds-Took (suc (length (blobs_of t v))) t 0 total v u

  evict_both-OldestGone :
      (total : ℕ) (v : Vault)
      → UniqueKeys v.images
      → UniqueKeys v.nzbs
      → OldestGoneBoth v (evict_both order stop max_bytes total v).1.vault
  evict_both-OldestGone total v u u' =
      let first = evict_table order stop max_bytes images total v in
      let (gone, same) = evict_table-Took images total v u in
      elim (Option-cases first.error) [
        | inr (e, h) ↦ rw (h, evict_both) (gone, all-OldestGone v.nzbs first.vault.nzbs same)
        | inl h ↦
            let (gone', same') =
              evict_table-Took nzbs first.total first.vault (subst UniqueKeys (sym same) u') in
            rw (h, evict_both)
              (subst (OldestGone v.images) (sym same') gone, OldestGone-from _ _ _ same gone')
      ]

  -- Where the ids of both tables are unique, as a PRIMARY KEY is: of each table an eviction takes
  -- the entries fetched longest ago, over all its batches and however it ends, errors included.
  -- What it leaves are entries of the table, as they were and in their places, and each entry that
  -- is not left was fetched no later than every entry that is.
  pub evict_cache_to_oldest :
      (v : Vault)
      → UniqueKeys v.images
      → UniqueKeys v.nzbs
      → OldestGoneBoth v (evict_cache_to order stop max_bytes v).1.vault
  unfolding evict_cache_to
  evict_cache_to_oldest v u u' =
      let w = bytes_read v in
      let same = blobs-read images v in
      let same' = blobs-read nzbs v in
      let none_gone : OldestGoneBoth v w =
        (all-OldestGone v.images w.images same, all-OldestGone v.nzbs w.nzbs same') in
      elim (Result-cases (cache_bytes v)) [
        | inl (e, h) ↦ rw (h, evict_cache_to) none_gone
        | inr (total, h) ↦ elim (Bool-cases (leb total max_bytes)) [
          | inl l ↦ rw (h, l, evict_cache_to) none_gone
          | inr l ↦
              let (gone, gone') =
                evict_both-OldestGone total w (subst UniqueKeys (sym same) u)
                  (subst UniqueKeys (sym same') u') in
              rw (h, l, evict_cache_to)
                (OldestGone-from _ _ _ same gone, OldestGone-from _ _ _ same' gone')
        ]
      ]
