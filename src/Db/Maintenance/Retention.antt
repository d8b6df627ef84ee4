-- ===== src/Db/Maintenance/Retention.antt =====
-- maintenance.go: the retention sweep as a whole.
use spottr.Db.Caches.Laws.{fails_calm}
use spottr.Base.{
  subst, ℕ, zero, suc, ◌<◌, ◌+◌, ◌≡◌, refl, ap, ◌∙◌, Bool, false, not, List, [], ◌∷◌, Option, none,
  some, Error, arith, Bool-cases, inl, inr, length, keep, count, ltb, length-keep-le,
}
use spottr.Db.Tables.{Row, fails, next}
use spottr.Db.Caches.{Vault, step}
use spottr.Db.Maintenance.{
  Visiting, Swept, retention_chunk, is_old, picked, is_picked, picked_nzbs, drop_nzbs, drop_spots,
  delete_rounds, delete_spots_older_than,
}
use spottr.Db.Maintenance.Picked.{UniqueIds, keep-UniqueIds, last_round, round-young, round-count}

count-young : (old : Row → Bool) (rows : List Row) → count old (keep (λ r. not (old r)) rows) ≡ 0
count-young old [] = refl
count-young old (r ∷ rows) = ground (arith, count-young old rows)

full : (n : ℕ) → ltb n retention_chunk ≡ false → 0 < n
full n l = ground (arith, l)

module _ (order : Visiting Row) (stop : ℕ → Bool) (cutoff : ℕ) where
  abbrev old : Row → Bool
  old = is_old cutoff

  abbrev young_of : Vault → List Row
  young_of v = keep (λ r. not (old r)) v.db.spots

  -- How a sweep ends: with all that is old deleted, or with an error.
  abbrev pub Ended : Option Error → Vault → Vault → Type 0
  Ended none v v' = v'.db.spots ≡ young_of v
  Ended (some e) v v' = Unit

  -- Young spots stay, in either case, and each deletion is counted.
  abbrev pub SweptFrom : ℕ → Vault → Swept → Type 0
  SweptFrom total v w =
      (young_of w.vault ≡ young_of v)
      × (total + count old v.db.spots ≡ w.deleted + count old w.vault.db.spots)
      × Ended w.error v w.vault

  Ended-next :
      (e : Option Error) (v v2 w : Vault) → young_of v2 ≡ young_of v → Ended e v2 w → Ended e v w
  Ended-next none v v2 w same h = h ∙ same
  Ended-next (some e) v v2 w same h = tt

  SweptFrom-next :
      (total n : ℕ) (v v2 : Vault) (w : Swept)
      → young_of v2 ≡ young_of v
      → count old v.db.spots ≡ n + count old v2.db.spots
      → SweptFrom (total + n) v2 w
      → SweptFrom total v w
  SweptFrom-next total n v v2 w same counted (young, sum, ended) =
      (young ∙ same, omega (arith, counted, sum), Ended-next w.error v v2 w.vault same ended)

  delete_rounds-SweptFrom :
      (rounds total : ℕ) (v : Vault)
      → UniqueIds v.db.spots
      → count old v.db.spots < rounds
      → SweptFrom total v (delete_rounds order stop cutoff rounds total v)
  unfolding delete_rounds
  delete_rounds-SweptFrom zero total v u enough = absurd (omega (arith, enough))
  delete_rounds-SweptFrom (suc rounds) total v u enough =
      let v1 = step (drop_nzbs (picked_nzbs order cutoff v.db.spots) v) in
      let gone = is_picked (picked order cutoff v.db.spots) in
      let n = count gone v.db.spots in
      let v2 = drop_spots gone v1 in
      let counted = round-count order cutoff v.db.spots u in
      let young = round-young order cutoff v.db.spots u in
      elim (Bool-cases (stop rounds)) [
        | inl s ↦ rw (s, delete_rounds) (refl, refl, tt)
        | inr s ↦ elim (Bool-cases (fails v.db)) [
          | inl f ↦ rw (s, f, delete_rounds) (refl, refl, tt)
          | inr f ↦ elim (Bool-cases (fails v1.db)) [
            | inl f' ↦ rw (s, f, f', delete_rounds) (refl, refl, tt)
            | inr f' ↦ elim (Bool-cases (ltb n retention_chunk)) [
              | inl l ↦
                  let all = last_round order cutoff v.db.spots u (ground (arith, l)) in
                  rw (s, f, f', l, delete_rounds) (young, omega (arith, counted), all)
              | inr l ↦
                  let enough' : count old v2.db.spots < rounds =
                    omega (arith, counted, enough, full n l) in
                  let ih =
                    delete_rounds-SweptFrom rounds (total + n) v2
                      (keep-UniqueIds (λ r. not (gone r)) v.db.spots u) enough' in
                  rw (s, f, f', l, delete_rounds) (SweptFrom-next total n v v2 _ young counted ih)
            ]
          ]
        ]
      ]

  -- The sweep from the store as it is.
  swept-SweptFrom :
      (v : Vault)
      → UniqueIds v.db.spots
      → SweptFrom 0 v (delete_spots_older_than order stop cutoff v)
  unfolding delete_spots_older_than
  swept-SweptFrom v u =
      delete_rounds-SweptFrom (suc (length v.db.spots)) 0 v u
        (omega (arith, length-keep-le old v.db.spots))

  calm_rounds :
      (rounds total : ℕ) (v : Vault)
      → v.db.faults ≡ []
      → ((k : ℕ) → stop k ≡ false)
      → ((delete_rounds order stop cutoff rounds total v).error ≡ none)
        × ((delete_rounds order stop cutoff rounds total v).vault.db.faults ≡ [])
  unfolding delete_rounds
  calm_rounds zero total v calm on = (refl, calm)
  calm_rounds (suc rounds) total v calm on =
      let gone = is_picked (picked order cutoff v.db.spots) in
      let v2 = drop_spots gone (step (drop_nzbs (picked_nzbs order cutoff v.db.spots) v)) in
      let (f, calm1) = fails_calm v.db calm in
      let (f', calm2) = fails_calm (next v.db) calm1 in
      let ih = calm_rounds rounds (total + count gone v.db.spots) v2 calm2 on in
      elim (Bool-cases (ltb (count gone v.db.spots) retention_chunk)) [
        | inl l ↦ rw (on rounds, f, f', l, delete_rounds) (refl, calm2)
        | inr l ↦ rw (on rounds, f, f', l, delete_rounds) ih
      ]

  whole :
      (total : ℕ) (v : Vault) (w : Swept)
      → w.error ≡ none
      → SweptFrom total v w
      → (w.vault.db.spots ≡ young_of v) × (w.deleted ≡ total + count old v.db.spots)
  whole total v w fine (young, sum, ended) =
      let all : w.vault.db.spots ≡ young_of v = subst (λ e. Ended e v w.vault) fine ended in
      (all, omega (arith, sum, ap (λ rows. count old rows) all, count-young old v.db.spots))

  -- Where the ids are unique, as a PRIMARY KEY is, and neither SQLite nor the context ends the
  -- sweep early: whatever the order in which SQLite picks the rows of each round, the rounds
  -- together do what one deletion would. They end without an error, all spots posted before the
  -- cutoff are gone, all others are as they were and in their places, and the number returned is
  -- that of the spots deleted.
  pub delete_spots_older_than_all :
      (v : Vault)
      → UniqueIds v.db.spots
      → v.db.faults ≡ []
      → ((k : ℕ) → stop k ≡ false)
      → ((delete_spots_older_than order stop cutoff v).error ≡ none)
        × ((delete_spots_older_than order stop cutoff v).vault.db.spots
            ≡ keep (λ r. not (is_old cutoff r)) v.db.spots)
        × ((delete_spots_older_than order stop cutoff v).deleted ≡ count (is_old cutoff) v.db.spots)
  unfolding delete_spots_older_than
  delete_spots_older_than_all v u calm on =
      let (fine, quiet) = calm_rounds (suc (length v.db.spots)) 0 v calm on in
      let (all, number) =
        whole 0 v (delete_spots_older_than order stop cutoff v) fine (swept-SweptFrom v u) in
      (fine, all, omega (arith, number))

  pub delete_spots_older_than_calm :
      (v : Vault)
      → v.db.faults ≡ []
      → ((k : ℕ) → stop k ≡ false)
      → (delete_spots_older_than order stop cutoff v).vault.db.faults ≡ []
  unfolding delete_spots_older_than
  delete_spots_older_than_calm v calm on = (calm_rounds (suc (length v.db.spots)) 0 v calm on).1
