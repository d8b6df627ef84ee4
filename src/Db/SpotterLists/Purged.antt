-- ===== src/Db/SpotterLists/Purged.antt =====
-- maintenance.go: deleting the spots of given spotters.
use spottr.Base.{
  ℕ, zero, suc, ◌≤◌, ◌+◌, ◌≡◌, refl, sym, ap, ◌∙◌, Bool, not, List, [], ◌∷◌, ◌++◌, none, arith,
  length, take, drop, keep, count,
}
use spottr.Text.{Bytes}
use spottr.Db.Tables.{Row}
use spottr.Db.Withdrawals.{delete_batch}
use spottr.Db.Withdrawals.Outcome.{is_listed-append, take-drop, length-drop_le}
use spottr.Db.Caches.{Vault}
use spottr.Db.Caches.Laws.{next_calm, fails_calm}
use spottr.Db.SpotterLists.{by_spotter, without_rows, delete_by_spotter, delete_spots_by_spotter}

-- A store with other spots.
abbrev pub with_spots : List Row → Vault → Vault
with_spots rows v = record v { db = record v.db { spots = rows } }

abbrev pub others : List Bytes → Row → Bool
others ids r = not (by_spotter ids r)

keep-others :
    (ids more : List Bytes) (rows : List Row)
    → keep (others more) (keep (others ids) rows) ≡ keep (others (ids ++ more)) rows
keep-others ids more [] = refl
keep-others ids more (r ∷ rows) =
    ground (arith, keep-others ids more rows, is_listed-append ids more r.spotter_id)

pub keep-nil : (rows : List Row) → keep (others []) rows ≡ rows
keep-nil [] = refl
keep-nil (r ∷ rows) = ap (λ t. r ∷ t) (keep-nil rows)

without_rows_calm :
    (gone : Row → Bool) (v : Vault)
    → v.db.faults ≡ []
    → without_rows gone v ≡ with_spots (keep (λ r. not (gone r)) v.db.spots) v
without_rows_calm gone v calm =
    ap (λ d. record v { db = d })
      (next_calm (record v.db { spots = keep (λ r. not (gone r)) v.db.spots }) calm)

delete_by_spotter_calm :
    (rounds : ℕ) (ids : List Bytes) (n : ℕ) (v : Vault)
    → length ids ≤ rounds
    → v.db.faults ≡ []
    → ((delete_by_spotter rounds ids n v).1 ≡ none)
      × ((delete_by_spotter rounds ids n v).2 ≡ with_spots (keep (others ids) v.db.spots) v)
unfolding delete_by_spotter
delete_by_spotter_calm zero [] n v h calm =
    (refl, ap (λ rows. with_spots rows v) (sym (keep-nil v.db.spots)))
delete_by_spotter_calm zero (id ∷ ids) n v h calm = absurd (omega (arith, h))
delete_by_spotter_calm (suc rounds) [] n v h calm =
    (refl, ap (λ rows. with_spots rows v) (sym (keep-nil v.db.spots)))
delete_by_spotter_calm (suc rounds) (id ∷ ids) n v h calm =
    let first = take delete_batch (id ∷ ids) in
    let left = drop delete_batch (id ∷ ids) in
    let v1 = without_rows (by_spotter first) v in
    let (f, calm') = fails_calm v.db calm in
    let short : length left ≤ rounds = omega (arith, h, length-drop_le 399 ids) in
    let (fine, done) =
      delete_by_spotter_calm rounds left (n + count (by_spotter first) v.db.spots) v1 short calm' in
    let here = without_rows_calm (by_spotter first) v calm in
    rw (f, delete_by_spotter)
      (
        fine,
        done
            ∙ (ap (λ w. with_spots (keep (others left) w.db.spots) w) here
                ∙ ap (λ rows. with_spots rows v)
                    (keep-others first left v.db.spots
                      ∙ ap (λ x. keep (others x) v.db.spots) (take-drop delete_batch (id ∷ ids)))),
      )

-- Where no statement of SQLite fails, the batches together do what one deletion would: all spots
-- of the given spotters are gone, and nothing else has changed.
pub delete_spots_by_spotter_all :
    (ids : List Bytes) (v : Vault)
    → v.db.faults ≡ []
    → ((delete_spots_by_spotter ids v).1 ≡ none)
      × ((delete_spots_by_spotter ids v).2 ≡ with_spots (keep (others ids) v.db.spots) v)
unfolding delete_spots_by_spotter
delete_spots_by_spotter_all ids v calm =
    delete_by_spotter_calm (length ids) ids 0 v (omega arith) calm
