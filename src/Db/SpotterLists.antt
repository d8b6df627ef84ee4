-- ===== src/Db/SpotterLists.antt =====
-- internal/db/maintenance.go: the black list and the white list of spotters.
pub mod Replaced
pub mod Purged
use spottr.Base.{
  ℕ, zero, suc, ◌+◌, Bool, true, false, not, ◌&&◌, Option, none, some, List, [], ◌∷◌, ◌++◌, map,
  if◌then◌else◌, length, drop, take, keep, exists, count, Result, ok, err, Error, sql_error,
}
use spottr.Text.{Bytes, codes, is_empty, eqb, trim_space}
use spottr.Db.Tables.{Row, Db, fails, next, rollback}
use spottr.Db.Withdrawals.{is_listed, delete_batch}
use spottr.Db.Caches.{Vault, ListEntry, step}

-- The PRIMARY KEY of the table is the pair of the two.
abbrev pub is_entry : Bytes → Bytes → ListEntry → Bool
is_entry list_type id e = eqb e.list_type list_type && eqb e.spotter_id id

-- `INSERT OR REPLACE`
abbrev pub put_entry : ListEntry → List ListEntry → List ListEntry
put_entry e lists =
    keep (λ (x : ListEntry). not (is_entry e.list_type e.spotter_id x)) lists ++ e ∷ []

abbrev pub with_lists : List ListEntry → Vault → Vault
with_lists lists v = record v { lists = lists }

-- The loop of `ReplaceSpotterList`.
unfoldable pub put_entries : Bytes → Bytes → List Bytes → Vault → Option Error × Vault
put_entries list_type origin [] v = (none, v)
put_entries list_type origin (raw ∷ ids) v =
    let id = trim_space raw in
    let e : ListEntry = record { spotter_id = id; list_type = list_type; origin = origin } in
    let skipped = put_entries list_type origin ids v in
    let rest = put_entries list_type origin ids (step (with_lists (put_entry e v.lists) v)) in
    if is_empty id then skipped else if fails v.db then (some sql_error, step v) else rest

-- The end of the transaction that began at the first store.
abbrev pub end_lists : Vault → Option Error × Vault → Option Error × Vault
end_lists v (some e, v') = (some e, record v { db = rollback v.db v'.db })
end_lists v (none, v') =
    if fails v'.db
    then (some sql_error, record v { db = rollback v.db (next v'.db) })
    else (none, step v')

-- `ReplaceSpotterList`: begin, the deletion, the prepared insertion, the loop, commit.
unfoldable pub replace_spotter_list : Bytes → Bytes → List Bytes → Vault → Option Error × Vault
unfolding put_entries
replace_spotter_list list_type origin ids v =
    let begun = step v in
    let cleared =
      step (with_lists (keep (λ (e : ListEntry). not (eqb e.list_type list_type)) v.lists) begun) in
    let done = end_lists v (put_entries list_type origin ids (step cleared)) in
    if fails v.db
    then (some sql_error, begun)
    else if fails begun.db
    then (some sql_error, step begun)
    else if fails cleared.db
    then (some sql_error, step (step begun))
    else done

abbrev pub names_of : Bytes → List ListEntry → List Bytes
names_of list_type lists =
    map (λ (e : ListEntry). e.spotter_id)
      (keep (λ (e : ListEntry). eqb e.list_type list_type) lists)

-- `BlacklistedSpotters`
unfoldable pub blacklisted_spotters : Vault → Result (List Bytes)
blacklisted_spotters v = if fails v.db then err sql_error else ok (names_of (codes "black") v.lists)

abbrev pub by_spotter : List Bytes → Row → Bool
by_spotter ids r = is_listed ids r.spotter_id

abbrev pub without_rows : (Row → Bool) → Vault → Vault
without_rows gone v = record v {
  db = next (record v.db { spots = keep (λ r. not (gone r)) v.db.spots });
}

-- The loop of `DeleteSpotsBySpotter`; as many rounds as there are ids are enough.
unfoldable pub delete_by_spotter : ℕ → List Bytes → ℕ → Vault → ℕ × Option Error × Vault
delete_by_spotter zero ids n v = (n, none, v)
delete_by_spotter (suc rounds) [] n v = (n, none, v)
delete_by_spotter (suc rounds) (id ∷ ids) n v =
    let gone = by_spotter (take delete_batch (id ∷ ids)) in
    let rest =
      delete_by_spotter rounds (drop delete_batch (id ∷ ids)) (n + count gone v.db.spots)
        (without_rows gone v) in
    if fails v.db then (n, some sql_error, step v) else rest

-- `DeleteSpotsBySpotter`
unfoldable pub delete_spots_by_spotter : List Bytes → Vault → ℕ × Option Error × Vault
unfolding delete_by_spotter
delete_spots_by_spotter ids v = delete_by_spotter (length ids) ids 0 v
