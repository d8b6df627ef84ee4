-- ===== src/Sync/Maintenance.antt =====
-- internal/sync/maintenance.go: one run of the housekeeping. Logs are left out.
pub mod Run
pub mod Lists
use spottr.Base.{
  Ordered, ℕ, ◌+◌, Bool, true, false, ◌&&◌, ◌||◌, Option, none, some, List, [], ◌∷◌, ◌==◌, ltb,
  if◌then◌else◌, length, Result, ok, err, Error,
}
use spottr.Text.{Bytes, codes, is_empty, trim_space}
use spottr.Db.Tables.{Row, next}
use spottr.Db.Withdrawals.{is_listed, prune_moderated_ring}
use spottr.Db.Caches.{Vault, Blob, step}
use spottr.Db.Maintenance.{
  Visiting, older, Swept, delete_spots_older_than, cache_bytes, bytes_read, evict_cache_to,
}
use spottr.Db.SpotterLists.{replace_spotter_list, blacklisted_spotters, delete_spots_by_spotter}

-- An entry of `spotterListXML`: its attribute `id`, and its text.
pub record FeedEntry : Type 0 where
  pub id : Bytes
  pub value : Bytes

-- The settings and the surroundings of a run. `fetch` is what HTTP and Go's XML reader make of an
-- address: the entries of the document, or an error. `cutoff` is the time so many days ago.
pub record Maintainer : Type 0 where
  pub retention_days : ℕ
  pub cache_max_bytes : ℕ
  pub blacklist_url : Bytes
  pub whitelist_url : Bytes
  pub fetch : Bytes → Result (List FeedEntry)
  pub cutoff : ℕ → ℕ
  pub stop : ℕ → Bool
  pub spots_order : Visiting Row
  pub blobs_order : Ordered Blob older

-- The inner loop of `fetchSpotterList`; `seen` are the ids that it has.
unfoldable pub candidates : List Bytes → List Bytes → List Bytes
candidates seen [] = []
candidates seen (c ∷ cs) =
    let skipped = candidates seen cs in
    let taken = c ∷ candidates (c ∷ seen) cs in
    if (is_empty c || ltb 64 (length c)) || is_listed seen c then skipped else taken

abbrev pub texts : List FeedEntry → List Bytes
texts [] = []
texts (e ∷ es) = e.id ∷ trim_space e.value ∷ texts es

abbrev pub listed_ids : Result (List FeedEntry) → Result (List Bytes)
listed_ids (err e) = err e
listed_ids (ok es) = ok (candidates [] (texts es))

-- `fetchSpotterList`
unfoldable pub fetch_spotter_list : Maintainer → Bytes → Result (List Bytes)
unfolding candidates
fetch_spotter_list m url = listed_ids (m.fetch url)

-- One round of the loop of `refreshSpotterLists`: a failed or an empty answer changes nothing.
abbrev pub refresh_with : Bytes → Bytes → Result (List Bytes) → Vault → Option Error × Vault
refresh_with list_type url (err e) v = (none, v)
refresh_with list_type url (ok []) v = (none, v)
refresh_with list_type url (ok (id ∷ ids)) v = replace_spotter_list list_type url (id ∷ ids) v

unfoldable pub refresh_list : Maintainer → Bytes → Bytes → Vault → Option Error × Vault
unfolding fetch_spotter_list replace_spotter_list
refresh_list m list_type url v =
    if is_empty url then (none, v) else refresh_with list_type url (fetch_spotter_list m url) v

abbrev pub white_too : Maintainer → Option Error × Vault → Option Error × Vault
white_too m (some e, v) = (some e, v)
white_too m (none, v) = refresh_list m (codes "white") m.whitelist_url v

-- `refreshSpotterLists`
unfoldable pub refresh_spotter_lists : Maintainer → Vault → Option Error × Vault
unfolding refresh_list
refresh_spotter_lists m v = white_too m (refresh_list m (codes "black") m.blacklist_url v)

abbrev pub purge : Result (List Bytes) → Vault → Vault
purge (err e) v = v
purge (ok []) v = v
purge (ok (id ∷ ids)) v = (delete_spots_by_spotter (id ∷ ids) v).2

-- `applyBlacklist`, less the error, which is logged alone.
unfoldable pub apply_blacklist : Vault → Vault
unfolding blacklisted_spotters delete_spots_by_spotter
apply_blacklist v = purge (blacklisted_spotters v) (step v)

abbrev prune : ℕ → Vault → Vault
prune cutoff v = record v { db = (prune_moderated_ring v.db cutoff).2 }

abbrev pub swept : ℕ → Swept → Vault
swept cutoff w = elim w.error [ none ↦ prune cutoff w.vault | some e ↦ w.vault ]

-- `applyRetention`
unfoldable pub apply_retention : Maintainer → Vault → Vault
unfolding delete_spots_older_than prune_moderated_ring
apply_retention m v =
    let cutoff = m.cutoff m.retention_days in
    if m.retention_days == 0
    then v
    else swept cutoff (delete_spots_older_than m.spots_order m.stop cutoff v)

abbrev pub evicted : Maintainer → Result ℕ → Vault → Vault
evicted m (err e) v = v
evicted m (ok before) v = (evict_cache_to m.blobs_order m.stop m.cache_max_bytes v).1.vault

-- `evictCache`, less the size that it reads afterwards for the log.
unfoldable pub evict_cache : Maintainer → Vault → Vault
unfolding cache_bytes evict_cache_to
evict_cache m v = if m.cache_max_bytes == 0 then v else evicted m (cache_bytes v) (bytes_read v)

-- `runOnce`: an error of a step does not keep the later steps from running.
unfoldable pub run_once : Maintainer → Vault → Vault
unfolding refresh_spotter_lists apply_blacklist apply_retention evict_cache
run_once m v = evict_cache m (apply_retention m (apply_blacklist (refresh_spotter_lists m v).1))
