-- ===== src/Sync/Maintenance/Run.antt =====
-- sync/maintenance.go: what one run of the housekeeping leaves.
use spottr.Base.{
  subst, ℕ, ◌≤◌, ◌≡◌, refl, sym, ap, ◌∙◌, ◌⊎◌, inl, inr, false, not, ◌==◌, List, [], ◌∷◌, Option,
  none, some, Error, Result, ok, err, arith, Bool-cases, keep,
}
use spottr.Text.{eqb, Bytes, codes, is_empty, trim_space}
use spottr.Db.Tables.{next}
use spottr.Db.Withdrawals.{prune_moderated_ring}
use spottr.Db.Caches.{Vault, ListEntry, step}
use spottr.Db.Caches.Laws.{next_calm, step_calm, fails_calm}
use spottr.Db.Maintenance.{Swept, is_old, delete_spots_older_than, bytes_read}
use spottr.Db.Maintenance.Picked.{UniqueIds, keep-UniqueIds}
use spottr.Db.Maintenance.Retention.{delete_spots_older_than_all, delete_spots_older_than_calm}
use spottr.Db.Maintenance.Evicted.{size_of, read_calm, cache_bytes_calm, evict_cache_to-Evicted}
use spottr.Db.Maintenance.Spared.{spots-read, evict_cache_to-spots}
use spottr.Db.SpotterLists.{
  names_of, put_entries, put_entry, with_lists, end_lists, replace_spotter_list,
  blacklisted_spotters,
}
use spottr.Db.SpotterLists.Purged.{with_spots, others, keep-nil, delete_spots_by_spotter_all}
use spottr.Sync.Maintenance.{
  Maintainer, refresh_with, refresh_list, fetch_spotter_list, white_too, refresh_spotter_lists,
  purge, apply_blacklist, apply_retention, swept, evict_cache, run_once,
}

-- The lists are swapped without a trace elsewhere.
put_entries-db :
    (u origin : Bytes) (ids : List Bytes) (v : Vault)
    → v.db.faults ≡ []
    → ((put_entries u origin ids v).0 ≡ none) × ((put_entries u origin ids v).1.db ≡ v.db)
unfolding put_entries
put_entries-db u origin [] v calm = (refl, refl)
put_entries-db u origin (raw ∷ ids) v calm = elim (Bool-cases (is_empty (trim_space raw))) [
  | inl e ↦ rw (e, put_entries) (put_entries-db u origin ids v calm)
  | inr e ↦
      let (f, calm') = fails_calm v.db calm in
      let new : ListEntry = record {
        spotter_id = trim_space raw;
        list_type = u;
        origin = origin;
      } in
      let (fine, same) =
        put_entries-db u origin ids (step (with_lists (put_entry new v.lists) v)) calm' in
      rw (e, f, put_entries) (fine, same ∙ next_calm v.db calm)
]

end_lists_calm :
    (v : Vault) (r : Option Error × Vault)
    → r.0 ≡ none
    → r.1.db.faults ≡ []
    → ((end_lists v r).0 ≡ none) × ((end_lists v r).1.db ≡ r.1.db)
end_lists_calm v (some e, v') h calm = absurd (ground (arith, h))
end_lists_calm v (none, v') h calm = rw (fails_calm v'.db calm).0 (refl, next_calm v'.db calm)

replace-db :
    (u origin : Bytes) (ids : List Bytes) (v : Vault)
    → v.db.faults ≡ []
    → ((replace_spotter_list u origin ids v).0 ≡ none)
      × ((replace_spotter_list u origin ids v).1.db ≡ v.db)
unfolding replace_spotter_list
replace-db u origin ids v calm =
    let left = keep (λ (e : ListEntry). not (eqb e.list_type u)) v.lists in
    let cleared = step (with_lists left (step v)) in
    let (f, calm1) = fails_calm v.db calm in
    let (f1, calm2) = fails_calm (next v.db) calm1 in
    let (f2, calm3) = fails_calm (next (next v.db)) calm2 in
    let (fine, same) = put_entries-db u origin ids (step cleared) calm3 in
    let (done, held) =
      end_lists_calm v (put_entries u origin ids (step cleared)) fine
        (ap (λ d. d.faults) same ∙ calm3) in
    rw (f, f1, f2, replace_spotter_list)
      (
        done,
        held
            ∙ (same
                ∙ (next_calm (next (next v.db)) calm2
                    ∙ (next_calm (next v.db) calm1 ∙ next_calm v.db calm))),
      )

apply_blacklist_calm :
    (v : Vault)
    → v.db.faults ≡ []
    → apply_blacklist v ≡ with_spots (keep (others (names_of (codes "black") v.lists)) v.db.spots) v
unfolding apply_blacklist blacklisted_spotters
apply_blacklist_calm v calm =
    let (f, calm1) = fails_calm v.db calm in
    rw f (
      ap (λ w. purge (ok (names_of (codes "black") v.lists)) w) (step_calm v calm)
      ∙ purged (names_of (codes "black") v.lists))
  where
    purged : (ids : List Bytes) → purge (ok ids) v ≡ with_spots (keep (others ids) v.db.spots) v
    purged [] = ap (λ rows. with_spots rows v) (sym (keep-nil v.db.spots))
    purged (id ∷ ids) = (delete_spots_by_spotter_all (id ∷ ids) v calm).1

refresh_with-db :
    (u url : Bytes) (r : Result (List Bytes)) (v : Vault)
    → v.db.faults ≡ []
    → ((refresh_with u url r v).0 ≡ none) × ((refresh_with u url r v).1.db ≡ v.db)
refresh_with-db u url (err e) v calm = (refl, refl)
refresh_with-db u url (ok []) v calm = (refl, refl)
refresh_with-db u url (ok (id ∷ ids)) v calm = replace-db u url (id ∷ ids) v calm

refresh_list-db :
    (m : Maintainer) (u url : Bytes) (v : Vault)
    → v.db.faults ≡ []
    → ((refresh_list m u url v).0 ≡ none) × ((refresh_list m u url v).1.db ≡ v.db)
unfolding refresh_list
refresh_list-db m u url v calm = elim (Bool-cases (is_empty url)) [
  | inl e ↦ rw (e, refresh_list) (refl, refl)
  | inr e ↦ rw (e, refresh_list) (refresh_with-db u url (fetch_spotter_list m url) v calm)
]

white_too-db :
    (m : Maintainer) (r : Option Error × Vault) → r.1.db.faults ≡ [] → (white_too m r).1.db ≡ r.1.db
white_too-db m (some e, v) calm = refl
white_too-db m (none, v) calm = (refresh_list-db m (codes "white") m.whitelist_url v calm).1

refresh-db :
    (m : Maintainer) (v : Vault) → v.db.faults ≡ [] → (refresh_spotter_lists m v).1.db ≡ v.db
unfolding refresh_spotter_lists
refresh-db m v calm =
    let same = (refresh_list-db m (codes "black") m.blacklist_url v calm).1 in
    white_too-db m (refresh_list m (codes "black") m.blacklist_url v)
      (ap (λ d. d.faults) same ∙ calm)
    ∙ same

-- Retention, where it is on.
swept_calm :
    (cutoff : ℕ) (w : Swept)
    → w.error ≡ none
    → w.vault.db.faults ≡ []
    → ((swept cutoff w).db.spots ≡ w.vault.db.spots) × ((swept cutoff w).db.faults ≡ [])
unfolding prune_moderated_ring
swept_calm cutoff w fine calm =
    let (f, calm') = fails_calm w.vault.db calm in rw (fine, f) (refl, calm')

retention_calm :
    (m : Maintainer) (v : Vault)
    → (m.retention_days == 0) ≡ false
    → UniqueIds v.db.spots
    → v.db.faults ≡ []
    → ((k : ℕ) → m.stop k ≡ false)
    → ((apply_retention m v).db.spots
        ≡ keep (λ r. not (is_old (m.cutoff m.retention_days) r)) v.db.spots)
      × ((apply_retention m v).db.faults ≡ [])
unfolding apply_retention
retention_calm m v days u calm on =
    let cutoff = m.cutoff m.retention_days in
    let w = delete_spots_older_than m.spots_order m.stop cutoff v in
    let (fine, all, number) = delete_spots_older_than_all m.spots_order m.stop cutoff v u calm on in
    let quiet = delete_spots_older_than_calm m.spots_order m.stop cutoff v calm on in
    let (same, quiet') = swept_calm cutoff w fine quiet in
    rw (days, apply_retention) (same ∙ all, quiet')

-- The caches are within the bound, or empty.
abbrev pub Trim : ℕ → Vault → Type 0
Trim max_bytes v = (size_of v ≤ max_bytes) ⊎ ((v.images ≡ []) × (v.nzbs ≡ []))

eviction_calm :
    (m : Maintainer) (v : Vault)
    → (m.cache_max_bytes == 0) ≡ false
    → v.db.faults ≡ []
    → ((k : ℕ) → m.stop k ≡ false)
    → ((evict_cache m v).db.spots ≡ v.db.spots) × Trim m.cache_max_bytes (evict_cache m v)
unfolding evict_cache
eviction_calm m v bound calm on =
    let v1 = bytes_read v in
    let (fine, small, spared) =
      evict_cache_to-Evicted m.blobs_order m.stop m.cache_max_bytes v1 (read_calm v calm) on in
    rw (bound, cache_bytes_calm v calm, evict_cache)
      (evict_cache_to-spots m.blobs_order m.stop m.cache_max_bytes v1 ∙ spots-read v, small)

-- One run of the housekeeping, with retention and the bound on the caches switched on, where SQLite
-- does not fail, the ids are unique and the context is not over: whatever the feeds answer, the
-- spots left are exactly those, in their places, whose spotter is not on the black list as the run
-- has refreshed it and which are not older than the retention; and the caches have at most the
-- configured size, or no entries.
pub run_once_lem :
    (m : Maintainer) (v : Vault)
    → (m.retention_days == 0) ≡ false
    → (m.cache_max_bytes == 0) ≡ false
    → UniqueIds v.db.spots
    → v.db.faults ≡ []
    → ((k : ℕ) → m.stop k ≡ false)
    → ((run_once m v).db.spots
        ≡ keep
            (λ r. not (is_old (m.cutoff m.retention_days) r))
            (keep
              (others (names_of (codes "black") (refresh_spotter_lists m v).1.lists))
              v.db.spots))
      × Trim m.cache_max_bytes (run_once m v)
unfolding run_once
run_once_lem m v days bound u calm on =
    let w = (refresh_spotter_lists m v).1 in
    let black = names_of (codes "black") w.lists in
    let same = refresh-db m v calm in
    let left = apply_blacklist_calm w (ap (λ d. d.faults) same ∙ calm) in
    let rows : (apply_blacklist w).db.spots ≡ keep (others black) v.db.spots =
      ap (λ x. x.db.spots) left ∙ ap (λ d. keep (others black) d.spots) same in
    let quiet : (apply_blacklist w).db.faults ≡ [] =
      ap (λ x. x.db.faults) left ∙ (ap (λ d. d.faults) same ∙ calm) in
    let unique =
      subst (λ xs. UniqueIds xs) (sym rows) (keep-UniqueIds (others black) v.db.spots u) in
    let (kept, quiet') = retention_calm m (apply_blacklist w) days unique quiet on in
    let (whole, trim) = eviction_calm m (apply_retention m (apply_blacklist w)) bound quiet' on in
    (
      whole ∙ (kept ∙ ap (λ xs. keep (λ r. not (is_old (m.cutoff m.retention_days) r)) xs) rows),
      trim,
    )
