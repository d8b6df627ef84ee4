-- ===== src/Tests/Keeping.antt =====
-- The housekeeping at concrete inputs.
use spottr.Base.{
  true, Ordered, insertion, ◌≡◌, refl, false, not, [], ◌∷◌, none, ok, arith, keep, count,
}
use spottr.Text.{codes}
use spottr.Db.Tables.{Row}
use spottr.Db.Caches.{Vault, Blob}
use spottr.Db.Maintenance.{Visiting, older, is_old, delete_spots_older_than, evict_cache_to}
use spottr.Db.Maintenance.Picked.{UniqueIds}
use spottr.Db.Maintenance.Retention.{delete_spots_older_than_all}
use spottr.Db.Maintenance.Evicted.{Evicted, evict_cache_to-Evicted}
use spottr.Db.Maintenance.Oldest.{OldestGoneBoth, evict_cache_to_oldest}
use spottr.Db.SpotterLists.{names_of}
use spottr.Db.SpotterLists.Purged.{others}
use spottr.Sync.Maintenance.{Maintainer, refresh_spotter_lists, run_once}
use spottr.Sync.Maintenance.Run.{Trim, run_once_lem}
use spottr.Tests.Data.{store, hidden_row}

abbrev in_place : Visiting Row
in_place = record { visit = λ xs. xs; visit-count = λ p xs. refl }

total : (x y : Blob) → older x y ≡ false → older y x ≡ true
total x y h = ground (arith, h)

trans : (x y z : Blob) → older x y ≡ true → older y z ≡ true → older x z ≡ true
trans x y z h h' = ground (arith, h, h')

abbrev by_age : Ordered Blob older
by_age = insertion older total trans

-- A spot of 2014 and a spot of a year later, of a spotter whom the feed lists.
abbrev later_row : Row
later_row = record hidden_row {
  id = 2;
  message_id = codes "<c@d>";
  posted_at = 1430000000;
  spotter_id = codes "eve";
}

abbrev an_image : Blob
an_image = record {
  message_id = codes "i@x";
  content = codes "abc";
  mime_type = codes "image/gif";
  fetched_at = 3;
}

abbrev an_nzb : Blob
an_nzb = record { message_id = codes "n@x"; content = codes "<a/>"; mime_type = []; fetched_at = 2 }

abbrev vault : Vault
vault = record {
  db = record store { spots = hidden_row ∷ later_row ∷ [] };
  nzbs = an_nzb ∷ [];
  images = an_image ∷ [];
  lists = record { spotter_id = codes "bob"; list_type = codes "black"; origin = [] } ∷ [];
}

abbrev maintainer : Maintainer
maintainer = record {
  retention_days = 30;
  cache_max_bytes = 5;
  blacklist_url = codes "http://a";
  whitelist_url = [];
  fetch = λ url. ok (record { id = codes "eve"; value = codes " eve " } ∷ []);
  cutoff = λ days. 1420000000;
  stop = λ k. false;
  spots_order = in_place;
  blobs_order = by_age;
}

unique : UniqueIds vault.db.spots
unique k = ground arith

delete_spots_older_than_all_example :
    ((delete_spots_older_than in_place (λ k. false) 1420000000 vault).error ≡ none)
    × ((delete_spots_older_than in_place (λ k. false) 1420000000 vault).vault.db.spots
        ≡ keep (λ r. not (is_old 1420000000 r)) vault.db.spots)
    × ((delete_spots_older_than in_place (λ k. false) 1420000000 vault).deleted
        ≡ count (is_old 1420000000) vault.db.spots)
delete_spots_older_than_all_example =
    delete_spots_older_than_all in_place (λ k. false) 1420000000 vault unique refl (λ k. refl)

evict_cache_to-Evicted_example :
    let r = evict_cache_to by_age (λ k. false) 5 vault in
    Evicted by_age (λ k. false) 5 vault r.1.error r.1.vault
evict_cache_to-Evicted_example = evict_cache_to-Evicted by_age (λ k. false) 5 vault refl (λ k. refl)

evict_cache_to_oldest_example :
    OldestGoneBoth by_age (λ k. false) 5 vault (evict_cache_to by_age (λ k. false) 5 vault).1.vault
evict_cache_to_oldest_example =
    evict_cache_to_oldest by_age (λ k. false) 5 vault (λ k. ground arith) (λ k. ground arith)

run_once_lem_example :
    ((run_once maintainer vault).db.spots
      ≡ keep
          (λ r. not (is_old 1420000000 r))
          (keep
            (others (names_of (codes "black") (refresh_spotter_lists maintainer vault).1.lists))
            vault.db.spots))
    × Trim 5 (run_once maintainer vault)
run_once_lem_example = run_once_lem maintainer vault refl refl unique refl (λ k. refl)
