-- ===== src/Db/Caches.antt =====
-- internal/db/db.go: reading one spot, storing what its article said, and the caches of NZBs and
-- images.
pub mod Laws
use spottr.Base.{
  ℕ, ◌+◌, ◌*◌, ◌/◌, Bool, true, false, not, Option, none, some, List, [], ◌∷◌, ◌++◌, ◌==◌,
  if◌then◌else◌, Result, ok, err, Error, sql_error, keep, map,
}
use spottr.Text.{Bytes, eqb}
use spottr.Db.Tables.{Spot, Row, Db, fails, next, nanos}

-- A row of `nzbs` or of `images`; an NZB has no media type.
pub record Blob : Type 0 where
  pub message_id : Bytes
  pub content : Bytes
  pub mime_type : Bytes
  pub fetched_at : ℕ

-- A row of `spotter_lists`, without the time, which nothing reads.
pub record ListEntry : Type 0 where
  pub spotter_id : Bytes
  pub list_type : Bytes
  pub origin : Bytes

-- The tables that serving and housekeeping work on as well.
pub record Vault : Type 0 where
  pub db : Db
  pub nzbs : List Blob
  pub images : List Blob
  pub lists : List ListEntry

abbrev pub step : Vault → Vault
step v = record v { db = next v.db }

-- `scanSpot`, less the id, which is the row's.
abbrev pub scan_spot : Row → Spot
scan_spot r = record {
  message_id = r.message_id;
  article_num = r.article_num;
  title = r.title;
  description = r.description;
  poster = r.poster;
  posted_at = r.posted_at * nanos;
  tag = r.tag;
  nzb_id = r.nzb_id;
  category = r.category;
  sub_cat_a = r.sub_cat_a;
  sub_cat_b = r.sub_cat_b;
  sub_cat_c = r.sub_cat_c;
  sub_cat_d = r.sub_cat_d;
  size = r.size;
  image_url = r.image_url;
  verified = r.verified;
  moderated = r.moderated;
  is_adult = r.is_adult;
  spotter_id = r.spotter_id;
  kind = r.kind;
  key_id = 0;
  header_part = [];
  header_sig = [];
  self_signed_key = [];
}

abbrev pub row_with : ℕ → List Row → Option Row
row_with id [] = none
row_with id (r ∷ rows) = if r.id == id then some r else row_with id rows

-- `GetSpotByID`; no row is no error.
unfoldable pub get_spot_by_id : ℕ → Vault → Result (Option Row)
get_spot_by_id id v = if fails v.db then err sql_error else ok (row_with id v.db.spots)

abbrev pub enriched_row : ℕ → Spot → Row → Row
enriched_row id s r =
    if r.id == id
    then record r {
      description = s.description;
      image_url = s.image_url;
      nzb_id = s.nzb_id;
      size = s.size;
      spotter_id = s.spotter_id;
      verified = s.verified;
    }
    else r

-- `UpdateSpotEnrichment`
unfoldable pub update_spot_enrichment : ℕ → Spot → Vault → Option Error × Vault
update_spot_enrichment id s v =
    if fails v.db
    then (some sql_error, step v)
    else (none, record v { db = next (record v.db { spots = map (enriched_row id s) v.db.spots }) })

-- A cache without an entry, and with a new one: `INSERT OR REPLACE`.
abbrev pub without_blob : Bytes → List Blob → List Blob
without_blob id blobs = keep (λ (b : Blob). not (eqb b.message_id id)) blobs

abbrev pub with_blob : Blob → List Blob → List Blob
with_blob b blobs = without_blob b.message_id blobs ++ b ∷ []

abbrev pub blob_with : Bytes → List Blob → Option Blob
blob_with id [] = none
blob_with id (b ∷ blobs) = if eqb b.message_id id then some b else blob_with id blobs

-- `CacheNZB`
unfoldable pub cache_nzb : Bytes → Bytes → Vault → Option Error × Vault
cache_nzb id content v = if fails v.db then (some sql_error, step v) else (
  none,
  step (record v {
    nzbs =
        with_blob
          (record { message_id = id; content = content; mime_type = []; fetched_at = v.db.clock })
          v.nzbs;
  }),
)

-- `GetCachedNZB`; empty where there is none.
unfoldable pub get_cached_nzb : Bytes → Vault → Result Bytes
get_cached_nzb id v =
    if fails v.db
    then err sql_error
    else elim (blob_with id v.nzbs) [ none ↦ ok [] | some b ↦ ok b.content ]

-- `CacheImage`
unfoldable pub cache_image : Bytes → Bytes → Bytes → Vault → Option Error × Vault
cache_image id content mime_type v = if fails v.db then (some sql_error, step v) else (
  none,
  step (record v {
    images =
        with_blob
          (record {
            message_id = id;
            content = content;
            mime_type = mime_type;
            fetched_at = v.db.clock;
          })
          v.images;
  }),
)

-- `GetCachedImage`
unfoldable pub get_cached_image : Bytes → Vault → Result (Bytes × Bytes)
get_cached_image id v =
    if fails v.db
    then err sql_error
    else elim (blob_with id v.images) [ none ↦ ok ([], []) | some b ↦ ok (b.content, b.mime_type) ]
