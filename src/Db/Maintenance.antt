-- ===== src/Db/Maintenance.antt =====
-- internal/db/maintenance.go: retention, and the size of the caches.
-- `stop` says of a round whether the context is over when it begins; rounds count down.
pub mod Picked
pub mod Retention
pub mod Evicted
pub mod Round
pub mod Oldest
pub mod Spared
use spottr.Base.{
  Ordered, ℕ, zero, suc, ◌+◌, ◌≤◌, ◌≡◌, Bool, true, false, not, ◌&&◌, ◌||◌, Option, none, some,
  List, [], ◌∷◌, ◌++◌, map, ◌==◌, ltb, leb, if◌then◌else◌, length, drop, take, keep, exists, count,
  Result, ok, err, Error, sql_error, canceled,
}
use spottr.Text.{Bytes, codes, is_empty, eqb, trim_space}
use spottr.Db.Tables.{Row, Db, fails, next}
use spottr.Db.Withdrawals.{is_listed}
use spottr.Db.Caches.{Vault, Blob, step}

-- The order in which a statement of SQLite visits the rows of a table: each of them once.
pub record Visiting (A : Type 0) : Type 0 where
  pub visit : List A → List A
  pub visit-count : (p : A → Bool) (xs : List A) → count p (visit xs) ≡ count p xs

-- What a sweep returns: how many rows it has deleted, and the error that ended it.
pub record Swept : Type 0 where
  pub deleted : ℕ
  pub error : Option Error
  pub vault : Vault

abbrev pub retention_chunk : ℕ
retention_chunk = 5000

abbrev pub is_old : ℕ → Row → Bool
is_old cutoff r = ltb r.posted_at cutoff

-- `SELECT … FROM spots WHERE posted_at < ? LIMIT ?`
unfoldable pub picked : Visiting Row → ℕ → List Row → List Row
picked order cutoff rows = take retention_chunk (keep (is_old cutoff) (order.visit rows))

abbrev pub is_picked : List Row → Row → Bool
is_picked rows r = exists (λ (x : Row). x.id == r.id) rows

abbrev names_nzb : Row → Bool
names_nzb r = not (is_empty r.nzb_id)

-- The ids of the articles that the first statement of a round deletes.
unfoldable pub picked_nzbs : Visiting Row → ℕ → List Row → List Bytes
picked_nzbs order cutoff rows =
    map (λ (r : Row). r.nzb_id)
      (take retention_chunk (keep (λ r. is_old cutoff r && names_nzb r) (order.visit rows)))

abbrev pub drop_nzbs : List Bytes → Vault → Vault
drop_nzbs ids v = record v { nzbs = keep (λ (b : Blob). not (is_listed ids b.message_id)) v.nzbs }

abbrev pub drop_spots : (Row → Bool) → Vault → Vault
drop_spots gone v = record v {
  db = next (record v.db { spots = keep (λ r. not (gone r)) v.db.spots });
}

module _ (order : Visiting Row) (stop : ℕ → Bool) (cutoff : ℕ) where
  -- The loop of `DeleteSpotsOlderThan`. A round that is not the last one deletes 5000 spots.
  unfoldable pub delete_rounds : ℕ → ℕ → Vault → Swept
  unfolding picked picked_nzbs
  delete_rounds zero total v = record { deleted = total; error = none; vault = v }
  delete_rounds (suc rounds) total v =
      let v1 = step (drop_nzbs (picked_nzbs order cutoff v.db.spots) v) in
      let gone = is_picked (picked order cutoff v.db.spots) in
      let n = count gone v.db.spots in
      let rest = delete_rounds rounds (total + n) (drop_spots gone v1) in
      if stop rounds
      then record { deleted = total; error = some canceled; vault = v }
      else if fails v.db
      then record { deleted = total; error = some sql_error; vault = step v }
      else if fails v1.db
      then record { deleted = total; error = some sql_error; vault = step v1 }
      else if ltb n retention_chunk
      then record { deleted = total + n; error = none; vault = drop_spots gone v1 }
      else rest

  -- `DeleteSpotsOlderThan`: one round more than there are spots is more than enough.
  unfoldable pub delete_spots_older_than : Vault → Swept
  unfolding delete_rounds
  delete_spots_older_than v = delete_rounds (suc (length v.db.spots)) 0 v

-- `CountSpots`
unfoldable pub count_spots : Vault → Result ℕ
count_spots v =
    if fails v.db then err sql_error else ok (count (λ (r : Row). not r.moderated) v.db.spots)

abbrev pub bytes_of : List Blob → ℕ
bytes_of [] = 0
bytes_of (b ∷ blobs) = length b.content + bytes_of blobs

-- `CacheBytes`: two statements.
unfoldable pub cache_bytes : Vault → Result ℕ
cache_bytes v =
    if fails v.db || fails (next v.db)
    then err sql_error
    else ok (bytes_of v.nzbs + bytes_of v.images)

-- The store behind it.
abbrev pub bytes_read : Vault → Vault
bytes_read v = if fails v.db then step v else step (step v)

-- The two tables of cached articles.
pub data Table : Type 0 where
  images nzbs : Table

abbrev pub blobs_of : Table → Vault → List Blob
blobs_of images v = v.images
blobs_of nzbs v = v.nzbs

abbrev pub with_blobs : Table → List Blob → Vault → Vault
with_blobs images blobs v = record v { images = blobs }
with_blobs nzbs blobs v = record v { nzbs = blobs }

abbrev pub evict_batch : ℕ
evict_batch = 200

-- `ORDER BY fetched_at ASC`
abbrev pub older : Blob → Blob → Bool
older x y = leb x.fetched_at y.fetched_at

-- `message_id IN (SELECT message_id FROM … ORDER BY fetched_at ASC LIMIT 200)`
abbrev pub is_oldest : Ordered Blob older → List Blob → Blob → Bool
is_oldest order blobs b =
    exists (λ (x : Blob). eqb x.message_id b.message_id) (take evict_batch (order.visit blobs))

-- Where the eviction stands: what it has deleted of a table, and the size it last read.
pub record Evicting : Type 0 where
  pub deleted : ℕ
  pub total : ℕ
  pub error : Option Error
  pub vault : Vault

module _ (order : Ordered Blob older) (stop : ℕ → Bool) (max_bytes : ℕ) where
  abbrev after_bytes : (ℕ → Evicting) → ℕ → ℕ → Vault → Result ℕ → Evicting
  after_bytes rest n total v (err e) = record {
    deleted = n;
    total = total;
    error = some e;
    vault = bytes_read v;
  }
  after_bytes rest n total v (ok size) = rest size

  -- The inner loop of `EvictCacheTo`.
  unfoldable pub evict_rounds : ℕ → Table → ℕ → ℕ → Vault → Evicting
  unfolding cache_bytes
  evict_rounds zero t n total v = record { deleted = n; total = total; error = none; vault = v }
  evict_rounds (suc rounds) t n total v =
      let blobs = blobs_of t v in
      let gone = is_oldest order blobs in
      let more = count gone blobs in
      let v1 = step (with_blobs t (keep (λ b. not (gone b)) blobs) v) in
      let rest : ℕ → Evicting = λ size. evict_rounds rounds t (n + more) size (bytes_read v1) in
      if leb total max_bytes
      then record { deleted = n; total = total; error = none; vault = v }
      else if stop rounds
      then record { deleted = n; total = total; error = some canceled; vault = v }
      else if fails v.db
      then record { deleted = n; total = total; error = some sql_error; vault = step v }
      else if more == 0
      then record { deleted = n; total = total; error = none; vault = step v }
      else after_bytes rest (n + more) total v1 (cache_bytes v1)

  -- A round that is not the last one takes an entry, so these are enough.
  unfoldable pub evict_table : Table → ℕ → Vault → Evicting
  unfolding evict_rounds
  evict_table t total v = evict_rounds (suc (length (blobs_of t v))) t 0 total v

  abbrev evict_both : ℕ → Vault → Evicting × Evicting
  evict_both total v =
      let first = evict_table images total v in
      elim first.error [
        | some e ↦ (first, record first { deleted = 0 })
        | none ↦ (first, evict_table nzbs first.total first.vault)
      ]

  -- `EvictCacheTo`: what becomes of the images, and then of the NZBs.
  unfoldable pub evict_cache_to : Vault → Evicting × Evicting
  unfolding evict_table cache_bytes
  evict_cache_to v = elim (cache_bytes v) [
    | err e ↦
        let failed : Evicting = record {
          deleted = 0;
          total = 0;
          error = some e;
          vault = bytes_read v;
        } in
        (failed, failed)
    | ok total ↦
        let kept : Evicting = record {
          deleted = 0;
          total = total;
          error = none;
          vault = bytes_read v;
        } in
        if leb total max_bytes then (kept, kept) else evict_both total (bytes_read v)
  ]
