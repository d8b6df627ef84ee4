-- ===== src/Db/Spots.antt =====
-- internal/db/db.go: storing retrieved spots.
pub mod Insert
use spottr.Base.{
  ℕ, suc, ◌+◌, ◌/◌, Bool, true, false, not, ◌||◌, Option, none, some, List, [], ◌∷◌, ◌++◌,
  if◌then◌else◌, Error, sql_error,
}
use spottr.Text.{Bytes}
use spottr.Db.Kind.{kind_of}
use spottr.Db.Tables.{Spot, Row, Db, fails, next, rollback, nanos, in_ring, in_spots}

-- The row that the statement of `InsertSpots` makes of a spot.
unfoldable pub row_of : ℕ → Spot → Row
row_of id s = record {
  id = id;
  message_id = s.message_id;
  article_num = s.article_num;
  title = s.title;
  description = s.description;
  poster = s.poster;
  posted_at = s.posted_at / nanos;
  tag = s.tag;
  nzb_id = s.nzb_id;
  category = s.category;
  sub_cat_a = s.sub_cat_a;
  sub_cat_b = s.sub_cat_b;
  sub_cat_c = s.sub_cat_c;
  sub_cat_d = s.sub_cat_d;
  size = s.size;
  image_url = s.image_url;
  verified = s.verified;
  moderated = s.moderated;
  is_adult = s.is_adult;
  spotter_id = s.spotter_id;
  kind = kind_of s.category s.sub_cat_a s.sub_cat_b s.sub_cat_d;
}

-- `INSERT OR IGNORE … WHERE NOT EXISTS`: nothing for a withdrawn or a known message-id.
unfoldable pub is_ignored : Db → Spot → Bool
is_ignored d s = in_ring d.ring s.message_id || in_spots d.spots s.message_id

unfoldable pub insert_row : Db → Spot → Db
unfolding row_of is_ignored
insert_row d s =
    if is_ignored d s
    then d
    else record d { spots = d.spots ++ row_of d.next_id s ∷ []; next_id = suc d.next_id }

-- The loop of `InsertSpots`: the rows inserted so far, the error that ended it, the store.
unfoldable pub insert_rows : List Spot → ℕ → Db → ℕ × Option Error × Db
unfolding insert_row
insert_rows [] n d = (n, none, d)
insert_rows (s ∷ ss) n d =
    let rest = insert_rows ss (if is_ignored d s then n else n + 1) (next (insert_row d s)) in
    if fails d then (n, some sql_error, next d) else rest

-- The end of the transaction.
unfoldable pub commit : Db → ℕ × Option Error × Db → ℕ × Option Error × Db
commit d (n, some e, d') = (n, some e, rollback d d')
commit d (n, none, d') =
    if fails d' then (n, some sql_error, rollback d (next d')) else (n, none, next d')

-- `InsertSpots`: begin, prepare, one statement for each spot, commit.
unfoldable pub insert_spots : Db → List Spot → ℕ × Option Error × Db
unfolding insert_rows commit
insert_spots d [] = (0, none, d)
insert_spots d (s ∷ ss) =
    if fails d
    then (0, some sql_error, next d)
    else if fails (next d)
    then (0, some sql_error, next (next d))
    else commit d (insert_rows (s ∷ ss) 0 (next (next d)))
