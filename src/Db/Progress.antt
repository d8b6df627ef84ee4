-- ===== src/Db/Progress.antt =====
-- internal/db/db.go: the checkpoints of the three walks over a group.
pub mod Columns
use spottr.Base.{
  ℕ, Bool, true, false, Option, none, some, List, [], ◌∷◌, ◌++◌, ltb, if◌then◌else◌, Result, ok,
  err, Error, sql_error, exists, map,
}
use spottr.Text.{Bytes, eqb}
use spottr.Db.Tables.{Row, Progress, Db, fails, next}

unfoldable pub find_progress : Bytes → List Progress → Option Progress
find_progress g [] = none
find_progress g (p ∷ ps) = if eqb p.group_name g then some p else find_progress g ps

-- A column of the group's row; no row reads as 0.
abbrev pub read_progress : (Progress → ℕ) → Db → Bytes → Result ℕ
read_progress column d g =
    if fails d
    then err sql_error
    else elim (find_progress g d.progress) [ none ↦ ok 0 | some p ↦ ok (column p) ]

-- `GetSyncState`, `GetBackfillState`, `GetDisposeSweepState`
unfoldable pub get_sync_state : Db → Bytes → Result ℕ
unfolding find_progress
get_sync_state = read_progress (λ p. p.last_article_num)

unfoldable pub get_backfill_state : Db → Bytes → Result ℕ
unfolding find_progress
get_backfill_state = read_progress (λ p. p.backfill_article_num)

unfoldable pub get_dispose_sweep_state : Db → Bytes → Result ℕ
unfolding find_progress
get_dispose_sweep_state = read_progress (λ p. p.dispose_sweep_article_num)

-- `UPDATE sync_state … WHERE group_name = ?`
unfoldable pub update_progress : Bytes → (Progress → Progress) → List Progress → List Progress
update_progress g change [] = []
update_progress g change (p ∷ ps) =
    (if eqb p.group_name g then change p else p) ∷ update_progress g change ps

abbrev pub new_progress : Bytes → Progress
new_progress g = record {
  group_name = g;
  last_article_num = 0;
  backfill_article_num = 0;
  dispose_sweep_article_num = 0;
}

-- `INSERT … ON CONFLICT(group_name) DO UPDATE`; the other columns of a new row are 0.
unfoldable pub upsert_progress : Bytes → (Progress → Progress) → List Progress → List Progress
unfolding find_progress update_progress
upsert_progress g change ps = elim (find_progress g ps) [
  | none ↦ ps ++ change (new_progress g) ∷ []
  | some p ↦ update_progress g change ps
]

-- `SetSyncState`
unfoldable pub set_sync_state : Db → Bytes → ℕ → Option Error × Db
unfolding upsert_progress
set_sync_state d g n = if fails d then (some sql_error, next d) else (
  none,
  next (record d {
    progress = upsert_progress g (λ p. record p { last_article_num = n }) d.progress;
  }),
)

-- `SetBackfillState`
unfoldable pub set_backfill_state : Db → Bytes → ℕ → Option Error × Db
unfolding upsert_progress
set_backfill_state d g n = if fails d then (some sql_error, next d) else (
  none,
  next (record d {
    progress = upsert_progress g (λ p. record p { backfill_article_num = n }) d.progress;
  }),
)

-- `SetDisposeSweepState`: an update alone, which makes no row.
unfoldable pub set_dispose_sweep_state : Db → Bytes → ℕ → Option Error × Db
unfolding update_progress
set_dispose_sweep_state d g n = if fails d then (some sql_error, next d) else (
  none,
  next (record d {
    progress = update_progress g (λ p. record p { dispose_sweep_article_num = n }) d.progress;
  }),
)

min_article : ℕ → List Row → ℕ
min_article n [] = n
min_article n (r ∷ rows) = min_article (if ltb r.article_num n then r.article_num else n) rows

lowest : List Row → ℕ
unfolding min_article
lowest [] = 0
lowest (r ∷ rows) = min_article r.article_num rows

-- `OldestArticle`
unfoldable pub oldest_article : Db → Result ℕ
unfolding lowest
oldest_article d = if fails d then err sql_error else ok (lowest d.spots)
