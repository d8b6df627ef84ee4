-- ===== src/Db/Withdrawals.antt =====
-- internal/db/maintenance.go: withdrawing spots, and what a withdrawal needs to know.
pub mod Hidden
pub mod Outcome
pub mod Shown
use spottr.Base.{
  ℕ, zero, suc, ◌+◌, Bool, true, false, ◌||◌, Option, none, some, List, [], ◌∷◌, ◌++◌, ltb,
  if◌then◌else◌, length, drop, take, keep, exists, not, map, Result, ok, err, Error, sql_error, ◌*◌,
}
use spottr.Text.{Bytes, eqb}
use spottr.Db.Tables.{Row, Withdrawn, Db, fails, next, rollback, nanos, has_id, in_ring}
use spottr.Db.Spots.{commit}

-- `INSERT OR IGNORE INTO moderated_ring`, stamped by the schema's default.
unfoldable pub remember : Db → Bytes → Db
remember d id =
    if in_ring d.ring id
    then d
    else record d { ring = d.ring ++ record { message_id = id; stamp = d.clock } ∷ [] }

abbrev pub mark_row : Bytes → Row → Row
mark_row id r = if has_id id r then record r { moderated = true } else r

-- `UPDATE spots SET moderated = 1 WHERE message_id = ?`, and the rows it counts.
unfoldable pub mark : Db → Bytes → Db
mark d id = record d { spots = map (mark_row id) d.spots }

abbrev pub count_rows : Bytes → List Row → ℕ
count_rows id rows = length (keep (has_id id) rows)

-- The loop of `MarkModerated`: two statements for each id.
unfoldable pub mark_rows : List Bytes → ℕ → Db → ℕ × Option Error × Db
unfolding remember mark
mark_rows [] n d = (n, none, d)
mark_rows (id ∷ ids) n d =
    let d' = next (remember d id) in
    let rest = mark_rows ids (n + count_rows id d'.spots) (next (mark d' id)) in
    if fails d
    then (n, some sql_error, next d)
    else if fails d'
    then (n, some sql_error, next d')
    else rest

-- `MarkModerated`: begin, two prepares, the loop, commit.
unfoldable pub mark_moderated : Db → List Bytes → ℕ × Option Error × Db
unfolding mark_rows
mark_moderated d [] = (0, none, d)
mark_moderated d (id ∷ ids) =
    if fails d
    then (0, some sql_error, next d)
    else if fails (next d)
    then (0, some sql_error, next (next d))
    else if fails (next (next d))
    then (0, some sql_error, next (next (next d)))
    else commit d (mark_rows (id ∷ ids) 0 (next (next (next d))))

abbrev pub delete_batch : ℕ
delete_batch = 400

abbrev pub is_listed : List Bytes → Bytes → Bool
is_listed ids id = exists (eqb id) ids

-- `DELETE FROM spots WHERE message_id IN (…)`
unfoldable pub delete_rows : Db → List Bytes → Db
delete_rows d ids = record d {
  spots = keep (λ (r : Row). not (is_listed ids r.message_id)) d.spots;
}

abbrev pub count_listed : List Bytes → List Row → ℕ
count_listed ids rows = length (keep (λ (r : Row). is_listed ids r.message_id) rows)

-- The loop of `DeleteSpotsByMessageID`; each batch is a statement of its own. As many rounds as
-- there are ids are enough, since a round takes one id at least.
unfoldable pub delete_batches : ℕ → List Bytes → ℕ → Db → ℕ × Option Error × Db
unfolding delete_rows
delete_batches zero ids n d = (n, none, d)
delete_batches (suc rounds) [] n d = (n, none, d)
delete_batches (suc rounds) (id ∷ ids) n d =
    let chunk = take delete_batch (id ∷ ids) in
    let rest =
      delete_batches rounds (drop delete_batch (id ∷ ids)) (n + count_listed chunk d.spots)
        (next (delete_rows d chunk)) in
    if fails d then (n, some sql_error, next d) else rest

-- `DeleteSpotsByMessageID`
unfoldable pub delete_spots_by_message_id : Db → List Bytes → ℕ × Option Error × Db
unfolding delete_batches
delete_spots_by_message_id d ids = delete_batches (length ids) ids 0 d

-- `DisposeTargetInfo`; `posted` in nanoseconds.
pub record DisposeTargetInfo : Type 0 where
  pub owner : Bytes
  pub posted : ℕ
  pub moderated : Bool

abbrev pub target_of : Row → DisposeTargetInfo
target_of r = record { owner = r.spotter_id; posted = r.posted_at * nanos; moderated = r.moderated }

unfoldable pub find_target : Bytes → List Row → Option DisposeTargetInfo
find_target id [] = none
find_target id (r ∷ rows) = if has_id id r then some (target_of r) else find_target id rows

-- `DisposeTarget`; `ok none` is an id that is not indexed.
unfoldable pub dispose_target : Db → Bytes → Result (Option DisposeTargetInfo)
unfolding find_target
dispose_target d id = if fails d then err sql_error else ok (find_target id d.spots)

abbrev pub own_row : Bytes → Bytes → Bool → Row → Row
own_row id spotter verified r =
    if has_id id r then record r { spotter_id = spotter; verified = verified } else r

-- `SetSpotOwner`
unfoldable pub set_spot_owner : Db → Bytes → Bytes → Bool → Option Error × Db
set_spot_owner d id spotter verified =
    if fails d
    then (some sql_error, next d)
    else (none, next (record d { spots = map (own_row id spotter verified) d.spots }))

-- `PruneModeratedRing`; the cutoff in seconds.
unfoldable pub prune_moderated_ring : Db → ℕ → ℕ × Option Error × Db
prune_moderated_ring d cutoff = if fails d then (0, some sql_error, next d) else (
  length (keep (λ (w : Withdrawn). ltb w.stamp cutoff) d.ring),
  none,
  next (record d { ring = keep (λ (w : Withdrawn). not (ltb w.stamp cutoff)) d.ring }),
)
