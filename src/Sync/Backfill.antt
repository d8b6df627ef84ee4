-- ===== src/Sync/Backfill.antt =====
-- internal/sync/backfill.go: walking a group's history backwards.
pub mod Watermark
use spottr.Base.{
  ℕ, zero, suc, ◌+◌, ◌-◌, Bool, true, false, Option, none, some, List, [], ◌∷◌, ltb, leb, ◌==◌,
  if◌then◌else◌, Result, ok, err, Error, canceled,
}
use spottr.Text.{Bytes}
use spottr.Nntp.{ArticleInfo, GroupInfo}
use spottr.Db.Tables.{Spot, Db, next}
use spottr.Db.Spots.{insert_spots}
use spottr.Db.Progress.{get_backfill_state, set_backfill_state}
use spottr.Sync.Env.{Env, overview_chunk_size}
use spottr.Sync.Ingest.{Batch, collect}

-- What a chunk returns: done or an error, and the store.
abbrev pub Step : Type 0
Step = Result Bool × Db

unfoldable pub store_batch : List Spot → Db → ℕ × Db
store_batch [] d = (0, d)
store_batch (s ∷ ss) d = elim (insert_spots d (s ∷ ss)).1 [
  | some e ↦ (0, (insert_spots d (s ∷ ss)).2)
  | none ↦ ((insert_spots d (s ∷ ss)).0, (insert_spots d (s ∷ ss)).2)
]

module _ (env : Env) (group : Bytes) where
  -- `ingest`: the spots inserted, the withdrawals left aside, the store.
  unfoldable pub ingest : List ArticleInfo → Db → ℕ × ℕ × Db
  unfolding store_batch
  ingest ais d =
      let b = collect env ais in ((store_batch b.spots d).0, b.control, (store_batch b.spots d).1)

  -- The first article of the chunk that ends at `to`.
  abbrev pub chunk_start : ℕ → ℕ → ℕ
  chunk_start first to =
      if ltb (to + 1) (first + overview_chunk_size) then first else to + 1 - overview_chunk_size

  unfoldable pub save : ℕ → ℕ → Db → Step
  save first from d = elim (set_backfill_state d group from).0 [
    | some e ↦ (err e, (set_backfill_state d group from).1)
    | none ↦ (ok (leb from first), (set_backfill_state d group from).1)
  ]

  -- The range below the watermark.
  unfoldable pub fetch : GroupInfo → ℕ → Db → Step
  unfolding ingest save
  fetch gi oldest d = elim (env.server.overview (chunk_start gi.first (oldest - 1)) (oldest - 1)) [
    | err e ↦ (err e, d)
    | ok ais ↦ save gi.first (chunk_start gi.first (oldest - 1)) (ingest ais d).2
  ]

  -- Behind the two reads: nothing to do without a watermark, or at the group's first article.
  unfoldable pub below_watermark : GroupInfo → Db → Result ℕ → Step
  unfolding fetch
  below_watermark gi d (err e) = (err e, next d)
  below_watermark gi d (ok oldest) =
      if oldest == 0
      then (ok true, next d)
      else if leb oldest gi.first
      then (ok true, next d)
      else fetch gi oldest (next d)

  -- `backfillChunk`
  unfoldable pub backfill_chunk : Db → Step
  unfolding below_watermark
  backfill_chunk d = elim env.server.lease [
    | some e ↦ (err e, d)
    | none ↦ elim env.server.select [
      | err e ↦ (err e, d)
      | ok gi ↦ below_watermark gi d (get_backfill_state d group)
    ]
  ]

-- `backfillGroup`; the rounds bound the loop, and `none` means that they ran out. `cancelled` is
-- whether the context is done when that many rounds are left, and `envs` what the chunk then finds:
-- each chunk leases a connection and selects the group anew.
module _ (envs : ℕ → Env) (group : Bytes) where
  unfoldable pub backfill_group : (ℕ → Bool) → ℕ → Db → Option (Result (Unit {0})) × Db
  unfolding backfill_chunk
  backfill_group cancelled zero d = (none, d)
  backfill_group cancelled (suc rounds) d =
      if cancelled rounds
      then (some (err canceled), d)
      else elim (backfill_chunk (envs rounds) group d).0 [
        | err e ↦ (some (err e), (backfill_chunk (envs rounds) group d).1)
        | ok true ↦ (some (ok tt), (backfill_chunk (envs rounds) group d).1)
        | ok false ↦ backfill_group cancelled rounds (backfill_chunk (envs rounds) group d).1
      ]
