-- ===== src/Sync/Forward.antt =====
-- internal/sync/syncer.go: one pass of the forward sync over a group.
pub mod Safety
pub mod Checkpoint
use spottr.Base.{
  ℕ, zero, suc, ◌+◌, ◌-◌, Bool, true, false, not, ◌&&◌, Option, none, some, List, [], ◌∷◌, ltb,
  ◌==◌, if◌then◌else◌, keep, length, Result, ok, err, Error,
}
use spottr.Text.{Bytes}
use spottr.Nntp.{ArticleInfo, GroupInfo}
use spottr.Db.Tables.{Spot, Db, next}
use spottr.Db.Spots.{insert_spots}
use spottr.Db.Progress.{get_sync_state, set_sync_state}
use spottr.Spotnet.Moderation.{ModerationCommand}
use spottr.Sync.Env.{Env, Mode, overview_chunk_size}
use spottr.Sync.Moderation.{apply_moderation}
use spottr.Sync.Ingest.{Batch, collect}

-- `Stats`, without the group and the duration.
pub record Stats : Type 0 where
  pub articles_checked : ℕ
  pub spots_inserted : ℕ
  pub spots_rejected : ℕ
  pub spots_moderated : ℕ
  pub control_messages : ℕ

abbrev pub no_articles : Stats
no_articles = record {
  articles_checked = 0;
  spots_inserted = 0;
  spots_rejected = 0;
  spots_moderated = 0;
  control_messages = 0;
}

-- The state of a pass: its counts, whether the connection was marked broken, and the store.
pub record Walk : Type 0 where
  pub stats : Stats
  pub broken : Bool
  pub db : Db

-- The withdrawals that the forward sync acts on: verified ones, with moderation on.
unfoldable pub honoured : Mode → List ModerationCommand → List ModerationCommand
honoured Mode.off cmds = []
honoured Mode.mark cmds = keep (λ (m : ModerationCommand). m.verified) cmds
honoured Mode.delete cmds = keep (λ (m : ModerationCommand). m.verified) cmds

abbrev pub count_batch : ℕ → Batch → Stats → Stats
count_batch n b s = record s {
  articles_checked = s.articles_checked + n;
  spots_rejected = s.spots_rejected + b.rejected;
  control_messages = s.control_messages + b.control;
}

-- Storing the spots of a chunk; an error is logged, and the pass goes on.
unfoldable pub store_spots : List Spot → Walk → Walk
store_spots [] w = w
store_spots (s ∷ ss) w = elim (insert_spots w.db (s ∷ ss)).1 [
  | some e ↦ record w { db = (insert_spots w.db (s ∷ ss)).2 }
  | none ↦ record w {
    stats =
        let t = w.stats in
        record t { spots_inserted = t.spots_inserted + (insert_spots w.db (s ∷ ss)).0 };
    db = (insert_spots w.db (s ∷ ss)).2;
  }
]

last_number : ℕ → List ArticleInfo → ℕ
last_number n [] = n
last_number n (ai ∷ ais) = last_number ai.article_num ais

-- The checkpoint behind a chunk; an error is logged.
unfoldable pub checkpoint : Bytes → List ArticleInfo → Walk → Walk
unfolding last_number
checkpoint group [] w = w
checkpoint group (ai ∷ ais) w = record w {
  db = (set_sync_state w.db group (last_number ai.article_num ais)).1;
}

module _ (env : Env) (group : Bytes) where
  -- The withdrawals of a chunk: the state behind them, and whether the pass goes on.
  unfoldable pub honour : List ModerationCommand → Walk → Walk × Bool
  honour [] w = (w, true)
  honour (cmd ∷ cmds) w =
      let r =
        apply_moderation env.crypto env.server.head env.settings.moderation_mode (cmd ∷ cmds)
          w.db in
      let counted =
        let t = w.stats in record t { spots_moderated = t.spots_moderated + r.0.applied } in
      elim r.1 [
        | some e ↦ (record { stats = counted; broken = true; db = r.2 }, false)
        | none ↦ (record { stats = counted; broken = w.broken; db = r.2 }, true)
      ]

  unfoldable pub end_chunk : List ArticleInfo → Walk × Bool → Walk × Bool
  end_chunk ais (w, false) = (w, false)
  end_chunk ais (w, true) = (checkpoint group ais w, true)

  -- A chunk that was read: spots first, then withdrawals, then the checkpoint.
  unfoldable pub take_chunk : List ArticleInfo → Walk → Walk × Bool
  unfolding honour end_chunk
  take_chunk ais w =
      let b = collect env ais in
      end_chunk ais (
        honour (honoured env.settings.moderation_mode b.commands)
          (store_spots b.spots (record w { stats = count_batch (length ais) b w.stats })))

  -- One round of the loop over the chunks.
  unfoldable pub sync_chunk : ℕ → ℕ → Walk → Walk × Bool
  unfolding take_chunk
  sync_chunk from to w = elim (env.server.overview from to) [
    | err e ↦ (record w { broken = true }, false)
    | ok ais ↦ take_chunk ais w
  ]

  -- The last article of the chunk that begins at `from`.
  abbrev pub chunk_end : ℕ → ℕ → ℕ
  chunk_end from last =
      if ltb last (from + overview_chunk_size - 1) then last else from + overview_chunk_size - 1

  module _ (cancelled : ℕ → Bool) (last : ℕ) where
    -- The loop; `cancelled` is `ctx.Err()` before the chunk at an article number.
    unfoldable pub sync_chunks : ℕ → ℕ → Walk → Walk
    unfolding sync_chunk
    sync_chunks zero from w = w
    sync_chunks (suc rounds) from w =
        if ltb last from
        then w
        else if cancelled from
        then w
        else elim (sync_chunk from (chunk_end from last) w).1 [
          | false ↦ (sync_chunk from (chunk_end from last) w).0
          | true ↦
              sync_chunks rounds (from + overview_chunk_size)
                (sync_chunk from (chunk_end from last) w).0
        ]

  -- Where a pass begins: behind the last article seen, or at the lookback on a first run.
  unfoldable pub first_article : ℕ → GroupInfo → ℕ
  first_article last_seen gi =
      if last_seen == 0
      then if ltb gi.last (gi.first + env.settings.sync_lookback)
        then gi.first
        else gi.last - env.settings.sync_lookback
      else last_seen + 1

  abbrev pub begin : Db → Walk
  begin d = record { stats = no_articles; broken = false; db = d }

  -- A pass on a selected group. A round takes at least one article number, so the numbers left
  -- are rounds enough.
  unfoldable pub pass : (ℕ → Bool) → GroupInfo → ℕ → Db → Walk
  unfolding first_article sync_chunks
  pass cancelled gi last_seen d =
      sync_chunks cancelled gi.last (gi.last + 1 - first_article last_seen gi)
        (first_article last_seen gi) (begin d)

  -- `syncGroup`: the error of a pass that did not begin, and the state.
  unfoldable pub sync_group : (ℕ → Bool) → Db → Option Error × Walk
  unfolding pass
  sync_group cancelled d = elim env.server.lease [
    | some e ↦ (some e, begin d)
    | none ↦ elim env.server.select [
      | err e ↦ (some e, record { stats = no_articles; broken = true; db = d })
      | ok gi ↦ elim (get_sync_state d group) [
        | err e ↦ (some e, begin (next d))
        | ok last_seen ↦ (none, pass cancelled gi last_seen (next d))
      ]
    ]
  ]
