-- ===== src/Sync/Sweep.antt =====
-- internal/sync/disposesweep.go: applying the withdrawals of the past, once.
pub mod Position
pub mod Safety
use spottr.Base.{
  zero, suc, canceled, canceled, suc, ℕ, ◌+◌, ◌-◌, Bool, true, false, Option, none, some, List, [],
  ◌∷◌, ltb, leb, ◌==◌, if◌then◌else◌, Result, ok, err, Error,
}
use spottr.Text.{Bytes}
use spottr.Nntp.{ArticleInfo}
use spottr.Db.Tables.{Db, next}
use spottr.Db.Progress.{
  get_sync_state, get_dispose_sweep_state, set_dispose_sweep_state, oldest_article,
}
use spottr.Sync.Env.{Env, overview_chunk_size}
use spottr.Sync.Moderation.{ModerationStats, no_stats, apply_moderation}
use spottr.Spotnet.Moderation.{ModerationCommand, parse_dispose}
use spottr.Spotnet.Parser.Overview.{parse_from_overview}
use spottr.Db.Tables.{Spot}
use spottr.Sync.Ingest.{command_of_spot}

-- What a chunk returns: done or an error, its counts, and the store.
abbrev pub SweepStep : Type 0
SweepStep = Result Bool × ModerationStats × Db

module _ (env : Env) (group : Bytes) where
  unfoldable pub add_command :
      Result (Spot × Bool) → List ModerationCommand → List ModerationCommand
  add_command (err e) cmds = cmds
  add_command (ok (s, verified)) cmds = elim (command_of_spot env s) [
    | none ↦ cmds
    | some cmd ↦ cmd ∷ cmds
  ]

  -- The withdrawals among the articles of a chunk.
  unfoldable pub commands_in : List ArticleInfo → List ModerationCommand
  unfolding add_command
  commands_in [] = []
  commands_in (ai ∷ ais) = add_command (parse_from_overview env.crypto env.now ai) (commands_in ais)

  -- The checkpoint, made only behind withdrawals that were applied.
  unfoldable pub save_position : ℕ → ℕ → ModerationStats × Option Error × Db → SweepStep
  save_position end to (st, some e, d) = (err e, st, d)
  save_position end to (st, none, d) = elim (set_dispose_sweep_state d group to).0 [
    | some e ↦ (err e, st, (set_dispose_sweep_state d group to).1)
    | none ↦ (ok (leb end to), st, (set_dispose_sweep_state d group to).1)
  ]

  unfoldable pub read_range : ℕ → ℕ → Db → SweepStep
  unfolding commands_in save_position
  read_range end pos d =
      let to = if ltb end (pos + overview_chunk_size) then end else pos + overview_chunk_size in
      elim env.server.lease [
        | some e ↦ (err e, no_stats, d)
        | none ↦ elim env.server.select [
          | err e ↦ (err e, no_stats, d)
          | ok gi ↦ elim (env.server.overview (pos + 1) to) [
            | err e ↦ (err e, no_stats, d)
            | ok ais ↦ save_position end to (
                apply_moderation env.crypto env.server.head env.settings.moderation_mode
                  (commands_in ais) d)
          ]
        ]
      ]

  unfoldable pub from_position : ℕ → ℕ → Db → SweepStep
  unfolding read_range
  from_position end pos d = if leb end pos then (ok true, no_stats, d) else read_range end pos d

  -- A sweep that has not begun starts before the oldest article.
  unfoldable pub from_oldest : ℕ → Db → SweepStep
  unfolding from_position
  from_oldest end d = elim (oldest_article d) [
    | err e ↦ (err e, no_stats, next d)
    | ok oldest ↦
        if oldest == 0 then (ok true, no_stats, next d) else from_position end (oldest - 1) (next d)
  ]

  unfoldable pub from_state : ℕ → Db → SweepStep
  unfolding from_oldest
  from_state end d = elim (get_dispose_sweep_state d group) [
    | err e ↦ (err e, no_stats, next d)
    | ok pos ↦ if pos == 0 then from_oldest end (next d) else from_position end pos (next d)
  ]

  -- `sweepChunk`
  unfoldable pub sweep_chunk : Db → SweepStep
  unfolding from_state
  sweep_chunk d = elim (get_sync_state d group) [
    | err e ↦ (err e, no_stats, next d)
    | ok end ↦ if end == 0 then (ok true, no_stats, next d) else from_state end (next d)
  ]

-- The counts that are added up.
abbrev pub add_stats : ModerationStats → ModerationStats → ModerationStats
add_stats total st = record total {
  applied = total.applied + st.applied;
  rejected = total.rejected + st.rejected;
  no_target = total.no_target + st.no_target;
  owner_lookups = total.owner_lookups + st.owner_lookups;
  owner_unknown = total.owner_unknown + st.owner_unknown;
  by_moderator = total.by_moderator + st.by_moderator;
}

module _ (env : Env) (group : Bytes) (cancelled : ℕ → Bool) where
  -- The loop of `sweepGroup`, with the failures in a row and the counts so far. The rounds bound
  -- it, and `none` means that they ran out; `cancelled` is whether the context is done when that
  -- many rounds are left, at the head of the loop or in the pause before it.
  unfoldable pub sweep_rounds : ℕ → ℕ → ModerationStats → Db → Option (Result ModerationStats) × Db
  unfolding sweep_chunk
  sweep_rounds zero failures total d = (none, d)
  sweep_rounds (suc rounds) failures total d =
      let step = sweep_chunk env group d in
      if cancelled rounds then (some (err canceled), d) else elim step.0 [
        | err e ↦ elim (leb 10 (failures + 1)) [
          | true ↦ (some (err e), step.2)
          | false ↦ sweep_rounds rounds (failures + 1) total step.2
        ]
        | ok true ↦ (some (ok (add_stats total step.1)), step.2)
        | ok false ↦ sweep_rounds rounds 0 (add_stats total step.1) step.2
      ]

  -- `sweepGroup`
  unfoldable pub sweep_group : ℕ → Db → Option (Result ModerationStats) × Db
  unfolding sweep_rounds
  sweep_group rounds d = sweep_rounds rounds 0 no_stats d
