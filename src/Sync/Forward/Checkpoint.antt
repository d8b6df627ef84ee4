-- ===== src/Sync/Forward/Checkpoint.antt =====
-- syncer.go: when the forward sync's checkpoint moves, and the rounds of its loop.
use spottr.Base.{
  ℕ, zero, suc, ◌+◌, ◌-◌, ◌≤◌, ◌≡◌, refl, ◌∙◌, sym, Bool, true, false, List, [], ◌∷◌, arith,
  Bool-cases, Option-cases, Result-cases, inl, inr, ltb, length,
}
use spottr.Text.{Bytes}
use spottr.Nntp.{ArticleInfo}
use spottr.Db.Tables.{Spot}
use spottr.Db.Spots.{insert_spots}
use spottr.Db.Safe.{insert_spots-Safe}
use spottr.Spotnet.Moderation.{ModerationCommand}
use spottr.Sync.Env.{Env, overview_chunk_size}
use spottr.Sync.Moderation.{apply_moderation}
use spottr.Sync.Moderation.Safety.{apply_moderation-Safe}
use spottr.Sync.Ingest.{collect}
use spottr.Sync.Forward.{
  Walk, store_spots, honour, honoured, end_chunk, take_chunk, sync_chunk, sync_chunks, chunk_end,
  count_batch,
}

store_spots-progress : (ss : List Spot) (w : Walk) → (store_spots ss w).db.progress ≡ w.db.progress
unfolding store_spots
store_spots-progress [] w = refl
store_spots-progress (s ∷ ss) w = elim (Option-cases (insert_spots w.db (s ∷ ss)).1) [
  | inl e ↦ rw (e, store_spots) (insert_spots-Safe w.db (s ∷ ss)).checkpoints
  | inr (x, e) ↦ rw (e, store_spots) (insert_spots-Safe w.db (s ∷ ss)).checkpoints
]

module _ (env : Env) (group : Bytes) where
  honour-progress :
      (cmds : List ModerationCommand) (w : Walk)
      → (honour env group cmds w).0.db.progress ≡ w.db.progress
  unfolding honour
  honour-progress [] w = refl
  honour-progress (m ∷ cmds) w =
      let r =
        apply_moderation env.crypto env.server.head env.settings.moderation_mode (m ∷ cmds) w.db in
      let safe =
        apply_moderation-Safe env.crypto env.server.head env.settings.moderation_mode (m ∷ cmds)
          w.db in
      elim (Option-cases r.1) [
        | inl e ↦ rw (e, honour) safe.checkpoints
        | inr (x, e) ↦ rw (e, honour) safe.checkpoints
      ]

  end_chunk-stopped :
      (ais : List ArticleInfo) (p : Walk × Bool)
      → (end_chunk env group ais p).1 ≡ false
      → (end_chunk env group ais p).0.db.progress ≡ p.0.db.progress
  unfolding end_chunk
  end_chunk-stopped ais (w, false) h = refl
  end_chunk-stopped ais (w, true) h = cc

  take_chunk-stopped :
      (ais : List ArticleInfo) (w : Walk)
      → (take_chunk env group ais w).1 ≡ false
      → (take_chunk env group ais w).0.db.progress ≡ w.db.progress
  unfolding take_chunk
  take_chunk-stopped ais w h =
      let b = collect env ais in
      let w1 : Walk = record w { stats = count_batch (length ais) b w.stats } in
      let w2 = store_spots b.spots w1 in
      let cmds = honoured env.settings.moderation_mode b.commands in
      end_chunk-stopped ais (honour env group cmds w2) h
      ∙ honour-progress cmds w2
      ∙ store_spots-progress b.spots w1

  -- A chunk that ends the pass, because its overview was not read or its withdrawals failed, leaves
  -- all checkpoints where they were, so that the next pass reads it again.
  pub sync_chunk_retried :
      (from to : ℕ) (w : Walk)
      → (sync_chunk env group from to w).1 ≡ false
      → (sync_chunk env group from to w).0.db.progress ≡ w.db.progress
  unfolding sync_chunk
  sync_chunk_retried from to w h = elim (Result-cases (env.server.overview from to)) [
    | inl (x, e) ↦ rw (e, sync_chunk)
    | inr (ais, e) ↦
        let same : sync_chunk env group from to w ≡ take_chunk env group ais w =
          rw (e, sync_chunk) in
        rw same (take_chunk-stopped ais w (ground arith))
  ]

  module _ (cancelled : ℕ → Bool) (last : ℕ) where
    past_end :
        (rounds from : ℕ) (w : Walk)
        → ltb last from ≡ true
        → sync_chunks env group cancelled last rounds from w ≡ w
    unfolding sync_chunks
    past_end zero from w h = refl
    past_end (suc rounds) from w h = rw (h, sync_chunks)

    -- The rounds that a pass gives its loop are enough: any two numbers of rounds that are both at
    -- least the count of article numbers left to the group's last one end in the same state.
    sync_chunks_enough :
        (rounds more from : ℕ) (w : Walk)
        → last + 1 - from ≤ rounds
        → last + 1 - from ≤ more
        → sync_chunks env group cancelled last rounds from w
          ≡ sync_chunks env group cancelled last more from w
    unfolding sync_chunks
    sync_chunks_enough zero more from w h h' = sym (past_end more from w (ground arith))
    sync_chunks_enough (suc rounds) zero from w h h' = past_end (suc rounds) from w (ground arith)
    sync_chunks_enough (suc rounds) (suc more) from w h h' =
        let step = sync_chunk env group from (chunk_end env group from last) w in
        elim (Bool-cases (ltb last from)) [
          | inl e ↦ rw (e, sync_chunks)
          | inr e ↦ elim (Bool-cases (cancelled from)) [
            | inl e' ↦ rw (e, e', sync_chunks)
            | inr e' ↦ elim (Bool-cases step.1) [
              | inl go ↦
                  rw (e, e', go, sync_chunks)
                    (sync_chunks_enough rounds more (from + overview_chunk_size) step.0
                      (ground arith) (ground arith))
              | inr stop ↦ rw (e, e', stop, sync_chunks)
            ]
          ]
        ]
