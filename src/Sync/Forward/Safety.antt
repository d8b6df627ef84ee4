-- ===== src/Sync/Forward/Safety.antt =====
-- syncer.go: what a pass leaves true, whatever the server answers and whichever statement fails.
use spottr.Base.{
  ℕ, zero, suc, ◌+◌, ◌≡◌, refl, ◌∙◌, subst, Bool, true, false, List, [], ◌∷◌, Bool-cases,
  Option-cases, Result-cases, inl, inr, ltb, length,
}
use spottr.Text.{Bytes}
use spottr.Nntp.{ArticleInfo}
use spottr.Db.Tables.{Spot, Db, next, in_ring}
use spottr.Db.Invariant.{IsKept, shown, Hidden-shown}
use spottr.Db.Spots.{insert_spots}
use spottr.Db.Safe.{Safe, insert_spots-Safe}
use spottr.Db.Progress.{set_sync_state, get_sync_state}
use spottr.Db.Progress.Columns.{column, SameTables, set_sync_state-tables, set_sync_state-others}
use spottr.Spotnet.Moderation.{ModerationCommand}
use spottr.Sync.Env.{Env, overview_chunk_size}
use spottr.Sync.Moderation.{apply_moderation}
use spottr.Sync.Moderation.Safety.{apply_moderation-Safe}
use spottr.Sync.Ingest.{collect}
use spottr.Sync.Forward.{
  Walk, store_spots, checkpoint, last_number, honour, honoured, end_chunk, take_chunk, sync_chunk,
  sync_chunks, chunk_end, first_article, pass, begin, sync_group, count_batch,
}

-- What holds of a store before and behind any part of a pass.
pub record Quiet (d d' : Db) : Type 0 where
  pub invariant : IsKept d.spots d.ring → IsKept d'.spots d'.ring
  pub remembers : (x : Bytes) → in_ring d.ring x ≡ true → in_ring d'.ring x ≡ true
  pub backfill :
      (x : Bytes)
      → column (λ p. p.backfill_article_num) d'.progress x
        ≡ column (λ p. p.backfill_article_num) d.progress x

pub Quiet-refl : (d : Db) → Quiet d d
Quiet-refl d = record { invariant = λ k. k; remembers = λ x h. h; backfill = λ x. refl }

pub Quiet-trans : {d e f : Db} → Quiet d e → Quiet e f → Quiet d f
Quiet-trans a b = record {
  invariant = λ k. b.invariant (a.invariant k);
  remembers = λ x h. b.remembers x (a.remembers x h);
  backfill = λ x. b.backfill x ∙ a.backfill x;
}

pub Safe-Quiet : {d e : Db} → Safe d e → Quiet d e
Safe-Quiet s = record {
  invariant = s.invariant;
  remembers = s.remembers;
  backfill = λ x. rw s.checkpoints;
}

pub SameTables-IsKept : (d e : Db) → SameTables d e → IsKept d.spots d.ring → IsKept e.spots e.ring
SameTables-IsKept d e (s, r) k = rw (s, r) k

pub set_sync_state-Quiet : (d : Db) (g : Bytes) (n : ℕ) → Quiet d (set_sync_state d g n).1
set_sync_state-Quiet d g n = record {
  invariant = SameTables-IsKept d (set_sync_state d g n).1 (set_sync_state-tables d g n);
  remembers = λ x h. rw ((set_sync_state-tables d g n).1) h;
  backfill = λ x. (set_sync_state-others d g x n).0;
}

store_spots-Quiet : (ss : List Spot) (w : Walk) → Quiet w.db (store_spots ss w).db
unfolding store_spots
store_spots-Quiet [] w = Quiet-refl w.db
store_spots-Quiet (s ∷ ss) w = elim (Option-cases (insert_spots w.db (s ∷ ss)).1) [
  | inl e ↦ rw (e, store_spots) (Safe-Quiet (insert_spots-Safe w.db (s ∷ ss)))
  | inr (x, e) ↦ rw (e, store_spots) (Safe-Quiet (insert_spots-Safe w.db (s ∷ ss)))
]

checkpoint-Quiet :
    (g : Bytes) (ais : List ArticleInfo) (w : Walk) → Quiet w.db (checkpoint g ais w).db
unfolding checkpoint
checkpoint-Quiet g [] w = Quiet-refl w.db
checkpoint-Quiet g (ai ∷ ais) w = set_sync_state-Quiet w.db g (last_number ai.article_num ais)

module _ (env : Env) (group : Bytes) where
  honour-Quiet :
      (cmds : List ModerationCommand) (w : Walk) → Quiet w.db (honour env group cmds w).0.db
  unfolding honour
  honour-Quiet [] w = Quiet-refl w.db
  honour-Quiet (m ∷ cmds) w =
      let r =
        apply_moderation env.crypto env.server.head env.settings.moderation_mode (m ∷ cmds) w.db in
      let safe = Safe-Quiet (
        apply_moderation-Safe env.crypto env.server.head env.settings.moderation_mode (m ∷ cmds)
          w.db) in
      elim (Option-cases r.1) [ inl e ↦ rw (e, honour) safe | inr (x, e) ↦ rw (e, honour) safe ]

  end_chunk-Quiet :
      (ais : List ArticleInfo) (p : Walk × Bool) → Quiet p.0.db (end_chunk env group ais p).0.db
  unfolding end_chunk
  end_chunk-Quiet ais (w, false) = Quiet-refl w.db
  end_chunk-Quiet ais (w, true) = checkpoint-Quiet group ais w

  take_chunk-Quiet :
      (ais : List ArticleInfo) (w : Walk) → Quiet w.db (take_chunk env group ais w).0.db
  unfolding take_chunk
  take_chunk-Quiet ais w =
      let b = collect env ais in
      let w1 : Walk = record w { stats = count_batch (length ais) b w.stats } in
      let w2 = store_spots b.spots w1 in
      let cmds = honoured env.settings.moderation_mode b.commands in
      Quiet-trans (store_spots-Quiet b.spots w1)
        (Quiet-trans (honour-Quiet cmds w2) (end_chunk-Quiet ais (honour env group cmds w2)))

  sync_chunk-Quiet : (from to : ℕ) (w : Walk) → Quiet w.db (sync_chunk env group from to w).0.db
  unfolding sync_chunk
  sync_chunk-Quiet from to w = elim (Result-cases (env.server.overview from to)) [
    | inl (x, e) ↦ rw (e, sync_chunk) (Quiet-refl w.db)
    | inr (ais, e) ↦ rw (e, sync_chunk) (take_chunk-Quiet ais w)
  ]

  module _ (cancelled : ℕ → Bool) (last : ℕ) where
    sync_chunks-Quiet :
        (rounds from : ℕ) (w : Walk)
        → Quiet w.db (sync_chunks env group cancelled last rounds from w).db
    unfolding sync_chunks
    sync_chunks-Quiet zero from w = Quiet-refl w.db
    sync_chunks-Quiet (suc rounds) from w =
        let step = sync_chunk env group from (chunk_end env group from last) w in
        let done = sync_chunk-Quiet from (chunk_end env group from last) w in
        elim (Bool-cases (ltb last from)) [
          | inl e ↦ rw (e, sync_chunks) (Quiet-refl w.db)
          | inr e ↦ elim (Bool-cases (cancelled from)) [
            | inl e' ↦ rw (e, e', sync_chunks) (Quiet-refl w.db)
            | inr e' ↦ elim (Bool-cases step.1) [
              | inl go ↦
                  rw (e, e', go, sync_chunks)
                    (Quiet-trans done
                      (sync_chunks-Quiet rounds (from + overview_chunk_size) step.0))
              | inr stop ↦ rw (e, e', stop, sync_chunks) done
            ]
          ]
        ]

  pub sync_group-Quiet :
      (cancelled : ℕ → Bool) (d : Db) → Quiet d (sync_group env group cancelled d).1.db
  unfolding sync_group pass
  sync_group-Quiet cancelled d = elim (Option-cases env.server.lease) [
    | inr (x, e) ↦ rw (e, sync_group) (Quiet-refl d)
    | inl e ↦ elim (Result-cases env.server.select) [
      | inl (x, e') ↦ rw (e, e', sync_group) (Quiet-refl d)
      | inr (gi, e') ↦ elim (Result-cases (get_sync_state d group)) [
        | inl (x, e'') ↦ rw (e, e', e'', sync_group) (same_db (next d) refl)
        | inr (n, e'') ↦
            rw (e, e', e'', sync_group)
              (Quiet-trans (same_db (next d) refl) (
                sync_chunks-Quiet cancelled gi.last _ (first_article env group n gi)
                  (begin env group (next d))))
      ]
    ]
  ]
    where
      same_db : (e : Db) → next d ≡ e → Quiet d e
      same_db e h =
          subst (Quiet d) h
            (record { invariant = λ k. k; remembers = λ x q. q; backfill = λ x. refl })

-- A recorded withdrawal outlasts a pass: when the store satisfies its invariant and the ring holds
-- a message-id, then behind `sync_group` the store satisfies its invariant, the ring still holds the
-- message-id, and no row with it is shown. This is so for every answer of the server, every outcome
-- of each statement and a cancellation at any chunk.
pub sync_group_keeps_withdrawn :
    (env : Env) (group : Bytes) (cancelled : ℕ → Bool) (d : Db) (id : Bytes)
    → IsKept d.spots d.ring
    → in_ring d.ring id ≡ true
    → let d' = (sync_group env group cancelled d).1.db in
      IsKept d'.spots d'.ring × (in_ring d'.ring id ≡ true) × (shown d'.spots id ≡ false)
sync_group_keeps_withdrawn env group cancelled d id kept listed =
    let q = sync_group-Quiet env group cancelled d in
    let d' = (sync_group env group cancelled d).1.db in
    (
      q.invariant kept,
      q.remembers id listed,
      Hidden-shown d'.ring d'.spots id (q.invariant kept).hidden (q.remembers id listed),
    )
