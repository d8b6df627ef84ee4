-- ===== src/Sync/Backfill/Watermark.antt =====
-- backfill.go: what a chunk of the backfill leaves true, how its watermark moves, and when the
-- backfill never begins.
use spottr.Base.{
  ◌⊎◌, ℕ, zero, suc, ◌-◌, ◌≤◌, ◌<◌, ◌≡◌, ◌∙◌, Bool, true, false, none, some, List, [], ◌∷◌, arith,
  Bool-cases, Option-cases, Result-cases, inl, inr, Result, ok, err, canceled, leb, ◌==◌,
}
use spottr.Text.{Bytes}
use spottr.Nntp.{GroupInfo}
use spottr.Db.Tables.{Spot, Db, next, in_ring, fails}
use spottr.Db.Invariant.{IsKept, shown, Hidden-shown}
use spottr.Db.Spots.{insert_spots}
use spottr.Db.Safe.{insert_spots-Safe}
use spottr.Db.Progress.{set_backfill_state, get_backfill_state, find_progress}
use spottr.Db.Progress.Columns.{column, set_backfill_state-tables, set_backfill_state-column}
use spottr.Sync.Env.{Env}
use spottr.Sync.Ingest.{collect}
use spottr.Sync.Forward.{sync_group}
use spottr.Sync.Forward.Safety.{sync_group-Quiet, SameTables-IsKept}
use spottr.Sync.Backfill.{
  store_batch, ingest, chunk_start, save, fetch, below_watermark, backfill_chunk, backfill_group,
}

-- What of a store outlasts a chunk of the backfill.
pub record Kept (d d' : Db) : Type 0 where
  pub invariant : IsKept d.spots d.ring → IsKept d'.spots d'.ring
  pub remembers : (x : Bytes) → in_ring d.ring x ≡ true → in_ring d'.ring x ≡ true

pub Kept-refl : (d : Db) → Kept d d
Kept-refl d = record { invariant = λ k. k; remembers = λ x h. h }

pub Kept-next : (d : Db) → Kept d (next d)
Kept-next d = record { invariant = λ k. k; remembers = λ x h. h }

pub Kept-trans : {d e f : Db} → Kept d e → Kept e f → Kept d f
Kept-trans a b = record {
  invariant = λ k. b.invariant (a.invariant k);
  remembers = λ x h. b.remembers x (a.remembers x h);
}

store_batch-Kept : (ss : List Spot) (d : Db) → Kept d (store_batch ss d).1
unfolding store_batch
store_batch-Kept [] d = Kept-refl d
store_batch-Kept (s ∷ ss) d =
    let safe = insert_spots-Safe d (s ∷ ss) in
    let kept : Kept d (insert_spots d (s ∷ ss)).2 = record {
      invariant = safe.invariant;
      remembers = safe.remembers;
    } in
    elim (Option-cases (insert_spots d (s ∷ ss)).1) [
      | inl e ↦ rw (e, store_batch) kept
      | inr (x, e) ↦ rw (e, store_batch) kept
    ]

module _ (env : Env) (group : Bytes) where
  save-Kept : (first from : ℕ) (d : Db) → Kept d (save env group first from d).1
  unfolding save
  save-Kept first from d =
      let d' = (set_backfill_state d group from).1 in
      let same = set_backfill_state-tables d group from in
      let kept : Kept d d' = record {
        invariant = SameTables-IsKept d d' same;
        remembers = λ x h. rw (same.1) h;
      } in
      elim (Option-cases (set_backfill_state d group from).0) [
        | inl e ↦ rw (e, save) kept
        | inr (x, e) ↦ rw (e, save) kept
      ]

  fetch-Kept : (gi : GroupInfo) (oldest : ℕ) (d : Db) → Kept d (fetch env group gi oldest d).1
  unfolding fetch ingest
  fetch-Kept gi oldest d =
      let from = chunk_start env group gi.first (oldest - 1) in
      elim (Result-cases (env.server.overview from (oldest - 1))) [
        | inl (x, e) ↦ rw (e, fetch) (Kept-refl d)
        | inr (ais, e) ↦
            rw (e, fetch)
              (Kept-trans (store_batch-Kept (collect env ais).spots d) (save-Kept gi.first from _))
      ]

  below_watermark-Kept :
      (gi : GroupInfo) (d : Db) (r : Result ℕ) → Kept d (below_watermark env group gi d r).1
  unfolding below_watermark
  below_watermark-Kept gi d (err e) = Kept-next d
  below_watermark-Kept gi d (ok oldest) = elim (Bool-cases (oldest == 0)) [
    | inl e ↦ rw (e, below_watermark) (Kept-next d)
    | inr e ↦ elim (Bool-cases (leb oldest gi.first)) [
      | inl e' ↦ rw (e, e', below_watermark) (Kept-next d)
      | inr e' ↦
          rw (e, e', below_watermark) (Kept-trans (Kept-next d) (fetch-Kept gi oldest (next d)))
    ]
  ]

  backfill_chunk-Kept : (d : Db) → Kept d (backfill_chunk env group d).1
  unfolding backfill_chunk
  backfill_chunk-Kept d = elim (Option-cases env.server.lease) [
    | inr (x, e) ↦ rw (e, backfill_chunk) (Kept-refl d)
    | inl e ↦ elim (Result-cases env.server.select) [
      | inl (x, e') ↦ rw (e, e', backfill_chunk) (Kept-refl d)
      | inr (gi, e') ↦
          rw (e, e', backfill_chunk) (below_watermark-Kept gi d (get_backfill_state d group))
    ]
  ]

module _ (envs : ℕ → Env) (group : Bytes) where
  backfill_group-Kept :
      (cancelled : ℕ → Bool) (rounds : ℕ) (d : Db)
      → Kept d (backfill_group envs group cancelled rounds d).1
  unfolding backfill_group
  backfill_group-Kept cancelled zero d = Kept-refl d
  backfill_group-Kept cancelled (suc rounds) d = elim (Bool-cases (cancelled rounds)) [
    | inl stop ↦ rw (stop, backfill_group) (Kept-refl d)
    | inr go ↦ elim (Result-cases (backfill_chunk (envs rounds) group d).0) [
      | inl (x, e) ↦ rw (go, e, backfill_group) (backfill_chunk-Kept (envs rounds) group d)
      | inr (true, e) ↦ rw (go, e, backfill_group) (backfill_chunk-Kept (envs rounds) group d)
      | inr (false, e) ↦
          rw (go, e, backfill_group)
            (Kept-trans (backfill_chunk-Kept (envs rounds) group d)
              (backfill_group-Kept cancelled rounds _))
    ]
  ]

-- A recorded withdrawal outlasts the backfill, which is what keeps a withdrawn spot from coming
-- back out of the group's history: when the store satisfies its invariant and the ring holds a
-- message-id, then behind any number of chunks both are still so, and no row with it is shown.
pub backfill_keeps_withdrawn :
    (envs : ℕ → Env) (group : Bytes) (cancelled : ℕ → Bool) (rounds : ℕ) (d : Db) (id : Bytes)
    → IsKept d.spots d.ring
    → in_ring d.ring id ≡ true
    → let d' = (backfill_group envs group cancelled rounds d).1 in
      IsKept d'.spots d'.ring × (in_ring d'.ring id ≡ true) × (shown d'.spots id ≡ false)
backfill_keeps_withdrawn envs group cancelled rounds d id kept listed =
    let q = backfill_group-Kept envs group cancelled rounds d in
    let d' = (backfill_group envs group cancelled rounds d).1 in
    (
      q.invariant kept,
      q.remembers id listed,
      Hidden-shown d'.ring d'.spots id (q.invariant kept).hidden (q.remembers id listed),
    )

-- The chunk below a watermark above the group's first article is not empty, does not reach below
-- the group's first article, and begins at that article or is 5000 articles long.
pub chunk_start_lem :
    (env : Env) (group : Bytes) (first oldest : ℕ)
    → first < oldest
    → let from = chunk_start env group first (oldest - 1) in
      (first ≤ from)
      × (from < oldest)
      × ((from ≡ first) ⊎ (oldest - from ≡ 5000))
      × (oldest - from ≤ 5000)
chunk_start_lem env group first oldest h = (ground arith, ground arith, ground arith, ground arith)

-- The backfill of a group has nothing to start from: when the group's watermark is 0 before a pass
-- of the forward sync, as it is in a new database, it is 0 behind the pass, and the next
-- chunk of the backfill, on a connection that works and with a query that succeeds, reports that
-- the history is complete and changes no table.
pub backfill_never_begins :
    (env env' : Env) (group : Bytes) (cancelled : ℕ → Bool) (d : Db) (gi : GroupInfo)
    → column (λ p. p.backfill_article_num) d.progress group ≡ 0
    → env'.server.lease ≡ none
    → env'.server.select ≡ ok gi
    → fails (sync_group env group cancelled d).1.db ≡ false
    → let d' = (sync_group env group cancelled d).1.db in
      (column (λ p. p.backfill_article_num) d'.progress group ≡ 0)
      × (backfill_chunk env' group d' ≡ (ok true, next d'))
unfolding backfill_chunk below_watermark get_backfill_state
backfill_never_begins env env' group cancelled d gi z l s f =
    let d' = (sync_group env group cancelled d).1.db in
    let still = (sync_group-Quiet env group cancelled d).backfill group ∙ z in
    (
      still,
      elim (Option-cases (find_progress group d'.progress)) [
        | inl e ↦ ground arith
        | inr (p, e) ↦ ground arith
      ],
    )

module _ (env : Env) (group : Bytes) where
  abbrev watermark : Db → ℕ
  watermark d = column (λ p. p.backfill_article_num) d.progress group

  save-continues :
      (first from : ℕ) (d : Db)
      → (save env group first from d).0 ≡ ok false
      → (first < from) × (watermark (save env group first from d).1 ≡ from)
  unfolding save set_backfill_state
  save-continues first from d h = elim (Bool-cases (fails d)) [
    | inl e ↦ absurd (ground arith)
    | inr e ↦ let stored = set_backfill_state-column d group from e in (ground arith, ground arith)
  ]

  fetch-continues :
      (gi : GroupInfo) (oldest : ℕ) (d : Db)
      → gi.first < oldest
      → (fetch env group gi oldest d).0 ≡ ok false
      → watermark (fetch env group gi oldest d).1 < oldest
  unfolding fetch
  fetch-continues gi oldest d b h =
      let from = chunk_start env group gi.first (oldest - 1) in
      elim (Result-cases (env.server.overview from (oldest - 1))) [
        | inl (x, e) ↦ absurd (ground arith)
        | inr (ais, e) ↦
            let saved = save-continues gi.first from (ingest env group ais d).2 (ground arith) in
            let lower = chunk_start_lem env group gi.first oldest b in rw (e, fetch) (ground arith)
      ]

  below_watermark-continues :
      (gi : GroupInfo) (d : Db) (oldest : ℕ)
      → (below_watermark env group gi d (ok oldest)).0 ≡ ok false
      → watermark (below_watermark env group gi d (ok oldest)).1 < oldest
  unfolding below_watermark
  below_watermark-continues gi d oldest h = elim (Bool-cases (oldest == 0)) [
    | inl e ↦ absurd (ground arith)
    | inr e ↦ elim (Bool-cases (leb oldest gi.first)) [
      | inl e' ↦ absurd (ground arith)
      | inr e' ↦
          rw (e, e', below_watermark)
            (fetch-continues gi oldest (next d) (ground arith) (ground arith))
    ]
  ]

  get_backfill_state-ok : (d : Db) (n : ℕ) → get_backfill_state d group ≡ ok n → watermark d ≡ n
  unfolding get_backfill_state
  get_backfill_state-ok d n h = elim (Option-cases (find_progress group d.progress)) [
    | inl e ↦ ground arith
    | inr (p, e) ↦ ground arith
  ]

  backfill_chunk-continues :
      (d : Db)
      → (backfill_chunk env group d).0 ≡ ok false
      → watermark (backfill_chunk env group d).1 < watermark d
  unfolding backfill_chunk below_watermark
  backfill_chunk-continues d h = elim (Option-cases env.server.lease) [
    | inr (x, e) ↦ absurd (ground arith)
    | inl e ↦ elim (Result-cases env.server.select) [
      | inl (x, e') ↦ absurd (ground arith)
      | inr (gi, e') ↦ elim (Result-cases (get_backfill_state d group)) [
        | inl (x, e'') ↦ absurd (ground arith)
        | inr (n, e'') ↦
            rw (e, e', e'', backfill_chunk, get_backfill_state-ok d n e'')
              (below_watermark-continues gi d n (ground arith))
      ]
    ]
  ]

-- The backfill of a group ends: one round more than its watermark is enough for the loop to return,
-- either at an error, cancellation included, or with the history complete, whatever the server
-- answers to each chunk anew and whichever statement fails.
pub backfill_group_ends :
    (envs : ℕ → Env) (group : Bytes) (cancelled : ℕ → Bool) (rounds : ℕ) (d : Db)
    → column (λ p. p.backfill_article_num) d.progress group < rounds
    → (r : Result (Unit {0})) × ((backfill_group envs group cancelled rounds d).0 ≡ some r)
unfolding backfill_group
backfill_group_ends envs group cancelled zero d h = absurd (omega arith)
backfill_group_ends envs group cancelled (suc rounds) d h = elim (Bool-cases (cancelled rounds)) [
  | inl stop ↦ (err canceled, rw (stop, backfill_group))
  | inr go ↦ elim (Result-cases (backfill_chunk (envs rounds) group d).0) [
    | inl (x, e) ↦ (err x, rw (go, e, backfill_group))
    | inr (true, e) ↦ (ok tt, rw (go, e, backfill_group))
    | inr (false, e) ↦
        let lower = backfill_chunk-continues (envs rounds) group d e in
        let (r, same) =
          backfill_group_ends envs group cancelled rounds (backfill_chunk (envs rounds) group d).1
            (ground arith) in
        (r, rw (go, e, backfill_group) same)
  ]
]
