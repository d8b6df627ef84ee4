-- ===== src/Sync/Sweep/Safety.antt =====
-- disposesweep.go: what the sweep leaves true.
use spottr.Base.{
  ℕ, zero, suc, ◌+◌, ◌-◌, ◌≡◌, Bool, true, false, Option, none, some, Bool-cases, Option-cases,
  Result-cases, inl, inr, Error, ltb, leb, ◌==◌, if◌then◌else◌,
}
use spottr.Text.{Bytes}
use spottr.Db.Tables.{Db, next, in_ring}
use spottr.Db.Invariant.{IsKept, shown, Hidden-shown}
use spottr.Db.Progress.{
  set_dispose_sweep_state, get_sync_state, get_dispose_sweep_state, oldest_article,
}
use spottr.Db.Progress.Columns.{SameTables, set_dispose_sweep_state-tables}
use spottr.Sync.Forward.Safety.{SameTables-IsKept}
use spottr.Sync.Env.{Env}
use spottr.Sync.Moderation.{ModerationStats}
use spottr.Sync.Moderation.Safety.{apply_moderation-Safe}
use spottr.Sync.Backfill.Watermark.{Kept, Kept-refl, Kept-trans, Kept-next}
use spottr.Sync.Sweep.{
  commands_in, save_position, read_range, from_position, from_oldest, from_state, sweep_chunk,
  sweep_rounds, sweep_group,
}

module _ (env : Env) (group : Bytes) where
  save_position-Kept :
      (end to : ℕ) (d : Db) (r : ModerationStats × Option Error × Db)
      → Kept d r.2
      → Kept d (save_position env group end to r).2
  unfolding save_position
  save_position-Kept end to d (st, some x, d') k = k
  save_position-Kept end to d (st, none, d') k =
      let e = (set_dispose_sweep_state d' group to).1 in
      let same : SameTables d' e = set_dispose_sweep_state-tables d' group to in
      let kept : Kept d e =
        Kept-trans k
          (record { invariant = SameTables-IsKept d' e same; remembers = λ x h. rw (same.1) h }) in
      elim (Option-cases (set_dispose_sweep_state d' group to).0) [
        | inl f ↦ rw (f, save_position) kept
        | inr (x, f) ↦ rw (f, save_position) kept
      ]

  read_range-Kept : (end pos : ℕ) (d : Db) → Kept d (read_range env group end pos d).2
  unfolding read_range
  read_range-Kept end pos d =
      let to = if ltb end (pos + 5000) then end else pos + 5000 in
      elim (Option-cases env.server.lease) [
        | inr (x, e) ↦ rw (e, read_range) (Kept-refl d)
        | inl e ↦ elim (Result-cases env.server.select) [
          | inl (x, e') ↦ rw (e, e', read_range) (Kept-refl d)
          | inr (gi, e') ↦ elim (Result-cases (env.server.overview (pos + 1) to)) [
            | inl (x, e'') ↦ rw (e, e', e'', read_range) (Kept-refl d)
            | inr (ais, e'') ↦
                let s =
                  apply_moderation-Safe env.crypto env.server.head env.settings.moderation_mode
                    (commands_in env group ais) d in
                rw (e, e', e'', read_range)
                  (save_position-Kept end to d _
                    (record { invariant = s.invariant; remembers = s.remembers }))
          ]
        ]
      ]

  from_position-Kept : (end pos : ℕ) (d : Db) → Kept d (from_position env group end pos d).2
  unfolding from_position
  from_position-Kept end pos d = elim (Bool-cases (leb end pos)) [
    | inl e ↦ rw (e, from_position) (Kept-refl d)
    | inr e ↦ rw (e, from_position) (read_range-Kept end pos d)
  ]

  from_oldest-Kept : (end : ℕ) (d : Db) → Kept d (from_oldest env group end d).2
  unfolding from_oldest
  from_oldest-Kept end d = elim (Result-cases (oldest_article d)) [
    | inl (x, e) ↦ rw (e, from_oldest) (Kept-next d)
    | inr (oldest, e) ↦ elim (Bool-cases (oldest == 0)) [
      | inl e' ↦ rw (e, e', from_oldest) (Kept-next d)
      | inr e' ↦
          rw (e, e', from_oldest)
            (Kept-trans (Kept-next d) (from_position-Kept end (oldest - 1) (next d)))
    ]
  ]

  from_state-Kept : (end : ℕ) (d : Db) → Kept d (from_state env group end d).2
  unfolding from_state
  from_state-Kept end d = elim (Result-cases (get_dispose_sweep_state d group)) [
    | inl (x, e) ↦ rw (e, from_state) (Kept-next d)
    | inr (pos, e) ↦ elim (Bool-cases (pos == 0)) [
      | inl e' ↦ rw (e, e', from_state) (Kept-trans (Kept-next d) (from_oldest-Kept end (next d)))
      | inr e' ↦
          rw (e, e', from_state) (Kept-trans (Kept-next d) (from_position-Kept end pos (next d)))
    ]
  ]

  sweep_chunk-Kept : (d : Db) → Kept d (sweep_chunk env group d).2
  unfolding sweep_chunk
  sweep_chunk-Kept d = elim (Result-cases (get_sync_state d group)) [
    | inl (x, e) ↦ rw (e, sweep_chunk) (Kept-next d)
    | inr (end, e) ↦ elim (Bool-cases (end == 0)) [
      | inl e' ↦ rw (e, e', sweep_chunk) (Kept-next d)
      | inr e' ↦ rw (e, e', sweep_chunk) (Kept-trans (Kept-next d) (from_state-Kept end (next d)))
    ]
  ]

  sweep_rounds-Kept :
      (cancelled : ℕ → Bool) (rounds failures : ℕ) (total : ModerationStats) (d : Db)
      → Kept d (sweep_rounds env group cancelled rounds failures total d).1
  unfolding sweep_rounds
  sweep_rounds-Kept cancelled zero failures total d = Kept-refl d
  sweep_rounds-Kept cancelled (suc rounds) failures total d = elim (Bool-cases (cancelled rounds)) [
    | inl stop ↦ rw (stop, sweep_rounds) (Kept-refl d)
    | inr go ↦ elim (Result-cases (sweep_chunk env group d).0) [
      | inl (x, e) ↦ elim (Bool-cases (leb 10 (failures + 1))) [
        | inl e' ↦ rw (go, e, e', sweep_rounds) (sweep_chunk-Kept d)
        | inr e' ↦
            rw (go, e, e', sweep_rounds)
              (Kept-trans (sweep_chunk-Kept d)
                (sweep_rounds-Kept cancelled rounds (failures + 1) total _))
      ]
      | inr (true, e) ↦ rw (go, e, sweep_rounds) (sweep_chunk-Kept d)
      | inr (false, e) ↦
          rw (go, e, sweep_rounds)
            (Kept-trans (sweep_chunk-Kept d) (sweep_rounds-Kept cancelled rounds 0 _ _))
    ]
  ]

-- A recorded withdrawal outlasts the sweep, however many of its chunks fail and whenever it stops:
-- when the store satisfies its invariant and the ring holds a message-id, then behind any number of
-- rounds both are still so, and no row with it is shown.
pub sweep_group_keeps_withdrawn :
    (env : Env) (group : Bytes) (cancelled : ℕ → Bool) (rounds : ℕ) (d : Db) (id : Bytes)
    → IsKept d.spots d.ring
    → in_ring d.ring id ≡ true
    → let d' = (sweep_group env group cancelled rounds d).1 in
      IsKept d'.spots d'.ring × (in_ring d'.ring id ≡ true) × (shown d'.spots id ≡ false)
unfolding sweep_group
sweep_group_keeps_withdrawn env group cancelled rounds d id kept listed =
    let q = sweep_rounds-Kept env group cancelled rounds 0 _ d in
    let d' = (sweep_group env group cancelled rounds d).1 in
    (
      q.invariant kept,
      q.remembers id listed,
      Hidden-shown d'.ring d'.spots id (q.invariant kept).hidden (q.remembers id listed),
    )
