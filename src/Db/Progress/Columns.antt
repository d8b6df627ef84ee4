-- ===== src/Db/Progress/Columns.antt =====
-- db.go: each of the three checkpoints is written and read apart from the others.
use spottr.Base.{
  ℕ, ◌≡◌, refl, true, false, none, some, List, [], ◌∷◌, ◌++◌, arith, Bool-cases, Option-cases, inl,
  inr, if◌then◌else◌,
}
use spottr.Text.{Bytes, eqb}
use spottr.Text.Laws.{eqb_refl}
use spottr.Db.Tables.{Progress, Db, fails}
use spottr.Db.Progress.{
  find_progress, update_progress, upsert_progress, new_progress, set_sync_state, set_backfill_state,
  set_dispose_sweep_state,
}

-- A column of a group's row, 0 without a row.
abbrev pub column : (Progress → ℕ) → List Progress → Bytes → ℕ
column f ps g = elim (find_progress g ps) [ none ↦ 0 | some p ↦ f p ]

-- A change of rows that leaves the group names alone.
module _ (change : Progress → Progress)
    (same : (p : Progress) → (change p).group_name ≡ p.group_name) where
  find-update :
      (g x : Bytes) (ps : List Progress)
      → find_progress x (update_progress g change ps) ≡ elim (find_progress x ps) [
        | none ↦ none
        | some p ↦ some (if eqb p.group_name g then change p else p)
      ]
  unfolding find_progress update_progress
  find-update g x [] = refl
  find-update g x (p ∷ ps) = ground (arith, find-update g x ps, same p)

  -- A column that the change leaves alone reads as before, in every group.
  update-column_other :
      (f : Progress → ℕ)
      → ((p : Progress) → f (change p) ≡ f p)
      → (g x : Bytes) (ps : List Progress)
      → column f (update_progress g change ps) x ≡ column f ps x
  unfolding find_progress update_progress
  update-column_other f keep g x [] = refl
  update-column_other f keep g x (p ∷ ps) =
      ground (arith, update-column_other f keep g x ps, same p, keep p)

  append-column :
      (f : Progress → ℕ) (x : Bytes) (ps : List Progress) (p : Progress)
      → f p ≡ 0
      → column f (ps ++ p ∷ []) x ≡ column f ps x
  unfolding find_progress
  append-column f x [] p z = ground arith
  append-column f x (q ∷ ps) p z = ground (arith, append-column f x ps p z)

  upsert-column_other :
      (f : Progress → ℕ)
      → ((p : Progress) → f (change p) ≡ f p)
      → ((g : Bytes) → f (new_progress g) ≡ 0)
      → (g x : Bytes) (ps : List Progress)
      → column f (upsert_progress g change ps) x ≡ column f ps x
  unfolding upsert_progress
  upsert-column_other f keep zero_new g x ps = elim (Option-cases (find_progress g ps)) [
    | inl e ↦
        rw (e, upsert_progress)
          (append-column f x ps (change (new_progress g))
            (ground (arith, keep (new_progress g), zero_new g)))
    | inr (p, e) ↦ rw (e, upsert_progress) (update-column_other f keep g x ps)
  ]

-- The forward sync's checkpoint moves neither the backfill's nor the sweep's.
pub set_sync_state-others :
    (d : Db) (g x : Bytes) (n : ℕ)
    → (column (λ p. p.backfill_article_num) (set_sync_state d g n).1.progress x
        ≡ column (λ p. p.backfill_article_num) d.progress x)
      × (column (λ p. p.dispose_sweep_article_num) (set_sync_state d g n).1.progress x
          ≡ column (λ p. p.dispose_sweep_article_num) d.progress x)
unfolding set_sync_state
set_sync_state-others d g x n = elim (Bool-cases (fails d)) [
  | inl e ↦ rw (e, set_sync_state) (refl, refl)
  | inr e ↦
      let change : Progress → Progress = λ p. record p { last_article_num = n } in
      rw (e, set_sync_state)
        (
          upsert-column_other change (λ p. refl) (λ p. p.backfill_article_num) (λ p. refl)
              (λ y. refl) g x d.progress,
          upsert-column_other change (λ p. refl) (λ p. p.dispose_sweep_article_num) (λ p. refl)
              (λ y. refl) g x d.progress,
        )
]

abbrev pub SameTables : Db → Db → Type 0
SameTables d d' = (d'.spots ≡ d.spots) × (d'.ring ≡ d.ring)

pub set_sync_state-tables : (d : Db) (g : Bytes) (n : ℕ) → SameTables d (set_sync_state d g n).1
unfolding set_sync_state
set_sync_state-tables d g n = ground arith

pub set_backfill_state-tables :
    (d : Db) (g : Bytes) (n : ℕ) → SameTables d (set_backfill_state d g n).1
unfolding set_backfill_state
set_backfill_state-tables d g n = ground arith

pub set_dispose_sweep_state-tables :
    (d : Db) (g : Bytes) (n : ℕ) → SameTables d (set_dispose_sweep_state d g n).1
unfolding set_dispose_sweep_state
set_dispose_sweep_state-tables d g n = ground arith

find_progress-name :
    (g : Bytes) (ps : List Progress) (p : Progress)
    → find_progress g ps ≡ some p
    → eqb p.group_name g ≡ true
unfolding find_progress
find_progress-name g [] p h = cc
find_progress-name g (q ∷ ps) p h = elim (Bool-cases (eqb q.group_name g)) [
  | inl e ↦ let same : q ≡ p = ground arith in rw (← same) e
  | inr e ↦ find_progress-name g ps p (ground arith)
]

find-append :
    (g : Bytes) (ps : List Progress) (p : Progress)
    → find_progress g ps ≡ none
    → eqb p.group_name g ≡ true
    → find_progress g (ps ++ p ∷ []) ≡ some p
unfolding find_progress
find-append g [] p h e = rw (e, find_progress)
find-append g (q ∷ ps) p h e = ground (arith, find-append g ps p)

-- The column that `SetBackfillState` wrote reads as written.
pub set_backfill_state-column :
    (d : Db) (g : Bytes) (n : ℕ)
    → fails d ≡ false
    → column (λ p. p.backfill_article_num) (set_backfill_state d g n).1.progress g ≡ n
unfolding set_backfill_state upsert_progress
set_backfill_state-column d g n f =
    let change : Progress → Progress = λ p. record p { backfill_article_num = n } in
    elim (Option-cases (find_progress g d.progress)) [
      | inl e ↦ rw (
        f,
        e,
        set_backfill_state,
        upsert_progress,
        column,
        find-append g d.progress (change (new_progress g)) e (eqb_refl g),
      )
      | inr (p, e) ↦ rw (
        f,
        e,
        set_backfill_state,
        upsert_progress,
        column,
        find-update change (λ q. refl) g g d.progress,
        e,
        find_progress-name g d.progress p e,
      )
    ]
