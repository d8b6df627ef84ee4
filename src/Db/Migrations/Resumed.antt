-- ===== src/Db/Migrations/Resumed.antt =====
-- migrations.go: each migration is applied once, in order, and wholly or not at all.
use spottr.Base.{
  Option-cases, ℕ, ◌≤◌, ◌<◌, ◌≡◌, refl, sym, ap, ◌∙◌, subst, ◌⊎◌, inl, inr, Bool, true, false, not,
  some, List, [], ◌∷◌, ◌++◌, arith, Bool-cases, if◌then◌else◌, leb, keep, All, All-of,
}
use spottr.Db.Tables.{head_fault, later_faults}
use spottr.Db.Schema.{schema, Migration, migrations}
use spottr.Db.Migrations.{Sqlite, Versioned, apply_migration, migrate_from, behind_schema, migrate}
use spottr.Db.Migrations.Effect.{
  some-inj, effect, effects, Applied, apply_migration-Applied, apply_migration-calm, still,
}

-- The migrations that a database of a version lacks.
abbrev pub pending : ℕ → List Migration → List Migration
pending current ms = keep (λ (m : Migration). not (leb m.version current)) ms

-- Versions rise.
abbrev pub Rising : ℕ → List Migration → Type 0
Rising v [] = Unit
Rising v (m ∷ ms) = (v < m.version) × Rising m.version ms

module _ {D : Type 0} (sq : Sqlite D) where
  -- Where a run that found the database at `v` has left it: at a version that is not lower, with
  -- the effects of the first of the pending migrations, in their order, and the others pending.
  abbrev pub Reached : List Migration → ℕ → D → Bool × Versioned D → Type 0
  Reached ms v base (ok, w) =
      (v ≤ w.version)
      × ((applied : List Migration) × (pending v ms ≡ applied ++ pending w.version ms)
          × (effects sq applied base ≡ some w.contents))
      × ((ok ≡ false) ⊎ (pending w.version ms ≡ []))

  -- The loop compares with the version that it read before the first migration.
  abbrev Alike : ℕ → ℕ → List Migration → Type 0
  Alike current v ms = All (λ (m : Migration). leb m.version current ≡ leb m.version v) ms

  Rising-Alike :
      (current v w : ℕ) (ms : List Migration)
      → current ≤ v
      → v ≤ w
      → Rising w ms
      → Alike current v ms
  Rising-Alike current v w [] h h' rising = tt
  Rising-Alike current v w (m ∷ ms) h h' (less, rising) = (
    ground (arith, h, h', less),
    Rising-Alike current v m.version ms h (omega (arith, h', less)) rising,
  )

  pending-all : (v u : ℕ) (ms : List Migration) → v ≤ u → Rising u ms → pending v ms ≡ ms
  pending-all v u [] h rising = refl
  pending-all v u (m ∷ ms) h (less, rising) =
      let newer : leb m.version v ≡ false = ground (arith, h, less) in
      rw (newer, pending-all v m.version ms (omega (arith, h, less)) rising) refl

  skip-Reached :
      (m : Migration) (ms : List Migration) (v : ℕ) (base : D) (r : Bool × Versioned D)
      → leb m.version v ≡ true
      → Reached ms v base r
      → Reached (m ∷ ms) v base r
  skip-Reached m ms v base (ok, w) old (le, split, end) =
      let still : leb m.version w.version ≡ true = ground (arith, old, le) in
      rw (old, still) (le, split, end)

  next-Reached :
      (m : Migration) (ms : List Migration) (v : ℕ) (base : D) (w : Versioned D)
      (r : Bool × Versioned D)
      → v < m.version
      → Rising m.version ms
      → effect sq m base ≡ some w.contents
      → w.version ≡ m.version
      → Reached ms w.version w.contents r
      → Reached (m ∷ ms) v base r
  next-Reached m ms v base w (ok, w') less rising one at (le, (applied, split, all), end) =
      let new : leb m.version v ≡ false = ground (arith, less) in
      let done : leb m.version w'.version ≡ true = ground (arith, at, le) in
      let rest : ms ≡ applied ++ pending w'.version ms =
        sym (pending-all w.version m.version ms (omega (arith, at)) rising) ∙ split in
      rw (new, done)
        (
          omega (arith, less, at, le),
          (
            m ∷ applied,
            ap (λ l. m ∷ l) (pending-all v m.version ms (omega (arith, less)) rising ∙ rest),
            rw (one, effects) all,
          ),
          end,
        )

  none-Reached :
      (ms : List Migration) (v w : Versioned D)
      → w.contents ≡ v.contents
      → w.version ≡ v.version
      → Reached ms v.version v.contents (false, w)
  none-Reached ms v w same at =
      (omega (arith, at), ([], ap (λ n. pending n ms) (sym at), ap some (sym same)), inl refl)

  -- What the loop does with its first migration.
  module _ (current : ℕ) (m : Migration) (ms : List Migration) (v : Versioned D) where
    from_skipped :
        leb m.version current ≡ true
        → migrate_from sq current ms v ≡ migrate_from sq current (m ∷ ms) v
    unfolding migrate_from
    from_skipped l = rw l refl

    from_failed :
        leb m.version current ≡ false
        → (apply_migration sq m v).0 ≡ false
        → (false, (apply_migration sq m v).1) ≡ migrate_from sq current (m ∷ ms) v
    unfolding migrate_from
    from_failed l e = rw (l, e) refl

    from_applied :
        leb m.version current ≡ false
        → (apply_migration sq m v).0 ≡ true
        → migrate_from sq current ms (apply_migration sq m v).1 ≡ migrate_from sq current (m ∷ ms) v
    unfolding migrate_from
    from_applied l e = rw (l, e) refl

  migrate_from-Reached :
      (current u : ℕ) (ms : List Migration) (v : Versioned D)
      → Rising u ms
      → Alike current v.version ms
      → Reached ms v.version v.contents (migrate_from sq current ms v)
  unfolding migrate_from
  migrate_from-Reached current u [] v rising alike = (omega arith, ([], refl, refl), inr refl)
  migrate_from-Reached current u (m ∷ ms) v (less, rising) (same, alike) =
      let r = apply_migration sq m v in
      let k = apply_migration-Applied sq m v in
      elim (Bool-cases (leb m.version current)) [
        | inl l ↦ subst (Reached (m ∷ ms) v.version v.contents) (from_skipped current m ms v l) (
            skip-Reached m ms v.version v.contents (migrate_from sq current ms v) (sym same ∙ l)
              (migrate_from-Reached current m.version ms v rising alike))
        | inr l ↦
            let newer : leb m.version v.version ≡ false = sym same ∙ l in
            elim (Bool-cases r.0) [
              | inr e ↦
                  let (kept, at) = subst (λ b. Applied sq m v (b, r.1)) e k in
                  subst (Reached (m ∷ ms) v.version v.contents) (from_failed current m ms v l e)
                    (none-Reached (m ∷ ms) v r.1 kept at)
              | inl e ↦
                  let (one, at) = subst (λ b. Applied sq m v (b, r.1)) e k in
                  let alike' =
                    Rising-Alike current r.1.version m.version ms (ground (arith, l, at))
                      (omega (arith, at)) rising in
                  subst (Reached (m ∷ ms) v.version v.contents) (from_applied current m ms v l e) (
                    next-Reached m ms v.version v.contents r.1 (migrate_from sq current ms r.1)
                      (ground (arith, newer)) rising one at
                      (migrate_from-Reached current m.version ms r.1 rising alike'))
            ]
      ]

  same-Alike : (v : ℕ) (ms : List Migration) → Alike v v ms
  same-Alike v ms = All-of _ ms (λ m. refl)

  migrations-Rising : Rising 0 migrations
  migrations-Rising = ground arith

  behind_read :
      (v : Versioned D) (d : D)
      → head_fault v.faults ≡ false
      → migrate_from sq v.version migrations
          (record v { contents = d; faults = later_faults v.faults })
        ≡ behind_schema sq v (true, d)
  behind_read v d f = rw f refl

  behind_schema-Reached :
      (v : Versioned D) (r : Bool × D) → Reached migrations v.version r.1 (behind_schema sq v r)
  behind_schema-Reached v (false, d) =
      none-Reached migrations (record v { contents = d }) (record v { contents = d }) refl refl
  behind_schema-Reached v (true, d) =
      let w : Versioned D = record v { contents = d; faults = later_faults v.faults } in
      elim (Bool-cases (head_fault v.faults)) [
        | inl f ↦ rw (f, behind_schema) (none-Reached migrations w w refl refl)
        | inr f ↦ subst (Reached migrations v.version d) (behind_read v d f) (
            migrate_from-Reached v.version 0 migrations w migrations-Rising
              (same-Alike v.version migrations))
      ]

  -- However the start ends: the database's version never falls, and the contents are those that
  -- the base schema leaves, with the effects of the first of the migrations that were pending,
  -- each applied once and wholly, in the order of the list, a migration that fails not at all. All
  -- the others are pending at the version recorded, so the next start goes on with them; where
  -- there is no error, none is left.
  pub migrate-Reached :
      (v : Versioned D)
      → Reached migrations v.version (sq.script schema v.contents).1 (migrate sq v)
  unfolding migrate
  migrate-Reached v = behind_schema-Reached v (sq.script schema v.contents)

  abbrev pub Succeeds : D → Bool × Versioned D → Type 0
  Succeeds d r = (r.0 ≡ true) × (r.1.contents ≡ d)

  migrate_from-calm :
      (current : ℕ) (ms : List Migration) (c d : D) (n : ℕ)
      → effects sq (pending current ms) c ≡ some d
      → Succeeds d (migrate_from sq current ms (still sq c n))
  unfolding migrate_from
  migrate_from-calm current [] c d n h = (refl, some-inj h)
  migrate_from-calm current (m ∷ ms) c d n h = elim (Bool-cases (leb m.version current)) [
    | inl l ↦
        let rest =
          subst
            (λ b.
              effects sq (if not b then m ∷ pending current ms else pending current ms) c ≡ some d)
            l h in
        subst (Succeeds d) (from_skipped current m ms (still sq c n) l)
          (migrate_from-calm current ms c d n rest)
    | inr l ↦
        let whole =
          subst
            (λ b.
              effects sq (if not b then m ∷ pending current ms else pending current ms) c ≡ some d)
            l h in
        elim (Option-cases (effect sq m c)) [
          | inl e ↦ absurd (cc (rw (e, effects) at whole))
          | inr (c', e) ↦
              let one = apply_migration-calm sq m c c' n e in
              let rest : effects sq (pending current ms) c' ≡ some d = rw (e, effects) at whole in
              subst (Succeeds d) (from_applied current m ms (still sq c n) l (ap (λ r. r.0) one)) (
                subst (λ r. Succeeds d (migrate_from sq current ms r)) (sym (ap (λ r. r.1) one))
                  (migrate_from-calm current ms c' d m.version rest))
        ]
  ]

  -- Where the base schema is accepted, no begin, statement or commit fails from outside, and each
  -- migration that is pending has an effect on what the ones before it leave, the start succeeds
  -- and the contents are those with all these effects.
  pub migrate-Succeeds :
      (c base d : D) (n : ℕ)
      → sq.script schema c ≡ (true, base)
      → effects sq (pending n migrations) base ≡ some d
      → Succeeds d (migrate sq (still sq c n))
  unfolding migrate
  migrate-Succeeds c base d n h h' =
      subst (λ r. Succeeds d (behind_schema sq (still sq c n) r)) (sym h)
        (migrate_from-calm n migrations base d n h')
