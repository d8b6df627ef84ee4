-- ===== src/Db/Migrations/Effect.antt =====
-- migrations.go: what one migration makes of the database.
use spottr.Base.{
  Option-cases, ℕ, ◌≡◌, refl, sym, ap, ◌∙◌, subst, ◌⊎◌, inl, inr, Bool, true, false, Option, none,
  some, List, [], ◌∷◌, Bool-cases, if◌then◌else◌,
}
use spottr.Text.{Bytes}
use spottr.Db.Tables.{head_fault, later_faults}
use spottr.Db.Schema.{Repair, redecode_eight_bit_text, Migration}
use spottr.Db.Migrations.{
  Sqlite, Texts, Tx, Versioned, later, fixes, update_all, redecode, run_stmts, run_fn, run_both,
  record_version, apply_migration, is_duplicate_column,
}

pub some-inj : {A : Type 0} {a b : A} → some a ≡ some b → a ≡ b
some-inj h = cc (h)

sum_cases : {A B : Type 0} (x : A ⊎ B) → ((a : A) × (x ≡ inl a)) ⊎ ((b : B) × (x ≡ inr b))
sum_cases (inl a) = inl (a, refl)
sum_cases (inr b) = inr (b, refl)

module _ {D : Type 0} (sq : Sqlite D) where
  -- What a migration makes of the contents where nothing fails from outside.
  abbrev updated : List Texts → D → Option D
  updated [] d = some d
  updated (r ∷ rs) d = elim (sq.update r d) [ none ↦ none | some d' ↦ updated rs d' ]

  abbrev stmts_effect : List Bytes → D → Option D
  stmts_effect [] d = some d
  stmts_effect (s ∷ stmts) d = elim (sq.exec s d) [
    | inr d' ↦ stmts_effect stmts d'
    | inl message ↦ if is_duplicate_column message then stmts_effect stmts d else none
  ]

  abbrev fn_effect : Option Repair → Option D → Option D
  fn_effect fn none = none
  fn_effect none (some d) = some d
  fn_effect (some redecode_eight_bit_text) (some d) = updated (fixes sq (sq.stored_texts d)) d

  abbrev pub effect : Migration → D → Option D
  effect m d = fn_effect m.fn (stmts_effect m.stmts d)

  abbrev pub effects : List Migration → D → Option D
  effects [] d = some d
  effects (m ∷ ms) d = elim (effect m d) [ none ↦ none | some d' ↦ effects ms d' ]

  -- A part of a transaction that succeeds has its effect.
  abbrev Agrees : Option D → Bool × Tx D → Type 0
  Agrees e (false, t) = Unit
  Agrees e (true, t) = e ≡ some t.contents

  -- Where nothing fails from outside, it has its effect.
  abbrev calm : D → Tx D
  calm c = record { contents = c; faults = [] }

  update_all-Agrees :
      (rs : List Texts) (t : Tx D) → Agrees (updated rs t.contents) (update_all sq rs t)
  unfolding update_all
  update_all-Agrees [] t = refl
  update_all-Agrees (r ∷ rs) t = elim (Bool-cases (head_fault t.faults)) [
    | inl f ↦ rw (f, update_all) tt
    | inr f ↦ elim (Option-cases (sq.update r t.contents)) [
      | inl h ↦ rw (f, h, update_all) tt
      | inr (d, h) ↦
          rw (f, h, update_all, updated)
            (update_all-Agrees rs (record (later sq t) { contents = d }))
    ]
  ]

  update_all-calm :
      (rs : List Texts) (c d : D)
      → updated rs c ≡ some d
      → update_all sq rs (calm c) ≡ (true, calm d)
  unfolding update_all
  update_all-calm [] c d h = ap (λ x. (true, calm x)) (some-inj h)
  update_all-calm (r ∷ rs) c d h = elim (Option-cases (sq.update r c)) [
    | inl e ↦ absurd (cc (rw (e, updated) at h))
    | inr (c', e) ↦ rw (e, update_all) (update_all-calm rs c' d (rw (e, updated) at h))
  ]

  run_stmts-Agrees :
      (stmts : List Bytes) (t : Tx D)
      → Agrees (stmts_effect stmts t.contents) (run_stmts sq stmts t)
  unfolding run_stmts
  run_stmts-Agrees [] t = refl
  run_stmts-Agrees (s ∷ stmts) t = elim (Bool-cases (head_fault t.faults)) [
    | inl f ↦ rw (f, run_stmts) tt
    | inr f ↦ elim (sum_cases (sq.exec s t.contents)) [
      | inr (d, h) ↦
          rw (f, h, run_stmts, stmts_effect)
            (run_stmts-Agrees stmts (record (later sq t) { contents = d }))
      | inl (message, h) ↦ elim (Bool-cases (is_duplicate_column message)) [
        | inl k ↦ rw (f, h, k, run_stmts, stmts_effect) (run_stmts-Agrees stmts (later sq t))
        | inr k ↦ rw (f, h, k, run_stmts) tt
      ]
    ]
  ]

  run_stmts-calm :
      (stmts : List Bytes) (c d : D)
      → stmts_effect stmts c ≡ some d
      → run_stmts sq stmts (calm c) ≡ (true, calm d)
  unfolding run_stmts
  run_stmts-calm [] c d h = ap (λ x. (true, calm x)) (some-inj h)
  run_stmts-calm (s ∷ stmts) c d h = elim (sum_cases (sq.exec s c)) [
    | inr (c', e) ↦ rw (e, run_stmts) (run_stmts-calm stmts c' d (rw (e, stmts_effect) at h))
    | inl (message, e) ↦ elim (Bool-cases (is_duplicate_column message)) [
      | inl k ↦ rw (e, k, run_stmts) (run_stmts-calm stmts c d (rw (e, stmts_effect, k) at h))
      | inr k ↦ absurd (cc (rw (e, stmts_effect, k) at h))
    ]
  ]

  run_fn-Agrees :
      (fn : Option Repair) (t : Tx D) → Agrees (fn_effect fn (some t.contents)) (run_fn sq fn t)
  unfolding redecode
  run_fn-Agrees none t = refl
  run_fn-Agrees (some redecode_eight_bit_text) t = elim (Bool-cases (head_fault t.faults)) [
    | inl f ↦ rw (f, redecode) tt
    | inr f ↦ elim (Bool-cases (head_fault (later sq t).faults)) [
      | inl f' ↦ rw (f, f', redecode) tt
      | inr f' ↦
          rw (f, f', redecode)
            (update_all-Agrees (fixes sq (sq.stored_texts t.contents)) (later sq (later sq t)))
    ]
  ]

  run_both-Agrees :
      (fn : Option Repair) (e : Option D) (r : Bool × Tx D)
      → Agrees e r
      → Agrees (fn_effect fn e) (run_both sq fn r)
  run_both-Agrees fn e (false, t) h = tt
  run_both-Agrees fn e (true, t) h =
      subst (λ e. Agrees (fn_effect fn e) (run_fn sq fn t)) (sym h) (run_fn-Agrees fn t)

  -- A migration is applied wholly, with its version, or not at all.
  abbrev pub Applied : Migration → Versioned D → Bool × Versioned D → Type 0
  Applied m v (true, w) = (effect m v.contents ≡ some w.contents) × (w.version ≡ m.version)
  Applied m v (false, w) = (w.contents ≡ v.contents) × (w.version ≡ v.version)

  record_version-Applied :
      (m : Migration) (v : Versioned D) (r : Bool × Tx D)
      → Agrees (effect m v.contents) r
      → Applied m v (record_version sq m v r)
  record_version-Applied m v (false, t) h = (refl, refl)
  record_version-Applied m v (true, t) h = elim (Bool-cases (head_fault t.faults)) [
    | inl f ↦ rw (f, record_version) (refl, refl)
    | inr f ↦ elim (Bool-cases (head_fault (later sq t).faults)) [
      | inl f' ↦ rw (f, f', record_version) (refl, refl)
      | inr f' ↦ rw (f, f', record_version) (h, refl)
    ]
  ]

  pub apply_migration-Applied :
      (m : Migration) (v : Versioned D) → Applied m v (apply_migration sq m v)
  unfolding apply_migration
  apply_migration-Applied m v = elim (Bool-cases (head_fault v.faults)) [
    | inl f ↦ rw (f, apply_migration) (refl, refl)
    | inr f ↦
        let t : Tx D = record { contents = v.contents; faults = later_faults v.faults } in
        rw (f, apply_migration)
          (record_version-Applied m v _
            (run_both-Agrees m.fn (stmts_effect m.stmts v.contents) _ (run_stmts-Agrees m.stmts t)))
  ]

  -- Where nothing fails from outside, a migration that has an effect is applied.
  abbrev pub still : D → ℕ → Versioned D
  still c n = record { contents = c; version = n; faults = [] }

  run_fn-calm :
      (fn : Option Repair) (c d : D)
      → fn_effect fn (some c) ≡ some d
      → run_fn sq fn (calm c) ≡ (true, calm d)
  unfolding redecode
  run_fn-calm none c d h = ap (λ x. (true, calm x)) (some-inj h)
  run_fn-calm (some redecode_eight_bit_text) c d h =
      update_all-calm (fixes sq (sq.stored_texts c)) c d h

  pub apply_migration-calm :
      (m : Migration) (c d : D) (n : ℕ)
      → effect m c ≡ some d
      → apply_migration sq m (still c n) ≡ (true, still d m.version)
  unfolding apply_migration
  apply_migration-calm m c d n h = elim (Option-cases (stmts_effect m.stmts c)) [
    | inl e ↦ absurd (cc (rw (e, fn_effect) at h))
    | inr (c', e) ↦
        let done = subst (λ o. fn_effect m.fn o ≡ some d) e h in
        ap (λ r. record_version sq m (still c n) (run_both sq m.fn r))
          (run_stmts-calm m.stmts c c' e)
        ∙ ap (record_version sq m (still c n)) (run_fn-calm m.fn c' d done)
  ]
