-- ===== src/Db/Migrations.antt =====
-- internal/db/migrations.go: what happens to the database when the program starts. SQLite is the
-- parameter Sqlite, on contents of any type; besides, every begin, statement and commit takes its
-- outcome from the list `faults`, where `true` is a failure.
pub mod Effect
pub mod Decoded
pub mod Resumed
use spottr.Base.{
  ℕ, ◌-◌, Bool, true, false, not, ◌&&◌, Option, none, some, List, [], ◌∷◌, ◌++◌, ◌⊎◌, inl, inr, ltb,
  leb, if◌then◌else◌, get_or,
}
use spottr.Text.{Bytes, codes, contains, to_lower}
use spottr.Spotnet.HeaderText.{encode_rune}
use spottr.Db.Tables.{head_fault, later_faults}
use spottr.Db.Schema.{schema, Repair, redecode_eight_bit_text, Migration, migrations}

-- The texts of a row of `spots`, as bytes.
pub record Texts : Type 0 where
  pub id : ℕ
  pub title : Bytes
  pub tag : Bytes
  pub poster : Bytes

-- SQLite: a statement gives the text of an error or the contents behind it; a script stops at its
-- first error; the rows that redecodeEightBitText reads, and its UPDATE. Go's `utf8.Valid`.
pub record Sqlite (D : Type 0) : Type 0 where
  pub exec : Bytes → D → Bytes ⊎ D
  pub script : Bytes → D → Bool × D
  pub stored_texts : D → List Texts
  pub update : Texts → D → Option D
  pub utf8_valid : Bytes → Bool

-- A transaction: what it has made of the contents, and the outcomes to come.
pub record Tx (D : Type 0) : Type 0 where
  pub contents : D
  pub faults : List Bool

-- The database, with its `user_version`.
pub record Versioned (D : Type 0) : Type 0 where
  pub contents : D
  pub version : ℕ
  pub faults : List Bool

-- `high` of `toUTF8`
abbrev pub high : List ℕ
high =
    0x20AC ∷ 0x81 ∷ 0x201A ∷ 0x0192 ∷ 0x201E ∷ 0x2026 ∷ 0x2020 ∷ 0x2021 ∷ 0x02C6 ∷ 0x2030 ∷ 0x0160
    ∷ 0x2039 ∷ 0x0152 ∷ 0x8D ∷ 0x017D ∷ 0x8F ∷ 0x90 ∷ 0x2018 ∷ 0x2019 ∷ 0x201C ∷ 0x201D ∷ 0x2022
    ∷ 0x2013 ∷ 0x2014 ∷ 0x02DC ∷ 0x2122 ∷ 0x0161 ∷ 0x203A ∷ 0x0153 ∷ 0x9D ∷ 0x017E ∷ 0x0178 ∷ []

-- The loop of `toUTF8`.
unfoldable pub high_text : Bytes → Bytes
high_text [] = []
high_text (c ∷ s) =
    let rest = high_text s in
    if ltb c 0x80
    then c ∷ rest
    else if ltb c 0xA0
    then encode_rune (get_or high (c - 0x80) 0) ++ rest
    else encode_rune c ++ rest

-- `isDuplicateColumn`
abbrev pub is_duplicate_column : Bytes → Bool
is_duplicate_column message = contains (to_lower message) (codes "duplicate column name")

module _ {D : Type 0} (sq : Sqlite D) where
  -- `toUTF8`
  unfoldable pub to_utf8 : Bytes → Bytes
  unfolding high_text
  to_utf8 b = if sq.utf8_valid b then b else high_text b

  -- The rows that redecodeEightBitText rewrites, and what it makes of them.
  unfoldable pub fixes : List Texts → List Texts
  unfolding to_utf8
  fixes [] = []
  fixes (r ∷ rs) =
      let rest = fixes rs in
      if sq.utf8_valid r.title && (sq.utf8_valid r.tag && sq.utf8_valid r.poster)
      then rest
      else record r { title = to_utf8 r.title; tag = to_utf8 r.tag; poster = to_utf8 r.poster }
        ∷ rest

  abbrev pub later : Tx D → Tx D
  later t = record t { faults = later_faults t.faults }

  unfoldable pub update_all : List Texts → Tx D → Bool × Tx D
  update_all [] t = (true, t)
  update_all (r ∷ rs) t =
      if head_fault t.faults then (false, later t) else elim (sq.update r t.contents) [
        | none ↦ (false, later t)
        | some d ↦ update_all rs (record (later t) { contents = d })
      ]

  -- `redecodeEightBitText`: the query, the prepared statement, the updates.
  unfoldable pub redecode : Tx D → Bool × Tx D
  unfolding fixes update_all
  redecode t =
      if head_fault t.faults
      then (false, later t)
      else if head_fault (later t).faults
      then (false, later (later t))
      else update_all (fixes (sq.stored_texts t.contents)) (later (later t))

  -- The loop over the statements of a migration.
  unfoldable pub run_stmts : List Bytes → Tx D → Bool × Tx D
  run_stmts [] t = (true, t)
  run_stmts (s ∷ stmts) t =
      if head_fault t.faults then (false, later t) else elim (sq.exec s t.contents) [
        | inr d ↦ run_stmts stmts (record (later t) { contents = d })
        | inl message ↦
            if is_duplicate_column message then run_stmts stmts (later t) else (false, later t)
      ]

  abbrev pub run_fn : Option Repair → Tx D → Bool × Tx D
  run_fn none t = (true, t)
  run_fn (some redecode_eight_bit_text) t = redecode t

  abbrev pub run_both : Option Repair → Bool × Tx D → Bool × Tx D
  run_both fn (false, t) = (false, t)
  run_both fn (true, t) = run_fn fn t

  -- Setting `user_version`, and the commit.
  abbrev pub record_version : Migration → Versioned D → Bool × Tx D → Bool × Versioned D
  record_version m v (false, t) = (false, record v { faults = t.faults })
  record_version m v (true, t) =
      if head_fault t.faults
      then (false, record v { faults = (later t).faults })
      else if head_fault (later t).faults
      then (false, record v { faults = (later (later t)).faults })
      else (
        true,
        record { contents = t.contents; version = m.version; faults = (later (later t)).faults },
      )

  -- `applyMigration`
  unfoldable pub apply_migration : Migration → Versioned D → Bool × Versioned D
  unfolding run_stmts redecode
  apply_migration m v =
      if head_fault v.faults
      then (false, record v { faults = later_faults v.faults })
      else record_version m v (
          run_both m.fn
            (run_stmts m.stmts (record { contents = v.contents; faults = later_faults v.faults })))

  -- The loop of `migrate`.
  unfoldable pub migrate_from : ℕ → List Migration → Versioned D → Bool × Versioned D
  unfolding apply_migration
  migrate_from current [] v = (true, v)
  migrate_from current (m ∷ ms) v =
      if leb m.version current then migrate_from current ms v else elim (apply_migration m v).0 [
        | false ↦ (false, (apply_migration m v).1)
        | true ↦ migrate_from current ms (apply_migration m v).1
      ]

  abbrev pub behind_schema : Versioned D → Bool × D → Bool × Versioned D
  behind_schema v (false, d) = (false, record v { contents = d })
  behind_schema v (true, d) =
      if head_fault v.faults
      then (false, record v { contents = d; faults = later_faults v.faults })
      else migrate_from v.version migrations
          (record v { contents = d; faults = later_faults v.faults })

  -- `migrate`
  unfoldable pub migrate : Versioned D → Bool × Versioned D
  unfolding migrate_from
  migrate v = behind_schema v (sq.script schema v.contents)
