-- ===== src/Tests/Store.antt =====
-- internal/db at concrete inputs.
use spottr.Base.{
  ℕ, suc, inl, inr, true, false, if◌then◌else◌, [], ◌∷◌, refl, ◌≡◌, arith, ◌⊎◌, Error, none, some,
}
use spottr.Text.{codes, has_prefix, contains, to_lower}
use spottr.Db.Schema.{migrations}
use spottr.Db.Migrations.{Sqlite, Versioned, migrate}
use spottr.Db.Migrations.Effect.{still}
use spottr.Db.Migrations.Resumed.{Reached, Succeeds, migrate-Reached, migrate-Succeeds}
use spottr.Db.Tables.{rollback}
use spottr.Db.Kind.{kind_of}
use spottr.Db.KindSql.{kind_case, kind_case-kind_of}
use spottr.Db.Invariant.{IsKept}
use spottr.Db.Spots.{insert_spots}
use spottr.Db.Spots.Insert.{Stored, insert_spots_outcome}
use spottr.Db.Withdrawals.{mark_moderated}
use spottr.Db.Withdrawals.Outcome.{Marked, mark_moderated_outcome}
use spottr.Tests.Data.{store, parsed_spot}

insert_spots_outcome_example :
    let r = insert_spots store (parsed_spot ∷ []) in
    ((e : Error) × (r.1 ≡ some e) × (rollback store r.2 ≡ r.2))
    ⊎ (r.1 ≡ none) × Stored store (parsed_spot ∷ []) r.0 r.2
insert_spots_outcome_example = insert_spots_outcome store (parsed_spot ∷ [])

mark_moderated_outcome_example :
    let r = mark_moderated store (codes "<x@y>" ∷ []) in
    ((e : Error) × (r.1 ≡ some e) × (rollback store r.2 ≡ r.2))
    ⊎ (r.1 ≡ none) × Marked store (codes "<x@y>" ∷ []) r.2
mark_moderated_outcome_example = mark_moderated_outcome store (codes "<x@y>" ∷ [])

kind_case-kind_of_example :
    kind_case 0 (codes "a5|") [] (codes "d31|z2|") ≡ kind_of 0 (codes "a5|") [] (codes "d31|z2|")
kind_case-kind_of_example =
    kind_case-kind_of 0 (codes "a5|") [] (codes "d31|z2|") (codes "a5" ∷ [], refl, ground arith)
      ([], refl, tt) (codes "d31" ∷ codes "z2" ∷ [], refl, ground arith)

pub store-IsKept : IsKept store.spots store.ring
unfolding kind_of
store-IsKept = record { distinct = (refl, tt); hidden = ((λ h. refl), tt); kinds = (refl, tt) }

-- A database that counts the statements run on it; it has the columns of migrations 1, 2, 5 and 7.
abbrev counting : Sqlite ℕ
counting = record {
  exec = λ s d.
      if has_prefix s (codes "ALTER")
      then inl (codes "SQL logic error: duplicate column name: kind")
      else inr (suc d);
  script = λ s d. (true, d);
  stored_texts = λ d. [];
  update = λ t d. some d;
  utf8_valid = λ s. true;
}

abbrev opened : Versioned ℕ
opened = record { contents = 0; version = 6; faults = false ∷ false ∷ true ∷ [] }

migrate-Reached_example : Reached counting migrations 6 0 (migrate counting opened)
migrate-Reached_example = migrate-Reached counting opened

migrate-Succeeds_example : Succeeds counting 5 (migrate counting (still counting 0 6))
unfolding has_prefix contains to_lower
migrate-Succeeds_example = migrate-Succeeds counting 0 0 5 6 refl refl
