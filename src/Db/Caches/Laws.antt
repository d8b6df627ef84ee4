-- ===== src/Db/Caches/Laws.antt =====
-- db.go: what the reads of a spot and of a cached article find behind the writes.
use mathlib.Core.List.{List, map}
use mathlib.Core.Option.{some-injective}
use spottr.Base.{
  subst, ℕ, false, some, [], ◌∷◌, ◌++◌, ◌≡◌, refl, ap, sym, ◌∙◌, ◌==◌, Bool-cases, inl, inr, arith,
  ==_iff,
}
use spottr.Text.{eqb}
use spottr.Text.Laws.{eqb_refl}
use spottr.Db.Tables.{Spot, Row, Db, fails, next}
use spottr.Db.Caches.{Blob, Vault, step, row_with, enriched_row, without_blob, blob_with}

pub blob_with-append :
    (b : Blob) (blobs : List Blob)
    → blob_with b.message_id (without_blob b.message_id blobs ++ b ∷ []) ≡ some b
blob_with-append b [] = rw (eqb_refl b.message_id) refl
blob_with-append b (x ∷ blobs) = elim (Bool-cases (eqb x.message_id b.message_id)) [
  | inl e ↦ rw (e) (blob_with-append b blobs)
  | inr e ↦ rw (e, e) (blob_with-append b blobs)
]

-- A row that is found has the id, and is found again, completed, behind its enrichment.
pub row_with-enriched :
    (id : ℕ) (s : Spot) (rows : List Row) (r : Row)
    → row_with id rows ≡ some r
    → (r.id ≡ id) × (row_with id (map (enriched_row id s) rows) ≡ some (enriched_row id s r))
row_with-enriched id s [] r h = cc
row_with-enriched id s (x ∷ rows) r h = elim (Bool-cases (x.id == id)) [
  | inl e ↦
      let same : x ≡ r = some-injective x r (ground (arith, e, h)) in
      subst
        (λ y.
          (r.id ≡ id)
          × (row_with id (map (enriched_row id s) (x ∷ rows)) ≡ some (enriched_row id s y)))
        same (ap (λ y. y.id) (sym same) ∙ (==_iff x.id id).0 e, rw (e, e) refl)
  | inr e ↦ rw (e, e) (row_with-enriched id s rows r (ground (arith, e, h)))
]

pub next_calm : (d : Db) → d.faults ≡ [] → next d ≡ d
next_calm d h =
    let same : (next d).faults ≡ d.faults = rw h refl in ap (λ fs. record d { faults = fs }) same

-- Where no statement fails, reading changes nothing.
pub step_calm : (v : Vault) → v.db.faults ≡ [] → step v ≡ v
step_calm v h = ap (λ d. record v { db = d }) (next_calm v.db h)

pub fails_calm : (d : Db) → d.faults ≡ [] → (fails d ≡ false) × ((next d).faults ≡ [])
fails_calm d h = (rw h refl, rw h refl)
