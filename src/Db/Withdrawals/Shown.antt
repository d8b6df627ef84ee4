-- ===== src/Db/Withdrawals/Shown.antt =====
-- maintenance.go: which spots an operation hides from users, and what it leaves of the others.
use spottr.Base.{
  ◌≡◌, refl, sym, ap, ◌∙◌, Bool, false, none, some, List, [], ◌∷◌, arith, map, keep, if◌then◌else◌,
  Bool-cases, inl, inr,
}
use spottr.Text.{Bytes, eqb}
use spottr.Text.Laws.{eqb_iff, eqb_comm}
use spottr.Db.Tables.{Row, Db, fails, has_id}
use spottr.Db.Invariant.{shown}
use spottr.Db.Withdrawals.{
  mark_moderated, delete_spots_by_message_id, is_listed, own_row, set_spot_owner, find_target,
}
use spottr.Db.Withdrawals.Outcome.{
  marked, unlisted, is_listed-append, mark_moderated_outcome, delete_spots_outcome,
}

shown-own :
    (id o x : Bytes) (v : Bool) (rows : List Row)
    → shown (map (own_row id o v) rows) x ≡ shown rows x
shown-own id o x v [] = refl
shown-own id o x v (r ∷ rows) = ground (arith, shown-own id o x v rows)

pub set_spot_owner-shown :
    (d : Db) (id o x : Bytes) (v : Bool)
    → shown (set_spot_owner d id o v).1.spots x ≡ shown d.spots x
unfolding set_spot_owner
set_spot_owner-shown d id o x v = elim (Bool-cases (fails d)) [
  | inl e ↦ rw (e, set_spot_owner)
  | inr e ↦ rw (e, set_spot_owner) (shown-own id o x v d.spots)
]

-- Only the owner of the named spot's row changes.
pub find_target-own :
    (id o x : Bytes) (v : Bool) (rows : List Row)
    → find_target x (map (own_row id o v) rows) ≡ elim (find_target x rows) [
      | none ↦ none
      | some t ↦ some (if eqb id x then record t { owner = o } else t)
    ]
unfolding find_target
find_target-own id o x v [] = refl
find_target-own id o x v (r ∷ rows) = elim (Bool-cases (has_id x r)) [
  | inl e ↦
      let same : r.message_id ≡ x = (eqb_iff r.message_id x).0 e in
      let test : eqb r.message_id id ≡ eqb id x = eqb_comm r.message_id id ∙ ap (eqb id) same in
      ground (arith, e, test)
  | inr e ↦ ground (arith, e, find_target-own id o x v rows)
]

shown-marked :
    (ids : List Bytes) (x : Bytes) (rows : List Row)
    → is_listed ids x ≡ false
    → shown (map (marked ids) rows) x ≡ shown rows x
shown-marked ids x [] h = refl
shown-marked ids x (r ∷ rows) h = elim (Bool-cases (has_id x r)) [
  | inl e ↦
      let same : r.message_id ≡ x = (eqb_iff r.message_id x).0 e in
      let off : is_listed ids r.message_id ≡ false = rw same h in
      ground (arith, shown-marked ids x rows h, off)
  | inr e ↦ ground (arith, shown-marked ids x rows h, e)
]

pub mark_moderated-shown :
    (d : Db) (ids : List Bytes) (x : Bytes)
    → is_listed ids x ≡ false
    → shown (mark_moderated d ids).2.spots x ≡ shown d.spots x
mark_moderated-shown d ids x h = elim (mark_moderated_outcome d ids) [
  | inl (e, _, same) ↦ ap (λ (y : Db). shown y.spots x) (sym same)
  | inr (_, m) ↦ ap (λ rows. shown rows x) m.rows ∙ shown-marked ids x d.spots h
]

shown-unlisted :
    (ids : List Bytes) (x : Bytes) (rows : List Row)
    → is_listed ids x ≡ false
    → shown (keep (unlisted ids) rows) x ≡ shown rows x
shown-unlisted ids x [] h = refl
shown-unlisted ids x (r ∷ rows) h = elim (Bool-cases (has_id x r)) [
  | inl e ↦
      let same : r.message_id ≡ x = (eqb_iff r.message_id x).0 e in
      let off : is_listed ids r.message_id ≡ false = rw same h in
      ground (arith, shown-unlisted ids x rows h, off)
  | inr e ↦ ground (arith, shown-unlisted ids x rows h, e)
]

pub delete_spots-shown :
    (d : Db) (ids : List Bytes) (x : Bytes)
    → is_listed ids x ≡ false
    → shown (delete_spots_by_message_id d ids).2.spots x ≡ shown d.spots x
delete_spots-shown d ids x h =
    let (done, left, gone, split, _, del, _) = delete_spots_outcome d ids in
    let off : is_listed done x ≡ false =
      ground (arith, is_listed-append done left x, ap (λ (l : List Bytes). is_listed l x) split) in
    ap (λ rows. shown rows x) del.rows ∙ shown-unlisted done x d.spots off
