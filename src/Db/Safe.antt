-- ===== src/Db/Safe.antt =====
-- internal/db: what every change of the spots made by synchronisation leaves true. It keeps the
-- store's invariant, forgets no withdrawal and moves no checkpoint.
use spottr.Base.{
  ℕ, zero, suc, ◌+◌, ◌≡◌, refl, sym, ap, ◌∙◌, Bool, true, Option, none, some, List, [], ◌∷◌, arith,
  Bool-cases, inl, inr, Error, take, drop, length,
}
use spottr.Text.{Bytes}
use spottr.Db.Tables.{Spot, Db, fails, next, in_ring}
use spottr.Db.Invariant.{IsKept}
use spottr.Db.Spots.{insert_row, insert_rows, commit, insert_spots}
use spottr.Db.Spots.Insert.{insert_spots-IsKept, insert_spots_outcome}
use spottr.Db.Withdrawals.{
  remember, mark, mark_rows, mark_moderated, delete_rows, delete_batches, delete_batch,
  delete_spots_by_message_id, set_spot_owner, count_rows,
}
use spottr.Db.Withdrawals.Hidden.{mark_moderated-IsKept, delete_spots-IsKept, set_spot_owner-IsKept}
use spottr.Db.Withdrawals.Outcome.{mark_moderated_outcome, delete_spots_outcome}

pub record Safe (d d' : Db) : Type 0 where
  pub invariant : IsKept d.spots d.ring → IsKept d'.spots d'.ring
  pub remembers : (x : Bytes) → in_ring d.ring x ≡ true → in_ring d'.ring x ≡ true
  pub checkpoints : d'.progress ≡ d.progress

pub Safe-refl : (d : Db) → Safe d d
Safe-refl d = record { invariant = λ k. k; remembers = λ x h. h; checkpoints = refl }

pub Safe-trans : {d e f : Db} → Safe d e → Safe e f → Safe d f
Safe-trans a b = record {
  invariant = λ k. b.invariant (a.invariant k);
  remembers = λ x h. b.remembers x (a.remembers x h);
  checkpoints = b.checkpoints ∙ a.checkpoints;
}

pub Safe-next : (d : Db) → Safe d (next d)
Safe-next d = record { invariant = λ k. k; remembers = λ x h. h; checkpoints = refl }

insert_row-progress : (d : Db) (s : Spot) → (insert_row d s).progress ≡ d.progress
unfolding insert_row
insert_row-progress d s = ground arith

insert_rows-progress :
    (ss : List Spot) (n : ℕ) (d : Db) → (insert_rows ss n d).2.progress ≡ d.progress
unfolding insert_rows
insert_rows-progress [] n d = refl
insert_rows-progress (s ∷ ss) n d = elim (Bool-cases (fails d)) [
  | inl e ↦ rw (e, insert_rows)
  | inr e ↦
      rw (e, insert_rows)
        (insert_rows-progress ss _ (next (insert_row d s)) ∙ insert_row-progress d s)
]

commit-progress :
    (d : Db) (r : ℕ × Option Error × Db)
    → r.2.progress ≡ d.progress
    → (commit d r).2.progress ≡ d.progress
unfolding commit
commit-progress d (n, some e, d') h = refl
commit-progress d (n, none, d') h = ground arith

insert_spots-progress : (d : Db) (ss : List Spot) → (insert_spots d ss).2.progress ≡ d.progress
unfolding insert_spots
insert_spots-progress d [] = refl
insert_spots-progress d (s ∷ ss) = ground (
  arith,
  commit-progress d (insert_rows (s ∷ ss) 0 (next (next d)))
      (insert_rows-progress (s ∷ ss) 0 (next (next d))),
)

insert_spots-ring : (d : Db) (ss : List Spot) → (insert_spots d ss).2.ring ≡ d.ring
insert_spots-ring d ss = elim (insert_spots_outcome d ss) [
  | inl (e, _, same) ↦ sym (ap (λ (x : Db). x.ring) same)
  | inr (_, stored) ↦ stored.same_ring
]

pub insert_spots-Safe : (d : Db) (ss : List Spot) → Safe d (insert_spots d ss).2
insert_spots-Safe d ss = record {
  invariant = insert_spots-IsKept d ss;
  remembers = λ x h. rw (insert_spots-ring d ss) h;
  checkpoints = insert_spots-progress d ss;
}

remember-progress : (d : Db) (id : Bytes) → (remember d id).progress ≡ d.progress
unfolding remember
remember-progress d id = ground arith

mark_rows-progress :
    (ids : List Bytes) (n : ℕ) (d : Db) → (mark_rows ids n d).2.progress ≡ d.progress
unfolding mark_rows mark
mark_rows-progress [] n d = refl
mark_rows-progress (id ∷ ids) n d =
    let d' = next (remember d id) in
    ground (
      arith,
      mark_rows-progress ids (n + count_rows id d'.spots) (next (mark d' id)),
      remember-progress d id,
    )

mark_moderated-progress :
    (d : Db) (ids : List Bytes) → (mark_moderated d ids).2.progress ≡ d.progress
unfolding mark_moderated
mark_moderated-progress d [] = refl
mark_moderated-progress d (id ∷ ids) =
    let d3 = next (next (next d)) in
    ground
      (arith, commit-progress d (mark_rows (id ∷ ids) 0 d3) (mark_rows-progress (id ∷ ids) 0 d3))

mark_moderated-ring :
    (d : Db) (ids : List Bytes) (x : Bytes)
    → in_ring d.ring x ≡ true
    → in_ring (mark_moderated d ids).2.ring x ≡ true
mark_moderated-ring d ids x h = elim (mark_moderated_outcome d ids) [
  | inl (e, _, same) ↦ rw (← ap (λ (y : Db). y.ring) same) h
  | inr (_, m) ↦ ground (arith, m.ring x)
]

pub mark_moderated-Safe : (d : Db) (ids : List Bytes) → Safe d (mark_moderated d ids).2
mark_moderated-Safe d ids = record {
  invariant = mark_moderated-IsKept d ids;
  remembers = mark_moderated-ring d ids;
  checkpoints = mark_moderated-progress d ids;
}

delete_batches-progress :
    (rounds : ℕ) (ids : List Bytes) (n : ℕ) (d : Db)
    → (delete_batches rounds ids n d).2.progress ≡ d.progress
unfolding delete_batches delete_rows
delete_batches-progress zero ids n d = refl
delete_batches-progress (suc rounds) [] n d = refl
delete_batches-progress (suc rounds) (id ∷ ids) n d = elim (Bool-cases (fails d)) [
  | inl e ↦ rw (e, delete_batches)
  | inr e ↦
      rw (e, delete_batches)
        (delete_batches-progress rounds (drop delete_batch (id ∷ ids)) _
          (next (delete_rows d (take delete_batch (id ∷ ids)))))
]

delete_spots-progress :
    (d : Db) (ids : List Bytes) → (delete_spots_by_message_id d ids).2.progress ≡ d.progress
unfolding delete_spots_by_message_id
delete_spots-progress d ids = delete_batches-progress (length ids) ids 0 d

pub delete_spots-Safe : (d : Db) (ids : List Bytes) → Safe d (delete_spots_by_message_id d ids).2
delete_spots-Safe d ids =
    let (done, left, gone, _, _, del, _) = delete_spots_outcome d ids in
    record {
      invariant = delete_spots-IsKept d ids;
      remembers = λ x h. rw del.ring h;
      checkpoints = delete_spots-progress d ids;
    }

set_spot_owner-ring : (d : Db) (id s : Bytes) (v : Bool) → (set_spot_owner d id s v).1.ring ≡ d.ring
unfolding set_spot_owner
set_spot_owner-ring d id s v = ground arith

set_spot_owner-progress :
    (d : Db) (id s : Bytes) (v : Bool) → (set_spot_owner d id s v).1.progress ≡ d.progress
unfolding set_spot_owner
set_spot_owner-progress d id s v = ground arith

pub set_spot_owner-Safe : (d : Db) (id s : Bytes) (v : Bool) → Safe d (set_spot_owner d id s v).1
set_spot_owner-Safe d id s v = record {
  invariant = set_spot_owner-IsKept d id s v;
  remembers = λ x h. rw (set_spot_owner-ring d id s v) h;
  checkpoints = set_spot_owner-progress d id s v;
}
