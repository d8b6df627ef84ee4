-- ===== src/Db/Withdrawals/Hidden.antt =====
-- maintenance.go: each operation keeps the withdrawn spots hidden.
use spottr.Base.{
  ℕ, suc, zero, ◌+◌, ◌≡◌, refl, Bool, not, ◌||◌, Option, none, some, List, [], ◌∷◌, arith, All-mono,
  keep, ltb, length, take, drop, Bool-cases, inl, inr, Error,
}
use spottr.Text.{Bytes, eqb}
use spottr.Text.Laws.{eqb_iff}
use spottr.Db.Tables.{Row, Withdrawn, Db, fails, next, has_id, in_ring}
use spottr.Db.Invariant.{
  IsKept, IsKept-keep, Hidden, HasKind, Distinct-map, All-map, in_ring-append, in_ring-keep,
}
use spottr.Db.Spots.{commit}
use spottr.Db.Spots.Insert.{commit-IsKept}
use spottr.Db.Withdrawals.{
  remember, mark, mark_row, mark_rows, mark_moderated, delete_rows, delete_batches, delete_batch,
  delete_spots_by_message_id, own_row, set_spot_owner, prune_moderated_ring, count_rows,
}

pub in_ring-remember :
    (d : Db) (id x : Bytes) → in_ring (remember d id).ring x ≡ (in_ring d.ring x || eqb id x)
unfolding remember
in_ring-remember d id x = elim (Bool-cases (in_ring d.ring id)) [
  | inl e ↦ rw (e, remember) (ground (arith, eqb_iff id x))
  | inr e ↦
      rw (e, remember)
        (ground (arith, in_ring-append d.ring (record { message_id = id; stamp = d.clock } ∷ []) x))
]

pub spots-remember : (d : Db) (id : Bytes) → (remember d id).spots ≡ d.spots
unfolding remember
spots-remember d id = ground arith

mark_row-Hidden :
    (ring ring' : List Withdrawn) (id : Bytes)
    → ((x : Bytes) → in_ring ring' x ≡ (in_ring ring x || eqb id x))
    → (r : Row) → Hidden ring r
    → Hidden ring' (mark_row id r)
mark_row-Hidden ring ring' id same r h = elim (Bool-cases (has_id id r)) [
  | inl e ↦ rw e (λ _. refl)
  | inr e ↦
      rw e
        (λ q. ground (arith, same r.message_id, eqb_iff id r.message_id, eqb_iff r.message_id id))
]

mark_row-HasKind : (id : Bytes) (r : Row) → HasKind r → HasKind (mark_row id r)
mark_row-HasKind id r h = elim (Bool-cases (has_id id r)) [ inl e ↦ rw e h | inr e ↦ rw e h ]

mark_row-message_id : (id : Bytes) (r : Row) → (mark_row id r).message_id ≡ r.message_id
mark_row-message_id id r = ground arith

-- The two statements for one id, together.
mark-remember-IsKept :
    (d : Db) (id : Bytes)
    → IsKept d.spots d.ring
    → IsKept (mark (next (remember d id)) id).spots (mark (next (remember d id)) id).ring
unfolding mark
mark-remember-IsKept d id k = rw (spots-remember d id) (record {
  distinct = Distinct-map (mark_row id) (mark_row-message_id id) d.spots k.distinct;
  hidden =
      All-map (Hidden d.ring) (Hidden (remember d id).ring) (mark_row id)
        (mark_row-Hidden d.ring (remember d id).ring id (in_ring-remember d id)) d.spots k.hidden;
  kinds = All-map HasKind HasKind (mark_row id) (mark_row-HasKind id) d.spots k.kinds;
})

-- Where the loop of `MarkModerated` ends without an error.
mark_rows-IsKept :
    (ids : List Bytes) (n : ℕ) (d : Db)
    → IsKept d.spots d.ring
    → (mark_rows ids n d).1 ≡ none
    → IsKept (mark_rows ids n d).2.spots (mark_rows ids n d).2.ring
unfolding mark_rows
mark_rows-IsKept [] n d k h = k
mark_rows-IsKept (id ∷ ids) n d k h = elim (Bool-cases (fails d)) [
  | inl e ↦ absurd (ground arith)
  | inr e ↦ elim (Bool-cases (fails (next (remember d id)))) [
    | inl e' ↦ absurd (ground arith)
    | inr e' ↦
        let d' = next (remember d id) in
        let m = n + count_rows id d'.spots in
        let h' : (mark_rows ids m (next (mark d' id))).1 ≡ none = ground arith in
        rw (e, e', mark_rows)
          (mark_rows-IsKept ids m (next (mark d' id)) (mark-remember-IsKept d id k) h')
  ]
]

commit-IsKept_good :
    (d : Db) (r : ℕ × Option Error × Db)
    → IsKept d.spots d.ring
    → (r.1 ≡ none → IsKept r.2.spots r.2.ring)
    → IsKept (commit d r).2.spots (commit d r).2.ring
unfolding commit
commit-IsKept_good d (n, some e, d') k f = k
commit-IsKept_good d (n, none, d') k f = commit-IsKept d (n, none, d') k (f refl)

pub mark_moderated-IsKept :
    (d : Db) (ids : List Bytes)
    → IsKept d.spots d.ring
    → IsKept (mark_moderated d ids).2.spots (mark_moderated d ids).2.ring
unfolding mark_moderated
mark_moderated-IsKept d [] k = k
mark_moderated-IsKept d (id ∷ ids) k =
    let d3 = next (next (next d)) in
    let inner =
      commit-IsKept_good d (mark_rows (id ∷ ids) 0 d3) k (mark_rows-IsKept (id ∷ ids) 0 d3 k) in
    elim (Bool-cases (fails d)) [
      | inl e ↦ rw (e, mark_moderated) k
      | inr e ↦ elim (Bool-cases (fails (next d))) [
        | inl e' ↦ rw (e, e', mark_moderated) k
        | inr e' ↦ elim (Bool-cases (fails (next (next d)))) [
          | inl e'' ↦ rw (e, e', e'', mark_moderated) k
          | inr e'' ↦ rw (e, e', e'', mark_moderated) inner
        ]
      ]
    ]

delete_batches-IsKept :
    (rounds : ℕ) (ids : List Bytes) (n : ℕ) (d : Db)
    → IsKept d.spots d.ring
    → IsKept (delete_batches rounds ids n d).2.spots (delete_batches rounds ids n d).2.ring
unfolding delete_batches delete_rows
delete_batches-IsKept zero ids n d k = k
delete_batches-IsKept (suc rounds) [] n d k = k
delete_batches-IsKept (suc rounds) (id ∷ ids) n d k = elim (Bool-cases (fails d)) [
  | inl e ↦ rw (e, delete_batches) k
  | inr e ↦
      let chunk = take delete_batch (id ∷ ids) in
      rw (e, delete_batches)
        (delete_batches-IsKept rounds (drop delete_batch (id ∷ ids)) _ (next (delete_rows d chunk))
          (IsKept-keep _ d.spots d.ring k))
]

pub delete_spots-IsKept :
    (d : Db) (ids : List Bytes)
    → IsKept d.spots d.ring
    → IsKept (delete_spots_by_message_id d ids).2.spots (delete_spots_by_message_id d ids).2.ring
unfolding delete_spots_by_message_id
delete_spots-IsKept d ids k = delete_batches-IsKept (length ids) ids 0 d k

own_row-message_id :
    (id s : Bytes) (v : Bool) (r : Row) → (own_row id s v r).message_id ≡ r.message_id
own_row-message_id id s v r = ground arith

pub set_spot_owner-IsKept :
    (d : Db) (id s : Bytes) (v : Bool)
    → IsKept d.spots d.ring
    → IsKept (set_spot_owner d id s v).1.spots (set_spot_owner d id s v).1.ring
unfolding set_spot_owner
set_spot_owner-IsKept d id s v k = elim (Bool-cases (fails d)) [
  | inl e ↦ rw (e, set_spot_owner) k
  | inr e ↦
      rw (e, set_spot_owner)
        (record {
          distinct = Distinct-map (own_row id s v) (own_row-message_id id s v) d.spots k.distinct;
          hidden =
              All-map (Hidden d.ring) (Hidden d.ring) (own_row id s v)
                (λ r h. elim (Bool-cases (has_id id r)) [ inl q ↦ rw q h | inr q ↦ rw q h ]) d.spots
                k.hidden;
          kinds =
              All-map HasKind HasKind (own_row id s v)
                (λ r h. elim (Bool-cases (has_id id r)) [ inl q ↦ rw q h | inr q ↦ rw q h ]) d.spots
                k.kinds;
        })
]

pub prune-IsKept :
    (d : Db) (cutoff : ℕ)
    → IsKept d.spots d.ring
    → IsKept (prune_moderated_ring d cutoff).2.spots (prune_moderated_ring d cutoff).2.ring
unfolding prune_moderated_ring
prune-IsKept d cutoff k = elim (Bool-cases (fails d)) [
  | inl e ↦ rw (e, prune_moderated_ring) k
  | inr e ↦
      let young = keep (λ (w : Withdrawn). not (ltb w.stamp cutoff)) d.ring in
      rw (e, prune_moderated_ring)
        (record {
          distinct = k.distinct;
          hidden =
              All-mono (Hidden d.ring) (Hidden young)
                (λ r h q. h (
                  in_ring-keep (λ (w : Withdrawn). not (ltb w.stamp cutoff)) d.ring r.message_id q))
                d.spots k.hidden;
          kinds = k.kinds;
        })
]
