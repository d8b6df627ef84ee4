-- ===== src/Db/Spots/Insert.antt =====
-- `InsertSpots`: all or nothing, without duplicates, and never a withdrawn spot.
use spottr.Base.{
  ℕ, ◌+◌, ◌≡◌, refl, Bool, true, false, Option, none, some, List, [], ◌∷◌, arith, All, subst,
  sql_error, if◌then◌else◌, All-append, All-mono, length, length-append, ◌⊎◌, inl, inr, Bool-cases,
  Option-cases, Error,
}
use spottr.Text.{Bytes}
use spottr.Text.Laws.{eqb_refl, eqb_eq}
use spottr.Db.Tables.{Spot, Db, fails, next, rollback, in_ring, in_spots}
use spottr.Db.Invariant.{IsKept, Hidden, HasKind, Distinct-snoc, in_spots-append}
use spottr.Db.Spots.{row_of, is_ignored, insert_row, insert_rows, commit, insert_spots}

insert_row-IsKept :
    (d : Db) (s : Spot)
    → IsKept d.spots d.ring
    → IsKept (insert_row d s).spots (insert_row d s).ring
unfolding insert_row row_of is_ignored
insert_row-IsKept d s k = elim (Bool-cases (is_ignored d s)) [
  | inl e ↦ rw (e, insert_row) k
  | inr e ↦
      let r = row_of d.next_id s in
      let parts : (in_ring d.ring s.message_id ≡ false) × (in_spots d.spots s.message_id ≡ false) =
        ground arith in
      let hides : Hidden d.ring r = λ h. absurd (cc) in
      rw (e, insert_row)
        (record {
          distinct = Distinct-snoc d.spots r k.distinct parts.1;
          hidden = All-append (Hidden d.ring) d.spots (r ∷ []) k.hidden (hides, tt);
          kinds = All-append HasKind d.spots (r ∷ []) k.kinds (refl, tt);
        })
]

insert_rows-IsKept :
    (ss : List Spot) (n : ℕ) (d : Db)
    → IsKept d.spots d.ring
    → IsKept (insert_rows ss n d).2.spots (insert_rows ss n d).2.ring
unfolding insert_rows
insert_rows-IsKept [] n d k = k
insert_rows-IsKept (s ∷ ss) n d k = elim (Bool-cases (fails d)) [
  | inl e ↦ rw (e, insert_rows) k
  | inr e ↦
      rw (e, insert_rows)
        (insert_rows-IsKept ss _ (next (insert_row d s)) (insert_row-IsKept d s k))
]

pub commit-IsKept :
    (d : Db) (r : ℕ × Option Error × Db)
    → IsKept d.spots d.ring
    → IsKept r.2.spots r.2.ring
    → IsKept (commit d r).2.spots (commit d r).2.ring
unfolding commit
commit-IsKept d (n, some e, d') k k' = k
commit-IsKept d (n, none, d') k k' = elim (Bool-cases (fails d')) [
  | inl e ↦ rw (e, commit) k
  | inr e ↦ rw (e, commit) k'
]

pub insert_spots-IsKept :
    (d : Db) (ss : List Spot)
    → IsKept d.spots d.ring
    → IsKept (insert_spots d ss).2.spots (insert_spots d ss).2.ring
unfolding insert_spots
insert_spots-IsKept d [] k = k
insert_spots-IsKept d (s ∷ ss) k =
    let inner =
      commit-IsKept d (insert_rows (s ∷ ss) 0 (next (next d))) k
        (insert_rows-IsKept (s ∷ ss) 0 (next (next d)) k) in
    elim (Bool-cases (fails d)) [
      | inl e ↦ rw (e, insert_spots) k
      | inr e ↦ elim (Bool-cases (fails (next d))) [
        | inl e' ↦ rw (e, e', insert_spots) k
        | inr e' ↦ rw (e, e', insert_spots) inner
      ]
    ]

-- What `n` inserted rows have done to the store.
pub record Stored (d : Db) (ss : List Spot) (n : ℕ) (d' : Db) : Type 0 where
  pub same_ring : d'.ring ≡ d.ring
  pub counted : n + length d.spots ≡ length d'.spots
  pub kept : (id : Bytes) → in_spots d.spots id ≡ true → in_spots d'.spots id ≡ true
  pub new :
      (id : Bytes)
      → in_spots d'.spots id ≡ true
      → (in_spots d.spots id ≡ true) ⊎ (in_ring d.ring id ≡ false)
  pub there :
      All
        (λ (s : Spot).
          (in_ring d.ring s.message_id ≡ true) ⊎ (in_spots d'.spots s.message_id ≡ true))
        ss

abbrev tick : Bool → ℕ
tick true = 0
tick false = 1

insert_row-Stored :
    (d : Db) (s : Spot) → Stored d (s ∷ []) (tick (is_ignored d s)) (next (insert_row d s))
unfolding insert_row row_of is_ignored
insert_row-Stored d s = elim (Bool-cases (is_ignored d s)) [
  | inl e ↦
      rw (e, insert_row)
        (record {
          same_ring = refl;
          counted = omega arith;
          kept = λ id h. h;
          new = λ id h. inl h;
          there = (ground arith, tt);
        })
  | inr e ↦
      let r = row_of d.next_id s in
      rw (e, insert_row)
        (record {
          same_ring = refl;
          counted = omega (arith, length-append d.spots (r ∷ []));
          kept = λ id h. ground (arith, in_spots-append d.spots (r ∷ []) id);
          new = λ id h. ground (arith, in_spots-append d.spots (r ∷ []) id, eqb_eq s.message_id id);
          there = (
            inr (
                ground
                  (arith, in_spots-append d.spots (r ∷ []) s.message_id, eqb_refl s.message_id)),
            tt,
          );
        })
]

Stored-trans :
    (d d1 d2 : Db) (s : Spot) (ss : List Spot) (n m : ℕ)
    → Stored d (s ∷ []) n d1
    → Stored d1 ss m d2
    → Stored d (s ∷ ss) (n + m) d2
Stored-trans d d1 d2 s ss n m a b = record {
  same_ring = ground arith;
  counted = omega (arith, a.counted, b.counted);
  kept = λ id h. b.kept id (a.kept id h);
  new = λ id h. elim (b.new id h) [
    | inl old ↦ a.new id old
    | inr fresh ↦ inr (ground (arith, a.same_ring))
  ];
  there = (
    elim a.there.0 [ inl w ↦ inl w | inr p ↦ inr (b.kept s.message_id p) ],
    All-mono
        (λ (t : Spot).
          (in_ring d1.ring t.message_id ≡ true) ⊎ (in_spots d2.spots t.message_id ≡ true))
        (λ (t : Spot).
          (in_ring d.ring t.message_id ≡ true) ⊎ (in_spots d2.spots t.message_id ≡ true))
        (λ t h. rw (← a.same_ring) h) ss b.there,
  );
}

insert_rows-Stored :
    (ss : List Spot) (n : ℕ) (d : Db)
    → (insert_rows ss n d).1 ≡ none
    → (m : ℕ) × ((insert_rows ss n d).0 ≡ n + m) × Stored d ss m (insert_rows ss n d).2
unfolding insert_rows
insert_rows-Stored [] n d h = (
  0,
  omega arith,
  record {
    same_ring = refl;
    counted = omega arith;
    kept = λ id p. p;
    new = λ id p. inl p;
    there = tt;
  },
)
insert_rows-Stored (s ∷ ss) n d h = elim (Bool-cases (fails d)) [
  | inl e ↦ absurd (ground arith)
  | inr e ↦
      let n1 = if is_ignored d s then n else n + 1 in
      let h1 : (insert_rows ss n1 (next (insert_row d s))).1 ≡ none = ground arith in
      let (m, count, stored) = insert_rows-Stored ss n1 (next (insert_row d s)) h1 in
      (
        tick (is_ignored d s) + m,
        ground arith,
        rw (e, insert_rows)
            (Stored-trans d (next (insert_row d s)) _ s ss _ m (insert_row-Stored d s) stored),
      )
]

pub commit-error :
    (d : Db) (r : ℕ × Option Error × Db) (x : Error)
    → (commit d r).1 ≡ some x
    → rollback d (commit d r).2 ≡ (commit d r).2
unfolding commit
commit-error d (n, some e, d') x h = refl
commit-error d (n, none, d') x h = elim (Bool-cases (fails d')) [
  | inl e ↦ rw (e, commit)
  | inr e ↦ absurd (ground arith)
]

pub commit-done :
    (d : Db) (r : ℕ × Option Error × Db)
    → (commit d r).1 ≡ none
    → (r.1 ≡ none) × (commit d r ≡ (r.0, none, next r.2))
unfolding commit
commit-done d (n, some e, d') h = absurd (cc)
commit-done d (n, none, d') h = (refl, ground arith)

-- Where any statement of `InsertSpots` fails, begin and commit included, the tables are as before.
-- Otherwise the withdrawals are as before, the returned number is that of the new rows, no row is
-- lost, each given spot is stored or was withdrawn, and no withdrawn message-id has got a row.
pub insert_spots_outcome :
    (d : Db) (ss : List Spot)
    → ((e : Error) × ((insert_spots d ss).1 ≡ some e)
        × (rollback d (insert_spots d ss).2 ≡ (insert_spots d ss).2))
      ⊎ ((insert_spots d ss).1 ≡ none) × Stored d ss (insert_spots d ss).0 (insert_spots d ss).2
unfolding insert_spots
insert_spots_outcome d [] = inr (
  refl,
  record {
    same_ring = refl;
    counted = omega arith;
    kept = λ id p. p;
    new = λ id p. inl p;
    there = tt;
  },
)
insert_spots_outcome d (s ∷ ss) =
    let d2 = next (next d) in
    let r = insert_rows (s ∷ ss) 0 d2 in
    elim (Bool-cases (fails d)) [
      | inl e ↦ rw (e, insert_spots) (inl (sql_error, refl, refl))
      | inr e ↦ elim (Bool-cases (fails (next d))) [
        | inl e' ↦ rw (e, e', insert_spots) (inl (sql_error, refl, refl))
        | inr e' ↦
            rw (e, e', insert_spots)
              (elim (Option-cases (commit d r).1) [
                | inl good ↦
                    let (fine, c) = commit-done d r good in
                    let (m, count, stored) = insert_rows-Stored (s ∷ ss) 0 d2 fine in
                    let all : m ≡ r.0 = omega (arith, count) in
                    inr (
                      good,
                      rw c (subst (λ k. Stored d (s ∷ ss) k (next r.2)) all (moved m stored)),
                    )
                | inr (x, bad) ↦ inl (x, bad, commit-error d r x bad)
              ])
      ]
    ]
  where
    moved :
        (m : ℕ)
        → Stored (next (next d)) (s ∷ ss) m (insert_rows (s ∷ ss) 0 (next (next d))).2
        → Stored d (s ∷ ss) m (next (insert_rows (s ∷ ss) 0 (next (next d))).2)
    moved m t = record {
      same_ring = t.same_ring;
      counted = t.counted;
      kept = t.kept;
      new = t.new;
      there = t.there;
    }
