-- ===== src/Db/Withdrawals/Outcome.antt =====
-- maintenance.go: what `MarkModerated` and `DeleteSpotsByMessageID` have done when they return.
use spottr.Base.{
  ℕ, suc, zero, ◌+◌, ◌≤◌, ◌≡◌, refl, sym, ap, Bool, true, not, ◌||◌, Option, none, some, List, [],
  ◌∷◌, ◌++◌, append_assoc, arith, map, keep, length, take, drop, if◌then◌else◌, Bool-cases,
  Option-cases, ◌⊎◌, inl, inr, Error, sql_error, ◌∙◌,
}
use spottr.Text.{Bytes, eqb}
use spottr.Text.Laws.{eqb_iff}
use spottr.Db.Tables.{Row, Db, fails, next, rollback, in_ring}
use spottr.Db.Spots.{commit}
use spottr.Db.Spots.Insert.{commit-error, commit-done}
use spottr.Db.Withdrawals.{
  remember, mark, mark_row, mark_rows, mark_moderated, delete_rows, delete_batches, delete_batch,
  delete_spots_by_message_id, is_listed, count_rows, count_listed,
}
use spottr.Db.Withdrawals.Hidden.{in_ring-remember, spots-remember}

-- The row that one `UPDATE` for all the ids would leave.
abbrev pub marked : List Bytes → Row → Row
marked ids r = if is_listed ids r.message_id then record r { moderated = true } else r

map-marked-mark :
    (id : Bytes) (ids : List Bytes) (rows : List Row)
    → map (marked ids) (map (mark_row id) rows) ≡ map (marked (id ∷ ids)) rows
map-marked-mark id ids [] = refl
map-marked-mark id ids (r ∷ rows) = cc (head, map-marked-mark id ids rows)
  where
    head : marked ids (mark_row id r) ≡ marked (id ∷ ids) r
    head = ground (arith, eqb_iff id r.message_id, eqb_iff r.message_id id)

map-marked-nil : (rows : List Row) → map (marked []) rows ≡ rows
map-marked-nil [] = refl
map-marked-nil (r ∷ rows) = ap (λ t. r ∷ t) (map-marked-nil rows)

-- What a run of the two statements over all the ids has done.
pub record Marked (d : Db) (ids : List Bytes) (d' : Db) : Type 0 where
  pub rows : d'.spots ≡ map (marked ids) d.spots
  pub ring : (x : Bytes) → in_ring d'.ring x ≡ (in_ring d.ring x || is_listed ids x)

or_swap : (a b c : Bool) → ((a || b) || c) ≡ (a || (b || c))
or_swap a b c = ground arith

mark_rows-Marked :
    (ids : List Bytes) (n : ℕ) (d : Db)
    → (mark_rows ids n d).1 ≡ none
    → Marked d ids (mark_rows ids n d).2
unfolding mark_rows mark
mark_rows-Marked [] n d h = record { rows = sym (map-marked-nil d.spots); ring = λ x. ground arith }
mark_rows-Marked (id ∷ ids) n d h = elim (Bool-cases (fails d)) [
  | inl e ↦ absurd (ground arith)
  | inr e ↦ elim (Bool-cases (fails (next (remember d id)))) [
    | inl e' ↦ absurd (ground arith)
    | inr e' ↦
        let d' = next (remember d id) in
        let m = n + count_rows id d'.spots in
        let h' : (mark_rows ids m (next (mark d' id))).1 ≡ none = ground arith in
        let ih = mark_rows-Marked ids m (next (mark d' id)) h' in
        rw (e, e', mark_rows)
          (record {
            rows =
                ih.rows
                ∙ (ap (λ rs. map (marked ids) (map (mark_row id) rs)) (spots-remember d id)
                    ∙ map-marked-mark id ids d.spots);
            ring = λ x. ground (
              arith,
              ih.ring x,
              in_ring-remember d id x,
              eqb_iff id x,
              eqb_iff x id,
              or_swap (in_ring d.ring x) (eqb id x) (is_listed ids x),
            );
          })
  ]
]

-- `MarkModerated` is all or nothing. Where no statement fails, exactly the rows of the given ids
-- become hidden, no other field or row changes, and exactly the given ids are added to the record
-- of withdrawals; otherwise every table is as it was.
pub mark_moderated_outcome :
    (d : Db) (ids : List Bytes)
    → ((e : Error) × ((mark_moderated d ids).1 ≡ some e)
        × (rollback d (mark_moderated d ids).2 ≡ (mark_moderated d ids).2))
      ⊎ ((mark_moderated d ids).1 ≡ none) × Marked d ids (mark_moderated d ids).2
unfolding mark_moderated
mark_moderated_outcome d [] =
    inr (refl, record { rows = sym (map-marked-nil d.spots); ring = λ x. ground arith })
mark_moderated_outcome d (id ∷ ids) =
    let d3 = next (next (next d)) in
    let r = mark_rows (id ∷ ids) 0 d3 in
    elim (Bool-cases (fails d)) [
      | inl e ↦ rw (e, mark_moderated) (inl (sql_error, refl, refl))
      | inr e ↦ elim (Bool-cases (fails (next d))) [
        | inl e' ↦ rw (e, e', mark_moderated) (inl (sql_error, refl, refl))
        | inr e' ↦ elim (Bool-cases (fails (next (next d)))) [
          | inl e'' ↦ rw (e, e', e'', mark_moderated) (inl (sql_error, refl, refl))
          | inr e'' ↦
              rw (e, e', e'', mark_moderated)
                (elim (Option-cases (commit d r).1) [
                  | inl good ↦
                      let (fine, c) = commit-done d r good in
                      let ih = mark_rows-Marked (id ∷ ids) 0 d3 fine in
                      inr (good, rw c (record { rows = ih.rows; ring = ih.ring }))
                  | inr (x, bad) ↦ inl (x, bad, commit-error d r x bad)
                ])
        ]
      ]
    ]

abbrev pub unlisted : List Bytes → Row → Bool
unlisted ids r = not (is_listed ids r.message_id)

pub is_listed-append :
    (ids more : List Bytes) (x : Bytes)
    → is_listed (ids ++ more) x ≡ (is_listed ids x || is_listed more x)
is_listed-append [] more x = refl
is_listed-append (id ∷ ids) more x = ground (arith, is_listed-append ids more x)

keep-keep :
    (ids more : List Bytes) (rows : List Row)
    → keep (unlisted more) (keep (unlisted ids) rows) ≡ keep (unlisted (ids ++ more)) rows
keep-keep ids more [] = refl
keep-keep ids more (r ∷ rows) =
    ground (arith, keep-keep ids more rows, is_listed-append ids more r.message_id)

keep-nil : (rows : List Row) → keep (unlisted []) rows ≡ rows
keep-nil [] = refl
keep-nil (r ∷ rows) = ap (λ t. r ∷ t) (keep-nil rows)

count-keep :
    (ids : List Bytes) (rows : List Row)
    → count_listed ids rows + length (keep (unlisted ids) rows) ≡ length rows
count-keep ids [] = omega arith
count-keep ids (r ∷ rows) = ground (arith, count-keep ids rows)

pub take-drop : (n : ℕ) (xs : List Bytes) → take n xs ++ drop n xs ≡ xs
take-drop zero xs = refl
take-drop (suc n) [] = refl
take-drop (suc n) (x ∷ xs) = ap (λ t. x ∷ t) (take-drop n xs)

pub length-drop_le : (n : ℕ) (xs : List Bytes) → length (drop n xs) ≤ length xs
length-drop_le zero xs = omega arith
length-drop_le (suc n) [] = omega arith
length-drop_le (suc n) (x ∷ xs) = omega (arith, length-drop_le n xs)

-- The rows of the ids in `done` are gone, and `gone` is their number.
pub record Deleted (d : Db) (done : List Bytes) (gone : ℕ) (d' : Db) : Type 0 where
  pub rows : d'.spots ≡ keep (unlisted done) d.spots
  pub counted : gone + length d'.spots ≡ length d.spots
  pub ring : d'.ring ≡ d.ring

-- The ids split into those that were dealt with and those behind a failed statement.
abbrev pub Progressed : Db → List Bytes → ℕ → ℕ × Option Error × Db → Type 0
Progressed d ids n r =
    (done : List Bytes) × (left : List Bytes) × (gone : ℕ) × (done ++ left ≡ ids)
    × (r.0 ≡ n + gone)
    × Deleted d done gone r.2
    × (r.1 ≡ none → left ≡ [])

delete_batches-Progressed :
    (rounds : ℕ) (ids : List Bytes) (n : ℕ) (d : Db)
    → length ids ≤ rounds
    → Progressed d ids n (delete_batches rounds ids n d)
unfolding delete_batches delete_rows
delete_batches-Progressed zero [] n d h = (
  [],
  [],
  0,
  refl,
  omega arith,
  record { rows = sym (keep-nil d.spots); counted = omega arith; ring = refl },
  λ _. refl,
)
delete_batches-Progressed zero (id ∷ ids) n d h = absurd (omega arith)
delete_batches-Progressed (suc rounds) [] n d h = (
  [],
  [],
  0,
  refl,
  omega arith,
  record { rows = sym (keep-nil d.spots); counted = omega arith; ring = refl },
  λ _. refl,
)
delete_batches-Progressed (suc rounds) (id ∷ ids) n d h = elim (Bool-cases (fails d)) [
  | inl e ↦
      rw (e, delete_batches)
        (
          [],
          id ∷ ids,
          0,
          refl,
          omega arith,
          record { rows = sym (keep-nil d.spots); counted = omega arith; ring = refl },
          λ bad. absurd (cc),
        )
  | inr e ↦
      let chunk = take delete_batch (id ∷ ids) in
      let more = drop delete_batch (id ∷ ids) in
      let c = count_listed chunk d.spots in
      let (done, left, gone, split, sum, del, end) =
        delete_batches-Progressed rounds more (n + c) (next (delete_rows d chunk))
          (omega (arith, length-drop_le 399 ids)) in
      rw (e, delete_batches)
        (
          chunk ++ done,
          left,
          c + gone,
          append_assoc chunk done left
              ∙ (ap (λ t. chunk ++ t) split ∙ take-drop delete_batch (id ∷ ids)),
          omega (arith, sum),
          record {
            rows = del.rows ∙ keep-keep chunk done d.spots;
            counted = omega (arith, del.counted, count-keep chunk d.spots);
            ring = del.ring;
          },
          end,
        )
]

-- `DeleteSpotsByMessageID` deals with the ids in order: the rows of a first part of them are
-- removed, no other row and no recorded withdrawal changes, the returned number is that of the
-- rows removed, and without an error the first part is all the ids.
pub delete_spots_outcome :
    (d : Db) (ids : List Bytes) → Progressed d ids 0 (delete_spots_by_message_id d ids)
unfolding delete_spots_by_message_id
delete_spots_outcome d ids = delete_batches-Progressed (length ids) ids 0 d (omega arith)
