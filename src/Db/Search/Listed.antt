-- ===== src/Db/Search/Listed.antt =====
-- db.go: the page and the count that SearchSpots returns.
use spottr.Base.{
  All-kept, Sorted, SameCounts, All-none, none-All, none-All, ◌∙◌, not, All-none, if◌then◌else◌, ℕ,
  zero, suc, ◌≤◌, ◌≡◌, refl, Bool, true, false, ◌⊎◌, inl, inr, some, List, [], ◌∷◌, ◌==◌, arith,
  Bool-cases, Result, ok, err, length, keep, take, drop, All,
}
use spottr.Text.Numbers.{ℤ, pos, negsuc, is_zero}
use spottr.Db.Tables.{Row, Db, fails, next}
use spottr.Db.Search.{SearchParams, where_clause}
use spottr.Db.Search.Run.{
  page_of, in_order, Engine, selected, clause_truth, placeholders, limited, skipped, by_size,
  run_query, search_spots, fts_query,
}
use spottr.Db.Search.Asked.{asked_for, where_clause-Means}

keep-same :
    (f g : Row → Bool) (rows : List Row) → ((r : Row) → f r ≡ g r) → keep f rows ≡ keep g rows
keep-same f g [] h = refl
keep-same f g (r ∷ rows) h = rw (h r, keep-same f g rows h) refl

All-take : (P : Row → Type 0) (n : ℕ) (rows : List Row) → All P rows → All P (take n rows)
All-take P zero rows h = tt
All-take P (suc n) [] h = tt
All-take P (suc n) (r ∷ rows) (p, h) = (p, All-take P n rows h)

All-drop : (P : Row → Type 0) (n : ℕ) (rows : List Row) → All P rows → All P (drop n rows)
All-drop P zero rows h = h
All-drop P (suc n) [] h = tt
All-drop P (suc n) (r ∷ rows) (p, h) = All-drop P n rows h

take-le : (n : ℕ) (rows : List Row) → length (take n rows) ≤ n
take-le zero rows = omega arith
take-le (suc n) [] = omega arith
take-le (suc n) (r ∷ rows) = omega (arith, take-le n rows)

All-skipped : (P : Row → Type 0) (n : ℤ) (rows : List Row) → All P rows → All P (skipped n rows)
All-skipped P (pos n) rows h = All-drop P n rows h
All-skipped P (negsuc n) rows h = h

All-limited : (P : Row → Type 0) (n : ℤ) (rows : List Row) → All P rows → All P (limited n rows)
All-limited P (pos n) rows h = All-take P n rows h
All-limited P (negsuc n) rows h = h

suc_not_zero : (n : ℕ) → (suc n == 0) ≡ false
suc_not_zero n = ground arith

module _ (e : Engine) (p : SearchParams) where
  abbrev asked : Row → Bool
  asked r = asked_for e.matches (fts_query e p) p r

  selected-asked :
      (rows : List Row)
      → e.accepts_count (where_clause (fts_query e p) p) ≡ true
      → selected e.matches e.accepts_count (where_clause (fts_query e p) p) rows
        ≡ some (keep asked rows)
  unfolding selected
  selected-asked rows taken =
      let q = where_clause (fts_query e p) p in
      let k = where_clause-Means e.matches (fts_query e p) p in
      let same = keep-same (clause_truth e.matches q.conds q.args) asked rows k.says in
      let even : (length q.args == placeholders q.conds) ≡ true = ground (arith, k.balanced) in
      rw (taken, even, same) refl

  abbrev pub WithinLimit : ℤ → List Row → Type 0
  WithinLimit (pos zero) rows = length rows ≤ 25
  WithinLimit (pos (suc n)) rows = length rows ≤ suc n
  WithinLimit (negsuc n) rows = Unit

  page_of-WithinLimit :
      (n : ℤ) (rows : List Row) → WithinLimit n (limited (if is_zero n then pos 25 else n) rows)
  page_of-WithinLimit (pos zero) rows = take-le 25 rows
  page_of-WithinLimit (pos (suc n)) rows = rw (suc_not_zero n) (take-le (suc n) rows)
  page_of-WithinLimit (negsuc n) rows = tt

  -- A page is cut out of a listing: all the rows that are asked for, once each, in the order.
  abbrev pub CutOut : Db → List Row → Type 0
  CutOut d rows =
      (all : List Row) × Sorted (in_order (by_size p)) all
      × SameCounts all (keep asked d.spots)
      × (rows ≡ page_of p all)

  -- SQLite does not take one of the two statements.
  abbrev pub Refused : Type 0
  Refused =
      let q = where_clause (fts_query e p) p in
      (e.accepts_count q ≡ false) ⊎ (e.accepts_page q ≡ false)

  -- What a search returns: a page and a total, or an error.
  abbrev pub Listed : Db → Result (List Row × ℕ) → Type 0
  Listed d (ok (rows, total)) =
      All (λ r. asked r ≡ true) rows
      × (total ≡ length (keep asked d.spots))
      × WithinLimit p.limit rows
      × CutOut d rows
  Listed d (err x) = (fails d ≡ true) ⊎ ((fails (next d) ≡ true) ⊎ Refused)

  run_query-Listed :
      (d : Db)
      → let q = where_clause (fts_query e p) p in
        selected e.matches e.accepts_count q d.spots ≡ some (keep asked d.spots)
        → Listed d (run_query e p q d).0
  unfolding run_query
  run_query-Listed d h =
      let q = where_clause (fts_query e p) p in
      let found = keep asked d.spots in
      let order = e.ordered (by_size p) in
      let sorted = order.visit found in
      let good = All-none asked sorted (
        order.visit-count (λ r. not (asked r)) found
        ∙ none-All asked found (All-kept asked d.spots)) in
      let limit = if is_zero p.limit then pos 25 else p.limit in
      elim (Bool-cases (fails d)) [
        | inl f ↦ rw (h, f, run_query) (inl f)
        | inr f ↦ elim (Bool-cases (fails (next d))) [
          | inl f' ↦ rw (h, f, f', run_query) (inr (inl f'))
          | inr f' ↦ elim (Bool-cases (e.accepts_page q)) [
            | inr g ↦ rw (h, f, f', g, run_query) (inr (inr (inr g)))
            | inl g ↦
                rw (h, f, f', g, run_query)
                  (
                    All-limited (λ r. asked r ≡ true) limit _
                        (All-skipped (λ r. asked r ≡ true) p.offset sorted good),
                    refl,
                    page_of-WithinLimit p.limit (skipped p.offset sorted),
                    (sorted, order.visit-Sorted found, λ f. order.visit-count f found, refl),
                  )
          ]
        ]
      ]

  search_refused :
      (d : Db)
      → e.accepts_count (where_clause (fts_query e p) p) ≡ false
      → Listed d (run_query e p (where_clause (fts_query e p) p) d).0
  unfolding run_query selected
  search_refused d never = rw (never, run_query, selected) (inr (inr (inl never)))

  -- `SearchSpots` fails only where one of its two statements fails or SQLite does not take one, and
  -- never for want of a value for a placeholder. Otherwise every row of the page passes all filters
  -- that the parameters set, the page has at most as many rows as the limit says, 25 for a limit of
  -- 0, and the total counts the rows of the table that pass the filters. The page is what limit and
  -- offset cut out of one listing of all the rows that pass, each as often as in the table, the
  -- largest first where the sort is by size and the newest first otherwise.
  pub search_spots-Listed : (d : Db) → Listed d (search_spots e p d).0
  unfolding search_spots
  search_spots-Listed d = elim (Bool-cases (e.accepts_count (where_clause (fts_query e p) p))) [
    | inr never ↦ search_refused d never
    | inl taken ↦ run_query-Listed d (selected-asked d.spots taken)
  ]
