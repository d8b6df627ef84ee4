-- ===== src/Db/Search/Run.antt =====
-- db.go: what SQLite makes of the query of SearchSpots. A `?` takes the next value.
use spottr.Base.{
  Ordered, ℕ, ◌+◌, Bool, true, false, not, ◌&&◌, ◌||◌, Option, none, some, List, [], ◌∷◌, ◌==◌, leb,
  if◌then◌else◌, Result, ok, err, sql_error, take, drop, length, keep, exists,
}
use spottr.Text.{Bytes, codes, eqb, index}
use spottr.Text.Numbers.{ℤ, pos, negsuc, is_zero}
use spottr.Db.Tables.{Row, Db, fails, next}
use spottr.Db.Fts.{sanitize_fts_query}
use spottr.Db.Search.{
  SearchParams, Value, int, text, cell, category, kind, Cond, in_fts, equals, at_least, at_most,
  below, one_of, has_sub, any_pair, literally, arity, Query, where_clause,
}

abbrev pub leb_int : ℤ → ℤ → Bool
leb_int (pos m) (pos n) = leb m n
leb_int (pos m) (negsuc n) = false
leb_int (negsuc m) (pos n) = true
leb_int (negsuc m) (negsuc n) = leb n m

abbrev pub eq_int : ℤ → ℤ → Bool
eq_int (pos m) (pos n) = m == n
eq_int (pos m) (negsuc n) = false
eq_int (negsuc m) (pos n) = false
eq_int (negsuc m) (negsuc n) = m == n

abbrev pub same_value : Value → Value → Bool
same_value (int a) (int b) = eq_int a b
same_value (int a) (text b) = false
same_value (text a) (int b) = false
same_value (text a) (text b) = eqb a b

-- An order on values; columns of numbers meet numbers alone.
abbrev pub leb_value : Value → Value → Bool
leb_value (int a) (int b) = leb_int a b
leb_value (int a) (text b) = true
leb_value (text a) (int b) = false
leb_value (text a) (text b) = false

abbrev pub contains : Value → Value → Bool
contains (text s) (text t) = elim (index (b'|' ∷ s) t) [ none ↦ false | some i ↦ true ]
contains (text s) (int t) = false
contains (int s) t = false

-- `(s.category = ? AND s.kind = ?) OR …`
abbrev pub pair_truth : List Bool → List Value → Row → Bool
pair_truth (false ∷ ps) (v ∷ vs) r = same_value (cell category r) v || pair_truth ps vs r
pair_truth (true ∷ ps) (v ∷ w ∷ vs) r =
    (same_value (cell category r) v && same_value (cell kind r) w) || pair_truth ps vs r
pair_truth (true ∷ ps) (v ∷ []) r = false
pair_truth [] vs r = false
pair_truth (false ∷ ps) [] r = false
pair_truth (true ∷ ps) [] r = false

abbrev pub first_of : List Value → Option Value
first_of [] = none
first_of (v ∷ vs) = some v

abbrev pub is_so : Option Value → (Value → Bool) → Bool
is_so none test = false
is_so (some v) test = test v

abbrev pub placeholders : List Cond → ℕ
placeholders [] = 0
placeholders (c ∷ cs) = arity c + placeholders cs

-- ORDER BY.
abbrev pub by_size : SearchParams → Bool
by_size p = eqb p.sort_by (codes "size")

-- LIMIT and OFFSET; a negative limit is none, a negative offset is zero.
abbrev pub limited : ℤ → List Row → List Row
limited (pos n) rows = take n rows
limited (negsuc n) rows = rows

abbrev pub skipped : ℤ → List Row → List Row
skipped (pos n) rows = drop n rows
skipped (negsuc n) rows = rows

abbrev pub page_of : SearchParams → List Row → List Row
page_of p rows = limited (if is_zero p.limit then pos 25 else p.limit) (skipped p.offset rows)

-- ORDER BY size DESC, and ORDER BY posted_at DESC.
abbrev pub in_order : Bool → Row → Row → Bool
in_order true r r' = leb_int r'.size r.size
in_order false r r' = leb r'.posted_at r.posted_at

-- What of SQLite a search relies on: whether it takes the statement that counts and the one that
-- lists, which it refuses beyond its limits on values and on the depth of an expression, and where
-- it cannot read a MATCH expression; whether the full-text index has a row for a MATCH expression;
-- and sorting. The order of rows that compare as equal is open.
pub record Engine : Type 0 where
  pub accepts_count : Query → Bool
  pub accepts_page : Query → Bool
  pub matches : Bytes → Row → Bool
  pub ordered : (b : Bool) → Ordered Row (in_order b)
  pub repaired : Bytes → Bytes
  pub rune_count : Bytes → ℕ

module _ (matches : Bytes → Row → Bool) where
  abbrev pub matches_value : Value → Row → Bool
  matches_value (text s) r = matches s r
  matches_value (int n) r = false

  -- What a condition says of a row, with the values for its placeholders.
  unfoldable pub truth : Cond → List Value → Row → Bool
  truth in_fts vs r = is_so (first_of vs) (λ v. matches_value v r)
  truth (equals c) vs r = is_so (first_of vs) (same_value (cell c r))
  truth (at_least c) vs r = is_so (first_of vs) (λ v. leb_value v (cell c r))
  truth (at_most c) vs r = is_so (first_of vs) (leb_value (cell c r))
  truth (below c) vs r = is_so (first_of vs) (λ v. not (leb_value v (cell c r)))
  truth (one_of c n) vs r = exists (same_value (cell c r)) vs
  truth (has_sub c) vs r = is_so (first_of vs) (contains (cell c r))
  truth (any_pair ps) vs r = pair_truth ps vs r
  truth (literally c n) vs r = same_value (cell c r) (int n)

  unfoldable pub clause_truth : List Cond → List Value → Row → Bool
  unfolding truth
  clause_truth [] vs r = true
  clause_truth (c ∷ cs) vs r =
      truth c (take (arity c) vs) r && clause_truth cs (drop (arity c) vs) r

  -- The rows that a query selects; it fails unless SQLite takes the statement and there is one
  -- value for each placeholder.
  unfoldable pub selected : (Query → Bool) → Query → List Row → Option (List Row)
  unfolding clause_truth
  selected accepts q rows =
      if accepts q && length q.args == placeholders q.conds
      then some (keep (clause_truth q.conds q.args) rows)
      else none

module _ (e : Engine) where
  -- The two statements, the count and the page.
  unfoldable pub run_query : SearchParams → Query → Db → Result (List Row × ℕ) × Db
  unfolding selected
  run_query p q d = elim (selected e.matches e.accepts_count q d.spots) [
    | none ↦ (err sql_error, next d)
    | some rows ↦
        if fails d
        then (err sql_error, next d)
        else if fails (next d) || not (e.accepts_page q)
        then (err sql_error, next (next d))
        else (ok (page_of p ((e.ordered (by_size p)).visit rows), length rows), next (next d))
  ]

  abbrev pub fts_query : SearchParams → Bytes
  fts_query p = sanitize_fts_query e.repaired e.rune_count p.query

  -- `SearchSpots`
  unfoldable pub search_spots : SearchParams → Db → Result (List Row × ℕ) × Db
  unfolding run_query where_clause
  search_spots p d = run_query p (where_clause (fts_query p) p) d
