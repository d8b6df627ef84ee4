-- ===== src/Db/Search.antt =====
-- internal/db/db.go: SearchSpots. It writes an SQL condition with placeholders and, beside it, the
-- list of the values for these; SQLite takes the values in order.
pub mod Run
pub mod Meaning
pub mod Asked
pub mod Listed
use spottr.Base.{
  ℕ, zero, suc, ◌+◌, ◌/◌, Bool, true, false, not, ◌&&◌, ◌||◌, Option, none, some, List, [], ◌∷◌,
  ◌++◌, ◌==◌, ltb, leb, if◌then◌else◌, Result, ok, err, Error, sql_error, take, drop, length, keep,
  exists, map,
}
use spottr.Text.{Bytes, codes, is_empty, eqb, index, replace_all}
use spottr.Text.Numbers.{ℤ, pos, negsuc, is_digit}
use spottr.Db.Tables.{Row, Db, fails, next, nanos}
use spottr.Db.Fts.{sanitize_fts_query}

-- `CatKind`; a negative kind means any.
pub record CatKind : Type 0 where
  pub category : ℤ
  pub kind : ℤ

-- `SearchParams`. Times are in nanoseconds after 1970, 0 for the zero time.
pub record SearchParams : Type 0 where
  pub query : Bytes
  pub categories : List ℤ
  pub poster : Bytes
  pub min_size : ℤ
  pub max_size : ℤ
  pub since : ℕ
  pub limit : ℤ
  pub offset : ℤ
  pub before : ℕ
  pub sort_by : Bytes
  pub allow_adult : Bool
  pub kinds : List ℤ
  pub adult_only : Bool
  pub any_of : List CatKind
  pub tag : Bytes
  pub sub_codes : List Bytes

-- The columns that a condition names.
pub data Column : Type 0 where
  category kind poster size posted_at moderated is_adult : Column
  sub_cat_a sub_cat_b sub_cat_c sub_cat_d : Column

pub data Value : Type 0 where
  int : ℤ → Value
  text : Bytes → Value

abbrev pub of_bool : Bool → ℤ
of_bool b = if b then pos 1 else pos 0

abbrev pub cell : Column → Row → Value
cell category r = int (pos r.category)
cell kind r = int (pos r.kind)
cell poster r = text r.poster
cell size r = int r.size
cell posted_at r = int (pos r.posted_at)
cell moderated r = int (of_bool r.moderated)
cell is_adult r = int (of_bool r.is_adult)
cell sub_cat_a r = text r.sub_cat_a
cell sub_cat_b r = text r.sub_cat_b
cell sub_cat_c r = text r.sub_cat_c
cell sub_cat_d r = text r.sub_cat_d

-- `subCodeColumn`
abbrev pub sub_code_column : ℕ → Option Column
sub_code_column c =
    if c == b'a'
    then some sub_cat_a
    else if c == b'b'
    then some sub_cat_b
    else if c == b'c'
    then some sub_cat_c
    else if c == b'd' || c == b'z'
    then some sub_cat_d
    else none

abbrev all_digits : Bytes → Bool
all_digits [] = true
all_digits (c ∷ s) = is_digit c && all_digits s

abbrev pub is_column : Option Column → Bool
is_column none = false
is_column (some c) = true

-- `ValidSubCode`
unfoldable pub valid_sub_code : Bytes → Bool
valid_sub_code [] = false
valid_sub_code (c ∷ s) =
    if ltb (length (c ∷ s)) 2 || (ltb 4 (length (c ∷ s)) || not (is_column (sub_code_column c)))
    then false
    else all_digits s

-- One condition of the WHERE clause; each says how many `?` it holds.
pub data Cond : Type 0 where
  in_fts : Cond
  equals at_least at_most below : Column → Cond
  one_of : Column → ℕ → Cond
  has_sub : Column → Cond
  any_pair : List Bool → Cond
  literally : Column → ℤ → Cond

-- A pair with a kind has two `?`, one without has one.
abbrev pub pair_arity : List Bool → ℕ
pair_arity [] = 0
pair_arity (true ∷ ps) = suc (suc (pair_arity ps))
pair_arity (false ∷ ps) = suc (pair_arity ps)

abbrev pub arity : Cond → ℕ
arity in_fts = 1
arity (equals c) = 1
arity (at_least c) = 1
arity (at_most c) = 1
arity (below c) = 1
arity (one_of c n) = n
arity (has_sub c) = 1
arity (any_pair ps) = pair_arity ps
arity (literally c n) = 0

-- The conditions and the values so far, `where` and `args`.
pub record Query : Type 0 where
  pub conds : List Cond
  pub args : List Value

abbrev pub add : Cond → List Value → Query → Query
add c vs q = record { conds = q.conds ++ c ∷ []; args = q.args ++ vs }

abbrev pub add_if : Bool → Cond → List Value → Query → Query
add_if b c vs q = if b then add c vs q else q

-- `inOrEqual`
abbrev pub in_or_equal : Column → ℕ → Cond
in_or_equal c n = if n == 1 then equals c else one_of c n

-- A condition on a list, which is left out for an empty one.
abbrev pub add_list : Column → List ℤ → Query → Query
add_list c [] q = q
add_list c (n ∷ ns) q = add (in_or_equal c (length (n ∷ ns))) (map int (n ∷ ns)) q

abbrev pub add_in : Option Column → Bytes → Query → Query
add_in none s q = q
add_in (some column) s q =
    add_if (valid_sub_code s) (has_sub column) (text (b'|' ∷ (s ++ b'|' ∷ [])) ∷ []) q

abbrev pub add_code : Bytes → Query → Query
add_code [] q = q
add_code (c ∷ s) q = add_in (sub_code_column c) (c ∷ s) q

abbrev pub add_codes : List Bytes → Query → Query
add_codes [] q = q
add_codes (s ∷ ss) q = add_codes ss (add_code s q)

abbrev pub is_negative : ℤ → Bool
is_negative (pos n) = false
is_negative (negsuc n) = true

abbrev pub pair_shapes : List CatKind → List Bool
pair_shapes [] = []
pair_shapes (ck ∷ cks) = not (is_negative ck.kind) ∷ pair_shapes cks

abbrev pub pair_args : List CatKind → List Value
pair_args [] = []
pair_args (ck ∷ cks) =
    if is_negative ck.kind
    then int ck.category ∷ pair_args cks
    else int ck.category ∷ int ck.kind ∷ pair_args cks

abbrev pub add_pairs : List CatKind → Query → Query
add_pairs [] q = q
add_pairs (ck ∷ cks) q = add (any_pair (pair_shapes (ck ∷ cks))) (pair_args (ck ∷ cks)) q

abbrev pub is_positive : ℤ → Bool
is_positive (pos n) = ltb 0 n
is_positive (negsuc n) = false

-- The phrase for the tag column of the index.
abbrev pub tag_query : Bytes → Bytes
tag_query tag = codes "{tag}: \"" ++ replace_all tag (codes "\"") (codes "\"\"") ++ codes "\""

abbrev pub seconds : ℕ → Value
seconds time = int (pos (time / nanos))

abbrev pub add_adult : SearchParams → Query → Query
add_adult p q =
    if p.adult_only
    then add (literally is_adult (pos 1)) [] q
    else if not p.allow_adult
    then add (literally is_adult (pos 0)) [] q
    else q

abbrev pub no_conditions : Query
no_conditions = record { conds = []; args = [] }

-- The WHERE clause of `SearchSpots`, for the MATCH expression `fts_query`.
unfoldable pub where_clause : Bytes → SearchParams → Query
where_clause fts_query p =
    let q1 = add_if (not (is_empty fts_query)) in_fts (text fts_query ∷ []) no_conditions in
    let q2 = add_list category p.categories q1 in
    let q3 = add_if (not (is_empty p.tag)) in_fts (text (tag_query p.tag) ∷ []) q2 in
    let q4 = add_codes p.sub_codes q3 in
    let q5 = add_pairs p.any_of q4 in
    let q6 = add_list kind p.kinds q5 in
    let q7 = add_if (not (is_empty p.poster)) (equals poster) (text p.poster ∷ []) q6 in
    let q8 = add_if (is_positive p.min_size) (at_least size) (int p.min_size ∷ []) q7 in
    let q9 = add_if (is_positive p.max_size) (at_most size) (int p.max_size ∷ []) q8 in
    let q10 = add_if (not (p.since == 0)) (at_least posted_at) (seconds p.since ∷ []) q9 in
    let q11 = add_if (not (p.before == 0)) (below posted_at) (seconds p.before ∷ []) q10 in
    add_adult p (add (literally moderated (pos 0)) [] q11)
