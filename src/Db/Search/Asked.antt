-- ===== src/Db/Search/Asked.antt =====
-- db.go: SearchSpots selects the rows that its parameters ask for.
use spottr.Base.{
  ℕ, suc, ◌/◌, ◌≡◌, refl, sym, ap, Bool, true, false, not, ◌&&◌, ◌||◌, Option, none, some, List, [],
  ◌∷◌, ◌++◌, ◌==◌, leb, if◌then◌else◌, arith, Bool-cases, inl, inr, length, exists, map,
}
use spottr.Text.{Bytes, is_empty, eqb}
use spottr.Text.Numbers.{ℤ, pos}
use spottr.Db.Tables.{Row, nanos}
use spottr.Db.Search.{
  add_in, SearchParams, CatKind, Column, Value, int, text, cell, category, kind, poster, size,
  posted_at, moderated, is_adult, Cond, in_fts, equals, at_least, at_most, below, one_of, has_sub,
  any_pair, literally, arity, Query, where_clause, add, add_if, add_list, add_code, add_codes,
  add_pairs, add_adult, in_or_equal, valid_sub_code, sub_code_column, is_negative, is_positive,
  pair_shapes, pair_args, pair_arity, tag_query, seconds,
}
use spottr.Db.Search.Run.{leb_int, eq_int, same_value, contains, pair_truth, truth}
use spottr.Db.Search.Meaning.{Means, none-Means, add-Means, as-Means, add_if-Means}

-- What a search asks of a row, filter by filter, in the words of the parameters.
abbrev pub listed : List ℤ → ℕ → Bool
listed [] n = true
listed (m ∷ ms) n = exists (eq_int (pos n)) (m ∷ ms)

-- A valid code asks for itself between the bars of its letter's column.
abbrev pub carries_in : Option Column → Bytes → Row → Bool
carries_in none s r = true
carries_in (some column) s r =
    not (valid_sub_code s) || contains (cell column r) (text (b'|' ∷ (s ++ b'|' ∷ [])))

abbrev pub carries : Row → Bytes → Bool
carries r [] = true
carries r (c ∷ s) = carries_in (sub_code_column c) (c ∷ s) r

abbrev pub carries_all : Row → List Bytes → Bool
carries_all r [] = true
carries_all r (s ∷ ss) = carries r s && carries_all r ss

abbrev pub is_pair : Row → CatKind → Bool
is_pair r ck =
    eq_int (pos r.category) ck.category && (is_negative ck.kind || eq_int (pos r.kind) ck.kind)

abbrev pub paired : List CatKind → Row → Bool
paired [] r = true
paired (ck ∷ cks) r = exists (is_pair r) (ck ∷ cks)

abbrev pub fits_age : SearchParams → Row → Bool
fits_age p r = if p.adult_only then r.is_adult else p.allow_adult || not r.is_adult

abbrev pub all_from : Bool → List Bool → Bool
all_from b [] = b
all_from b (c ∷ cs) = all_from (b && c) cs

and_assoc : (a b c : Bool) → ((a && b) && c) ≡ (a && (b && c))
and_assoc true b c = refl
and_assoc false b c = refl

length-map : (ns : List ℤ) → length (map int ns) ≡ length ns
length-map [] = refl
length-map (n ∷ ns) = ap suc (length-map ns)

module _ (matches : Bytes → Row → Bool) where
  abbrev pub filters : Bytes → SearchParams → Row → List Bool
  filters fts_query p r =
      (is_empty fts_query || matches fts_query r)
      ∷ listed p.categories r.category
      ∷ (is_empty p.tag || matches (tag_query p.tag) r)
      ∷ carries_all r p.sub_codes
      ∷ paired p.any_of r
      ∷ listed p.kinds r.kind
      ∷ (is_empty p.poster || eqb r.poster p.poster)
      ∷ (not (is_positive p.min_size) || leb_int p.min_size r.size)
      ∷ (not (is_positive p.max_size) || leb_int r.size p.max_size)
      ∷ (p.since == 0 || leb (p.since / nanos) r.posted_at)
      ∷ (p.before == 0 || not (leb (p.before / nanos) r.posted_at))
      ∷ not r.moderated
      ∷ fits_age p r
      ∷ []

  unfoldable pub asked_for : Bytes → SearchParams → Row → Bool
  asked_for fts_query p r = all_from true (filters fts_query p r)

  -- A filter on a column of numbers.
  module _ (c : Column) (number : Row → ℕ)
      (same : (r : Row) → cell c r ≡ int (pos (number r))) where
    one-listed :
        (n : ℤ) (r : Row) → truth matches (equals c) (int n ∷ []) r ≡ listed (n ∷ []) (number r)
    unfolding truth
    one-listed n r = rw (same r) (ground arith)

    exists-listed :
        (ns : List ℤ) (r : Row)
        → exists (same_value (cell c r)) (map int ns) ≡ exists (eq_int (pos (number r))) ns
    exists-listed [] r = refl
    exists-listed (n ∷ ns) r = rw (exists-listed ns r, same r) refl

    list-Means :
        (q : Query) (m : Row → Bool) (ns : List ℤ)
        → Means matches q m
        → Means matches (add_list c ns q) (λ r. m r && listed ns (number r))
    unfolding truth
    list-Means q m [] k = as-Means matches q m _ k (λ r. ground arith)
    list-Means q m (n ∷ []) k =
        as-Means matches _ _ _ (add-Means matches q m (equals c) (int n ∷ []) k refl)
          (λ r. ap (λ b. m r && b) (one-listed n r))
    list-Means q m (n ∷ n' ∷ ns) k =
        let ns' = n ∷ n' ∷ ns in
        let many : in_or_equal c (length ns') ≡ one_of c (length ns') = ground arith in
        let arity_eq : arity (one_of c (length ns')) ≡ length (map int ns') =
          sym (length-map ns') in
        rw many (
          as-Means matches _ _ _
            (add-Means matches q m (one_of c (length ns')) (map int ns') k arity_eq)
            (λ r. ap (λ b. m r && b) (exists-listed ns' r)))

  column-Means :
      (column : Option Column) (s : Bytes) (q : Query) (m : Row → Bool)
      → Means matches q m
      → Means matches (add_in column s q) (λ r. m r && carries_in column s r)
  unfolding truth
  column-Means none s q m k = as-Means matches q m _ k (λ r. ground arith)
  column-Means (some column) s q m k =
      add_if-Means matches (valid_sub_code s) q m (has_sub column)
        (text (b'|' ∷ (s ++ b'|' ∷ [])) ∷ []) k refl

  code-Means :
      (s : Bytes) (q : Query) (m : Row → Bool)
      → Means matches q m
      → Means matches (add_code s q) (λ r. m r && carries r s)
  code-Means [] q m k = as-Means matches q m _ k (λ r. ground arith)
  code-Means (c ∷ s) q m k = column-Means (sub_code_column c) (c ∷ s) q m k

  codes-Means :
      (ss : List Bytes) (q : Query) (m : Row → Bool)
      → Means matches q m
      → Means matches (add_codes ss q) (λ r. m r && carries_all r ss)
  codes-Means [] q m k = as-Means matches q m _ k (λ r. ground arith)
  codes-Means (s ∷ ss) q m k =
      as-Means matches _ _ _ (codes-Means ss (add_code s q) _ (code-Means s q m k))
        (λ r. and_assoc (m r) (carries r s) (carries_all r ss))

  length-pairs : (cks : List CatKind) → pair_arity (pair_shapes cks) ≡ length (pair_args cks)
  length-pairs [] = refl
  length-pairs (ck ∷ cks) = ground (arith, length-pairs cks)

  pair_truth-exists :
      (cks : List CatKind) (r : Row)
      → pair_truth (pair_shapes cks) (pair_args cks) r ≡ exists (is_pair r) cks
  pair_truth-exists [] r = refl
  pair_truth-exists (ck ∷ cks) r = elim (Bool-cases (is_negative ck.kind)) [
    | inl e ↦ rw (e, pair_truth-exists cks r) (ground arith)
    | inr e ↦ rw (e, pair_truth-exists cks r) (ground arith)
  ]

  pairs-Means :
      (q : Query) (m : Row → Bool) (cks : List CatKind)
      → Means matches q m
      → Means matches (add_pairs cks q) (λ r. m r && paired cks r)
  unfolding truth
  pairs-Means q m [] k = as-Means matches q m _ k (λ r. ground arith)
  pairs-Means q m (ck ∷ cks) k =
      let cks' = ck ∷ cks in
      as-Means matches _ _ _
        (add-Means matches q m (any_pair (pair_shapes cks')) (pair_args cks') k (length-pairs cks'))
        (λ r. ap (λ b. m r && b) (pair_truth-exists cks' r))

  adult-Means :
      (p : SearchParams) (q : Query) (m : Row → Bool)
      → Means matches q m
      → Means matches (add_adult p q) (λ r. m r && fits_age p r)
  unfolding truth
  adult-Means p q m k = elim (Bool-cases p.adult_only) [
    | inl e ↦
        let k' = add-Means matches q m (literally is_adult (pos 1)) [] k refl in
        rw e (as-Means matches _ _ _ k' (λ r. ground arith))
    | inr e ↦ elim (Bool-cases p.allow_adult) [
      | inl e' ↦ rw (e, e') (as-Means matches _ _ _ k (λ r. ground arith))
      | inr e' ↦
          let k' = add-Means matches q m (literally is_adult (pos 0)) [] k refl in
          rw (e, e') (as-Means matches _ _ _ k' (λ r. ground arith))
    ]
  ]

  -- A filter that a test switches off.
  unless-Means :
      (q : Query) (m : Row → Bool) (b : Bool) (c : Cond) (v : Value) (says : Row → Bool)
      → arity c ≡ 1
      → ((r : Row) → truth matches c (v ∷ []) r ≡ says r)
      → Means matches q m
      → Means matches (add_if (not b) c (v ∷ []) q) (λ r. m r && (b || says r))
  unless-Means q m b c v says one e k =
      as-Means matches _ _ _ (add_if-Means matches (not b) q m c (v ∷ []) k one)
        (λ r. rw (e r) (ground arith))

  -- A filter that a test switches on.
  test-Means :
      (q : Query) (m : Row → Bool) (b : Bool) (c : Cond) (v : Value) (says : Row → Bool)
      → arity c ≡ 1
      → ((r : Row) → truth matches c (v ∷ []) r ≡ says r)
      → Means matches q m
      → Means matches (add_if b c (v ∷ []) q) (λ r. m r && (not b || says r))
  test-Means q m b c v says one e k =
      as-Means matches _ _ _ (add_if-Means matches b q m c (v ∷ []) k one) (λ r. rw (e r) refl)

  shown-Means :
      (q : Query) (m : Row → Bool)
      → Means matches q m
      → Means matches (add (literally moderated (pos 0)) [] q) (λ r. m r && not r.moderated)
  unfolding truth
  shown-Means q m k =
      as-Means matches _ _ _ (add-Means matches q m (literally moderated (pos 0)) [] k refl)
        (λ r. ground arith)

  -- The query that `SearchSpots` writes has a value for each placeholder, and it selects a row
  -- exactly when the row passes each filter that the parameters set.
  pub where_clause-Means :
      (fts_query : Bytes) (p : SearchParams)
      → Means matches (where_clause fts_query p) (asked_for fts_query p)
  unfolding where_clause asked_for truth
  where_clause-Means fts_query p =
      let k1 =
        unless-Means _ _ (is_empty fts_query) in_fts (text fts_query) (matches fts_query) refl
          (λ r. refl) (none-Means matches) in
      let k2 = list-Means category (λ r. r.category) (λ r. refl) _ _ p.categories k1 in
      let k3 =
        unless-Means _ _ (is_empty p.tag) in_fts (text (tag_query p.tag))
          (matches (tag_query p.tag)) refl (λ r. refl) k2 in
      let k4 = codes-Means p.sub_codes _ _ k3 in
      let k5 = pairs-Means _ _ p.any_of k4 in
      let k6 = list-Means kind (λ r. r.kind) (λ r. refl) _ _ p.kinds k5 in
      let k7 =
        unless-Means _ _ (is_empty p.poster) (equals poster) (text p.poster)
          (λ r. eqb r.poster p.poster) refl (λ r. refl) k6 in
      let k8 =
        test-Means _ _ (is_positive p.min_size) (at_least size) (int p.min_size)
          (λ r. leb_int p.min_size r.size) refl (λ r. refl) k7 in
      let k9 =
        test-Means _ _ (is_positive p.max_size) (at_most size) (int p.max_size)
          (λ r. leb_int r.size p.max_size) refl (λ r. refl) k8 in
      let k10 =
        unless-Means _ _ (p.since == 0) (at_least posted_at) (seconds p.since)
          (λ r. leb (p.since / nanos) r.posted_at) refl (λ r. refl) k9 in
      let k11 =
        unless-Means _ _ (p.before == 0) (below posted_at) (seconds p.before)
          (λ r. not (leb (p.before / nanos) r.posted_at)) refl (λ r. refl) k10 in
      adult-Means p _ _ (shown-Means _ _ k11)
