-- ===== src/Db/Search/Meaning.antt =====
-- db.go: the query of SearchSpots means what its parameters ask for.
use spottr.Base.{
  ◌≤◌, length-append, ℕ, zero, suc, ◌+◌, ◌≡◌, refl, sym, ap, ◌∙◌, Bool, true, false, not, ◌&&◌,
  ◌||◌, List, [], ◌∷◌, ◌++◌, arith, take, drop, length,
}
use spottr.Text.{Bytes}
use spottr.Db.Tables.{Row}
use spottr.Db.Search.{Value, Cond, arity, Query, add, add_if, no_conditions}
use spottr.Db.Search.Run.{truth, clause_truth, placeholders}

take-append_le : (n : ℕ) (xs ys : List Value) → n ≤ length xs → take n (xs ++ ys) ≡ take n xs
take-append_le zero xs ys h = refl
take-append_le (suc n) [] ys h = absurd (omega (arith, h))
take-append_le (suc n) (x ∷ xs) ys h = ap (λ zs. x ∷ zs) (take-append_le n xs ys (omega (arith, h)))

drop-append_le : (n : ℕ) (xs ys : List Value) → n ≤ length xs → drop n (xs ++ ys) ≡ drop n xs ++ ys
drop-append_le zero xs ys h = refl
drop-append_le (suc n) [] ys h = absurd (omega (arith, h))
drop-append_le (suc n) (x ∷ xs) ys h = drop-append_le n xs ys (omega (arith, h))

length-drop : (n m : ℕ) (xs : List Value) → n + m ≡ length xs → length (drop n xs) ≡ m
length-drop zero m xs h = omega (arith, h)
length-drop (suc n) m [] h = absurd (omega (arith, h))
length-drop (suc n) m (x ∷ xs) h = length-drop n m xs (omega (arith, h))

take-length : (n : ℕ) (xs : List Value) → n ≡ length xs → take n xs ≡ xs
take-length zero [] h = refl
take-length zero (x ∷ xs) h = absurd (omega (arith, h))
take-length (suc n) [] h = absurd (omega (arith, h))
take-length (suc n) (x ∷ xs) h = ap (λ zs. x ∷ zs) (take-length n xs (omega (arith, h)))

placeholders-append :
    (cs : List Cond) (c : Cond) → placeholders (cs ++ c ∷ []) ≡ placeholders cs + arity c
placeholders-append [] c = omega arith
placeholders-append (x ∷ cs) c = omega (arith, placeholders-append cs c)

module _ (matches : Bytes → Row → Bool) where
  -- The query has a value for each placeholder, and says `m` of a row.
  pub record Means (q : Query) (m : Row → Bool) : Type 0 where
    pub balanced : placeholders q.conds ≡ length q.args
    pub says : (r : Row) → clause_truth matches q.conds q.args r ≡ m r

  pub none-Means : Means no_conditions (λ r. true)
  unfolding clause_truth
  none-Means = record { balanced = refl; says = λ r. refl }

  clause_truth-snoc :
      (cs : List Cond) (args vs : List Value) (c : Cond) (r : Row)
      → placeholders cs ≡ length args
      → arity c ≡ length vs
      → clause_truth matches (cs ++ c ∷ []) (args ++ vs) r
        ≡ (clause_truth matches cs args r && truth matches c vs r)
  unfolding clause_truth
  clause_truth-snoc [] [] vs c r h h' = rw (take-length (arity c) vs h') (ground arith)
  clause_truth-snoc [] (a ∷ args) vs c r h h' = absurd (omega (arith, h))
  clause_truth-snoc (x ∷ cs) args vs c r h h' =
      let room : arity x ≤ length args = omega (arith, h) in
      let rest = length-drop (arity x) (placeholders cs) args h in
      let ih = clause_truth-snoc cs (drop (arity x) args) vs c r (sym rest) h' in
      rw (take-append_le (arity x) args vs room, drop-append_le (arity x) args vs room, ih)
        (ground arith)

  pub add-Means :
      (q : Query) (m : Row → Bool) (c : Cond) (vs : List Value)
      → Means q m
      → arity c ≡ length vs
      → Means (add c vs q) (λ r. m r && truth matches c vs r)
  add-Means q m c vs k h = record {
    balanced = omega (arith, placeholders-append q.conds c, length-append q.args vs, k.balanced, h);
    says = λ r.
        clause_truth-snoc q.conds q.args vs c r k.balanced h
        ∙ ap (λ b. b && truth matches c vs r) (k.says r);
  }

  -- The same for another wording of what is said.
  pub as-Means : (q : Query) (m m' : Row → Bool) → Means q m → ((r : Row) → m r ≡ m' r) → Means q m'
  as-Means q m m' k e = record { balanced = k.balanced; says = λ r. k.says r ∙ e r }

  pub add_if-Means :
      (b : Bool) (q : Query) (m : Row → Bool) (c : Cond) (vs : List Value)
      → Means q m
      → arity c ≡ length vs
      → Means (add_if b c vs q) (λ r. m r && (not b || truth matches c vs r))
  add_if-Means true q m c vs k h = add-Means q m c vs k h
  add_if-Means false q m c vs k h = as-Means q m _ k (λ r. ground arith)
