-- ===== src/Db/Fts/Quoted.antt =====
-- fts.go: what a search text is to FTS5.
use spottr.Base.{
  All-mono, ◌==◌, ℕ, zero, suc, ◌≤◌, ◌≡◌, refl, sym, subst, ◌⊎◌, inl, inr, true, false, not, ◌&&◌,
  some, List, [], ◌∷◌, ◌++◌, arith, Bool-cases, Option-cases, All, take, length, keep, leb,
}
use spottr.Text.{Bytes, codes, is_empty, eqb, fields, join, trim_space, to_lower, has_suffix}
use spottr.Text.Laws.{eqb_eq, All-trim_space}
use spottr.Db.Fts.{
  is_meta, is_operator, fold_operator, quoted, cleaned_field, fts_term, fts_terms,
  sanitize_fts_query,
}

abbrev Plain : ℕ → Type 0
Plain c = is_meta c ≡ false

-- The double quote, and ' ( ) * : ^ - + and the backslash.
abbrev pub dropped : List ℕ
dropped = 34 ∷ 39 ∷ 40 ∷ 41 ∷ 42 ∷ 58 ∷ 94 ∷ 45 ∷ 43 ∷ 92 ∷ []

-- A byte that is none of them.
abbrev pub Literal : ℕ → Type 0
Literal c = All (λ m. (c == m) ≡ false) dropped

Plain-Literal : (c : ℕ) → Plain c → Literal c
Plain-Literal c h = (
  ground (arith, h),
  (
    ground (arith, h),
    (
      ground (arith, h),
      (
        ground (arith, h),
        (
          ground (arith, h),
          (
            ground (arith, h),
            (ground (arith, h), (ground (arith, h), (ground (arith, h), (ground (arith, h), tt)))),
          ),
        ),
      ),
    ),
  ),
)

All-take : (n : ℕ) (s : Bytes) → All Plain s → All Plain (take n s)
All-take zero s h = tt
All-take (suc n) [] h = tt
All-take (suc n) (c ∷ s) (p, h) = (p, All-take n s h)

take-le : (n : ℕ) (s : Bytes) → length (take n s) ≤ n
take-le zero s = omega arith
take-le (suc n) [] = omega arith
take-le (suc n) (c ∷ s) = omega (arith, take-le n s)

keep-Plain : (s : Bytes) → All Plain (keep (λ c. not (is_meta c)) s)
keep-Plain [] = tt
keep-Plain (c ∷ s) = elim (Bool-cases (is_meta c)) [
  | inl e ↦ rw e (keep-Plain s)
  | inr e ↦ rw e (e, keep-Plain s)
]

module _ (repaired : Bytes → Bytes) (rune_count : Bytes → ℕ) where
  cleaned_field-Plain : (field : Bytes) → All Plain (cleaned_field repaired rune_count field)
  unfolding cleaned_field
  cleaned_field-Plain field = All-take 64 _ (All-trim_space Plain _ (keep-Plain (repaired field)))

  cleaned_field-le : (field : Bytes) → length (cleaned_field repaired rune_count field) ≤ 64
  unfolding cleaned_field
  cleaned_field-le field = take-le 64 _

-- The text of a term: not empty, at most 64 bytes, and none of those that are dropped.
record IsText (s : Bytes) : Type 0 where
  plain : All Literal s
  short : length s ≤ 64
  some_text : is_empty s ≡ false

operator-IsText : (low : Bytes) → is_operator low ≡ true → IsText low
unfolding eqb
operator-IsText low h =
    let text : (w : Bytes) → IsText w → eqb low w ≡ true → IsText low =
      λ w t e. subst IsText (sym (eqb_eq low w e)) t in
    elim (Bool-cases (eqb low (codes "and"))) [
      | inl e ↦
          text (codes "and")
            (record {
              plain = All-mono Plain Literal Plain-Literal (codes "and") (refl, (refl, (refl, tt)));
              short = omega arith;
              some_text = refl;
            })
            e
      | inr e ↦ elim (Bool-cases (eqb low (codes "or"))) [
        | inl e' ↦
            text (codes "or")
              (record {
                plain = All-mono Plain Literal Plain-Literal (codes "or") (refl, (refl, tt));
                short = omega arith;
                some_text = refl;
              })
              e'
        | inr e' ↦ elim (Bool-cases (eqb low (codes "not"))) [
          | inl e'' ↦
              text (codes "not")
                (record {
                  plain =
                      All-mono Plain Literal Plain-Literal (codes "not") (refl, (refl, (refl, tt)));
                  short = omega arith;
                  some_text = refl;
                })
                e''
          | inr e'' ↦
              text (codes "near")
                (record {
                  plain =
                      All-mono Plain Literal Plain-Literal (codes "near")
                        (refl, (refl, (refl, (refl, tt))));
                  short = omega arith;
                  some_text = refl;
                })
                (ground (arith, e, e', e'', h))
        ]
      ]
    ]

fold_operator-IsText : (s : Bytes) → IsText s → IsText (fold_operator s)
unfolding fold_operator
fold_operator-IsText s t = elim (Bool-cases (is_operator (to_lower s))) [
  | inl e ↦ rw (e, fold_operator) (operator-IsText (to_lower s) e)
  | inr e ↦ rw (e, fold_operator) t
]

-- A term of the expression: a text in quotes, with a star behind it or not.
pub record IsTerm (rune_count : Bytes → ℕ) (term : Bytes) : Type 0 where
  text : Bytes
  good : IsText text
  shape : (term ≡ quoted text) ⊎ (term ≡ quoted text ++ codes "*") × (3 ≤ rune_count text)

-- The MATCH expression of a search text.
pub record IsMatch (rune_count : Bytes → ℕ) (query : Bytes) : Type 0 where
  terms : List Bytes
  joined : query ≡ join terms (codes " AND ")
  good : All (IsTerm rune_count) terms
  few : length terms ≤ 12

module _ (repaired : Bytes → Bytes) (rune_count : Bytes → ℕ) where
  fts_term-IsTerm :
      (field term : Bytes) → fts_term repaired rune_count field ≡ some term → IsTerm rune_count term
  unfolding fts_term
  fts_term-IsTerm field term h =
      let cleaned = cleaned_field repaired rune_count field in
      let text = fold_operator cleaned in
      elim (Bool-cases (is_empty cleaned)) [
        | inl e ↦ absurd (ground (arith, e, h))
        | inr e ↦
            let good = fold_operator-IsText cleaned (record {
              plain =
                  All-mono Plain Literal Plain-Literal _
                    (cleaned_field-Plain repaired rune_count field);
              short = cleaned_field-le repaired rune_count field;
              some_text = e;
            }) in
            elim (Bool-cases (has_suffix field (codes "*") && leb 3 (rune_count text))) [
              | inl e' ↦ record {
                text = text;
                good = good;
                shape = inr (ground (arith, e, e', h), ground (arith, e'));
              }
              | inr e' ↦ record { text = text; good = good; shape = inl (ground (arith, e, e', h)) }
            ]
      ]

  fts_terms-IsTerm :
      (room : ℕ) (fs : List Bytes)
      → All (IsTerm rune_count) (fts_terms repaired rune_count room fs)
        × (length (fts_terms repaired rune_count room fs) ≤ room)
  unfolding fts_terms
  fts_terms-IsTerm zero fs = (tt, omega arith)
  fts_terms-IsTerm (suc room) [] = (tt, omega arith)
  fts_terms-IsTerm (suc room) (field ∷ fs) =
      elim (Option-cases (fts_term repaired rune_count field)) [
        | inl e ↦ rw (e, fts_terms) (fts_terms-IsTerm (suc room) fs)
        | inr (term, e) ↦
            let (good, less) = fts_terms-IsTerm room fs in
            rw (e, fts_terms) ((fts_term-IsTerm field term e, good), omega (arith, less))
      ]

  -- Whatever a user types, the MATCH expression is empty or joins at most twelve terms with AND. A
  -- term is a text between double quotes, not empty and of at most 64 bytes, that holds no double
  -- quote, so that it ends where the term says, and none of ' ( ) * : ^ - + and the backslash; behind
  -- it a star may stand where it has three runes or more.
  pub sanitize_fts_query-IsMatch :
      (raw : Bytes) → IsMatch rune_count (sanitize_fts_query repaired rune_count raw)
  unfolding sanitize_fts_query join
  sanitize_fts_query-IsMatch raw = elim (Bool-cases (is_empty (trim_space raw))) [
    | inl e ↦ record { terms = []; joined = ground (arith, e); good = tt; few = omega arith }
    | inr e ↦
        let (good, few) = fts_terms-IsTerm 12 (fields raw) in
        record {
          terms = fts_terms repaired rune_count 12 (fields raw);
          joined = ground (arith, e);
          good = good;
          few = few;
        }
  ]
