-- ===== src/Db/Fts.antt =====
-- internal/db/fts.go: a search text becomes an FTS5 MATCH expression.
pub mod Quoted
use spottr.Base.{
  ℕ, zero, suc, Bool, true, false, not, ◌&&◌, ◌||◌, Option, none, some, List, [], ◌∷◌, ◌++◌, ◌==◌,
  leb, if◌then◌else◌, take, keep,
}
use spottr.Text.{Bytes, codes, is_empty, eqb, fields, join, trim_space, to_lower, has_suffix}

-- `maxFTSTerms`
abbrev pub max_fts_terms : ℕ
max_fts_terms = 12

-- `maxFTSTermLen`
abbrev pub max_fts_term_len : ℕ
max_fts_term_len = 64

-- `minPrefixLen`
abbrev pub min_prefix_len : ℕ
min_prefix_len = 3

-- The characters that `strings.Map` drops.
abbrev pub is_meta : ℕ → Bool
is_meta c =
    c == b'"'
    || c == 39
    || c == b'('
    || c == b')'
    || c == b'*'
    || c == b':'
    || c == b'^'
    || c == b'-'
    || c == b'+'
    || c == 92

-- `strings.ToUpper` gives one of the four words on exactly the texts of which `strings.ToLower`
-- gives the same word in small letters.
abbrev pub is_operator : Bytes → Bool
is_operator low =
    eqb low (codes "and") || eqb low (codes "or") || eqb low (codes "not") || eqb low (codes "near")

unfoldable pub fold_operator : Bytes → Bytes
fold_operator cleaned = if is_operator (to_lower cleaned) then to_lower cleaned else cleaned

abbrev pub quoted : Bytes → Bytes
quoted s = b'"' ∷ (s ++ b'"' ∷ [])

-- `repaired` is what `strings.Map` writes for the bytes of a text that are not UTF-8, the others as
-- they are; `rune_count` is the length of the text as runes.
module _ (repaired : Bytes → Bytes) (rune_count : Bytes → ℕ) where
  -- The literal text of a field, cut to its limit.
  unfoldable pub cleaned_field : Bytes → Bytes
  cleaned_field field =
      take max_fts_term_len (trim_space (keep (λ c. not (is_meta c)) (repaired field)))

  unfoldable pub fts_term : Bytes → Option Bytes
  unfolding cleaned_field fold_operator
  fts_term field =
      let cleaned = fold_operator (cleaned_field field) in
      if is_empty (cleaned_field field)
      then none
      else if has_suffix field (codes "*") && leb min_prefix_len (rune_count cleaned)
      then some (quoted cleaned ++ codes "*")
      else some (quoted cleaned)

  -- The loop over the fields, with the room that is left.
  unfoldable pub fts_terms : ℕ → List Bytes → List Bytes
  unfolding fts_term
  fts_terms zero fs = []
  fts_terms (suc room) [] = []
  fts_terms (suc room) (field ∷ fs) = elim (fts_term field) [
    | none ↦ fts_terms (suc room) fs
    | some term ↦ term ∷ fts_terms room fs
  ]

  -- `SanitizeFTSQuery`
  unfoldable pub sanitize_fts_query : Bytes → Bytes
  unfolding fts_terms
  sanitize_fts_query raw =
      if is_empty (trim_space raw)
      then []
      else join (fts_terms max_fts_terms (fields raw)) (codes " AND ")
