-- ===== src/Db/KindSql.antt =====
-- internal/db/kind.go: `kindCaseSQL`, the migration's CASE expression, and its equality with
-- `KindOf` on stored columns.
use spottr.Base.{
  ℕ, ◌≡◌, refl, subst, Bool, true, false, not, ◌&&◌, ◌||◌, List, [], ◌∷◌, ◌++◌, arith, All, ◌==◌,
  if◌then◌else◌, exists, Bool-cases, inl, inr,
}
use spottr.Text.{Bytes, codes, eqb, contains}
use spottr.Db.Kind.{
  kind_of, kind_of_codes, has_code, has_any, erotic_genres, series_codes, book_codes, picture_codes,
  kind_none,
}
use spottr.Db.Columns.{
  bar, stored, IsColumn, IsCode, IsPlainCode, NotBar, LetterA, LetterB, LetterD, IsCode-All,
  column_codes-stored, contains-stored,
}

-- `instr('|' || col, '|code|') > 0`
unfoldable pub sql_has : Bytes → Bytes → Bool
sql_has col code = contains (bar ∷ col) (bar ∷ (code ++ bar ∷ []))

-- A disjunction of such tests.
unfoldable pub sql_any : Bytes → List Bytes → Bool
sql_any col list = exists (sql_has col) list

-- `kindCaseSQL`
unfoldable pub kind_case : ℕ → Bytes → Bytes → Bytes → ℕ
kind_case category a b d =
    if not (category == 0)
    then 0
    else if sql_has d (codes "z3")
    then 5
    else if sql_has d (codes "z2") && sql_has d (codes "d31")
    then 4
    else if sql_has d (codes "z2")
    then 3
    else if sql_has d (codes "z1")
    then 2
    else if sql_has d (codes "z0")
    then 1
    else if sql_has d (codes "z4")
    then 0
    else if sql_any d erotic_genres
    then 5
    else if sql_has b (codes "b4") || sql_has d (codes "d11")
    then 2
    else if sql_any a book_codes && sql_has d (codes "d31")
    then 4
    else if sql_any a book_codes
    then 3
    else if sql_any a picture_codes
    then 0
    else 1

has_code-append :
    (cs ds : List Bytes) (c : Bytes) → has_code (cs ++ ds) c ≡ (has_code cs c || has_code ds c)
unfolding has_code
has_code-append [] ds c = refl
has_code-append (x ∷ cs) ds c = ground (arith, has_code-append cs ds c)

-- A code whose letter a column does not admit is not in it.
has_code-letter :
    (P : ℕ → Type 0) (cs : List Bytes) (k : ℕ) (n : Bytes)
    → ¬ P k
    → All (IsCode P) cs
    → has_code cs (k ∷ n) ≡ false
unfolding has_code eqb
has_code-letter P [] k n no_letter h = refl
has_code-letter P ([] ∷ cs) k n no_letter h = absurd h.0
has_code-letter P ((x ∷ c) ∷ cs) k n no_letter h = elim (Bool-cases (k == x)) [
  | inl e ↦ let same : x ≡ k = ground arith in absurd (no_letter (subst P same h.0.0))
  | inr e ↦ rw (e, has_code) (has_code-letter P cs k n no_letter h.1)
]

-- The tests that a code for the fourth column passes: its letter is d, and it holds no bar.
genre_ok : Bytes → Bool
genre_ok [] = false
genre_ok (k ∷ n) = (k == b'd') && not (exists (λ c. c == bar) n)

not_bars : (n : Bytes) → exists (λ c. c == bar) n ≡ false → All NotBar n
not_bars [] h = tt
not_bars (c ∷ n) h = ground (arith, not_bars n)

genres_ok : List Bytes → Bool
unfolding genre_ok
genres_ok [] = true
genres_ok (c ∷ cs) = genre_ok c && genres_ok cs

erotic_genres_ok : genres_ok erotic_genres ≡ true
unfolding genres_ok erotic_genres
erotic_genres_ok = refl

module _ (xs ys zs : List Bytes) (ha : All (IsCode LetterA) xs) (hb : All (IsCode LetterB) ys)
    (hd : All (IsCode LetterD) zs) where
  all_codes : List Bytes
  all_codes = xs ++ (ys ++ zs)

  plain_a : All IsPlainCode xs
  plain_a = IsCode-All LetterA (λ c h. omega arith) xs ha

  plain_b : All IsPlainCode ys
  plain_b = IsCode-All LetterB (λ c h. omega arith) ys hb

  plain_d : All IsPlainCode zs
  plain_d = IsCode-All LetterD (λ c h. omega arith) zs hd

  -- Each test of the two sides looks at the column of its letter.
  has_d :
      (k : ℕ) (n : Bytes)
      → LetterD k
      → All NotBar (k ∷ n)
      → has_code all_codes (k ∷ n) ≡ sql_has (stored zs) (k ∷ n)
  unfolding all_codes sql_has
  has_d k n hk plain = ground (
    arith,
    has_code-append xs (ys ++ zs) (k ∷ n),
    has_code-append ys zs (k ∷ n),
    has_code-letter LetterA xs k n (λ e. omega arith) ha,
    has_code-letter LetterB ys k n (λ e. omega arith) hb,
    contains-stored zs (k ∷ n) plain_d plain,
  )

  has_b :
      (n : Bytes)
      → All NotBar (b'b' ∷ n)
      → has_code all_codes (b'b' ∷ n) ≡ sql_has (stored ys) (b'b' ∷ n)
  unfolding all_codes sql_has
  has_b n plain = ground (
    arith,
    has_code-append xs (ys ++ zs) (b'b' ∷ n),
    has_code-append ys zs (b'b' ∷ n),
    has_code-letter LetterA xs b'b' n (λ e. omega arith) ha,
    has_code-letter LetterD zs b'b' n (λ e. omega arith) hd,
    contains-stored ys (b'b' ∷ n) plain_b plain,
  )

  has_a :
      (n : Bytes)
      → All NotBar (b'a' ∷ n)
      → has_code all_codes (b'a' ∷ n) ≡ sql_has (stored xs) (b'a' ∷ n)
  unfolding all_codes sql_has
  has_a n plain = ground (
    arith,
    has_code-append xs (ys ++ zs) (b'a' ∷ n),
    has_code-append ys zs (b'a' ∷ n),
    has_code-letter LetterB ys b'a' n (λ e. omega arith) hb,
    has_code-letter LetterD zs b'a' n (λ e. omega arith) hd,
    contains-stored xs (b'a' ∷ n) plain_a plain,
  )

  any_d :
      (list : List Bytes)
      → genres_ok list ≡ true
      → has_any all_codes list ≡ sql_any (stored zs) list
  unfolding has_any sql_any genres_ok genre_ok
  any_d [] h = refl
  any_d ([] ∷ list) h = absurd (cc)
  any_d ((k ∷ n) ∷ list) h =
      let letter : k ≡ b'd' = ground arith in
      let plain : All NotBar n = not_bars n (ground arith) in
      ground (arith, has_d k n (inl letter) (omega arith, plain), any_d list)

  any_series :
      has_any all_codes series_codes
      ≡ (sql_has (stored ys) (codes "b4") || sql_has (stored zs) (codes "d11"))
  unfolding has_any
  any_series =
      ground
        (arith, has_b (codes "4") (omega arith), has_d b'd' (codes "11") (inl refl) (omega arith))

  any_books : has_any all_codes book_codes ≡ sql_any (stored xs) book_codes
  unfolding has_any sql_any
  any_books = ground (arith, has_a (codes "5") (omega arith), has_a (codes "11") (omega arith))

  any_pictures : has_any all_codes picture_codes ≡ sql_any (stored xs) picture_codes
  unfolding has_any sql_any
  any_pictures = ground (arith, has_a (codes "12") (omega arith), has_a (codes "13") (omega arith))

  nested_test :
      (p q : Bool) (n : ℕ)
      → (if p && q then 4 else if p then 3 else n) ≡ (if p then if q then 4 else 3 else n)
  nested_test p q n = ground arith

  kind_case-codes :
      (category : ℕ)
      → kind_case category (stored xs) (stored ys) (stored zs)
        ≡ (if not (category == 0) then kind_none else kind_of_codes all_codes)
  unfolding kind_case kind_of_codes
  kind_case-codes category = rw (
    nested_test (sql_any (stored xs) book_codes) (sql_has (stored zs) (codes "d31")),
    has_d b'z' (codes "3") (inr refl) (omega arith),
    has_d b'z' (codes "2") (inr refl) (omega arith),
    has_d b'd' (codes "31") (inl refl) (omega arith),
    has_d b'z' (codes "1") (inr refl) (omega arith),
    has_d b'z' (codes "0") (inr refl) (omega arith),
    has_d b'z' (codes "4") (inr refl) (omega arith),
    any_d erotic_genres erotic_genres_ok,
    any_series,
    any_books,
    any_pictures,
  )

-- On columns of stored codes, each under its own letters, the migration's SQL expression gives
-- every spot the kind that `KindOf` gives it.
pub kind_case-kind_of :
    (category : ℕ) (a b d : Bytes)
    → IsColumn LetterA a
    → IsColumn LetterB b
    → IsColumn LetterD d
    → kind_case category a b d ≡ kind_of category a b d
unfolding kind_of all_codes
kind_case-kind_of category a b d (xs, ea, ha) (ys, eb, hb) (zs, ed, hd) =
    rw
      (
        ea,
        eb,
        ed,
        column_codes-stored xs (plain_a xs ys zs ha hb hd),
        column_codes-stored ys (plain_b xs ys zs ha hb hd),
        column_codes-stored zs (plain_d xs ys zs ha hb hd),
      )
      (kind_case-codes xs ys zs ha hb hd category)
