-- ===== src/Db/Kind.antt =====
-- internal/db/kind.go: the kind of an image spot, from its subcategory codes.
use spottr.Base.{
  ℕ, zero, suc, ◌+◌, ◌-◌, ◌≡◌, refl, Bool, not, ◌&&◌, List, [], ◌∷◌, ◌++◌, ◌==◌, if◌then◌else◌,
  keep, exists,
}
use spottr.Text.{Bytes, codes, is_empty, eqb, split}
use spottr.Text.Numbers.{format_uint}

abbrev pub kind_none : ℕ
kind_none = 0

abbrev pub kind_movie : ℕ
kind_movie = 1

abbrev pub kind_series : ℕ
kind_series = 2

abbrev pub kind_book : ℕ
kind_book = 3

abbrev pub kind_comic : ℕ
kind_comic = 4

abbrev pub kind_erotic : ℕ
kind_erotic = 5

-- The loop `for n := lo; n <= hi; n++` of `codeRange`, by the rounds left.
code_run : ℕ → ℕ → ℕ → List Bytes
code_run letter n zero = []
code_run letter n (suc rounds) = (letter ∷ format_uint n) ∷ code_run letter (n + 1) rounds

-- `codeRange`; the bounds come in pairs.
unfoldable pub code_range : ℕ → List ℕ → List Bytes
unfolding code_run
code_range letter [] = []
code_range letter (lo ∷ []) = []
code_range letter (lo ∷ hi ∷ bounds) = code_run letter lo (hi + 1 - lo) ++ code_range letter bounds

unfoldable pub erotic_genres : List Bytes
unfolding code_range format_uint
erotic_genres = code_range b'd' (23 ∷ 26 ∷ 72 ∷ 89 ∷ [])

abbrev pub series_codes : List Bytes
series_codes = codes "b4" ∷ codes "d11" ∷ []

abbrev pub book_codes : List Bytes
book_codes = codes "a5" ∷ codes "a11" ∷ []

abbrev pub picture_codes : List Bytes
picture_codes = codes "a12" ∷ codes "a13" ∷ []

-- The codes of a column, "a5|c2|".
unfoldable pub column_codes : Bytes → List Bytes
column_codes s = keep (λ c. not (is_empty c)) (split s b'|')

unfoldable pub has_code : List Bytes → Bytes → Bool
unfolding eqb
has_code cs c = exists (eqb c) cs

unfoldable pub has_any : List Bytes → List Bytes → Bool
unfolding has_code
has_any cs list = exists (has_code cs) list

-- The two switches of `KindOf`.
unfoldable pub kind_of_codes : List Bytes → ℕ
kind_of_codes cs =
    if has_code cs (codes "z3")
    then kind_erotic
    else if has_code cs (codes "z2") && has_code cs (codes "d31")
    then kind_comic
    else if has_code cs (codes "z2")
    then kind_book
    else if has_code cs (codes "z1")
    then kind_series
    else if has_code cs (codes "z0")
    then kind_movie
    else if has_code cs (codes "z4")
    then kind_none
    else if has_any cs erotic_genres
    then kind_erotic
    else if has_any cs series_codes
    then kind_series
    else if has_any cs book_codes
    then if has_code cs (codes "d31") then kind_comic else kind_book
    else if has_any cs picture_codes
    then kind_none
    else kind_movie

-- `KindOf`
unfoldable pub kind_of : ℕ → Bytes → Bytes → Bytes → ℕ
unfolding kind_of_codes
kind_of category sub_cat_a sub_cat_b sub_cat_d =
    if not (category == 0)
    then kind_none
    else kind_of_codes
        (column_codes sub_cat_a ++ (column_codes sub_cat_b ++ column_codes sub_cat_d))

comic_book : kind_of 0 (codes "a5|") [] (codes "d31|z2|") ≡ kind_comic
unfolding kind_of column_codes split has_code
comic_book = refl

old_erotic : kind_of 0 [] (codes "b4|") (codes "d75|") ≡ kind_erotic
unfolding kind_of column_codes split has_code has_any erotic_genres
old_erotic = refl
