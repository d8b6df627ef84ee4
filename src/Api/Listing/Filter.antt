-- ===== src/Api/Listing/Filter.antt =====
-- router.go: Newznab categories and the spots behind them.
pub mod Round
use spottr.Base.{
  ℕ, zero, suc, ◌+◌, Bool, true, false, not, ◌&&◌, ◌||◌, Option, none, some, List, [], ◌∷◌, ◌++◌,
  ◌==◌, if◌then◌else◌,
}
use spottr.Text.{Bytes, codes, is_empty, eqb, split, trim_space, has_prefix}
use spottr.Text.Numbers.{ℤ, pos, negsuc}
use spottr.Db.Kind.{kind_movie, kind_series, kind_book, kind_comic, kind_erotic}
use spottr.Db.Tables.{Row}
use spottr.Db.Search.{CatKind}

-- The main categories
abbrev pub cat_image : ℕ
cat_image = 0

abbrev pub cat_audio : ℕ
cat_audio = 1

abbrev pub cat_game : ℕ
cat_game = 2

abbrev pub cat_app : ℕ
cat_app = 3

-- The closures `img` and `any`.
abbrev pub image_kind : ℕ → CatKind
image_kind k = record { category = pos cat_image; kind = pos k }

abbrev pub any_kind : ℕ → CatKind
any_kind category = record { category = pos category; kind = negsuc 0 }

-- What the loop has seen.
pub record Seen : Type 0 where
  pub any_of : List CatKind
  pub adult_asked : Bool
  pub other_asked : Bool

abbrev pub more : List CatKind → Seen → Seen
more cks s = record s { any_of = s.any_of ++ cks; other_asked = true }

-- A round of the loop, for a part that was trimmed.
unfoldable pub see_part : Bytes → Seen → Seen
see_part c s =
    if is_empty c
    then s
    else if eqb c (codes "7030")
    then more (image_kind kind_comic ∷ []) s
    else if eqb c (codes "7020")
    then more (image_kind kind_book ∷ []) s
    else if has_prefix c (codes "7")
    then more (image_kind kind_book ∷ image_kind kind_comic ∷ []) s
    else if has_prefix c (codes "2")
    then more (image_kind kind_movie ∷ []) s
    else if has_prefix c (codes "5")
    then more (image_kind kind_series ∷ []) s
    else if has_prefix c (codes "3")
    then more (any_kind cat_audio ∷ []) s
    else if has_prefix c (codes "1")
    then more (any_kind cat_game ∷ []) s
    else if has_prefix c (codes "4")
    then more (any_kind cat_game ∷ any_kind cat_app ∷ []) s
    else if has_prefix c (codes "6")
    then record s { adult_asked = true }
    else s

unfoldable pub see_parts : List Bytes → Seen → Seen
unfolding see_part
see_parts [] s = s
see_parts (c ∷ cs) s = see_parts cs (see_part (trim_space c) s)

abbrev pub nothing_seen : Seen
nothing_seen = record { any_of = []; adult_asked = false; other_asked = false }

abbrev pub nothing_matches : CatKind
nothing_matches = record { category = negsuc 0; kind = negsuc 0 }

-- The end of `newznabFilter`: the pairs, and whether 18+ alone is asked for.
abbrev pub filter_of : Bool → Seen → List CatKind × Bool
filter_of allow_adult s =
    if s.adult_asked && not s.other_asked
    then if allow_adult then (image_kind kind_erotic ∷ [], true) else (nothing_matches ∷ [], false)
    else (s.any_of, false)

-- `newznabFilter`
unfoldable pub newznab_filter : Bytes → Bool → List CatKind × Bool
unfolding see_parts
newznab_filter cat allow_adult = filter_of allow_adult (see_parts (split cat b',') nothing_seen)

-- `newznabCatID`
unfoldable pub newznab_cat_id : Row → Bytes
newznab_cat_id r =
    if r.category == cat_image
    then if r.kind == kind_series
      then codes "5000"
      else if r.kind == kind_book
      then codes "7020"
      else if r.kind == kind_comic
      then codes "7030"
      else if r.kind == kind_erotic
      then codes "6000"
      else codes "2000"
    else if r.category == cat_audio
    then codes "3000"
    else if r.category == cat_game
    then codes "1000"
    else if r.category == cat_app
    then codes "4000"
    else codes "8000"
