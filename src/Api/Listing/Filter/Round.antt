-- ===== src/Api/Listing/Filter/Round.antt =====
-- router.go: the category that Newznab shows for a spot finds the spot again.
use spottr.Base.{if◌then◌else◌, ◌≡◌, Bool, not, ◌&&◌, ◌||◌, ◌==◌, arith}
use spottr.Text.{Bytes, codes, eqb, split, trim_space, has_prefix}
use spottr.Db.Kind.{kind_movie, kind_series, kind_book, kind_comic, kind_erotic}
use spottr.Db.Tables.{Row}
use spottr.Db.Search.Asked.{paired, fits_age}
use spottr.Api.Listing.{Limits, newznab_params}
use spottr.Api.Listing.Filter.{newznab_filter, newznab_cat_id, see_part, see_parts, cat_image}

-- An image spot without a kind is shown as a film, and the search for films leaves it out.
abbrev pub is_unsorted : Row → Bool
is_unsorted r =
    (r.category == cat_image)
    && not (
        (r.kind == kind_movie)
        || ((r.kind == kind_series)
            || ((r.kind == kind_book) || ((r.kind == kind_comic) || (r.kind == kind_erotic)))))

filter-cat_id :
    (r : Row) (allows : Bool)
    → r.is_adult ≡ ((r.category == cat_image) && (r.kind == kind_erotic))
    → let f = newznab_filter (newznab_cat_id r) allows in
      (paired f.0 r && (if f.1 then r.is_adult else f.1 || not r.is_adult))
      ≡ (not (is_unsorted r) && (allows || not r.is_adult))
unfolding newznab_filter newznab_cat_id see_parts see_part split trim_space has_prefix eqb
filter-cat_id r allows h = ground (arith, h)

-- The category that `newznabCatID` gives a spot is one by which Newznab finds the spot: a search for
-- it alone lets the spot through its filter on categories and its filter on 18+, where the server
-- allows 18+ spots or this is none, and 18+ is the kind `erotic` of the images, as it is stored. The
-- exception is an image spot whose kind is not one of the five: it is shown as 2000, and not found
-- by that.
pub newznab_params-cat_id :
    (c : Limits) (q : Bytes → Bytes) (r : Row)
    → q (codes "cat") ≡ newznab_cat_id r
    → r.is_adult ≡ ((r.category == cat_image) && (r.kind == kind_erotic))
    → (paired (newznab_params c q).any_of r && fits_age (newznab_params c q) r)
      ≡ (not (is_unsorted r) && (c.allow_adult || not r.is_adult))
unfolding newznab_params
newznab_params-cat_id c q r same adult = rw same (filter-cat_id r c.allow_adult adult)
