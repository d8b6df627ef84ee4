-- ===== src/Api/Listing.antt =====
-- internal/api/router.go: the listings, of the web and of Newznab, from a request to the answer.
pub mod Filter
pub mod Adult
pub mod Keyset
use spottr.Base.{
  ◌*◌, ℕ, zero, suc, ◌+◌, Bool, true, false, not, ◌&&◌, ◌||◌, Option, none, some, List, [], ◌∷◌,
  ◌++◌, ◌==◌, ltb, leb, if◌then◌else◌, Result, ok, err, Error, map,
}
use spottr.Text.{Bytes, codes, is_empty, eqb, split, trim_space, to_lower, has_prefix}
use spottr.Text.Numbers.{ℤ, pos, negsuc, parse_int, format_uint}
use spottr.Db.Kind.{kind_movie, kind_series, kind_book, kind_comic, kind_erotic}
use spottr.Db.Tables.{Row, Db, nanos}
use spottr.Db.Search.{SearchParams, CatKind, valid_sub_code, is_positive}
use spottr.Db.Search.Run.{Engine, leb_int, search_spots}
use spottr.Api.Listing.Filter.{newznab_filter, newznab_cat_id}

-- The settings that the listings read.
pub record Limits : Type 0 where
  pub allow_adult : Bool
  pub max_page_size : ℤ
  pub max_offset : ℤ

-- `parseIntOr`
abbrev pub parse_int_or : Bytes → ℤ → ℤ
parse_int_or s def = if (parse_int s).good then (parse_int s).value else def

abbrev pub at_most_int : ℤ → ℤ → ℤ
at_most_int bound n = if not (leb_int n bound) then bound else n

-- `clampPaging`
unfoldable pub clamp_paging : Limits → ℤ → ℤ → ℤ × ℤ
clamp_paging c limit offset = (
  at_most_int c.max_page_size (if not (leb_int (pos 1) limit) then pos 25 else limit),
  at_most_int c.max_offset (if not (leb_int (pos 0) offset) then pos 0 else offset),
)

-- `includeAdult`
unfoldable pub include_adult : Bool → List ℤ → Bool
include_adult allows (pos k ∷ []) = allows && k == kind_erotic
include_adult allows kinds = false

-- `hiddenAdult` of a spot that was found.
abbrev pub hidden_adult : Limits → Row → Bool
hidden_adult c r = r.is_adult && not c.allow_adult

-- `KindNames`
abbrev pub kind_named : Bytes → Option ℕ
kind_named s =
    if eqb s (codes "movie")
    then some kind_movie
    else if eqb s (codes "series")
    then some kind_series
    else if eqb s (codes "book")
    then some kind_book
    else if eqb s (codes "comic")
    then some kind_comic
    else if eqb s (codes "erotic")
    then some kind_erotic
    else none

-- The three loops over a list that commas part; the first one is that of `cat`.
abbrev pub numbers_in : List Bytes → List ℤ
numbers_in [] = []
numbers_in (c ∷ cs) =
    if (parse_int c).good then (parse_int c).value ∷ numbers_in cs else numbers_in cs

abbrev pub codes_in : List Bytes → List Bytes
codes_in [] = []
codes_in (c ∷ cs) =
    let code = to_lower (trim_space c) in
    if valid_sub_code code then code ∷ codes_in cs else codes_in cs

abbrev pub add_kind : Option ℕ → List ℤ → List ℤ
add_kind none ks = ks
add_kind (some k) ks = pos k ∷ ks

abbrev pub kinds_in : List Bytes → List ℤ
kinds_in [] = []
kinds_in (k ∷ ks) = add_kind (kind_named (trim_space k)) (kinds_in ks)

abbrev pub parts_of : Bytes → List Bytes
parts_of s = if is_empty s then [] else split s b','

abbrev pub before_of : ℤ → ℕ
before_of (pos n) = n * nanos
before_of (negsuc n) = 0

-- The parameters that `listSpots` makes of the query `q` of a request's URL.
unfoldable pub list_params : Limits → (Bytes → Bytes) → SearchParams
unfolding clamp_paging include_adult
list_params c q =
    let paging =
      clamp_paging c (parse_int_or (q (codes "limit")) (pos 25))
        (parse_int_or (q (codes "offset")) (pos 0)) in
    let kinds = kinds_in (parts_of (q (codes "kind"))) in
    let adult = include_adult c.allow_adult kinds in
    record {
      query = q (codes "q");
      categories = numbers_in (parts_of (q (codes "cat")));
      poster = q (codes "poster");
      min_size = pos 0;
      max_size = pos 0;
      since = 0;
      limit = paging.0;
      offset = paging.1;
      before = before_of (parse_int_or (q (codes "before")) (pos 0));
      sort_by = q (codes "sort");
      allow_adult = adult;
      kinds = kinds;
      adult_only = adult;
      any_of = [];
      tag = trim_space (q (codes "tag"));
      sub_codes = codes_in (parts_of (q (codes "sub")));
    }

-- The parameters that `newznabSearch` makes.
unfoldable pub newznab_params : Limits → (Bytes → Bytes) → SearchParams
unfolding clamp_paging newznab_filter
newznab_params c q =
    let paging =
      clamp_paging c (parse_int_or (q (codes "limit")) (pos 25))
        (parse_int_or (q (codes "offset")) (pos 0)) in
    let filter = newznab_filter (q (codes "cat")) c.allow_adult in
    record {
      query = q (codes "q");
      categories = [];
      poster = [];
      min_size = pos 0;
      max_size = pos 0;
      since = 0;
      limit = at_most_int (pos 100) paging.0;
      offset = paging.1;
      before = 0;
      sort_by = [];
      allow_adult = filter.1;
      kinds = [];
      adult_only = filter.1;
      any_of = filter.0;
      tag = [];
      sub_codes = [];
    }

-- The answer of `listSpots`.
pub record Page : Type 0 where
  pub spots : List Row
  pub total : ℕ
  pub limit : ℤ
  pub offset : ℤ
  pub next_before : Option ℕ

abbrev pub last_posted : List Row → Option ℕ
last_posted [] = none
last_posted (r ∷ []) = some r.posted_at
last_posted (r ∷ r' ∷ rows) = last_posted (r' ∷ rows)

-- `NewznabItem`, less the times, which are the spot's in another format.
pub record Item : Type 0 where
  pub title : Bytes
  pub guid : Bytes
  pub nzb_url : Bytes
  pub length : ℤ
  pub category : Bytes
  pub poster : Bytes

-- `NewznabChannel`
pub record Channel : Type 0 where
  pub items : List Item
  pub total : ℕ
  pub offset : ℤ

module _ (e : Engine) (c : Limits) where
  abbrev pub page : SearchParams → Result (List Row × ℕ) → Result Page
  page p (err x) = err x
  page p (ok (rows, total)) = ok (record {
    spots = rows;
    total = total;
    limit = p.limit;
    offset = p.offset;
    next_before = last_posted rows;
  })

  -- `listSpots`
  unfoldable pub list_spots : (Bytes → Bytes) → Db → Result Page × Db
  unfolding list_params search_spots
  list_spots q d =
      let p = list_params c q in (page p (search_spots e p d).0, (search_spots e p d).1)

  -- `query_escape` is Go's `url.QueryEscape`.
  module _ (query_escape : Bytes → Bytes) (base_url api_key : Bytes) where
    unfoldable pub item_of : Row → Item
    unfolding newznab_cat_id format_uint
    item_of r = record {
      title = r.title;
      guid = r.message_id;
      nzb_url =
          base_url
          ++ (codes "/v1/spots/"
              ++ (format_uint r.id ++ (codes "/nzb?apikey=" ++ query_escape api_key)));
      length = r.size;
      category = newznab_cat_id r;
      poster = r.poster;
    }

    abbrev pub channel : SearchParams → Result (List Row × ℕ) → Result Channel
    channel p (err x) = err x
    channel p (ok (rows, total)) =
        ok (record { items = map item_of rows; total = total; offset = p.offset })

    -- `newznabSearch`
    unfoldable pub newznab_search : (Bytes → Bytes) → Db → Result Channel × Db
    unfolding newznab_params search_spots item_of
    newznab_search q d =
        let p = newznab_params c q in (channel p (search_spots e p d).0, (search_spots e p d).1)
