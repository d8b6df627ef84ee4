-- ===== src/Tests/Searches.antt =====
-- Searches and what is served, at concrete inputs.
use spottr.Base.{
  ◌⊎◌, All, count, ltb, insertion, arith, Bool, ◌≡◌, refl, ◌≤◌, true, false, [], ◌∷◌, none, some,
  ok, err, Error, if◌then◌else◌, ◌&&◌, ◌||◌, not, length,
}
use spottr.Text.{Bytes, codes, eqb, trim_space, has_prefix, replace_all}
use spottr.Text.Numbers.{parse_int, ℤ, pos, negsuc}
use spottr.Db.Kind.{kind_erotic}
use spottr.Db.Tables.{Db, Row, Spot}
use spottr.Db.Search.Asked.{paired, fits_age}
use spottr.Db.Caches.{Vault, scan_spot, get_spot_by_id, cache_nzb, get_cached_nzb}
use spottr.Db.Fts.{sanitize_fts_query}
use spottr.Db.Search.{SearchParams, where_clause}
use spottr.Db.Search.Run.{
  run_query, selected, clause_truth, truth, Engine, search_spots, in_order, leb_int,
}
use spottr.Db.Search.Meaning.{Means}
use spottr.Db.Search.Asked.{asked_for, where_clause-Means}
use spottr.Db.Search.Listed.{Listed, search_spots-Listed}
use spottr.Api.Listing.{
  newznab_params, Page, clamp_paging, include_adult, Limits, list_params, list_spots,
  newznab_search, item_of,
}
use spottr.Api.Listing.Filter.{newznab_cat_id}
use spottr.Api.Listing.Filter.Round.{is_unsorted, newznab_params-cat_id}
use spottr.Api.Listing.Adult.{SafePage, SafeChannel, listings-Shown}
use spottr.Api.Listing.Keyset.{asked, with_before, Continues, next_page-Continues}
use spottr.Api.Serve.{
  News, Serving, served, resolve_nzb, nzb_of, get_spot, download_nzb, get_image, fetch_segments,
  fetch_image_segments,
}
use spottr.Api.Serve.Allowed.{Guarded, GuardedRun, Permitted, Unasked, served-Permitted}
use spottr.Api.Serve.Again.{resolve_nzb_again}
use spottr.Spotnet.Nzb.{decode_image_body, decode_nzb_body_limit, inflated_nzb, unspecial_zip_str}
use spottr.Tests.Data.{crypto, store, hidden_row}

int_total : (a b : ℤ) → leb_int a b ≡ false → leb_int b a ≡ true
int_total (pos m) (pos n) h = ground (arith, h)
int_total (pos m) (negsuc n) h = refl
int_total (negsuc m) (pos n) h = cc (h)
int_total (negsuc m) (negsuc n) h = ground (arith, h)

int_trans : (a b c : ℤ) → leb_int a b ≡ true → leb_int b c ≡ true → leb_int a c ≡ true
int_trans (pos k) (pos m) (pos n) h h' = ground (arith, h, h')
int_trans (pos k) (pos m) (negsuc n) h h' = h'
int_trans (pos k) (negsuc m) c h h' = cc (h)
int_trans (negsuc k) b (pos n) h h' = refl
int_trans (negsuc k) (pos m) (negsuc n) h h' = cc (h')
int_trans (negsuc k) (negsuc m) (negsuc n) h h' = ground (arith, h, h')

pub total : (b : Bool) (r r' : Row) → in_order b r r' ≡ false → in_order b r' r ≡ true
total true r r' h = int_total r'.size r.size h
total false r r' h = ground (arith, h)

pub trans :
    (b : Bool) (r s t : Row) → in_order b r s ≡ true → in_order b s t ≡ true → in_order b r t ≡ true
trans true r s t h h' = int_trans t.size s.size r.size h' h
trans false r s t h h' = ground (arith, h, h')

-- Every text matches every row, and sorting is by insertion.
abbrev pub engine : Engine
engine = record {
  accepts_count = λ q. true;
  accepts_page = λ q. true;
  matches = λ s r. true;
  ordered = λ b. insertion (in_order b) (total b) (trans b);
  repaired = λ s. s;
  rune_count = λ s. length s;
}

abbrev limits : Limits
limits = record { allow_adult = true; max_page_size = pos 100; max_offset = pos 1000 }

-- A request that asks for the kind `erotic` alone.
abbrev request : Bytes → Bytes
request key = if eqb key (codes "kind") then codes "erotic" else []

abbrev params : SearchParams
params = list_params limits request

abbrev shown_row : Row
shown_row = record hidden_row { moderated = false; nzb_id = codes "n@x"; category = 0; kind = 4 }

abbrev tables : Db
tables = record store { spots = shown_row ∷ []; ring = [] }

where_clause-Means_example :
    Means engine.matches
      (where_clause (codes "a") params)
      (asked_for engine.matches (codes "a") params)
where_clause-Means_example = where_clause-Means engine.matches (codes "a") params

search_spots-Listed_example : Listed engine params tables (search_spots engine params tables).0
search_spots-Listed_example = search_spots-Listed engine params tables

listings-Shown_example :
    SafePage limits request (list_spots engine limits request tables).0
    × SafeChannel
        (item_of engine limits (λ s. s) (codes "http://a") (codes "key"))
        limits
        request
        (newznab_search engine limits (λ s. s) (codes "http://a") (codes "key") request tables).0
listings-Shown_example =
    listings-Shown engine limits (λ s. s) (codes "http://a") (codes "key") request tables

-- The store with the row, and nothing in its caches.
abbrev pub vault : Vault
vault = record { db = tables; nzbs = []; images = []; lists = [] }

abbrev pub serving : Serving
serving = record {
  crypto = crypto;
  unmarshal = λ s. none;
  inflate = λ s. record { output = []; good = false };
  limits = limits;
  max_nzb_bytes = 10;
  max_article_bytes = 10;
}

abbrev pub news : News
news = record {
  lease = none;
  head = λ id. err Error.no_such_article;
  body = λ id. err Error.no_such_article;
  binary_body = λ id. ok (codes "<a/>");
}

-- The server that cannot be reached.
abbrev away : News
away = record news { lease = some Error.net_error }

served-Permitted_example :
    (GuardedRun serving (codes "1") vault (get_spot serving news (codes "1") vault)
      × (GuardedRun serving (codes "1") vault (download_nzb serving news (codes "1") vault)
          × Guarded serving (codes "1") vault (get_image serving news (codes "1") vault)))
    × (Permitted serving (codes "1") vault ⊎ Unasked serving (codes "1") vault news away)
served-Permitted_example = served-Permitted serving (codes "1") vault news away

abbrev after_fetch : Vault
after_fetch = record vault {
  nzbs =
      record { message_id = codes "n@x"; content = codes "<a/>"; mime_type = []; fetched_at = 9 }
      ∷ [];
}

fetched :
    resolve_nzb serving news (pos 1) vault
    ≡ some (served (scan_spot shown_row, codes "<a/>"), after_fetch)
unfolding resolve_nzb nzb_of get_spot_by_id cache_nzb get_cached_nzb decode_nzb_body_limit
    inflated_nzb unspecial_zip_str trim_space has_prefix replace_all eqb
fetched = refl

resolve_nzb_again_example :
    (spot : Spot) × (resolve_nzb serving away (pos 1) after_fetch
      ≡ some (served (spot, codes "<a/>"), after_fetch))
resolve_nzb_again_example =
    resolve_nzb_again serving news away (pos 1) (scan_spot shown_row) vault after_fetch b'<'
      (codes "a/>") refl fetched

two_segments :
    fetch_image_segments serving news (codes "a" ∷ codes "b" ∷ []) ≡ ok (codes "<a/><a/>")
unfolding fetch_image_segments fetch_segments decode_image_body unspecial_zip_str replace_all
    has_prefix
two_segments = refl

abbrev adult_row : Row
adult_row = record shown_row { kind = kind_erotic; is_adult = true }

-- A search for the category of the row.
abbrev by_category : Bytes → Bytes
by_category key = if eqb key (codes "cat") then newznab_cat_id adult_row else []

newznab_params-cat_id_example :
    (paired (newznab_params limits by_category).any_of adult_row
      && fits_age (newznab_params limits by_category) adult_row)
    ≡ (not (is_unsorted adult_row) && (true || not true))
unfolding newznab_cat_id eqb
newznab_params-cat_id_example = newznab_params-cat_id limits by_category adult_row refl refl

-- A request for a page of one spot, and two spots of different times.
abbrev one_spot : Bytes → Bytes
one_spot key = if eqb key (codes "limit") then codes "1" else []

abbrev earlier : Row
earlier = record hidden_row { id = 1; moderated = false; posted_at = 5; is_adult = false }

abbrev recent : Row
recent = record earlier { id = 2; posted_at = 7 }

abbrev two_spots : Db
two_spots = record tables { spots = earlier ∷ recent ∷ [] }

abbrev first_page : Page
first_page = record {
  spots = recent ∷ [];
  total = 2;
  limit = pos 1;
  offset = pos 0;
  next_before = some 7;
}

first_listed : (list_spots engine limits one_spot two_spots).0 ≡ ok first_page
unfolding list_spots list_params search_spots where_clause clamp_paging include_adult run_query
    selected clause_truth truth sanitize_fts_query trim_space eqb parse_int
first_listed = refl

next_page-Continues_example :
    All (λ r. 7 ≤ r.posted_at) (recent ∷ [])
    × ((f : Row → Bool)
        → count (λ r. (ltb 7 r.posted_at && f r) && asked engine limits one_spot r) two_spots.spots
          ≡ count (λ r. ltb 7 r.posted_at && f r) (recent ∷ []))
    × Continues engine limits one_spot 7 two_spots
        (list_spots engine limits (with_before one_spot (codes "7")) two_spots).0
unfolding eqb parse_int
next_page-Continues_example =
    next_page-Continues engine limits one_spot (codes "7") 7 two_spots two_spots first_page refl
      refl refl first_listed refl refl (omega arith)
