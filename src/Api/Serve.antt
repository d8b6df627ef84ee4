-- ===== src/Api/Serve.antt =====
-- internal/api/router.go: the handlers that answer with one spot, its NZB or its image. Metrics and
-- logs are left out; none is a panic.
pub mod Again
pub mod Allowed
pub mod Images
use spottr.Base.{
  ℕ, ◌+◌, Bool, true, false, ◌&&◌, ◌||◌, Option, none, some, List, [], ◌∷◌, ◌++◌, ◌==◌, ltb,
  if◌then◌else◌, Result, ok, err, Error, article_too_large, sql_error, length, take,
}
use spottr.Text.{Bytes, codes, is_empty, eqb, split, has_prefix, trim_prefix, trim_suffix}
use spottr.Text.Numbers.{ℤ, pos, negsuc, parse_int}
use spottr.Db.Tables.{Spot, Row, fails}
use spottr.Db.Caches.{
  Vault, step, scan_spot, get_spot_by_id, update_spot_enrichment, cache_nzb, get_cached_nzb,
  cache_image, get_cached_image,
}
use spottr.Spotnet.Crypto.{Crypto}
use spottr.Spotnet.Article.{SpotXml}
use spottr.Spotnet.Nzb.{Inflated, decode_nzb_body_limit, decode_image_body}
use spottr.Sync.Env.{Headers}
use spottr.Api.Enrich.{Visit, enrich_spot}
use spottr.Api.Listing.{Limits, hidden_adult}

-- The news server as one request finds it: the lease, and what the connection then answers.
pub record News : Type 0 where
  pub lease : Option Error
  pub head : Bytes → Result Headers
  pub body : Bytes → Result Bytes
  pub binary_body : Bytes → Result Bytes

-- What the handlers are given besides: the libraries and the settings.
pub record Serving : Type 0 where
  pub crypto : Crypto
  pub unmarshal : Bytes → Option SpotXml
  pub inflate : Bytes → Inflated
  pub limits : Limits
  pub max_nzb_bytes : ℕ
  pub max_article_bytes : ℕ

-- The status of an error, or an answer.
pub data Answer {u} (T : Type u) : Type u where
  refused : ℕ → Answer T
  served : T → Answer T

-- A type and bytes.
abbrev pub Media : Type 0
Media = Bytes × Bytes

abbrev pub find_spot : ℤ → Vault → Result (Option Row)
find_spot (pos id) v = get_spot_by_id id v
find_spot (negsuc n) v = if fails v.db then err sql_error else ok none

-- `strings.NewReplacer` on these single bytes.
abbrev safe_byte : ℕ → ℕ
safe_byte c =
    if (((c == b'/') || (c == 92)) || (c == b':')) || ((c == b'*') || (c == b'?'))
    then b'-'
    else if ((c == 34) || (c == b'<')) || ((c == b'>') || (c == b'|'))
    then b'-'
    else c

abbrev safe_bytes : Bytes → Bytes
safe_bytes [] = []
safe_bytes (c ∷ s) = safe_byte c ∷ safe_bytes s

-- `sanitizeFilename`
unfoldable pub sanitize_filename : Bytes → Bytes
sanitize_filename s = take 80 (safe_bytes s)

-- `detectImageMIME`
abbrev pub detect_image_mime : Bytes → Bytes
detect_image_mime data_ =
    if has_prefix data_ (255 ∷ 216 ∷ [])
    then codes "image/jpeg"
    else if has_prefix data_ (137 ∷ 80 ∷ 78 ∷ 71 ∷ 13 ∷ 10 ∷ 26 ∷ 10 ∷ [])
    then codes "image/png"
    else if has_prefix data_ (codes "GIF87a") || has_prefix data_ (codes "GIF89a")
    then codes "image/gif"
    else codes "image/jpeg"

-- `maxImageSegments`
abbrev pub max_image_segments : ℕ
max_image_segments = 16

abbrev first_segment : List Bytes → Bytes
first_segment [] = []
first_segment (s ∷ ss) = s

-- The segments of an image that lies on the news server.
unfoldable pub image_segments : Bytes → Option (List Bytes)
image_segments image_url =
    if has_prefix image_url (codes "http://") || has_prefix image_url (codes "https://")
    then none
    else if has_prefix image_url (codes "<nntp:")
    then some (split (trim_suffix (trim_prefix image_url (codes "<nntp:")) (codes ">")) b'|')
    else none

module _ (s : Serving) (news : News) where
  -- `enrichSpot`
  abbrev visit_article : Spot → Option Visit
  visit_article spot = elim news.lease [
    | some e ↦ some (record { spot = spot; error = some e; broken = false })
    | none ↦ enrich_spot s.crypto s.unmarshal news.head news.body spot
  ]

  abbrev decoded_nzb : Result Bytes → Result Bytes
  decoded_nzb (err e) = err e
  decoded_nzb (ok body) = decode_nzb_body_limit s.inflate body s.max_nzb_bytes

  -- `fetchNZBSegment`
  abbrev pub fetch_nzb_segment : Bytes → Result Bytes
  fetch_nzb_segment nzb_id = elim news.lease [
    | some e ↦ err e
    | none ↦ decoded_nzb (news.binary_body nzb_id)
  ]

  -- The loop of `fetchImageSegments`, with what it has got so far.
  unfoldable pub fetch_segments : List Bytes → Bytes → Result Bytes
  fetch_segments [] got = ok got
  fetch_segments (id ∷ ids) got = elim (news.binary_body id) [
    | err e ↦ err e
    | ok body ↦
        let rest = fetch_segments ids (got ++ body) in
        if ltb s.max_article_bytes (length got + length body) then err article_too_large else rest
  ]

  abbrev decoded_image : Result Bytes → Result Bytes
  decoded_image (err e) = err e
  decoded_image (ok body) = ok (decode_image_body body)

  -- `fetchImageSegments`
  unfoldable pub fetch_image_segments : List Bytes → Result Bytes
  unfolding fetch_segments
  fetch_image_segments ids =
      if ltb max_image_segments (length ids)
      then err article_too_large
      else elim news.lease [ some e ↦ err e | none ↦ decoded_image (fetch_segments ids []) ]

  abbrev after_visit : ℕ → Visit → Vault → Vault
  after_visit id w v = elim w.error [ some e ↦ v | none ↦ (update_spot_enrichment id w.spot v).1 ]

  abbrev shown_spot : ℕ → Option Visit → Vault → Option (Answer Spot × Vault)
  shown_spot id none v = none
  shown_spot id (some w) v = some (served w.spot, after_visit id w v)

  abbrev spot_page : Result (Option Row) → Vault → Option (Answer Spot × Vault)
  spot_page (err e) v = some (refused 500, v)
  spot_page (ok none) v = some (refused 404, v)
  spot_page (ok (some r)) v =
      if hidden_adult s.limits r
      then some (refused 404, v)
      else if is_empty r.nzb_id || is_empty r.description
      then shown_spot r.id (visit_article (scan_spot r)) v
      else some (served (scan_spot r), v)

  -- `getSpot`, less the password hint, which is made of the description alone.
  unfoldable pub get_spot : Bytes → Vault → Option (Answer Spot × Vault)
  unfolding get_spot_by_id update_spot_enrichment
  get_spot url_id v =
      let id = parse_int url_id in
      if id.good then spot_page (find_spot id.value v) (step v) else some (refused 400, v)

  abbrev fetched_nzb : Spot → Result Bytes → Vault → Answer (Spot × Bytes) × Vault
  fetched_nzb spot (err e) v = (refused 502, v)
  fetched_nzb spot (ok nzb) v = (served (spot, nzb), (cache_nzb spot.nzb_id nzb v).1)

  abbrev cached_nzb : Spot → Result Bytes → Vault → Answer (Spot × Bytes) × Vault
  cached_nzb spot (ok (b ∷ bs)) v = (served (spot, b ∷ bs), v)
  cached_nzb spot (ok []) v = fetched_nzb spot (fetch_nzb_segment spot.nzb_id) v
  cached_nzb spot (err e) v = fetched_nzb spot (fetch_nzb_segment spot.nzb_id) v

  -- The part of `resolveNZB` behind the enrichment.
  unfoldable pub nzb_of : Spot → Vault → Answer (Spot × Bytes) × Vault
  unfolding cache_nzb get_cached_nzb
  nzb_of spot v =
      if is_empty spot.nzb_id
      then (refused 404, v)
      else cached_nzb spot (get_cached_nzb spot.nzb_id v) (step v)

  abbrev enriched_nzb : ℕ → Option Visit → Vault → Option (Answer (Spot × Bytes) × Vault)
  enriched_nzb id none v = none
  enriched_nzb id (some w) v = elim w.error [
    | some e ↦ some (refused 502, v)
    | none ↦ some (nzb_of w.spot (update_spot_enrichment id w.spot v).1)
  ]

  abbrev nzb_page : Result (Option Row) → Vault → Option (Answer (Spot × Bytes) × Vault)
  nzb_page (err e) v = some (refused 404, v)
  nzb_page (ok none) v = some (refused 404, v)
  nzb_page (ok (some r)) v =
      if hidden_adult s.limits r
      then some (refused 404, v)
      else if is_empty r.nzb_id
      then enriched_nzb r.id (visit_article (scan_spot r)) v
      else some (nzb_of (scan_spot r) v)

  -- `resolveNZB`
  unfoldable pub resolve_nzb : ℤ → Vault → Option (Answer (Spot × Bytes) × Vault)
  unfolding nzb_of get_spot_by_id update_spot_enrichment
  resolve_nzb id v = nzb_page (find_spot id v) (step v)

  -- The file name and the file.
  abbrev download : Answer (Spot × Bytes) × Vault → Answer Media × Vault
  download (refused status, v) = (refused status, v)
  download (served (spot, nzb), v) = (served (sanitize_filename spot.title ++ codes ".nzb", nzb), v)

  abbrev pub downloaded : Option (Answer (Spot × Bytes) × Vault) → Option (Answer Media × Vault)
  downloaded none = none
  downloaded (some r) = some (download r)

  -- `downloadNZB`
  unfoldable pub download_nzb : Bytes → Vault → Option (Answer Media × Vault)
  unfolding resolve_nzb sanitize_filename
  download_nzb url_id v =
      let id = parse_int url_id in
      if id.good then downloaded (resolve_nzb id.value v) else some (refused 400, v)

  abbrev fetched_image : Bytes → Result Bytes → Vault → Answer Media × Vault
  fetched_image key (err e) v = (refused 502, v)
  fetched_image key (ok image) v =
      let mime = detect_image_mime image in (served (mime, image), (cache_image key image mime v).1)

  abbrev cached_image : List Bytes → Result (Bytes × Bytes) → Vault → Answer Media × Vault
  cached_image ids (ok (b ∷ bs, mime)) v = (served (mime, b ∷ bs), v)
  cached_image ids (ok ([], mime)) v =
      fetched_image (first_segment ids) (fetch_image_segments ids) v
  cached_image ids (err e) v = fetched_image (first_segment ids) (fetch_image_segments ids) v

  -- The part of `getImage` that has the segments.
  unfoldable pub image_answer : Option (List Bytes) → Vault → Answer Media × Vault
  unfolding cache_image get_cached_image fetch_image_segments
  image_answer none v = (refused 404, v)
  image_answer (some ids) v = cached_image ids (get_cached_image (first_segment ids) v) (step v)

  abbrev image_page : Result (Option Row) → Vault → Answer Media × Vault
  image_page (err e) v = (refused 404, v)
  image_page (ok none) v = (refused 404, v)
  image_page (ok (some r)) v =
      if is_empty r.image_url || hidden_adult s.limits r
      then (refused 404, v)
      else image_answer (image_segments r.image_url) v

  -- `getImage`
  unfoldable pub get_image : Bytes → Vault → Answer Media × Vault
  unfolding get_spot_by_id image_segments image_answer
  get_image url_id v =
      let id = parse_int url_id in
      if id.good then image_page (find_spot id.value v) (step v) else (refused 404, v)
