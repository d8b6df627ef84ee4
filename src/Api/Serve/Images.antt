-- ===== src/Api/Serve/Images.antt =====
-- router.go: how much an image may make the server fetch, and that it is fetched once.
use spottr.Base.{
  ◌+◌, ltb, ℕ, ◌≤◌, ◌≡◌, refl, sym, ap, ◌∙◌, true, false, ◌||◌, ◌++◌, inl, inr, Option, none, some,
  List, [], ◌∷◌, Result, ok, err, arith, Bool-cases, Result-cases, Option-cases, length,
  length-append,
}
use spottr.Text.{Bytes, is_empty}
use spottr.Text.Numbers.{parse_int}
use spottr.Db.Tables.{Row}
use spottr.Db.Caches.{Vault, Blob, cache_image, get_cached_image}
use spottr.Db.Caches.Laws.{blob_with-append, step_calm}
use spottr.Spotnet.Nzb.{decode_image_body}
use spottr.Api.Listing.{hidden_adult}
use spottr.Api.Serve.Again.{find_spot-db}
use spottr.Api.Serve.{
  ltb, News, Serving, served, find_spot, fetch_segments, fetch_image_segments, image_answer,
  image_segments, get_image, cached_image, fetched_image, image_page, first_segment,
  detect_image_mime,
}

module _ (s : Serving) where
  fetch_segments-le :
      (news : News) (ids : List Bytes) (got body : Bytes)
      → length got ≤ s.max_article_bytes
      → fetch_segments s news ids got ≡ ok body
      → length body ≤ s.max_article_bytes
  unfolding fetch_segments
  fetch_segments-le news [] got body le h = ground (arith, le, h)
  fetch_segments-le news (id ∷ ids) got body le h = elim (Result-cases (news.binary_body id)) [
    | inl (e, f) ↦ absurd (ground (arith, f, h))
    | inr (piece, f) ↦ elim (Bool-cases (ltb s.max_article_bytes (length got + length piece))) [
      | inl big ↦ absurd (ground (arith, f, big, h))
      | inr small ↦
          fetch_segments-le news ids (got ++ piece) body
            (ground (arith, length-append got piece, small)) (ground (arith, f, small, h))
    ]
  ]

  -- An image is made of at most 16 articles of the news server, and of at most as many bytes as
  -- the settings allow one article, all its articles taken together.
  fetch_image_segments-bounded :
      (news : News) (ids : List Bytes) (image : Bytes)
      → fetch_image_segments s news ids ≡ ok image
      → (length ids ≤ 16)
        × ((body : Bytes) × (image ≡ decode_image_body body) × (length body ≤ s.max_article_bytes))
  unfolding fetch_image_segments
  fetch_image_segments-bounded news ids image h = elim (Bool-cases (ltb 16 (length ids))) [
    | inl many ↦ absurd (ground (arith, many, h))
    | inr few ↦ elim (Option-cases news.lease) [
      | inr (e, l) ↦ absurd (ground (arith, few, l, h))
      | inl l ↦ elim (Result-cases (fetch_segments s news ids [])) [
        | inl (e, f) ↦ absurd (ground (arith, few, l, f, h))
        | inr (body, f) ↦ (
          ground (arith, few),
          (body, ground (arith, few, l, f, h), fetch_segments-le news ids [] body (omega arith) f),
        )
      ]
    ]
  ]

  cache-get :
      (id image mime : Bytes) (v : Vault)
      → v.db.faults ≡ []
      → (get_cached_image id (cache_image id image mime v).1 ≡ ok (image, mime))
        × ((cache_image id image mime v).1.db ≡ v.db)
  unfolding cache_image get_cached_image
  cache-get id image mime v calm =
      let b : Blob = record {
        message_id = id;
        content = image;
        mime_type = mime;
        fetched_at = v.db.clock;
      } in
      rw (calm, blob_with-append b v.images) (refl, refl)

  -- What a successful call leaves: the image it served is the one that the cache holds.
  record Kept (ids : List Bytes) (mime : Bytes) (b : ℕ) (bs : Bytes) (v v' : Vault) : Type 0 where
    cached : get_cached_image (first_segment ids) v' ≡ ok (b ∷ bs, mime)
    tables : v'.db ≡ v.db

  fetched_image-Kept :
      (news : News) (ids : List Bytes) (f : Result Bytes) (mime : Bytes) (v v' : Vault) (b : ℕ)
      (bs : Bytes)
      → v.db.faults ≡ []
      → fetched_image s news (first_segment ids) f v ≡ (served (mime, b ∷ bs), v')
      → Kept ids mime b bs v v'
  fetched_image-Kept news ids (err e) mime v v' b bs calm h = absurd (ground (arith, h))
  fetched_image-Kept news ids (ok image) mime v v' b bs calm h =
      let again = cache-get (first_segment ids) image (detect_image_mime image) v calm in
      let whole : v' ≡ (cache_image (first_segment ids) image (detect_image_mime image) v).1 =
        ap (λ r. r.1) (sym h) in
      record {
        cached = rw whole (again.0 ∙ ground (arith, h));
        tables = ap (λ w. w.db) whole ∙ again.1;
      }

  cached_image-Kept :
      (news : News) (ids : List Bytes) (f : Result (Bytes × Bytes)) (mime : Bytes) (v v' : Vault)
      (b : ℕ) (bs : Bytes)
      → v.db.faults ≡ []
      → get_cached_image (first_segment ids) v ≡ f
      → cached_image s news ids f v ≡ (served (mime, b ∷ bs), v')
      → Kept ids mime b bs v v'
  cached_image-Kept news ids (err e) mime v v' b bs calm g h =
      fetched_image-Kept news ids _ mime v v' b bs calm h
  cached_image-Kept news ids (ok ([], m)) mime v v' b bs calm g h =
      fetched_image-Kept news ids _ mime v v' b bs calm h
  cached_image-Kept news ids (ok (c ∷ cs, m)) mime v v' b bs calm g h =
      let whole : v' ≡ v = ap (λ r. r.1) (sym h) in
      record { cached = rw whole (g ∙ ground (arith, h)); tables = ap (λ w. w.db) whole }

  cached_calm :
      (news : News) (ids : List Bytes) (mime : Bytes) (v : Vault) (b : ℕ) (bs : Bytes)
      → v.db.faults ≡ []
      → get_cached_image (first_segment ids) v ≡ ok (b ∷ bs, mime)
      → image_answer s news (some ids) v ≡ (served (mime, b ∷ bs), v)
  unfolding image_answer
  cached_calm news ids mime v b bs calm h =
      rw h (ap (λ w. (served (mime, b ∷ bs), w)) (step_calm v calm))

  image_answer-Kept :
      (news : News) (ids : List Bytes) (mime : Bytes) (v v' : Vault) (b : ℕ) (bs : Bytes)
      → v.db.faults ≡ []
      → image_answer s news (some ids) v ≡ (served (mime, b ∷ bs), v')
      → Kept ids mime b bs v v'
  unfolding image_answer
  image_answer-Kept news ids mime v v' b bs calm h =
      let got = get_cached_image (first_segment ids) v in
      cached_image-Kept news ids got mime v v' b bs calm refl
        (sym (ap (λ w. cached_image s news ids got w) (step_calm v calm)) ∙ h)

  image_answer_again :
      (news later : News) (o : Option (List Bytes)) (mime : Bytes) (v v' : Vault) (b : ℕ)
      (bs : Bytes)
      → v.db.faults ≡ []
      → image_answer s news o v ≡ (served (mime, b ∷ bs), v')
      → (image_answer s later o v' ≡ (served (mime, b ∷ bs), v')) × (v'.db ≡ v.db)
  unfolding image_answer
  image_answer_again news later none mime v v' b bs calm h = absurd (ground (arith, h))
  image_answer_again news later (some ids) mime v v' b bs calm h =
      let kept = image_answer-Kept news ids mime v v' b bs calm h in
      (
        cached_calm later ids mime v' b bs (ap (λ d. d.faults) kept.tables ∙ calm) kept.cached,
        kept.tables,
      )

  shown_page :
      (news : News) (r : Row) (v : Vault)
      → (is_empty r.image_url || hidden_adult s.limits r) ≡ false
      → image_page s news (ok (some r)) v ≡ image_answer s news (image_segments r.image_url) v
  shown_page news r v e = rw e refl

  image_page_again :
      (news later : News) (o : Result (Option Row)) (mime : Bytes) (v v' : Vault) (b : ℕ)
      (bs : Bytes)
      → v.db.faults ≡ []
      → image_page s news o v ≡ (served (mime, b ∷ bs), v')
      → (image_page s later o v' ≡ (served (mime, b ∷ bs), v')) × (v'.db ≡ v.db)
  image_page_again news later (err e) mime v v' b bs calm h = absurd (ground (arith, h))
  image_page_again news later (ok none) mime v v' b bs calm h = absurd (ground (arith, h))
  image_page_again news later (ok (some r)) mime v v' b bs calm h =
      elim (Bool-cases (is_empty r.image_url || hidden_adult s.limits r)) [
        | inl e ↦ absurd (ground (arith, e, h))
        | inr e ↦ rw e (
            image_answer_again news later (image_segments r.image_url) mime v v' b bs calm
              (sym (shown_page news r v e) ∙ h))
      ]

  good_id :
      (news : News) (url_id : Bytes) (v : Vault)
      → (parse_int url_id).good ≡ true
      → v.db.faults ≡ []
      → get_image s news url_id v ≡ image_page s news (find_spot (parse_int url_id).value v) v
  unfolding get_image
  good_id news url_id v g calm =
      rw g (ap (λ w. image_page s news (find_spot (parse_int url_id).value v) w) (step_calm v calm))

  -- Where no statement of SQLite fails: an image that was served and is not empty is served again,
  -- the same bytes with the same type, to any later request for the same spot, from the store as
  -- the first request left it and whatever the news server then answers.
  pub get_image_again :
      (news later : News) (url_id mime : Bytes) (v v' : Vault) (b : ℕ) (bs : Bytes)
      → v.db.faults ≡ []
      → get_image s news url_id v ≡ (served (mime, b ∷ bs), v')
      → get_image s later url_id v' ≡ (served (mime, b ∷ bs), v')
  unfolding get_image
  get_image_again news later url_id mime v v' b bs calm h =
      elim (Bool-cases (parse_int url_id).good) [
        | inr g ↦ absurd (ground (arith, g, h))
        | inl g ↦
            let id = (parse_int url_id).value in
            let (again, same) =
              image_page_again news later (find_spot id v) mime v v' b bs calm
                (sym (good_id news url_id v g calm) ∙ h) in
            good_id later url_id v' g (ap (λ d. d.faults) same ∙ calm)
            ∙ (ap (λ o. image_page s later o v') (find_spot-db id v v' same) ∙ again)
      ]
