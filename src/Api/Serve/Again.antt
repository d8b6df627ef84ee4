-- ===== src/Api/Serve/Again.antt =====
-- router.go: what was fetched once is served from the caches from then on.
use mathlib.Core.Option.{some-injective}
use spottr.Base.{
  subst, map, not, ◌&&◌, ==_refl, if◌then◌else◌, sql_error, ◌≡◌, refl, sym, ap, ◌∙◌, true, false,
  inl, inr, Option, none, some, [], ◌∷◌, Result, ok, err, arith, Bool-cases, Option-cases, ℕ,
}
use spottr.Text.{Bytes, is_empty}
use spottr.Text.Numbers.{ℤ, pos, negsuc}
use spottr.Db.Tables.{Row, Spot, fails}
use spottr.Db.Caches.{
  Vault, Blob, step, cache_nzb, get_cached_nzb, row_with, get_spot_by_id, update_spot_enrichment,
  scan_spot, enriched_row,
}
use spottr.Db.Caches.Laws.{blob_with-append, row_with-enriched, step_calm}
use spottr.Api.Listing.{hidden_adult}
use spottr.Api.Enrich.{Visit}
use spottr.Api.Serve.{
  visit_article, enriched_nzb, nzb_page, News, Serving, served, find_spot, nzb_of, resolve_nzb,
  cached_nzb, fetched_nzb,
}

pub find_spot-db : (id : ℤ) (v v' : Vault) → v'.db ≡ v.db → find_spot id v' ≡ find_spot id v
unfolding get_spot_by_id
find_spot-db (pos n) v v' e = ap (λ d. if fails d then err sql_error else ok (row_with n d.spots)) e
find_spot-db (negsuc n) v v' e = ap (λ d. if fails d then err sql_error else ok none) e

module _ (s : Serving) where
  -- The store holds the NZB: any later call has it from there.
  cached_calm :
      (news : News) (spot : Spot) (v : Vault) (b : ℕ) (bs : Bytes)
      → v.db.faults ≡ []
      → is_empty spot.nzb_id ≡ false
      → get_cached_nzb spot.nzb_id v ≡ ok (b ∷ bs)
      → nzb_of s news spot v ≡ (served (spot, b ∷ bs), v)
  unfolding nzb_of
  cached_calm news spot v b bs calm id h =
      rw (id, h) (ap (λ w. (served (spot, b ∷ bs), w)) (step_calm v calm))

  cache-get :
      (id nzb : Bytes) (v : Vault)
      → v.db.faults ≡ []
      → (get_cached_nzb id (cache_nzb id nzb v).1 ≡ ok nzb) × ((cache_nzb id nzb v).1.db ≡ v.db)
  unfolding cache_nzb get_cached_nzb
  cache-get id nzb v calm =
      let b : Blob = record {
        message_id = id;
        content = nzb;
        mime_type = [];
        fetched_at = v.db.clock;
      } in
      rw (calm, blob_with-append b v.nzbs) (refl, refl)

  -- What a successful call leaves: the NZB it served is the one that the cache holds.
  record Kept (spot spot' : Spot) (b : ℕ) (bs : Bytes) (v v' : Vault) : Type 0 where
    same : spot' ≡ spot
    cached : get_cached_nzb spot.nzb_id v' ≡ ok (b ∷ bs)
    tables : v'.db ≡ v.db

  fetched_nzb-Kept :
      (news : News) (spot spot' : Spot) (f : Result Bytes) (v v' : Vault) (b : ℕ) (bs : Bytes)
      → v.db.faults ≡ []
      → fetched_nzb s news spot f v ≡ (served (spot', b ∷ bs), v')
      → Kept spot spot' b bs v v'
  fetched_nzb-Kept news spot spot' (err e) v v' b bs calm h = absurd (ground (arith, h))
  fetched_nzb-Kept news spot spot' (ok nzb) v v' b bs calm h =
      let again = cache-get spot.nzb_id nzb v calm in
      let whole : v' ≡ (cache_nzb spot.nzb_id nzb v).1 = ap (λ r. r.1) (sym h) in
      let media : nzb ≡ b ∷ bs = ground (arith, h) in
      record {
        same = ground (arith, h);
        cached = rw (whole) (again.0 ∙ ap ok media);
        tables = ap (λ w. w.db) whole ∙ again.1;
      }

  cached_nzb-Kept :
      (news : News) (spot spot' : Spot) (f : Result Bytes) (v v' : Vault) (b : ℕ) (bs : Bytes)
      → v.db.faults ≡ []
      → get_cached_nzb spot.nzb_id v ≡ f
      → cached_nzb s news spot f v ≡ (served (spot', b ∷ bs), v')
      → Kept spot spot' b bs v v'
  cached_nzb-Kept news spot spot' (err e) v v' b bs calm g h =
      fetched_nzb-Kept news spot spot' _ v v' b bs calm h
  cached_nzb-Kept news spot spot' (ok []) v v' b bs calm g h =
      fetched_nzb-Kept news spot spot' _ v v' b bs calm h
  cached_nzb-Kept news spot spot' (ok (c ∷ cs)) v v' b bs calm g h =
      let whole : v' ≡ v = ap (λ r. r.1) (sym h) in
      record {
        same = ground (arith, h);
        cached = rw (whole) (g ∙ ground (arith, h));
        tables = ap (λ w. w.db) whole;
      }

  nzb_of-Kept :
      (news : News) (spot spot' : Spot) (v v' : Vault) (b : ℕ) (bs : Bytes)
      → v.db.faults ≡ []
      → nzb_of s news spot v ≡ (served (spot', b ∷ bs), v')
      → (is_empty spot.nzb_id ≡ false) × Kept spot spot' b bs v v'
  unfolding nzb_of
  nzb_of-Kept news spot spot' v v' b bs calm h = elim (Bool-cases (is_empty spot.nzb_id)) [
    | inl e ↦ absurd (ground (arith, e, h))
    | inr e ↦ (
      e,
      cached_nzb-Kept news spot spot' (get_cached_nzb spot.nzb_id v) v v' b bs calm refl (
          sym (ap (λ w. cached_nzb s news spot (get_cached_nzb spot.nzb_id v) w) (step_calm v calm))
          ∙ (sym (later e) ∙ h)),
    )
  ]
    where
      later :
          is_empty spot.nzb_id ≡ false
          → nzb_of s news spot v ≡ cached_nzb s news spot (get_cached_nzb spot.nzb_id v) (step v)
      later e = rw (e, nzb_of) refl

  resolve_page :
      (news : News) (id : ℤ) (v : Vault)
      → resolve_nzb s news id v ≡ nzb_page s news (find_spot id v) (step v)
  unfolding resolve_nzb
  resolve_page news id v = refl

  named_page :
      (news : News) (r : Row) (v : Vault)
      → hidden_adult s.limits r ≡ false
      → is_empty r.nzb_id ≡ false
      → nzb_page s news (ok (some r)) v ≡ some (nzb_of s news (scan_spot r) v)
  named_page news r v a named = rw (a, named) refl

  -- A call for a spot whose NZB the store holds.
  held :
      (news : News) (id : ℤ) (r : Row) (v : Vault) (b : ℕ) (bs : Bytes)
      → v.db.faults ≡ []
      → find_spot id v ≡ ok (some r)
      → hidden_adult s.limits r ≡ false
      → is_empty r.nzb_id ≡ false
      → get_cached_nzb r.nzb_id v ≡ ok (b ∷ bs)
      → resolve_nzb s news id v ≡ some (served (scan_spot r, b ∷ bs), v)
  held news id r v b bs calm f a named kept =
      resolve_page news id v
      ∙ (ap (λ x. nzb_page s news x (step v)) f
          ∙ (named_page news r (step v) a named
              ∙ (ap (λ w. some (nzb_of s news (scan_spot r) w)) (step_calm v calm)
                  ∙ ap some (cached_calm news (scan_spot r) v b bs calm named kept))))

  -- The call that is made again answers the same bytes, whatever the news server then says.
  abbrev AgainServed : ℤ → ℕ → Bytes → Vault → Type 0
  AgainServed id b bs v =
      (news : News) → (spot : Spot) × (resolve_nzb s news id v ≡ some (served (spot, b ∷ bs), v))

  again_from_row :
      (news : News) (id : ℤ) (r : Row) (spot : Spot) (v v' : Vault) (b : ℕ) (bs : Bytes)
      → v.db.faults ≡ []
      → find_spot id v ≡ ok (some r)
      → hidden_adult s.limits r ≡ false
      → nzb_of s news (scan_spot r) v ≡ (served (spot, b ∷ bs), v')
      → AgainServed id b bs v'
  again_from_row news id r spot v v' b bs calm f a h news' =
      let (named, kept) = nzb_of-Kept news (scan_spot r) spot v v' b bs calm h in
      (
        scan_spot r,
        held news' id r v' b bs (ap (λ d. d.faults) kept.tables ∙ calm)
            (find_spot-db id v v' kept.tables ∙ f) a named kept.cached,
      )

  -- A row behind its own enrichment.
  abbrev Completed : Row → Spot → Row → Type 0
  Completed r spot r' = (r'.nzb_id ≡ spot.nzb_id) × (r'.is_adult ≡ r.is_adult)

  enriched-Completed : (r : Row) (spot : Spot) → Completed r spot (enriched_row r.id spot r)
  enriched-Completed r spot = rw (==_refl r.id) (refl, refl)

  enriched-found :
      (id : ℤ) (r : Row) (spot : Spot) (v : Vault)
      → v.db.faults ≡ []
      → find_spot id v ≡ ok (some r)
      → ((update_spot_enrichment r.id spot v).1.db.faults ≡ [])
        × (find_spot id (update_spot_enrichment r.id spot v).1
            ≡ ok (some (enriched_row r.id spot r)))
  unfolding get_spot_by_id update_spot_enrichment
  enriched-found (negsuc n) r spot v calm f = absurd (ground (arith, f, calm))
  enriched-found (pos n) r spot v calm f =
      let (same, found) = row_with-enriched n spot v.db.spots r (ground (arith, f, calm)) in
      let own =
        subst
          (λ k. row_with n (map (enriched_row k spot) v.db.spots) ≡ some (enriched_row k spot r))
          (sym same) found in
      rw calm (refl, ap ok own)

  complete_page :
      (news : News) (id : ℕ) (w : Visit) (v : Vault)
      → w.error ≡ none
      → enriched_nzb s news id (some w) v
        ≡ some (nzb_of s news w.spot (update_spot_enrichment id w.spot v).1)
  complete_page news id w v fine = rw fine refl

  unnamed_page :
      (news : News) (r : Row) (v : Vault)
      → hidden_adult s.limits r ≡ false
      → is_empty r.nzb_id ≡ true
      → nzb_page s news (ok (some r)) v
        ≡ enriched_nzb s news r.id (visit_article s news (scan_spot r)) v
  unnamed_page news r v a e = rw (a, e) refl

  again_enriched :
      (news : News) (id : ℤ) (r : Row) (w : Option Visit) (spot : Spot) (v v' : Vault) (b : ℕ)
      (bs : Bytes)
      → v.db.faults ≡ []
      → find_spot id v ≡ ok (some r)
      → hidden_adult s.limits r ≡ false
      → enriched_nzb s news r.id w v ≡ some (served (spot, b ∷ bs), v')
      → AgainServed id b bs v'
  again_enriched news id r none spot v v' b bs calm f a h = absurd (ground (arith, h))
  again_enriched news id r (some w) spot v v' b bs calm f a h = elim (Option-cases w.error) [
    | inr (e, broken) ↦ absurd (ground (arith, broken, h))
    | inl fine ↦
        let (calm', f') = enriched-found id r w.spot v calm f in
        let u = (update_spot_enrichment r.id w.spot v).1 in
        let r' = enriched_row r.id w.spot r in
        let (nzb, adult) = enriched-Completed r w.spot in
        let done = some-injective _ _ (sym (complete_page news r.id w v fine) ∙ h) in
        let (named, kept) = nzb_of-Kept news w.spot spot u v' b bs calm' done in
        λ news'. (
          scan_spot r',
          held news' id r' v' b bs (ap (λ d. d.faults) kept.tables ∙ calm')
              (find_spot-db id u v' kept.tables ∙ f')
              (ap (λ x. x && not s.limits.allow_adult) adult ∙ a) (ap (λ x. is_empty x) nzb ∙ named)
              (ap (λ x. get_cached_nzb x v') nzb ∙ kept.cached),
        )
  ]

  again_row :
      (news : News) (id : ℤ) (r : Row) (spot : Spot) (v v' : Vault) (b : ℕ) (bs : Bytes)
      → v.db.faults ≡ []
      → find_spot id v ≡ ok (some r)
      → nzb_page s news (ok (some r)) v ≡ some (served (spot, b ∷ bs), v')
      → AgainServed id b bs v'
  again_row news id r spot v v' b bs calm f h = elim (Bool-cases (hidden_adult s.limits r)) [
    | inl a ↦ absurd (ground (arith, a, h))
    | inr a ↦ elim (Bool-cases (is_empty r.nzb_id)) [
      | inl e ↦
          again_enriched news id r (visit_article s news (scan_spot r)) spot v v' b bs calm f a
            (sym (unnamed_page news r v a e) ∙ h)
      | inr e ↦
          again_from_row news id r spot v v' b bs calm f a
            (some-injective _ _ (sym (named_page news r v a e) ∙ h))
    ]
  ]

  again_page :
      (news : News) (id : ℤ) (o : Result (Option Row)) (spot : Spot) (v v' : Vault) (b : ℕ)
      (bs : Bytes)
      → v.db.faults ≡ []
      → find_spot id v ≡ o
      → nzb_page s news o v ≡ some (served (spot, b ∷ bs), v')
      → AgainServed id b bs v'
  again_page news id (err e) spot v v' b bs calm f h = absurd (ground (arith, h))
  again_page news id (ok none) spot v v' b bs calm f h = absurd (ground (arith, h))
  again_page news id (ok (some r)) spot v v' b bs calm f h =
      again_row news id r spot v v' b bs calm f h

  -- Where no statement of SQLite fails: an NZB that was served and is not empty is served again,
  -- the same bytes, to any later request for the same spot, from the store as the first request
  -- left it and whatever the news server then answers, also if it cannot be reached.
  pub resolve_nzb_again :
      (news later : News) (id : ℤ) (spot : Spot) (v v' : Vault) (b : ℕ) (bs : Bytes)
      → v.db.faults ≡ []
      → resolve_nzb s news id v ≡ some (served (spot, b ∷ bs), v')
      → (spot' : Spot) × (resolve_nzb s later id v' ≡ some (served (spot', b ∷ bs), v'))
  resolve_nzb_again news later id spot v v' b bs calm h =
      again_page news id (find_spot id v) spot v v' b bs calm refl
        (sym (ap (λ w. nzb_page s news (find_spot id v) w) (step_calm v calm))
          ∙ (sym (resolve_page news id v) ∙ h))
        later
