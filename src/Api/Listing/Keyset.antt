-- ===== src/Api/Listing/Keyset.antt =====
-- router.go: the pages that listSpots gives when `before` is the `next_before` of the page before.
use spottr.Base.{
  ℕ, ◌*◌, ◌/◌, ◌≤◌, ◌<◌, ◌≡◌, refl, sym, ap, subst, ◌∙◌, Bool, true, false, not, ◌&&◌, ◌||◌, ◌==◌,
  if◌then◌else◌, List, [], ◌∷◌, ◌++◌, some, Result, ok, err, leb, ltb, arith, All, All-mono, All-of,
  count, count-keep, count-take-drop, take, drop, length, keep-same, Sorted, Sorted-take,
  take-Below,
}
use spottr.Text.{Bytes, codes, eqb}
use spottr.Text.Numbers.{ℤ, pos, negsuc, is_zero}
use spottr.Db.Tables.{Row, Db, nanos}
use spottr.Db.Search.{SearchParams}
use spottr.Db.Search.Run.{Engine, search_spots, fts_query, in_order, limited, skipped}
use spottr.Db.Search.Asked.{asked_for, filters, all_from}
use spottr.Db.Search.Listed.{Listed, search_spots-Listed}
use spottr.Api.Listing.{
  Limits, Page, page, list_params, list_spots, last_posted, parse_int_or, at_most_int,
}

-- The request with another value for `before`.
abbrev pub with_before : (Bytes → Bytes) → Bytes → Bytes → Bytes
with_before q v key = if eqb key (codes "before") then v else q key

-- The last row of a page.
last_posted-All :
    (P : Row → Type 0) (rows : List Row) (n : ℕ)
    → All P rows
    → last_posted rows ≡ some n
    → (r : Row) × P r × (r.posted_at ≡ n)
last_posted-All P [] n h e = absurd (cc (e))
last_posted-All P (r ∷ []) n (h, hs) e = (r, h, cc (e))
last_posted-All P (r ∷ r' ∷ rows) n (h, hs) e = last_posted-All P (r' ∷ rows) n hs e

last_posted-least :
    (rows : List Row) (n : ℕ)
    → Sorted (in_order false) rows
    → last_posted rows ≡ some n
    → All (λ r. n ≤ r.posted_at) rows
last_posted-least [] n s e = tt
last_posted-least (r ∷ []) n s e = (ground (arith, e), tt)
last_posted-least (r ∷ r' ∷ rows) n ((h, b), s) e =
    let rest = last_posted-least (r' ∷ rows) n s e in (ground (arith, h, rest.0), rest)

and_swap : (a b c : Bool) → ((a && b) && c) ≡ ((a && c) && b)
and_swap true true c = ground arith
and_swap true false c = ground arith
and_swap false b c = refl

and_true : (a : Bool) → a ≡ (a && true)
and_true true = refl
and_true false = refl

all_from-and : (a b : Bool) (cs : List Bool) → all_from (a && b) cs ≡ (all_from a cs && b)
all_from-and a b [] = refl
all_from-and a b (c ∷ cs) = ap (λ x. all_from x cs) (and_swap a b c) ∙ all_from-and (a && c) b cs

all_from-one :
    (a b : Bool) (cs ds : List Bool)
    → all_from a (cs ++ b ∷ ds) ≡ (all_from a (cs ++ true ∷ ds) && b)
all_from-one a b [] ds = all_from-and a b ds ∙ ap (λ x. all_from x ds && b) (and_true a)
all_from-one a b (c ∷ cs) ds = all_from-one (a && c) b cs ds

times_nanos : (n : ℕ) → (n * nanos) / nanos ≡ n
times_nanos n = omega arith

-- What the filter on `before` says of a row.
before_lem :
    (n posted : ℕ)
    → 0 < n
    → (n * nanos == 0 || not (leb ((n * nanos) / nanos) posted)) ≡ ltb posted n
before_lem n posted h =
    let some_time : (n * nanos == 0) ≡ false = ground (arith, h) in
    rw (times_nanos n, some_time) (ground arith)

-- The filters in front of the one on `before`, and behind it.
abbrev front : (Bytes → Row → Bool) → Bytes → SearchParams → Row → List Bool
front matches s p r = take 10 (filters matches s p r)

abbrev back : (Bytes → Row → Bool) → Bytes → SearchParams → Row → List Bool
back matches s p r = drop 11 (filters matches s p r)

module _ (e : Engine) (c : Limits) where
  -- What a request asks of a row.
  abbrev pub asked : (Bytes → Bytes) → Row → Bool
  asked q r = asked_for e.matches (fts_query e (list_params c q)) (list_params c q) r

  asked-with_before :
      (q : Bytes → Bytes) (v : Bytes) (n : ℕ) (r : Row)
      → parse_int_or (q (codes "before")) (pos 0) ≡ pos 0
      → parse_int_or v (pos 0) ≡ pos n
      → 0 < n
      → asked (with_before q v) r ≡ (asked q r && ltb r.posted_at n)
  unfolding asked_for list_params eqb
  asked-with_before q v n r none_yet h h' =
      let p = list_params c q in
      let s = fts_query e p in
      rw (none_yet, h, before_lem n r.posted_at h')
        (all_from-one true (ltb r.posted_at n) (front e.matches s p r) (back e.matches s p r))

count_none : (p : Row → Bool) (rows : List Row) → All (λ r. p r ≡ false) rows → count p rows ≡ 0
count_none p [] h = refl
count_none p (r ∷ rows) (h, hs) = rw h (count_none p rows hs)

newer_none : (n : ℕ) (b : Bool) (r : Row) → r.posted_at ≤ n → (ltb n r.posted_at && b) ≡ false
newer_none n b r h = ground (arith, h)

-- The first rows of the newest-first listing, up to the second of the last of them.
limited_lem :
    (limit : ℤ) (rows : List Row) (n : ℕ)
    → Sorted (in_order false) rows
    → last_posted (limited limit rows) ≡ some n
    → All (λ r. n ≤ r.posted_at) (limited limit rows)
      × ((f : Row → Bool)
          → count (λ r. ltb n r.posted_at && f r) rows
            ≡ count (λ r. ltb n r.posted_at && f r) (limited limit rows))
limited_lem (negsuc k) rows n s e = (last_posted-least rows n s e, λ f. refl)
limited_lem (pos k) rows n s e =
    let (last, below, at) =
      last_posted-All _ (take k rows) n (take-Below (in_order false) k rows s) e in
    let rest : All (λ r. r.posted_at ≤ n) (drop k rows) =
      All-mono _ _ (λ r h. ground (arith, at, h)) (drop k rows) below in
    (
      last_posted-least (take k rows) n (Sorted-take (in_order false) k rows s) e,
      λ f.
          let newer : Row → Bool = λ r. ltb n r.posted_at && f r in
          let behind =
            count_none newer (drop k rows)
              (All-mono _ _ (λ r. newer_none n (f r) r) (drop k rows) rest) in
          omega (arith, count-take-drop newer k rows, behind),
    )

skipped_none : (bound : ℤ) (rows : List Row) → skipped (at_most_int bound (pos 0)) rows ≡ rows
skipped_none (pos m) rows = let least : leb 0 m ≡ true = ground arith in rw least refl
skipped_none (negsuc m) rows = refl

older_lem : (b : Bool) (posted n : ℕ) → (b && ltb posted n) ≡ true → posted < n
older_lem true posted n h = ground (arith, h)
older_lem false posted n h = absurd (cc (h))

abbrev page_from : Page → Result Page → Page
page_from g (ok g') = g'
page_from g (err x) = g

module _ (e : Engine) (c : Limits) where
  page-Listed :
      (p : SearchParams) (d : Db) (r : Result (List Row × ℕ)) (g : Page)
      → page e c p r ≡ ok g
      → Listed e p d r
      → Listed e p d (ok (g.spots, g.total)) × (g.next_before ≡ last_posted g.spots)
  page-Listed p d (err x) g h l = absurd (cc (h))
  page-Listed p d (ok (rows, total)) g h l =
      subst
        (λ (g' : Page).
          Listed e p d (ok (g'.spots, g'.total)) × (g'.next_before ≡ last_posted g'.spots))
        (ap (page_from g) h) (l, refl)

  list_spots-Listed :
      (q : Bytes → Bytes) (d : Db) (g : Page)
      → (list_spots e c q d).0 ≡ ok g
      → Listed e (list_params c q) d (ok (g.spots, g.total)) × (g.next_before ≡ last_posted g.spots)
  unfolding list_spots
  list_spots-Listed q d g h =
      page-Listed (list_params c q) d (search_spots e (list_params c q) d).0 g h
        (search_spots-Listed e (list_params c q) d)

  -- The page behind a page whose `next_before` is `n`.
  abbrev pub Continues : (Bytes → Bytes) → ℕ → Db → Result Page → Type 0
  Continues q n d (err x) = Unit
  Continues q n d (ok g) =
      All (λ r. r.posted_at < n) g.spots
      × (g.total ≡ count (λ r. asked e c q r && ltb r.posted_at n) d.spots)

  Listed-Continues :
      (q : Bytes → Bytes) (v : Bytes) (n : ℕ) (d : Db) (r : Result Page)
      → (list_spots e c (with_before q v) d).0 ≡ r
      → ((x : Row) → asked e c (with_before q v) x ≡ (asked e c q x && ltb x.posted_at n))
      → Continues q n d r
  Listed-Continues q v n d (err x) h same = tt
  Listed-Continues q v n d (ok g) h same =
      let ((good, total, _, _), _) = list_spots-Listed (with_before q v) d g h in
      (
        All-mono _ _ (λ r yes. older_lem (asked e c q r) r.posted_at n (sym (same r) ∙ yes)) g.spots
            good,
        total ∙ ap length (keep-same _ _ d.spots (All-of _ d.spots same)),
      )

  -- The first page of a listing that is not by size, where the request sets neither `before` nor
  -- `offset` and the page has `next_before` n, which is not 0; and the page that the same request
  -- with n for `before` gets. The first page holds nothing older than n and every spot newer than n
  -- that is asked for, each as often as in the store. The second one, also from another store, is
  -- an error or holds nothing but spots older than n, and counts all of those that are asked for.
  -- So no spot is on both, and only spots of the second n itself may be lost between them.
  pub next_page-Continues :
      (q : Bytes → Bytes) (v : Bytes) (n : ℕ) (d d' : Db) (g : Page)
      → eqb (q (codes "sort")) (codes "size") ≡ false
      → parse_int_or (q (codes "before")) (pos 0) ≡ pos 0
      → parse_int_or (q (codes "offset")) (pos 0) ≡ pos 0
      → (list_spots e c q d).0 ≡ ok g
      → g.next_before ≡ some n
      → parse_int_or v (pos 0) ≡ pos n
      → 0 < n
      → All (λ r. n ≤ r.posted_at) g.spots
        × ((f : Row → Bool)
            → count (λ r. (ltb n r.posted_at && f r) && asked e c q r) d.spots
              ≡ count (λ r. ltb n r.posted_at && f r) g.spots)
        × Continues q n d' (list_spots e c (with_before q v) d').0
  unfolding list_params
  next_page-Continues q v n d d' g by_age unset first h at h' later =
      let p = list_params c q in
      let ((_, _, _, (rows, s, counts, cut)), next) = list_spots-Listed q d g h in
      let limit = if is_zero p.limit then pos 25 else p.limit in
      let whole : g.spots ≡ limited limit rows =
        cut ∙ rw first (ap (limited limit) (skipped_none c.max_offset rows)) in
      let (least, newer) =
        limited_lem limit rows n (subst (λ b. Sorted (in_order b) rows) by_age s)
          (ap last_posted (sym whole) ∙ (sym next ∙ at)) in
      (
        rw whole least,
        λ f.
            let test : Row → Bool = λ r. ltb n r.posted_at && f r in
            sym (count-keep test (asked e c q) d.spots)
            ∙ (sym (counts test) ∙ (newer f ∙ ap (count test) (sym whole))),
        Listed-Continues q v n d' _ refl (λ r. asked-with_before e c q v n r unset h' later),
      )
