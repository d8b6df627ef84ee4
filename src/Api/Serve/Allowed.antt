-- ===== src/Api/Serve/Allowed.antt =====
-- router.go: a spot, its NZB and its image are answered only where the settings allow it.
use spottr.Base.{
  ap, ◌∙◌, ◌≡◌, refl, Bool, true, false, ◌⊎◌, inl, inr, Option, none, some, ok, err, arith,
  Bool-cases, Result-cases, Option-cases, ◌||◌,
}
use spottr.Text.{Bytes, is_empty}
use spottr.Text.Numbers.{parse_int}
use spottr.Db.Tables.{Row}
use spottr.Db.Caches.{Vault, step}
use spottr.Api.Listing.{hidden_adult}
use spottr.Api.Serve.{
  Error, News, Serving, Answer, refused, served, find_spot, get_spot, resolve_nzb, download_nzb,
  get_image,
}

or_true : (b : Bool) → (b || true) ≡ true
or_true b = ground arith

module _ (s : Serving) (url_id : Bytes) (v : Vault) where
  -- The id is a number, a row has it, and the row is not an 18+ spot that the settings hide.
  abbrev pub Permitted : Type 0
  Permitted =
      ((parse_int url_id).good ≡ true)
      × ((r : Row) × (find_spot (parse_int url_id).value v ≡ ok (some r))
          × ((r.is_adult ≡ false) ⊎ (s.limits.allow_adult ≡ true)))

  -- An answer, or a change of the store, is for a spot that is permitted.
  abbrev pub Guarded {u} : {T : Type u} → Answer T × Vault → Type 0
  Guarded (served t, v') = Permitted
  Guarded (refused n, v') = Permitted ⊎ ((v' ≡ v) ⊎ (v' ≡ step v))

  abbrev pub GuardedRun {u} : {T : Type u} → Option (Answer T × Vault) → Type 0
  GuardedRun none = Permitted
  GuardedRun (some r) = Guarded r

  Guarded-Permitted {u} : {T : Type u} (r : Answer T × Vault) → Permitted → Guarded r
  Guarded-Permitted (served t, v') p = p
  Guarded-Permitted (refused n, v') p = inl p

  GuardedRun-Permitted {u} : {T : Type u} (r : Option (Answer T × Vault)) → Permitted → GuardedRun r
  GuardedRun-Permitted none p = p
  GuardedRun-Permitted (some r) p = Guarded-Permitted r p

  -- The ways in which a request is not permitted.
  data Refusal : Type 0 where
    bad_id : (parse_int url_id).good ≡ false → Refusal
    bad_read :
        (e : Error)
        → (parse_int url_id).good ≡ true
        → find_spot (parse_int url_id).value v ≡ err e
        → Refusal
    no_row :
        (parse_int url_id).good ≡ true → find_spot (parse_int url_id).value v ≡ ok none → Refusal
    adult :
        (r : Row)
        → (parse_int url_id).good ≡ true
        → find_spot (parse_int url_id).value v ≡ ok (some r)
        → hidden_adult s.limits r ≡ true
        → Refusal

  shown :
      (r : Row)
      → hidden_adult s.limits r ≡ false
      → (r.is_adult ≡ false) ⊎ (s.limits.allow_adult ≡ true)
  shown r a = elim (Bool-cases r.is_adult) [ inr e ↦ inl e | inl e ↦ inr (ground (arith, a, e)) ]

  Permitted-or-Refusal : Permitted ⊎ Refusal
  Permitted-or-Refusal = elim (Bool-cases (parse_int url_id).good) [
    | inr g ↦ inr (bad_id g)
    | inl g ↦ elim (Result-cases (find_spot (parse_int url_id).value v)) [
      | inl (e, f) ↦ inr (bad_read e g f)
      | inr (o, f) ↦ elim (Option-cases o) [
        | inl n ↦ inr (no_row g (f ∙ ap ok n))
        | inr (r, n) ↦ elim (Bool-cases (hidden_adult s.limits r)) [
          | inl a ↦ inr (adult r g (f ∙ ap ok n) a)
          | inr a ↦ inl (g, (r, f ∙ ap ok n, shown r a))
        ]
      ]
    ]
  ]

  -- Every handler answers, and leaves the store, the same with another news server.
  abbrev pub Unasked : News → News → Type 0
  Unasked news news' =
      (get_spot s news url_id v ≡ get_spot s news' url_id v)
      × ((download_nzb s news url_id v ≡ download_nzb s news' url_id v)
          × (get_image s news url_id v ≡ get_image s news' url_id v))

  -- Where a request is refused, all three handlers leave the store alone.
  refused_alone :
      (news : News)
      → Refusal
      → GuardedRun (get_spot s news url_id v)
        × (GuardedRun (download_nzb s news url_id v) × Guarded (get_image s news url_id v))
  unfolding get_spot resolve_nzb download_nzb get_image
  refused_alone news (bad_id g) =
      rw (g, get_spot, download_nzb, get_image) (inr (inl refl), (inr (inl refl), inr (inl refl)))
  refused_alone news (bad_read e g f) =
      rw (g, f, get_spot, download_nzb, resolve_nzb, get_image)
        (inr (inr refl), (inr (inr refl), inr (inr refl)))
  refused_alone news (no_row g f) =
      rw (g, f, get_spot, download_nzb, resolve_nzb, get_image)
        (inr (inr refl), (inr (inr refl), inr (inr refl)))
  refused_alone news (adult r g f a) =
      rw (g, f, a, get_spot, download_nzb, resolve_nzb, get_image)
        (inr (inr refl), (inr (inr refl), rw (or_true (is_empty r.image_url)) (inr (inr refl))))

  -- Where a request is refused, the news server decides nothing.
  refused-Unasked : (news news' : News) → Refusal → Unasked news news'
  unfolding get_spot resolve_nzb download_nzb get_image
  refused-Unasked news news' (bad_id g) =
      rw (g, get_spot, download_nzb, get_image) (refl, (refl, refl))
  refused-Unasked news news' (bad_read e g f) =
      rw (g, f, get_spot, download_nzb, resolve_nzb, get_image) (refl, (refl, refl))
  refused-Unasked news news' (no_row g f) =
      rw (g, f, get_spot, download_nzb, resolve_nzb, get_image) (refl, (refl, refl))
  refused-Unasked news news' (adult r g f a) =
      rw (g, f, a, get_spot, download_nzb, resolve_nzb, get_image)
        (refl, (refl, rw (or_true (is_empty r.image_url)) refl))

  -- The page of a spot, its NZB and its image are answered only where the id is a number, a row
  -- has it, and the row is not an 18+ spot that the settings hide. In all other cases the request
  -- is refused, the store is as it was, a read apart, and neither the refusal nor the store
  -- depends on what the news server would say.
  pub served-Permitted :
      (news news' : News)
      → (GuardedRun (get_spot s news url_id v)
          × (GuardedRun (download_nzb s news url_id v) × Guarded (get_image s news url_id v)))
        × (Permitted ⊎ Unasked news news')
  served-Permitted news news' = elim Permitted-or-Refusal [
    | inl p ↦ (
      (
        GuardedRun-Permitted (get_spot s news url_id v) p,
        (
          GuardedRun-Permitted (download_nzb s news url_id v) p,
          Guarded-Permitted (get_image s news url_id v) p,
        ),
      ),
      inl p,
    )
    | inr why ↦ (refused_alone news why, inr (refused-Unasked news news' why))
  ]
