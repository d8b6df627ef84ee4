-- ===== src/Config/Paging.antt =====
-- config.go, router.go and db.go together: how long a page of the listing may be.
use spottr.Base.{
  subst, zero, suc, ◌≡◌, refl, true, List, arith, Bool-cases, Result-cases, Result, ok, err, inl,
  inr, length,
}
use spottr.Text.{Bytes, codes}
use spottr.Text.Numbers.{ℤ, pos, negsuc}
use spottr.Db.Tables.{Row, Db}
use spottr.Db.Search.{SearchParams}
use spottr.Db.Search.Run.{Engine, leb_int, search_spots}
use spottr.Db.Search.Listed.{Listed, WithinLimit, search_spots-Listed}
use spottr.Api.Listing.{
  Limits, Page, at_most_int, clamp_paging, parse_int_or, list_params, list_spots,
}
use spottr.Config.{Libraries, Config, loaded, Env, load, limits_of}
use spottr.Config.Loaded.{Sound, SoundIn, load-SoundIn}

abbrev FromOneTo : ℤ → ℤ → Type 0
FromOneTo max n = (leb_int (pos 1) n ≡ true) × (leb_int n max ≡ true)

leb_int_refl : (n : ℤ) → leb_int n n ≡ true
leb_int_refl (pos n) = ground arith
leb_int_refl (negsuc n) = ground arith

at_most_int-FromOneTo :
    (max n : ℤ)
    → leb_int (pos 1) max ≡ true
    → leb_int (pos 1) n ≡ true
    → FromOneTo max (at_most_int max n)
at_most_int-FromOneTo max n one h = elim (Bool-cases (leb_int n max)) [
  | inl e ↦ rw e (h, e)
  | inr e ↦ rw e (one, leb_int_refl max)
]

clamp-FromOneTo :
    (c : Limits) (limit offset : ℤ)
    → leb_int (pos 1) c.max_page_size ≡ true
    → FromOneTo c.max_page_size (clamp_paging c limit offset).0
unfolding clamp_paging
clamp-FromOneTo c limit offset one = elim (Bool-cases (leb_int (pos 1) limit)) [
  | inl e ↦ rw (e, clamp_paging) (at_most_int-FromOneTo c.max_page_size limit one e)
  | inr e ↦ rw (e, clamp_paging) (at_most_int-FromOneTo c.max_page_size (pos 25) one refl)
]

within :
    (e : Engine) (p : SearchParams) (max n : ℤ) (rows : List Row)
    → FromOneTo max n
    → WithinLimit e p n rows
    → leb_int (pos (length rows)) max ≡ true
within e p max (pos zero) rows (one, le) h = absurd (ground (arith, one))
within e p (pos m) (pos (suc n)) rows (one, le) h = ground (arith, le, h)
within e p (negsuc m) (pos (suc n)) rows (one, le) h = absurd (ground (arith, le))
within e p max (negsuc n) rows (one, le) h = absurd (ground (arith, one))

-- A page has at most so many spots.
abbrev pub ShortPage : ℤ → Result Page → Type 0
ShortPage max (err x) = Unit
ShortPage max (ok p) = leb_int (pos (length p.spots)) max ≡ true

-- With a configuration that was loaded, no request makes the listing of the web answer a page with
-- more spots than MAX_PAGE_SIZE says, whatever limit it asks for, a negative one included, which
-- SQLite would take for no limit.
pub list_spots-ShortPage :
    (l : Libraries) (env : Env) (c : Config l.net.Prefix) (e : Engine) (q : Bytes → Bytes) (d : Db)
    → load l env ≡ loaded c
    → ShortPage c.max_page_size (list_spots e (limits_of l c) q d).0
unfolding list_spots list_params
list_spots-ShortPage l env c e q d h =
    let lim = limits_of l c in
    let p = list_params lim q in
    let sound : Sound l c = subst (λ o. SoundIn l o) h (load-SoundIn l env) in
    let size =
      clamp-FromOneTo lim (parse_int_or (q (codes "limit")) (pos 25))
        (parse_int_or (q (codes "offset")) (pos 0)) sound.3 in
    elim (Result-cases (search_spots e p d).0) [
      | inl (x, f) ↦ rw (f, list_spots) tt
      | inr ((rows, total), f) ↦
          let found : Listed e p d (ok (rows, total)) =
            subst (λ r. Listed e p d r) f (search_spots-Listed e p d) in
          rw (f, list_spots) (within e p c.max_page_size p.limit rows size found.2)
    ]
