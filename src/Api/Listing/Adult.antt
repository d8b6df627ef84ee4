-- ===== src/Api/Listing/Adult.antt =====
-- router.go: which spots the listings show.
use spottr.Base.{
  ℕ, ◌≡◌, refl, ap, ◌∙◌, subst, ◌⊎◌, inl, inr, Bool, true, false, ◌&&◌, ◌||◌, List, [], ◌∷◌, arith,
  Bool-cases, Result, ok, err, Result-cases, All, All-mono, map, exists,
}
use spottr.Text.{Bytes, codes, eqb, has_prefix, split, trim_space}
use spottr.Text.Numbers.{ℤ, pos, negsuc}
use spottr.Db.Kind.{kind_erotic}
use spottr.Db.Tables.{Row, Db}
use spottr.Db.Search.{SearchParams}
use spottr.Db.Search.Run.{Engine, search_spots, fts_query}
use spottr.Db.Search.Asked.{asked_for, filters, all_from}
use spottr.Db.Search.Listed.{Listed, search_spots-Listed}
use spottr.Api.Listing.{
  Limits, Page, Channel, Item, list_params, list_spots, newznab_params, newznab_search, item_of,
  include_adult, kinds_in, parts_of,
}
use spottr.Api.Listing.Filter.{Seen, see_part, see_parts, nothing_seen, newznab_filter}

all_from-true :
    (b : Bool) (bs : List Bool) → all_from b bs ≡ true → (b ≡ true) × All (λ x. x ≡ true) bs
all_from-true b [] h = (h, tt)
all_from-true b (c ∷ bs) h =
    let (first, rest) = all_from-true (b && c) bs h in
    (ground (arith, first), (ground (arith, first), rest))

-- A row that is shown to users, and is for adults only under the condition.
abbrev pub Shown : Type 0 → Row → Type 0
Shown Allowed r = (r.moderated ≡ false) × ((r.is_adult ≡ false) ⊎ Allowed)

asked_for-Shown :
    (matches : Bytes → Row → Bool) (fts : Bytes) (p : SearchParams) (r : Row)
    → asked_for matches fts p r ≡ true
    → Shown ((p.adult_only ≡ true) ⊎ (p.allow_adult ≡ true)) r
unfolding asked_for
asked_for-Shown matches fts p r h =
    let (_, (_, (_, (_, (_, (_, (_, (_, (_, (_, (_, (_, (shown, (age, _)))))))))))))) =
      all_from-true true (filters matches fts p r) h in
    (
      ground (arith, shown),
      elim (Bool-cases r.is_adult) [
        | inr e ↦ inl e
        | inl e ↦ elim (Bool-cases p.adult_only) [
          | inl e' ↦ inr (inl e')
          | inr e' ↦ inr (inr (ground (arith, age, e, e')))
        ]
      ],
    )

-- The rows of a search that succeeds.
found-Shown :
    (e : Engine) (p : SearchParams) (d : Db) (rows : List Row) (total : ℕ)
    → (search_spots e p d).0 ≡ ok (rows, total)
    → All (Shown ((p.adult_only ≡ true) ⊎ (p.allow_adult ≡ true))) rows
found-Shown e p d rows total h =
    All-mono _ _ (asked_for-Shown e.matches (fts_query e p) p) rows
      (subst (Listed e p d) h (search_spots-Listed e p d)).0

include_adult-true :
    (allows : Bool) (kinds : List ℤ)
    → include_adult allows kinds ≡ true
    → (allows ≡ true) × (kinds ≡ pos kind_erotic ∷ [])
unfolding include_adult
include_adult-true allows [] h = absurd (ground (arith, h))
include_adult-true allows (negsuc k ∷ ks) h = absurd (ground (arith, h))
include_adult-true allows (pos k ∷ k' ∷ ks) h = absurd (ground (arith, h))
include_adult-true allows (pos k ∷ []) h = (ground (arith, h), ground (arith, h))

-- What a request for 18+ spots and nothing else looks like on the web.
abbrev pub AskedErotic : (Bytes → Bytes) → Type 0
AskedErotic q = kinds_in (parts_of (q (codes "kind"))) ≡ pos kind_erotic ∷ []

abbrev pub six : Bytes → Bool
six c = has_prefix (trim_space c) (codes "6")

abbrev pub other : Bytes → Bool
other c =
    let t = trim_space c in
    has_prefix t (codes "1")
    || (has_prefix t (codes "2")
        || (has_prefix t (codes "3")
            || (has_prefix t (codes "4")
                || (has_prefix t (codes "5") || has_prefix t (codes "7")))))

-- The same for Newznab: a category of 6000 and none of the others that it knows.
abbrev pub AskedAdult : (Bytes → Bytes) → Type 0
AskedAdult q =
    (exists six (split (q (codes "cat")) b',') ≡ true)
    × (exists other (split (q (codes "cat")) b',') ≡ false)

see_part-seen :
    (c : Bytes) (s : Seen)
    → ((see_part c s).adult_asked ≡ (s.adult_asked || has_prefix c (codes "6")))
      × ((see_part c s).other_asked ≡ (
          s.other_asked
          || (has_prefix c (codes "1")
              || (has_prefix c (codes "2")
                  || (has_prefix c (codes "3")
                      || (has_prefix c (codes "4")
                          || (has_prefix c (codes "5") || has_prefix c (codes "7"))))))))
unfolding see_part has_prefix eqb
see_part-seen [] s = (ground arith, ground arith)
see_part-seen (x ∷ c) s = (ground arith, ground arith)

see_parts-seen :
    (cs : List Bytes) (s : Seen)
    → ((see_parts cs s).adult_asked ≡ (s.adult_asked || exists six cs))
      × ((see_parts cs s).other_asked ≡ (s.other_asked || exists other cs))
unfolding see_parts
see_parts-seen [] s = (ground arith, ground arith)
see_parts-seen (c ∷ cs) s =
    let one = see_part-seen (trim_space c) s in
    let rest = see_parts-seen cs (see_part (trim_space c) s) in
    (
      rest.0 ∙ ap (λ b. b || exists six cs) one.0 ∙ ground arith,
      rest.1 ∙ ap (λ b. b || exists other cs) one.1 ∙ ground arith,
    )

newznab_filter-adult :
    (cat : Bytes) (allows : Bool)
    → (newznab_filter cat allows).1 ≡ true
    → (allows ≡ true)
      × ((exists six (split cat b',') ≡ true) × (exists other (split cat b',') ≡ false))
unfolding newznab_filter
newznab_filter-adult cat allows h =
    let (a, o) = see_parts-seen (split cat b',') nothing_seen in
    (ground (arith, h), (ground (arith, h, a), ground (arith, h, o)))

-- What the web's listing may answer.
abbrev pub SafePage : Limits → (Bytes → Bytes) → Result Page → Type 0
SafePage c q (err x) = Unit
SafePage c q (ok p) = All (Shown ((c.allow_adult ≡ true) × AskedErotic q)) p.spots

-- What Newznab's may answer: its items are made of such rows.
abbrev pub SafeChannel : (Row → Item) → Limits → (Bytes → Bytes) → Result Channel → Type 0
SafeChannel made c q (err x) = Unit
SafeChannel made c q (ok ch) =
    (rows : List Row) × (ch.items ≡ map made rows)
    × All (Shown ((c.allow_adult ≡ true) × AskedAdult q)) rows

-- Where both flags say the same, what they say is the condition.
Shown-by : {P Q : Type 0} (r : Row) → (P → Q) → Shown (P ⊎ P) r → Shown Q r
Shown-by r f (shown, inl e) = (shown, inl e)
Shown-by r f (shown, inr (inl p)) = (shown, inr (f p))
Shown-by r f (shown, inr (inr p)) = (shown, inr (f p))

-- A listing shows no withdrawn spot. It shows an 18+ spot only where the server allows those and
-- the request asks for them alone: on the web by the kind `erotic` and no other kind that is known,
-- in Newznab by a category that begins with 6 and none that begins with 1 to 5 or 7.
pub listings-Shown :
    (e : Engine) (c : Limits) (escape : Bytes → Bytes) (base_url api_key : Bytes)
    (q : Bytes → Bytes) (d : Db)
    → SafePage c q (list_spots e c q d).0
      × SafeChannel
          (item_of e c escape base_url api_key)
          c
          q
          (newznab_search e c escape base_url api_key q d).0
unfolding list_spots newznab_search list_params newznab_params
listings-Shown e c escape base_url api_key q d = (on_web, in_newznab)
  where
    on_web : SafePage c q (list_spots e c q d).0
    on_web = elim (Result-cases (search_spots e (list_params c q) d).0) [
      | inl (x, f) ↦ rw (f, list_spots) tt
      | inr ((rows, total), f) ↦
          rw (f, list_spots)
            (All-mono _ _
              (λ r s.
                Shown-by r
                  (include_adult-true c.allow_adult (kinds_in (parts_of (q (codes "kind"))))) s)
              rows (found-Shown e (list_params c q) d rows total f))
    ]

    in_newznab :
        SafeChannel
          (item_of e c escape base_url api_key)
          c
          q
          (newznab_search e c escape base_url api_key q d).0
    in_newznab = elim (Result-cases (search_spots e (newznab_params c q) d).0) [
      | inl (x, f) ↦ rw (f, newznab_search) tt
      | inr ((rows, total), f) ↦
          rw (f, newznab_search)
            (
              rows,
              refl,
              All-mono _ (Shown ((c.allow_adult ≡ true) × AskedAdult q))
                  (λ r s. Shown-by r (newznab_filter-adult (q (codes "cat")) c.allow_adult) s) rows
                  (found-Shown e (newznab_params c q) d rows total f),
            )
    ]
