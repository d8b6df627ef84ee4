-- ===== src/Db/SpotterLists/Replaced.antt =====
-- maintenance.go: swapping a list is all or nothing.
use spottr.Base.{
  ◌≡◌, refl, ap, ◌∙◌, ◌⊎◌, inl, inr, Bool, false, not, ◌&&◌, ◌||◌, List, [], ◌∷◌, ◌++◌, Option,
  none, some, Error, arith, Bool-cases, keep, exists, if◌then◌else◌, sql_error,
}
use spottr.Text.{Bytes, eqb, is_empty, trim_space}
use spottr.Text.Laws.{eqb_iff}
use spottr.Db.Tables.{fails}
use spottr.Db.Caches.{Vault, ListEntry, step}
use spottr.Db.SpotterLists.{
  is_entry, put_entry, with_lists, put_entries, end_lists, replace_spotter_list,
}

-- Whether a spotter is on a list, and whether an id stands among those of a feed.
abbrev pub on_list : Bytes → Bytes → List ListEntry → Bool
on_list list_type id lists = exists (is_entry list_type id) lists

abbrev pub among : List Bytes → Bytes → Bool
among [] id = false
among (raw ∷ ids) id = (not (is_empty (trim_space raw)) && eqb (trim_space raw) id) || among ids id

one_more : (a b c d : Bool) → ((a || (b && c)) || (b && d)) ≡ (a || (b && (c || d)))
one_more a b c d = ground arith

module _ (t x : Bytes) where
  on_list-append :
      (lists more : List ListEntry)
      → on_list t x (lists ++ more) ≡ (on_list t x lists || on_list t x more)
  on_list-append [] more = refl
  on_list-append (e ∷ lists) more = ground (arith, on_list-append lists more)

  -- Taking out an entry leaves the others.
  on_list-without :
      (lists : List ListEntry) (u y : Bytes)
      → (on_list t x (keep (λ e. not (is_entry u y e)) lists) || (eqb u t && eqb y x))
        ≡ (on_list t x lists || (eqb u t && eqb y x))
  on_list-without [] u y = refl
  on_list-without (e ∷ lists) u y = ground (
    arith,
    on_list-without lists u y,
    eqb_iff e.list_type u,
    eqb_iff e.list_type t,
    eqb_iff u t,
    eqb_iff e.spotter_id y,
    eqb_iff e.spotter_id x,
    eqb_iff y x,
  )

  on_list-put :
      (e : ListEntry) (lists : List ListEntry)
      → on_list t x (put_entry e lists) ≡ (on_list t x lists || is_entry t x e)
  on_list-put e lists =
      on_list-append (keep (λ y. not (is_entry e.list_type e.spotter_id y)) lists) (e ∷ [])
      ∙ ground (arith, on_list-without lists e.list_type e.spotter_id)

  on_list-cleared :
      (u : Bytes) (lists : List ListEntry)
      → on_list t x (keep (λ (e : ListEntry). not (eqb e.list_type u)) lists)
        ≡ (not (eqb u t) && on_list t x lists)
  on_list-cleared u [] = ground arith
  on_list-cleared u (e ∷ lists) =
      ground
        (arith, on_list-cleared u lists, eqb_iff e.list_type u, eqb_iff e.list_type t, eqb_iff u t)

  put_entries-on_list :
      (u origin : Bytes) (ids : List Bytes) (v : Vault)
      → (put_entries u origin ids v).0 ≡ none
      → on_list t x (put_entries u origin ids v).1.lists
        ≡ (on_list t x v.lists || (eqb u t && among ids x))
  unfolding put_entries
  put_entries-on_list u origin [] v h = ground arith
  put_entries-on_list u origin (raw ∷ ids) v h = elim (Bool-cases (is_empty (trim_space raw))) [
    | inl e ↦ rw (e, put_entries) (put_entries-on_list u origin ids v (ground (arith, e, h)))
    | inr e ↦ elim (Bool-cases (fails v.db)) [
      | inl f ↦ absurd (ground (arith, e, f, h))
      | inr f ↦
          let new : ListEntry = record {
            spotter_id = trim_space raw;
            list_type = u;
            origin = origin;
          } in
          let ih =
            put_entries-on_list u origin ids (step (with_lists (put_entry new v.lists) v))
              (ground (arith, e, f, h)) in
          rw (e, f, put_entries)
            (ih
              ∙ (ap (λ b. b || (eqb u t && among ids x)) (on_list-put new v.lists)
                  ∙ one_more (on_list t x v.lists) (eqb u t) (eqb (trim_space raw) x)
                      (among ids x)))
    ]
  ]

-- What a swap has done: the list holds the ids and nothing else, and the other lists are as before.
abbrev pub Swapped : Bytes → List Bytes → Vault → Vault → Type 0
Swapped u ids v v' =
    (t x : Bytes) → on_list t x v'.lists ≡ (if eqb u t then among ids x else on_list t x v.lists)

end_lists-cases :
    (v : Vault) (r : Option Error × Vault)
    → ((r.0 ≡ none) × ((end_lists v r).0 ≡ none) × ((end_lists v r).1.lists ≡ r.1.lists))
      ⊎ ((e : Error) × ((end_lists v r).0 ≡ some e) × ((end_lists v r).1.lists ≡ v.lists))
end_lists-cases v (some e, v') = inr (e, refl, refl)
end_lists-cases v (none, v') = elim (Bool-cases (fails v'.db)) [
  | inl f ↦ rw f (inr (sql_error, refl, refl))
  | inr f ↦ rw f (inl (refl, refl, refl))
]

cleared_then : (b l a : Bool) → ((not b && l) || (b && a)) ≡ (if b then a else l)
cleared_then b l a = ground arith

-- A swap is all or nothing. Where it succeeds, the list holds exactly the given ids, less white
-- space at their ends and less those that are empty then, and every other list is as before.
-- Where it fails, all lists are as before.
pub replace_spotter_list_outcome :
    (u origin : Bytes) (ids : List Bytes) (v : Vault)
    → (((replace_spotter_list u origin ids v).0 ≡ none)
        × Swapped u ids v (replace_spotter_list u origin ids v).1)
      ⊎ ((e : Error) × ((replace_spotter_list u origin ids v).0 ≡ some e)
          × ((replace_spotter_list u origin ids v).1.lists ≡ v.lists))
unfolding replace_spotter_list
replace_spotter_list_outcome u origin ids v =
    let begun = step v in
    let left = keep (λ (e : ListEntry). not (eqb e.list_type u)) v.lists in
    let cleared = step (with_lists left begun) in
    let r = put_entries u origin ids (step cleared) in
    elim (Bool-cases (fails v.db)) [
      | inl f ↦ rw (f, replace_spotter_list) (inr (sql_error, refl, refl))
      | inr f ↦ elim (Bool-cases (fails begun.db)) [
        | inl f' ↦ rw (f, f', replace_spotter_list) (inr (sql_error, refl, refl))
        | inr f' ↦ elim (Bool-cases (fails cleared.db)) [
          | inl f'' ↦ rw (f, f', f'', replace_spotter_list) (inr (sql_error, refl, refl))
          | inr f'' ↦ elim (end_lists-cases v r) [
            | inr bad ↦ rw (f, f', f'', replace_spotter_list) (inr bad)
            | inl (good, fine, same) ↦
                rw (f, f', f'', replace_spotter_list)
                  (inl (
                    fine,
                    λ t x.
                        ap (λ l. on_list t x l) same
                        ∙ (put_entries-on_list t x u origin ids (step cleared) good
                            ∙ (ap (λ b. b || (eqb u t && among ids x))
                                  (on_list-cleared t x u v.lists)
                                ∙ cleared_then (eqb u t) (on_list t x v.lists) (among ids x))),
                  ))
          ]
        ]
      ]
    ]
