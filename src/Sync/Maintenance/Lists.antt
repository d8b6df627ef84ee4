-- ===== src/Sync/Maintenance/Lists.antt =====
-- sync/maintenance.go: what a feed may do to the lists of spotters.
use spottr.Base.{
  ltb, ◌≤◌, ◌≡◌, ◌⊎◌, inl, inr, false, ◌||◌, List, [], ◌∷◌, ok, arith, Bool-cases, length,
}
use spottr.Text.{Bytes, is_empty}
use spottr.Db.Withdrawals.{is_listed}
use spottr.Db.Caches.{Vault}
use spottr.Db.SpotterLists.Replaced.{Swapped}
use spottr.Sync.Maintenance.{Maintainer, candidates, fetch_spotter_list}

-- An id that is taken: it is new, not empty, and not long.
abbrev Taken : List Bytes → Bytes → Type 0
Taken seen c = (is_listed seen c ≡ false) × (is_empty c ≡ false) × (length c ≤ 64)

-- The ids are taken once each.
abbrev pub TakenOnce : List Bytes → List Bytes → Type 0
TakenOnce seen [] = Unit
TakenOnce seen (c ∷ cs) = Taken seen c × TakenOnce (c ∷ seen) cs

-- The ids that a feed yields differ from one another, are not empty and have at most 64 bytes.
pub candidates-TakenOnce : (seen cs : List Bytes) → TakenOnce seen (candidates seen cs)
unfolding candidates
candidates-TakenOnce seen [] = tt
candidates-TakenOnce seen (c ∷ cs) =
    elim (Bool-cases ((is_empty c || ltb 64 (length c)) || is_listed seen c)) [
      | inl skip ↦ rw (skip, candidates) (candidates-TakenOnce seen cs)
      | inr take_it ↦
          rw (take_it, candidates)
            (
              (ground (arith, take_it), ground (arith, take_it), ground (arith, take_it)),
              candidates-TakenOnce (c ∷ seen) cs,
            )
    ]

-- How a refresh of the list `u` ends: all lists as before, or that one swapped for what was fetched.
abbrev pub Refreshed : Maintainer → Bytes → Bytes → Vault → Vault → Type 0
Refreshed m u url v v' =
    (v'.lists ≡ v.lists)
    ⊎ ((id : Bytes) × (ids : List Bytes) × (fetch_spotter_list m url ≡ ok (id ∷ ids))
        × TakenOnce [] (id ∷ ids)
        × Swapped u (id ∷ ids) v v')
