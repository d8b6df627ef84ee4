-- ===== src/Auth/Maps.antt =====
-- session.go: its maps hold one entry for each key.
use spottr.Base.{◌≡◌, refl, ap, Bool, false, [], ◌∷◌, keep, arith, Bool-cases, inl, inr, is_some}
use spottr.Text.{Bytes, eqb}
use spottr.Auth.{Entries, find, remove, set_key}
use spottr.Auth.Lockout.{IsMap, find-remove}

module _ {ℓ} {A : Type ℓ} where
  absent-remove :
      (k k' : Bytes) (m : Entries A)
      → is_some (find k m) ≡ false
      → is_some (find k (remove k' m)) ≡ false
  absent-remove k k' [] h = refl
  absent-remove k k' ((x, a) ∷ m) h = ground (arith, absent-remove k k' m)

  pub remove-IsMap : (k : Bytes) (m : Entries A) → IsMap m → IsMap (remove k m)
  remove-IsMap k [] h = tt
  remove-IsMap k ((x, a) ∷ m) (h, hs) = elim (Bool-cases (eqb x k)) [
    | inl e ↦ rw e (remove-IsMap k m hs)
    | inr e ↦ rw e (absent-remove x k m h, remove-IsMap k m hs)
  ]

  pub set_key-IsMap : (k : Bytes) (a : A) (m : Entries A) → IsMap m → IsMap (set_key k a m)
  set_key-IsMap k a m h = (ap is_some (find-remove k m), remove-IsMap k m h)

  absent-keep :
      (p : Bytes × A → Bool) (k : Bytes) (m : Entries A)
      → is_some (find k m) ≡ false
      → is_some (find k (keep p m)) ≡ false
  absent-keep p k [] h = refl
  absent-keep p k ((x, a) ∷ m) h = ground (arith, absent-keep p k m)

  pub keep-IsMap : (p : Bytes × A → Bool) (m : Entries A) → IsMap m → IsMap (keep p m)
  keep-IsMap p [] h = tt
  keep-IsMap p ((x, a) ∷ m) (h, hs) = elim (Bool-cases (p (x, a))) [
    | inl e ↦ rw e (absent-keep p x m h, keep-IsMap p m hs)
    | inr e ↦ rw e (keep-IsMap p m hs)
  ]
