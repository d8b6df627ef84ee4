-- ===== src/Base/Errors.antt =====
-- The errors that the program's functions return, and the results that carry them. Messages are
-- not kept: no caller reads them.
use mathlib.Core.Path.{◌≡◌, refl}
use mathlib.Core.Logic.{◌⊎◌, inl, inr}

pub data Error : Type 0 where
  not_spotnet bad_date : Error
  empty_id long_id illegal_byte : Error
  sql_error net_error protocol_error no_such_article article_too_large : Error
  canceled nzb_too_large inflate_failed no_xml bad_xml bad_key no_random : Error

pub data Result {u} (T : Type u) : Type u where
  err : Error → Result T
  ok : T → Result T

-- Errors are passed on; a value goes to the next step.
abbrev pub ◌>>=◌ {u v} : {S : Type u} {T : Type v} → Result S → (S → Result T) → Result T
err x >>= next_step = err x
ok s >>= next_step = next_step s

infixl 5 ◌>>=◌
-- A successful bind has two successful parts.
pub >>=-eq-ok {u v} :
    {S : Type u} {T : Type v} (first : Result S) (next_step : S → Result T) {t : T}
    → (first >>= next_step) ≡ ok t
    → (s : S) × (first ≡ ok s) × (next_step s ≡ ok t)
>>=-eq-ok (err x) next_step same = cc
>>=-eq-ok (ok s) next_step same = (s, refl, same)

pub Result-cases {ℓ} :
    {A : Type ℓ} (r : Result A) → ((e : Error) × (r ≡ err e)) ⊎ ((a : A) × (r ≡ ok a))
Result-cases (err e) = inl (e, refl)
Result-cases (ok a) = inr (a, refl)
