-- ===== src/Text/Laws.antt =====
-- What the text functions return: equality of texts, and the ends of a trimmed text.
use mathlib.Core.List.{reverse-append, reverse-reverse}
use spottr.Base.{
  zero, suc, suc, ℕ, ◌<◌, ◌≡◌, refl, sym, ap, ◌↔◌, true, [], ◌∷◌, ◌++◌, reverse, All, All-reverse,
  ==_refl, arith, ◌∙◌,
}
use spottr.Text.{Bytes, eqb, trim_space, strip, space_width, space_width_back}

pub eqb_refl : (s : Bytes) → eqb s s ≡ true
unfolding eqb
eqb_refl [] = refl
eqb_refl (a ∷ s) = rw (==_refl a) (eqb_refl s)

pub eqb_eq : (s t : Bytes) → eqb s t ≡ true → s ≡ t
unfolding eqb
eqb_eq [] [] h = refl
eqb_eq [] (b ∷ t) h = cc
eqb_eq (a ∷ s) [] h = cc
eqb_eq (a ∷ s) (b ∷ t) h = ground (arith, eqb_eq s t)

pub eqb_iff : (s t : Bytes) → (eqb s t ≡ true) ↔ (s ≡ t)
eqb_iff s t = (eqb_eq s t, λ e. rw e (eqb_refl t))

pub eqb_comm : (s t : Bytes) → eqb s t ≡ eqb t s
unfolding eqb
eqb_comm [] [] = refl
eqb_comm [] (b ∷ t) = refl
eqb_comm (a ∷ s) [] = refl
eqb_comm (a ∷ s) (b ∷ t) = ground (arith, eqb_comm s t)

-- A byte that is neither ASCII white space nor outside ASCII ends the trimming.
abbrev pub Solid : ℕ → Type 0
Solid c = (32 < c) × (c < 128)

strip-Solid : (c : ℕ) (s : Bytes) → Solid c → strip space_width 0 (c ∷ s) ≡ c ∷ s
unfolding strip space_width
strip-Solid c s h = ground arith

strip_back-Solid : (c : ℕ) (s : Bytes) → Solid c → strip space_width_back 0 (c ∷ s) ≡ c ∷ s
unfolding strip space_width_back
strip_back-Solid c s h = ground arith

-- Text between two solid bytes is not trimmed.
pub trim_space-Solid :
    (a b : ℕ) (s : Bytes) → Solid a → Solid b → trim_space (a ∷ (s ++ b ∷ [])) ≡ a ∷ (s ++ b ∷ [])
unfolding trim_space
trim_space-Solid a b s ha hb =
    rw (strip-Solid a _ ha, reverse-append (a ∷ s) (b ∷ []), strip_back-Solid b _ hb)
      (ap (λ r. reverse r) (sym (reverse-append (a ∷ s) (b ∷ []))) ∙ reverse-reverse _)

-- A text of solid bytes is not trimmed either.
strip-All : (s : Bytes) → All Solid s → strip space_width 0 s ≡ s
unfolding strip
strip-All [] h = refl
strip-All (c ∷ s) h = strip-Solid c s h.0

strip_back-All : (s : Bytes) → All Solid s → strip space_width_back 0 s ≡ s
unfolding strip
strip_back-All [] h = refl
strip_back-All (c ∷ s) h = strip_back-Solid c s h.0

pub trim_space-All : (s : Bytes) → All Solid s → trim_space s ≡ s
unfolding trim_space
trim_space-All s h =
    rw (strip-All s h, strip_back-All (reverse s) (All-reverse Solid s h)) (reverse-reverse s)

-- What holds of each byte of a text holds of each byte of its trimmed form.
module _ (P : ℕ → Type 0) where
  All-strip : (width : Bytes → ℕ) (k : ℕ) (s : Bytes) → All P s → All P (strip width k s)
  unfolding strip
  All-strip width k [] h = tt
  All-strip width (suc k) (c ∷ s) (p, h) = All-strip width k s h
  All-strip width zero (c ∷ s) (p, h) =
      elim (width (c ∷ s))
        as (λ n. All P (elim n as (λ x. Bytes) [ zero ↦ c ∷ s | suc m ↦ strip width m s ])) [
          | zero ↦ (p, h)
          | suc m ↦ All-strip width m s h
        ]

  pub All-trim_space : (s : Bytes) → All P s → All P (trim_space s)
  unfolding trim_space
  All-trim_space s h =
      All-reverse P _
        (All-strip space_width_back 0 _ (All-reverse P _ (All-strip space_width 0 s h)))
