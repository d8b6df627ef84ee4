-- ===== src/Spotnet/Nzb/RoundTrip.antt =====
-- parser.go: the escapes of NZB and image articles are undone, and an NZB is bounded.
use spottr.Base.{
  subst, ℕ, zero, suc, ◌+◌, ◌≤◌, ◌<◌, ◌≡◌, refl, ap, true, false, [], ◌∷◌, ◌++◌, ◌==◌, ltb, arith,
  Bool-cases, inl, inr, ◌⊎◌, if◌then◌else◌, ok, take, length,
}
use spottr.Text.{Bytes, codes, has_prefix, replace_all, replace_from, trim_space}
use spottr.Spotnet.Nzb.{
  unspecial_zip_str, decode_image_body, Inflated, nzb_limit, inflated_nzb, decode_nzb_body_limit,
}

-- Spotweb's `specialZipStr`, one byte at a time: the four bytes that an article cannot hold.
abbrev pub special_byte : ℕ → Bytes
special_byte c =
    if c == b'='
    then codes "=D"
    else if c == 0
    then codes "=A"
    else if c == 13
    then codes "=B"
    else if c == 10
    then codes "=C"
    else c ∷ []

abbrev pub special_zip_str : Bytes → Bytes
special_zip_str [] = []
special_zip_str (c ∷ s) = special_byte c ++ special_zip_str s

-- The text with the line feeds, the CRs too, and the zeros too put back.
abbrev with_lf : ℕ → Bytes
with_lf c =
    if c == b'='
    then codes "=D"
    else if c == 0
    then codes "=A"
    else if c == 13
    then codes "=B"
    else c ∷ []

abbrev with_cr : ℕ → Bytes
with_cr c = if c == b'=' then codes "=D" else if c == 0 then codes "=A" else c ∷ []

abbrev with_zero : ℕ → Bytes
with_zero c = if c == b'=' then codes "=D" else c ∷ []

abbrev each : (ℕ → Bytes) → Bytes → Bytes
each f [] = []
each f (c ∷ s) = f c ++ each f s

replace-lf :
    (s : Bytes) → replace_from 0 (codes "=C") (10 ∷ []) (special_zip_str s) ≡ each with_lf s
unfolding replace_from has_prefix
replace-lf [] = refl
replace-lf (c ∷ s) = ground (arith, replace-lf s)

replace-cr : (s : Bytes) → replace_from 0 (codes "=B") (13 ∷ []) (each with_lf s) ≡ each with_cr s
unfolding replace_from has_prefix
replace-cr [] = refl
replace-cr (c ∷ s) = ground (arith, replace-cr s)

replace-zero :
    (s : Bytes) → replace_from 0 (codes "=A") (0 ∷ []) (each with_cr s) ≡ each with_zero s
unfolding replace_from has_prefix
replace-zero [] = refl
replace-zero (c ∷ s) = ground (arith, replace-zero s)

replace-equals : (s : Bytes) → replace_from 0 (codes "=D") (codes "=") (each with_zero s) ≡ s
unfolding replace_from has_prefix
replace-equals [] = refl
replace-equals (c ∷ s) = ground (arith, replace-equals s)

-- What was escaped as Spotweb does it comes back byte for byte, in an image and before the inflation
-- of an NZB.
pub unspecial-special :
    (s : Bytes)
    → (unspecial_zip_str (special_zip_str s) ≡ s) × (decode_image_body (special_zip_str s) ≡ s)
unfolding unspecial_zip_str decode_image_body replace_all
unspecial-special s =
    let e : unspecial_zip_str (special_zip_str s) ≡ s =
      rw (unspecial_zip_str, replace_all, replace-lf s, replace-cr s, replace-zero s)
        (replace-equals s) in
    (e, e)

-- A prefix that is shorter than asked for is the whole.
take_whole : (m : ℕ) (s : Bytes) → length (take m s) < m → take m s ≡ s
take_whole zero s h = absurd (omega arith)
take_whole (suc m) [] h = refl
take_whole (suc m) (c ∷ s) h = ap (λ t. c ∷ t) (take_whole m s (omega (arith, h)))

-- A decoded NZB is the whole of a stream that inflates without an error and is within the limit, or
-- it is the article's own bytes, where inflating them fails; a stream that inflates to more than
-- the limit is refused, whatever stands behind the limit.
pub decode_nzb_body_limit_lem :
    (inflate : Bytes → Inflated) (body b : Bytes) (max_bytes : ℕ)
    → decode_nzb_body_limit inflate body max_bytes ≡ ok b
    → let i = inflate (unspecial_zip_str body) in
      (length i.output ≤ nzb_limit max_bytes)
      × ((i.good ≡ true) × (b ≡ i.output) ⊎ (i.good ≡ false) × (b ≡ unspecial_zip_str body))
unfolding decode_nzb_body_limit inflated_nzb
decode_nzb_body_limit_lem inflate body b max_bytes h =
    let compressed = unspecial_zip_str body in
    let i = inflate compressed in
    let limit = nzb_limit max_bytes in
    elim (Bool-cases (ltb limit (length (take (limit + 1) i.output)))) [
      | inl e ↦ absurd (ground (arith, e, h))
      | inr e ↦
          let short : length (take (limit + 1) i.output) ≤ limit = ground (arith, e) in
          let whole = take_whole (limit + 1) i.output (omega (arith, short)) in
          let bound : length i.output ≤ limit =
            subst (λ (s : Bytes). length s ≤ limit) whole short in
          elim (Bool-cases i.good) [
            | inl g ↦ (bound, inl (g, ground (arith, e, g, h, whole)))
            | inr g ↦ elim (Bool-cases (has_prefix (trim_space compressed) (codes "<"))) [
              | inl x ↦ (bound, inr (g, ground (arith, e, g, x, h)))
              | inr x ↦ absurd (ground (arith, e, g, x, h))
            ]
          ]
    ]
