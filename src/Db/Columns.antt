-- ===== src/Db/Columns.antt =====
-- The stored form of a subcategory column, "a5|c2|": what kind.go and the searches rely on.
use spottr.Base.{
  ℕ, suc, zero, ◌/◌, ◌≤◌, ◌≡◌, ◌≢◌, refl, sym, false, List, [], ◌∷◌, ◌++◌, append_assoc, arith, All,
  All-append, All-mono, ltb, Bool-cases, ◌⊎◌, inl, inr,
}
use spottr.Text.{Bytes, is_empty, eqb, has_prefix, contains, split}
use spottr.Text.Laws.{eqb_comm}
use spottr.Text.Numbers.{format_uint, digits_from}
use spottr.Db.Kind.{column_codes, has_code}

abbrev pub bar : ℕ
bar = b'|'

-- The codes of a column, one behind the other, each closed by a bar.
abbrev pub stored : List Bytes → Bytes
stored [] = []
stored (c ∷ cs) = c ++ (bar ∷ stored cs)

abbrev pub IsDigit : ℕ → Type 0
IsDigit c = (b'0' ≤ c) × (c ≤ b'9')

abbrev pub NotBar : ℕ → Type 0
NotBar c = c ≢ bar

-- A letter that the column admits, then digits.
abbrev pub IsCode : (ℕ → Type 0) → Bytes → Type 0
IsCode P [] = ⊥
IsCode P (key ∷ number) = P key × All IsDigit number

abbrev pub IsColumn : (ℕ → Type 0) → Bytes → Type 0
IsColumn P col = (cs : List Bytes) × (col ≡ stored cs) × All (IsCode P) cs

abbrev pub LetterA : ℕ → Type 0
LetterA c = c ≡ b'a'

abbrev pub LetterB : ℕ → Type 0
LetterB c = c ≡ b'b'

abbrev pub LetterC : ℕ → Type 0
LetterC c = c ≡ b'c'

abbrev pub LetterD : ℕ → Type 0
LetterD c = (c ≡ b'd') ⊎ (c ≡ b'z')

stored-append : (cs ds : List Bytes) → stored (cs ++ ds) ≡ stored cs ++ stored ds
stored-append [] ds = refl
stored-append (c ∷ cs) ds = simp (stored-append cs ds, append_assoc)

-- A code appended to a column.
pub IsColumn-snoc :
    (P : ℕ → Type 0) (col code : Bytes)
    → IsColumn P col
    → IsCode P code
    → IsColumn P (col ++ (code ++ bar ∷ []))
IsColumn-snoc P col code (cs, e, h) hc = (
  cs ++ code ∷ [],
  rw e (sym (stored-append cs (code ∷ []))),
  All-append (IsCode P) cs (code ∷ []) h (hc, tt),
)

pub digits_from-IsDigit :
    (fuel n : ℕ) (out : Bytes) → All IsDigit out → All IsDigit (digits_from fuel n out)
unfolding digits_from
digits_from-IsDigit zero n out h = h
digits_from-IsDigit (suc fuel) n out h = elim (Bool-cases (ltb n 10)) [
  | inl e ↦ rw (e, digits_from) (ground arith, h)
  | inr e ↦ rw (e, digits_from) (digits_from-IsDigit fuel (n / 10) _ (omega arith, h))
]

pub format_uint-IsDigit : (n : ℕ) → All IsDigit (format_uint n)
unfolding format_uint
format_uint-IsDigit n = digits_from-IsDigit 20 n [] tt

-- Texts without a bar, which are not empty.
abbrev pub IsPlainCode : Bytes → Type 0
IsPlainCode c = (c ≢ []) × All NotBar c

IsDigit-NotBar : (c : ℕ) → IsDigit c → NotBar c
IsDigit-NotBar c h = omega arith

module _ (P : ℕ → Type 0) (letter : (c : ℕ) → P c → NotBar c) where
  IsCode-IsPlainCode : (c : Bytes) → IsCode P c → IsPlainCode c
  IsCode-IsPlainCode [] h = absurd h
  IsCode-IsPlainCode (key ∷ number) h =
      (λ e. absurd (cc), (letter key h.0, All-mono IsDigit NotBar IsDigit-NotBar number h.1))

  pub IsCode-All : (cs : List Bytes) → All (IsCode P) cs → All IsPlainCode cs
  IsCode-All cs h = All-mono (IsCode P) IsPlainCode IsCode-IsPlainCode cs h

split-code :
    (c : Bytes) (rest : Bytes) → All NotBar c → split (c ++ (bar ∷ rest)) bar ≡ c ∷ split rest bar
unfolding split
split-code [] rest h = refl
split-code (x ∷ c) rest h = ground (arith, split-code c rest h.1)

is_empty-plain : (c : Bytes) → c ≢ [] → is_empty c ≡ false
is_empty-plain [] h = absurd (h refl)
is_empty-plain (x ∷ c) h = refl

-- Cutting a stored column at its bars gives the codes.
pub column_codes-stored : (cs : List Bytes) → All IsPlainCode cs → column_codes (stored cs) ≡ cs
unfolding column_codes split
column_codes-stored [] h = refl
column_codes-stored (c ∷ cs) h =
    rw (split-code c (stored cs) h.0.1)
      (ground (arith, is_empty-plain c h.0.0, column_codes-stored cs h.1))

has_prefix-code :
    (c d rest : Bytes)
    → All NotBar c
    → All NotBar d
    → has_prefix (c ++ (bar ∷ rest)) (d ++ bar ∷ []) ≡ eqb c d
unfolding has_prefix eqb
has_prefix-code [] [] rest hc hd = refl
has_prefix-code [] (y ∷ d) rest hc hd = ground arith
has_prefix-code (x ∷ c) [] rest hc hd = ground arith
has_prefix-code (x ∷ c) (y ∷ d) rest hc hd = ground (arith, has_prefix-code c d rest hc.1 hd.1)

contains_skip :
    (c rest pat : Bytes)
    → All NotBar c
    → contains (c ++ rest) (bar ∷ pat) ≡ contains rest (bar ∷ pat)
unfolding contains has_prefix
contains_skip [] rest pat h = refl
contains_skip (x ∷ c) rest pat h = ground (arith, contains_skip c rest pat h.1)

has_prefix-nil : (d : Bytes) → has_prefix [] (d ++ bar ∷ []) ≡ false
unfolding has_prefix
has_prefix-nil [] = refl
has_prefix-nil (x ∷ d) = refl

-- `instr('|' || column, '|code|') > 0` finds a code of the column, and nothing else.
pub contains-stored :
    (cs : List Bytes) (code : Bytes)
    → All IsPlainCode cs
    → All NotBar code
    → contains (bar ∷ stored cs) (bar ∷ (code ++ bar ∷ [])) ≡ has_code cs code
unfolding contains has_prefix has_code
contains-stored [] code h hc = ground (arith, has_prefix-nil code)
contains-stored (c ∷ cs) code h hc = ground (
  arith,
  has_prefix-code c code (stored cs) h.0.1 hc,
  contains_skip c (bar ∷ stored cs) (code ++ bar ∷ []) h.0.1,
  contains-stored cs code h.1 hc,
  eqb_comm c code,
)
