-- ===== src/Text.antt =====
-- The functions of Go's `strings` and `strconv` packages that the program uses, on byte sequences.
-- White space is Go's `unicode.IsSpace`, so its non-ASCII members are read as UTF-8 sequences.
pub mod Numbers
pub mod Laws
use Prim.Native.Char.{code}
use spottr.Base.{
  ℕ, zero, suc, ◌+◌, ◌-◌, String, Bool, true, false, ◌&&◌, ◌||◌, Option, none, some, List, [], ◌∷◌,
  ◌++◌, reverse, ltb, leb, ◌==◌, if◌then◌else◌, length, take, drop,
}

abbrev pub Bytes : Type 0
Bytes = List ℕ

-- The bytes of an ASCII literal.
abbrev pub codes : String → Bytes
codes String.[] = []
codes (String.◌∷◌ c s) = code c ∷ codes s

abbrev pub is_empty : Bytes → Bool
is_empty [] = true
is_empty (c ∷ s) = false

unfoldable pub eqb : Bytes → Bytes → Bool
eqb [] [] = true
eqb [] (b ∷ t) = false
eqb (a ∷ s) [] = false
eqb (a ∷ s) (b ∷ t) = (a == b) && eqb s t

-- `strings.HasPrefix(s, prefix)`
unfoldable pub has_prefix : Bytes → Bytes → Bool
has_prefix s [] = true
has_prefix [] (b ∷ t) = false
has_prefix (a ∷ s) (b ∷ t) = (a == b) && has_prefix s t

-- `strings.HasSuffix(s, suffix)`
unfoldable pub has_suffix : Bytes → Bytes → Bool
unfolding has_prefix
has_suffix s t = has_prefix (reverse s) (reverse t)

-- `strings.Index(s, sub)`; `none` is -1.
unfoldable pub index : Bytes → Bytes → Option ℕ
unfolding has_prefix
index [] sub = if has_prefix [] sub then some 0 else none
index (c ∷ s) sub =
    let rest = index s sub in
    if has_prefix (c ∷ s) sub then some 0 else elim rest [ none ↦ none | some i ↦ some (suc i) ]

unfoldable pub contains : Bytes → Bytes → Bool
unfolding has_prefix
contains [] sub = has_prefix [] sub
contains (c ∷ s) sub = has_prefix (c ∷ s) sub || contains s sub

-- `strings.LastIndex(s, c)` for a single byte.
unfoldable pub last_index : Bytes → ℕ → Option ℕ
last_index [] c = none
last_index (x ∷ s) c = elim (last_index s c) [
  | some i ↦ some (suc i)
  | none ↦ if x == c then some 0 else none
]

-- `strings.Split(s, sep)` for a separator of one byte: at least one part.
abbrev pub push_head : ℕ → List Bytes → List Bytes
push_head c [] = (c ∷ []) ∷ []
push_head c (p ∷ ps) = (c ∷ p) ∷ ps

unfoldable pub split : Bytes → ℕ → List Bytes
split [] sep = [] ∷ []
split (c ∷ s) sep = if c == sep then [] ∷ split s sep else push_head c (split s sep)

-- `strings.Join(parts, sep)`
unfoldable pub join : List Bytes → Bytes → Bytes
join [] sep = []
join (p ∷ []) sep = p
join (p ∷ q ∷ ps) sep = p ++ (sep ++ join (q ∷ ps) sep)

-- The width of the white space that a text begins with, 0 if it begins with none.
abbrev ascii_space : ℕ → Bool
ascii_space c = (c == 32) || (leb 9 c && leb c 13)

space3 : ℕ → ℕ → ℕ → Bool
space3 a b c =
    (a == 0xE1) && (b == 0x9A) && (c == 0x80)
    || ((a == 0xE2)
        && (b == 0x80)
        && (leb 0x80 c && leb c 0x8A || ((c == 0xA8) || ((c == 0xA9) || (c == 0xAF)))))
    || ((a == 0xE2) && (b == 0x81) && (c == 0x9F))
    || ((a == 0xE3) && (b == 0x80) && (c == 0x80))

space2 : ℕ → ℕ → Bool
space2 a b = (a == 0xC2) && ((b == 0x85) || (b == 0xA0))

wide_space : ℕ → Bytes → ℕ
unfolding space2 space3
wide_space a [] = 0
wide_space a (b ∷ []) = if space2 a b then 2 else 0
wide_space a (b ∷ c ∷ s) = if space2 a b then 2 else if space3 a b c then 3 else 0

unfoldable pub space_width : Bytes → ℕ
unfolding wide_space
space_width [] = 0
space_width (a ∷ s) = if ascii_space a then 1 else if ltb a 0x80 then 0 else wide_space a s

-- The same at the end of a text that is given from its end.
wide_space_back : ℕ → Bytes → ℕ
unfolding space2 space3
wide_space_back c [] = 0
wide_space_back c (b ∷ []) = if space2 b c then 2 else 0
wide_space_back c (b ∷ a ∷ s) = if space2 b c then 2 else if space3 a b c then 3 else 0

unfoldable pub space_width_back : Bytes → ℕ
unfolding wide_space_back
space_width_back [] = 0
space_width_back (c ∷ s) =
    if ascii_space c then 1 else if ltb c 0x80 then 0 else wide_space_back c s

-- Drops what is left of a space, then further spaces.
strip : (Bytes → ℕ) → ℕ → Bytes → Bytes
strip width k [] = []
strip width (suc k) (c ∷ s) = strip width k s
strip width zero (c ∷ s) = elim (width (c ∷ s)) [ zero ↦ c ∷ s | suc n ↦ strip width n s ]

unfoldable pub trim_space : Bytes → Bytes
unfolding strip space_width space_width_back
trim_space s = reverse (strip space_width_back 0 (reverse (strip space_width 0 s)))

abbrev emit : Bytes → List Bytes → List Bytes
emit [] out = out
emit (c ∷ w) out = (c ∷ w) ∷ out

-- `strings.Fields(s)`; the word under way comes first.
split_words : ℕ → Bytes → Bytes → List Bytes
split_words k word [] = emit word []
split_words (suc k) word (c ∷ s) = split_words k word s
split_words zero word (c ∷ s) = elim (space_width (c ∷ s)) [
  | zero ↦ split_words zero (word ++ c ∷ []) s
  | suc n ↦ emit word (split_words n [] s)
]

unfoldable pub fields : Bytes → List Bytes
unfolding split_words space_width
fields s = split_words 0 [] s

-- `strings.ToLower`. Of the letters outside ASCII only the two whose lower case is ASCII are
-- changed (U+0130 and U+212A); the others stay, which no comparison with an ASCII word can see.
abbrev lower_byte : ℕ → ℕ
lower_byte c = if leb b'A' c && leb c b'Z' then c + 32 else c

unfoldable pub to_lower : Bytes → Bytes
to_lower [] = []
to_lower (a ∷ []) = lower_byte a ∷ []
to_lower (a ∷ b ∷ []) =
    if (a == 0xC4) && (b == 0xB0) then b'i' ∷ [] else lower_byte a ∷ to_lower (b ∷ [])
to_lower (a ∷ b ∷ c ∷ s) =
    let rest2 = to_lower (c ∷ s) in
    let rest3 = to_lower s in
    let rest1 = to_lower (b ∷ c ∷ s) in
    if (a == 0xC4) && (b == 0xB0)
    then b'i' ∷ rest2
    else if (a == 0xE2) && ((b == 0x84) && (c == 0xAA))
    then b'k' ∷ rest3
    else lower_byte a ∷ rest1

-- `strings.ReplaceAll(s, old, new)` for an `old` that is not empty.
unfoldable pub replace_from : ℕ → Bytes → Bytes → Bytes → Bytes
replace_from k old new [] = []
replace_from (suc k) old new (c ∷ s) = replace_from k old new s
replace_from zero old new (c ∷ s) = elim (has_prefix (c ∷ s) old) [
  | true ↦ new ++ replace_from (length old - 1) old new s
  | false ↦ c ∷ replace_from zero old new s
]

unfoldable pub replace_all : Bytes → Bytes → Bytes → Bytes
unfolding replace_from has_prefix
replace_all s old new = replace_from 0 old new s

unfoldable pub trim_prefix : Bytes → Bytes → Bytes
unfolding has_prefix
trim_prefix s p = if has_prefix s p then drop (length p) s else s

unfoldable pub trim_suffix : Bytes → Bytes → Bytes
unfolding has_suffix
trim_suffix s p = if has_suffix s p then take (length s - length p) s else s
