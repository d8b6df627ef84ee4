-- ===== src/Spotnet/Parser/SubCats.antt =====
-- parser.go: the subcategory codes of a From header.
pub mod Columns
use spottr.Base.{
  ℕ, ◌+◌, ◌≡◌, refl, Bool, true, false, not, ◌&&◌, ◌||◌, List, [], ◌∷◌, ◌++◌, ◌==◌, if◌then◌else◌,
}
use spottr.Text.{Bytes, codes}
use spottr.Text.Numbers.{ℤ, pos, negsuc, is_digit, parse_int, format_uint}
use spottr.Spotnet.HeaderText.{encode_rune}

-- The four columns so far.
pub record SubCats : Type 0 where
  pub sub_a : Bytes
  pub sub_b : Bytes
  pub sub_c : Bytes
  pub sub_d : Bytes

abbrev no_codes : SubCats
no_codes = record { sub_a = []; sub_b = []; sub_c = []; sub_d = [] }

-- The magnitude of what `Atoi` returns, on an error too; codes have no sign.
abbrev pub magnitude : ℤ → ℕ
magnitude (pos n) = n
magnitude (negsuc n) = n + 1

-- `"%c%d|"`
unfoldable pub code_text : ℕ → Bytes → Bytes
unfolding format_uint parse_int
code_text key number = key ∷ (format_uint (magnitude (parse_int number).value) ++ b'|' ∷ [])

-- A finished code goes to the column of its letter; other letters are dropped.
unfoldable pub flush : Bytes → SubCats → SubCats
unfolding code_text
flush [] cs = cs
flush (key ∷ number) cs =
    if key == b'a'
    then record cs { sub_a = cs.sub_a ++ code_text key number }
    else if key == b'b'
    then record cs { sub_b = cs.sub_b ++ code_text key number }
    else if key == b'c'
    then record cs { sub_c = cs.sub_c ++ code_text key number }
    else if (key == b'd') || (key == b'z')
    then record cs { sub_d = cs.sub_d ++ code_text key number }
    else cs

-- The loop over the bytes, with the code under way. A byte is appended as a rune.
unfoldable pub scan_codes : Bytes → Bytes → SubCats → SubCats
unfolding flush encode_rune
scan_codes [] tmp cs = cs
scan_codes (c ∷ s) tmp cs =
    let kept = if is_digit c then tmp else [] in
    scan_codes s (if c == b'!' then kept else kept ++ encode_rune c)
      (if is_digit c then cs else flush tmp cs)

-- `parseSubCats`
unfoldable pub parse_sub_cats : Bytes → SubCats
unfolding scan_codes
parse_sub_cats s = scan_codes s [] no_codes

wire_codes : parse_sub_cats (codes "a02b04c00d05z2!!!") ≡ record {
  sub_a = codes "a2|";
  sub_b = codes "b4|";
  sub_c = codes "c0|";
  sub_d = codes "d5|z2|";
}
unfolding parse_sub_cats
wire_codes = refl
