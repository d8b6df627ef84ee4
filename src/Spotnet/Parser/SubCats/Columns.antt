-- ===== src/Spotnet/Parser/SubCats/Columns.antt =====
-- parser.go: what `parseSubCats` writes into the columns, for any input.
use spottr.Base.{ℕ, refl, [], ◌∷◌, ◌++◌, arith, Bool-cases, inl, inr, ◌==◌, ◌||◌}
use spottr.Text.{Bytes}
use spottr.Text.Numbers.{is_digit, parse_int, format_uint}
use spottr.Db.Columns.{
  IsColumn, IsColumn-snoc, LetterA, LetterB, LetterC, LetterD, format_uint-IsDigit,
}
use spottr.Spotnet.Parser.SubCats.{SubCats, code_text, magnitude, flush, scan_codes, parse_sub_cats}

-- Each column holds codes of its own letters.
pub record IsSorted (cs : SubCats) : Type 0 where
  pub column_a : IsColumn LetterA cs.sub_a
  pub column_b : IsColumn LetterB cs.sub_b
  pub column_c : IsColumn LetterC cs.sub_c
  pub column_d : IsColumn LetterD cs.sub_d

IsColumn-code :
    (P : ℕ → Type 0) (col : Bytes) (key : ℕ) (number : Bytes)
    → P key
    → IsColumn P col
    → IsColumn P (col ++ code_text key number)
unfolding code_text
IsColumn-code P col key number hk h =
    let n = magnitude (parse_int number).value in
    IsColumn-snoc P col (key ∷ format_uint n) h (hk, format_uint-IsDigit n)

flush-IsSorted : (tmp : Bytes) (cs : SubCats) → IsSorted cs → IsSorted (flush tmp cs)
unfolding flush
flush-IsSorted [] cs h = h
flush-IsSorted (key ∷ number) cs h = elim (Bool-cases (key == b'a')) [
  | inl e ↦
      rw (e, flush)
        (record {
          column_a = IsColumn-code LetterA cs.sub_a key number (ground arith) h.column_a;
          column_b = h.column_b;
          column_c = h.column_c;
          column_d = h.column_d;
        })
  | inr e ↦ elim (Bool-cases (key == b'b')) [
    | inl e' ↦
        rw (e, e', flush)
          (record {
            column_a = h.column_a;
            column_b = IsColumn-code LetterB cs.sub_b key number (ground arith) h.column_b;
            column_c = h.column_c;
            column_d = h.column_d;
          })
    | inr e' ↦ elim (Bool-cases (key == b'c')) [
      | inl e'' ↦
          rw (e, e', e'', flush)
            (record {
              column_a = h.column_a;
              column_b = h.column_b;
              column_c = IsColumn-code LetterC cs.sub_c key number (ground arith) h.column_c;
              column_d = h.column_d;
            })
      | inr e'' ↦ elim (Bool-cases ((key == b'd') || (key == b'z'))) [
        | inl d ↦
            rw (e, e', e'', d, flush)
              (record {
                column_a = h.column_a;
                column_b = h.column_b;
                column_c = h.column_c;
                column_d = IsColumn-code LetterD cs.sub_d key number (ground arith) h.column_d;
              })
        | inr d ↦ rw (e, e', e'', d, flush) h
      ]
    ]
  ]
]

scan_codes-IsSorted : (s tmp : Bytes) (cs : SubCats) → IsSorted cs → IsSorted (scan_codes s tmp cs)
unfolding scan_codes
scan_codes-IsSorted [] tmp cs h = h
scan_codes-IsSorted (c ∷ s) tmp cs h = elim (Bool-cases (is_digit c)) [
  | inl e ↦ rw (e, scan_codes) (scan_codes-IsSorted s _ cs h)
  | inr e ↦ rw (e, scan_codes) (scan_codes-IsSorted s _ (flush tmp cs) (flush-IsSorted tmp cs h))
]

empty-IsColumn : (P : ℕ → Type 0) → IsColumn P []
empty-IsColumn P = ([], refl, tt)

-- Whatever the From header says, each column comes out as a sequence of codes, a letter of that
-- column and decimal digits, each closed by a bar.
pub parse_sub_cats-IsSorted : (s : Bytes) → IsSorted (parse_sub_cats s)
unfolding parse_sub_cats
parse_sub_cats-IsSorted s = scan_codes-IsSorted s [] _ (record {
  column_a = empty-IsColumn LetterA;
  column_b = empty-IsColumn LetterB;
  column_c = empty-IsColumn LetterC;
  column_d = empty-IsColumn LetterD;
})
