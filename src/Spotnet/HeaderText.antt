-- ===== src/Spotnet/HeaderText.antt =====
-- internal/spotnet/text.go: header values as UTF-8.
use spottr.Base.{ℕ, ◌+◌, ◌-◌, ◌/◌, ◌%◌, none, some, List, [], ◌∷◌, ◌++◌, ltb, if◌then◌else◌, get_or}
use spottr.Text.{Bytes, codes, contains}
use spottr.Spotnet.Crypto.{Crypto}

-- `cp1252High`
abbrev pub cp1252_high : List ℕ
cp1252_high =
    0x20AC ∷ 0x81 ∷ 0x201A ∷ 0x0192 ∷ 0x201E ∷ 0x2026 ∷ 0x2020 ∷ 0x2021 ∷ 0x02C6 ∷ 0x2030 ∷ 0x0160
    ∷ 0x2039 ∷ 0x0152 ∷ 0x8D ∷ 0x017D ∷ 0x8F ∷ 0x90 ∷ 0x2018 ∷ 0x2019 ∷ 0x201C ∷ 0x201D ∷ 0x2022
    ∷ 0x2013 ∷ 0x2014 ∷ 0x02DC ∷ 0x2122 ∷ 0x0161 ∷ 0x203A ∷ 0x0153 ∷ 0x9D ∷ 0x017E ∷ 0x0178 ∷ []

-- `WriteRune` for a rune below 0x10000.
unfoldable pub encode_rune : ℕ → Bytes
encode_rune r =
    if ltb r 0x80
    then r ∷ []
    else if ltb r 0x800
    then (0xC0 + r / 64) ∷ (0x80 + r % 64) ∷ []
    else (0xE0 + r / 4096) ∷ (0x80 + r / 64 % 64) ∷ (0x80 + r % 64) ∷ []

abbrev pub cp1252_rune : ℕ → ℕ
cp1252_rune c = if ltb c 0x80 then c else if ltb c 0xA0 then get_or cp1252_high (c - 0x80) 0 else c

-- `Windows1252ToUTF8`
unfoldable pub windows1252_to_utf8 : Bytes → Bytes
unfolding encode_rune
windows1252_to_utf8 [] = []
windows1252_to_utf8 (c ∷ s) = encode_rune (cp1252_rune c) ++ windows1252_to_utf8 s

module _ (c : Crypto) where
  open c use {decode_words, utf8_valid}

  decoded : Bytes → Bytes
  decoded s = if contains s (codes "=?") then elim (decode_words s) [ none ↦ s | some d ↦ d ] else s

  -- `DecodeHeaderText`
  unfoldable pub decode_header_text : Bytes → Bytes
  unfolding decoded windows1252_to_utf8
  decode_header_text s =
      if utf8_valid (decoded s) then decoded s else windows1252_to_utf8 (decoded s)
