-- ===== src/Db/Migrations/Decoded.antt =====
-- migrations.go: the texts that the repair decodes are those that the parser would have made.
use spottr.Base.{
  ◌≡◌, ◌∙◌, ℕ, ◌-◌, get_or, if◌then◌else◌, refl, ap, ltb, [], ◌∷◌, Bool-cases, inl, inr, ◌++◌, true,
}
use spottr.Text.{Bytes}
use spottr.Spotnet.HeaderText.{windows1252_to_utf8, encode_rune, cp1252_rune}
use spottr.Db.Migrations.{Sqlite, high, high_text, to_utf8}

encode_rune_ascii : (c : ℕ) → ltb c 0x80 ≡ true → encode_rune c ≡ c ∷ []
unfolding encode_rune
encode_rune_ascii c l = rw l refl

-- A round of the loop of toUTF8 writes what one of Windows1252ToUTF8 does.
one_rune :
    (c : ℕ) (rest : Bytes)
    → (if ltb c 0x80
        then c ∷ rest
        else if ltb c 0xA0
        then encode_rune (get_or high (c - 0x80) 0) ++ rest
        else encode_rune c ++ rest)
      ≡ encode_rune (cp1252_rune c) ++ rest
one_rune c rest = elim (Bool-cases (ltb c 0x80)) [
  | inl l ↦ rw (l, encode_rune_ascii c l) refl
  | inr l ↦ elim (Bool-cases (ltb c 0xA0)) [ inl l' ↦ rw (l, l') refl | inr l' ↦ rw (l, l') refl ]
]

high_text-windows1252 : (b : Bytes) → high_text b ≡ windows1252_to_utf8 b
unfolding high_text windows1252_to_utf8
high_text-windows1252 [] = refl
high_text-windows1252 (c ∷ b) =
    one_rune c (high_text b) ∙ ap (λ s. encode_rune (cp1252_rune c) ++ s) (high_text-windows1252 b)

-- Both packages decode alike: a text that the migration repairs becomes what the parser makes of
-- its bytes today, and a valid text stays as it is.
to_utf8-windows1252 :
    {D : Type 0} (sq : Sqlite D) (b : Bytes)
    → to_utf8 sq b ≡ (if sq.utf8_valid b then b else windows1252_to_utf8 b)
unfolding to_utf8
to_utf8-windows1252 sq b = ap (λ s. if sq.utf8_valid b then b else s) (high_text-windows1252 b)
