-- ===== src/Spotnet/Article.antt =====
-- internal/spotnet/parser.go: what the full article adds to a spot.
pub mod Enriched
use spottr.Base.{
  ℕ, zero, suc, ◌+◌, ◌-◌, Bool, true, false, not, ◌&&◌, ◌||◌, Option, none, some, List, [], ◌∷◌,
  ◌++◌, ltb, ◌==◌, if◌then◌else◌, Result, ok, err, Error, no_xml, bad_xml, drop, take, length,
}
use spottr.Text.{Bytes, codes, is_empty, has_prefix, index, trim_space, join, split, replace_all}
use spottr.Text.Numbers.{ℤ, pos, parse_int, is_zero}
use spottr.Db.Tables.{Spot}
use spottr.Spotnet.Crypto.{Crypto}
use spottr.Spotnet.Signing.{parse_user_key, spotter_id, verify_full_spot, PublicKey}
use spottr.Spotnet.HeaderText.{windows1252_to_utf8}
use spottr.Sync.Env.{Headers}

-- The fields of `SpotXML` that are read.
pub record SpotXml : Type 0 where
  pub description : Bytes
  pub image_segments : List Bytes
  pub image_url : Bytes
  pub size : Bytes
  pub nzb_segments : List Bytes

abbrev first_or_old : List Bytes → Bytes → Bytes
first_or_old [] old = old
first_or_old (s ∷ ss) old = s

abbrev image_of : SpotXml → Bytes → Bytes
image_of x old = elim x.image_segments [
  | s ∷ ss ↦ codes "<nntp:" ++ join (s ∷ ss) (codes "|") ++ codes ">"
  | [] ↦ if is_empty x.image_url then old else x.image_url
]

-- The assignments of `EnrichFromXML`.
unfoldable pub fill_from : SpotXml → Spot → Spot
fill_from x spot = record spot {
  description = if is_empty x.description then spot.description else x.description;
  image_url = image_of x spot.image_url;
  nzb_id = first_or_old x.nzb_segments spot.nzb_id;
  size = if not (is_empty x.size) && is_zero spot.size then (parse_int x.size).value else spot.size;
}

-- What `DecodeBody` does: it returns a payload, returns an error, or panics.
pub data Decoded : Type 0 where
  decoded : Bytes → Decoded
  no_payload : Decoded
  panics : Decoded

-- `strings.Trim(l, "_ \t\r-=") == ""`: the line has no other character.
abbrev is_separator : Bytes → Bool
is_separator [] = true
is_separator (c ∷ l) =
    (c == b'_' || c == b' ' || c == 9 || c == 13 || c == b'-' || c == b'=') && is_separator l

-- The lines behind the first separator; the first line of the text is none.
abbrev behind_separator : List Bytes → List Bytes
behind_separator [] = []
behind_separator (l ∷ ls) = if is_separator l then ls else behind_separator ls

-- The path of `EnrichFromBody` for text: what stands behind the first separator.
abbrev text_description : Bytes → Bytes
text_description trimmed = elim (behind_separator (drop 1 (split trimmed 10))) [
  | [] ↦ trimmed
  | l ∷ ls ↦ trim_space (join (l ∷ ls) (codes "\n"))
]

module _ (c : Crypto) where
  abbrev without_declaration : Bytes → Bytes
  without_declaration s = elim (index s (codes "?>")) [
    | none ↦ s
    | some i ↦ if has_prefix s (codes "<?xml") then trim_space (drop (i + 2) s) else s
  ]

  -- `sanitizeXML`
  unfoldable pub sanitize_xml : Bytes → Bytes
  sanitize_xml b = without_declaration (if c.utf8_valid b then b else windows1252_to_utf8 b)

  -- The spotter's identity, from the article's key.
  unfoldable pub with_owner : Spot → Headers → Result PublicKey → Spot
  with_owner spot headers (err e) = spot
  with_owner spot headers (ok key) = record spot {
    spotter_id = spotter_id c key.modulus;
    verified =
        verify_full_spot c spot.message_id key (headers (codes "x-user-signature"))
          (headers (codes "x-xml-signature"));
  }

  abbrev pub identified : Spot → Headers → Spot
  identified spot headers =
      if is_empty (headers (codes "x-user-key"))
      then spot
      else with_owner spot headers (parse_user_key c (headers (codes "x-user-key")))

  -- The base64 text of a payload.
  unfoldable pub decode_payload : Bytes → Decoded
  decode_payload payload = elim (c.decode_base64 (replace_all payload (codes "\n") [])) [
    | none ↦ no_payload
    | some b ↦ decoded b
  ]

  -- Go's `s[from:to]`, decoded: a slice that ends before it starts panics.
  unfoldable pub slice_decoded : Bytes → ℕ → ℕ → Decoded
  unfolding decode_payload
  slice_decoded s from to =
      if ltb to from then panics else decode_payload (trim_space (take (to - from) (drop from s)))

  -- `DecodeBody`
  unfoldable pub decode_body : Bytes → Decoded
  unfolding slice_decoded
  decode_body s = elim (index s (codes "=ybegin")) [
    | none ↦ no_payload
    | some start ↦ elim (index s (codes "=yend")) [
      | none ↦ no_payload
      | some stop ↦ elim (index (drop start s) (codes "\n")) [
        | none ↦ no_payload
        | some line ↦ slice_decoded s (line + start + 1) stop
      ]
    ]
  ]

-- `unmarshal` is Go's `xml.Unmarshal` into a SpotXML.
module _ (c : Crypto) (unmarshal : Bytes → Option SpotXml) where
  -- `EnrichFromXML`: the spot as it is left, and the error.
  unfoldable pub enrich_from_xml : Spot → Bytes → Spot × Option Error
  unfolding fill_from sanitize_xml
  enrich_from_xml spot raw =
      let trimmed = trim_space (sanitize_xml c raw) in
      if is_empty trimmed then (spot, some no_xml) else elim (unmarshal trimmed) [
        | none ↦ (spot, some bad_xml)
        | some x ↦ (fill_from x spot, none)
      ]

  -- `EnrichFromHeaders`
  unfoldable pub enrich_from_headers : Spot → Headers → Spot × Option Error
  unfolding enrich_from_xml with_owner
  enrich_from_headers spot headers =
      let raw = headers (codes "x-xml") in
      let known = identified c spot headers in
      if is_empty (trim_space raw) then (known, some no_xml) else enrich_from_xml known raw

  -- `EnrichFromBody` behind `DecodeBody`
  unfoldable pub enrich_from_text : Spot → Bytes → Spot × Option Error
  unfolding fill_from sanitize_xml
  enrich_from_text spot text =
      let trimmed = trim_space (sanitize_xml c text) in
      if has_prefix trimmed (codes "<")
      then elim (unmarshal trimmed) [
        | none ↦ (spot, some bad_xml)
        | some x ↦ (fill_from x spot, none)
      ]
      else if is_empty trimmed
      then (spot, none)
      else (record spot { description = text_description trimmed }, none)

  -- `EnrichFromBody`: none where it panics.
  unfoldable pub enrich_from_body : Spot → Bytes → Option (Spot × Option Error)
  unfolding decode_body enrich_from_text
  enrich_from_body spot body = elim (decode_body c body) [
    | panics ↦ none
    | no_payload ↦ some (enrich_from_text spot body)
    | decoded b ↦ some (enrich_from_text spot b)
  ]
