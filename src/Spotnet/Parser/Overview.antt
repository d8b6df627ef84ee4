-- ===== src/Spotnet/Parser/Overview.antt =====
-- parser.go: `ParseFromOverview`.
pub mod Fresh
use spottr.Base.{
  ℕ, suc, ◌+◌, ◌-◌, ◌%◌, Bool, true, false, ◌&&◌, ◌||◌, Option, none, some, List, [], ◌∷◌, ◌++◌,
  ltb, leb, ◌==◌, if◌then◌else◌, length, take, drop, get_or, Result, ok, err, Error, not_spotnet,
  ◌>>=◌,
}
use spottr.Text.{Bytes, codes, is_empty, last_index, split, to_lower, trim_space}
use spottr.Text.Numbers.{parse_int}
use spottr.Nntp.{ArticleInfo}
use spottr.Db.Kind.{kind_of, kind_erotic}
use spottr.Db.Tables.{Spot}
use spottr.Spotnet.Crypto.{Crypto}
use spottr.Spotnet.HeaderText.{decode_header_text}
use spottr.Spotnet.Signing.{unprepare_base64, verify_header}
use spottr.Spotnet.Parser.Subject.{parse_subject}
use spottr.Spotnet.Parser.SubCats.{SubCats, parse_sub_cats}
use spottr.Spotnet.Parser.PostDate.{resolve_posted_at}

-- The From header cut at its last angle brackets: what stands before them and between them.
unfoldable pub address_of : Bytes → Result (Bytes × Bytes)
address_of from = elim (last_index from b'<') [
  | none ↦ err not_spotnet
  | some lt ↦ elim (last_index from b'>') [
    | none ↦ err not_spotnet
    | some gt ↦
        if leb gt lt
        then err not_spotnet
        else ok (take lt from, take (gt - (lt + 1)) (drop (lt + 1) from))
  ]
]

-- The address cut at its last `@`.
unfoldable pub parts_of : Bytes → Result (Bytes × Bytes)
parts_of addr = elim (last_index addr b'@') [
  | none ↦ err not_spotnet
  | some at ↦ ok (take at addr, drop (at + 1) addr)
]

abbrev first_of_parts : List Bytes → Bytes
first_of_parts ps = get_or ps 0 []

-- The key that an article carries, "" if nothing stands before the `@`.
unfoldable pub self_signed_key_of : Bytes → Bytes
self_signed_key_of before =
    if is_empty before then [] else unprepare_base64 (first_of_parts (split before b'.'))

-- A byte less '0', in the arithmetic of bytes.
abbrev digit_value : ℕ → ℕ
digit_value c = (c + 256 - b'0') % 256

-- Category and key id from the first field, with the rest of it.
unfoldable pub head_field : Bytes → Result (ℕ × ℕ × Bytes)
head_field [] = err not_spotnet
head_field (c ∷ []) = err not_spotnet
head_field (c ∷ k ∷ rest) =
    if (digit_value c == 0) || ltb 4 (digit_value c)
    then err not_spotnet
    else ok (digit_value c - 1, digit_value k, rest)

-- What the From header says.
pub record Header : Type 0 where
  pub poster_name : Bytes
  pub header_part : Bytes
  pub fields : List Bytes
  pub self_signed : Bytes
  pub category : ℕ
  pub key_id : ℕ
  pub sub_cats : Bytes

-- The same of all the fields, which are six at least.
unfoldable pub first_field : List Bytes → Result (ℕ × ℕ × Bytes)
first_field fields =
    if ltb (length fields) 6 then err not_spotnet else head_field (first_of_parts fields)

header_of : Bytes → Bytes → Bytes → Result Header
header_of before_lt before_at header_part = do
  let fields = split header_part b'.'
  (category, key_id, rest) ← first_field fields
  ok (record {
    poster_name = trim_space before_lt;
    header_part = header_part;
    fields = fields;
    self_signed = self_signed_key_of before_at;
    category = category;
    key_id = key_id;
    sub_cats = rest;
  })

unfoldable pub parse_header : Bytes → Result Header
unfolding header_of
parse_header from = do
  (before_lt, addr) ← address_of from
  (before_at, header_part) ← parts_of addr
  header_of before_lt before_at header_part

module _ (c : Crypto) (now : ℕ) where
  -- The signature field is the last one.
  abbrev signature_of : Header → Bytes
  signature_of h = get_or h.fields (length h.fields - 1) []

  unfoldable pub spot_of : ArticleInfo → Header → ℕ → Spot
  spot_of ai h posted_at =
      let subs = parse_sub_cats (to_lower h.sub_cats ++ codes "!!!") in
      let shown = parse_subject (decode_header_text c ai.subject) (h.key_id == 1) in
      let kind = kind_of h.category subs.sub_a subs.sub_b subs.sub_d in
      record {
        message_id = ai.message_id;
        article_num = ai.article_num;
        title = shown.0;
        description = [];
        poster = decode_header_text c h.poster_name;
        posted_at = posted_at;
        tag = shown.1;
        nzb_id = [];
        category = h.category;
        sub_cat_a = subs.sub_a;
        sub_cat_b = subs.sub_b;
        sub_cat_c = subs.sub_c;
        sub_cat_d = subs.sub_d;
        size = (parse_int (get_or h.fields 1 [])).value;
        image_url = [];
        verified = false;
        moderated = false;
        is_adult = kind == kind_erotic;
        spotter_id = [];
        kind = kind;
        key_id = h.key_id;
        header_part = h.header_part;
        header_sig = signature_of h;
        self_signed_key = h.self_signed;
      }

  -- The signature covers title and poster as parsed, not as shown.
  unfoldable pub header_verified : ArticleInfo → Header → Bool
  header_verified ai h =
      verify_header c (parse_subject ai.subject (h.key_id == 1)).0 h.header_part h.poster_name
        (signature_of h) h.key_id

  -- `ParseFromOverview`
  unfoldable pub parse_from_overview : ArticleInfo → Result (Spot × Bool)
  unfolding spot_of header_verified
  parse_from_overview ai = do
    h ← parse_header ai.from
    posted_at ← resolve_posted_at now (get_or h.fields 3 []) ai.date
    ok (spot_of ai h posted_at, header_verified ai h)
