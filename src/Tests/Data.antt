-- ===== src/Tests/Data.antt =====
-- The inputs that the tests share: a key whose signatures can be written down, an article, a store.
use spottr.Base.{
  true, false, refl, [], ◌∷◌, ◌++◌, none, some, replicate, ok, err, Error, if◌then◌else◌, arith,
}
use spottr.Text.{Bytes, codes, eqb}
use spottr.Text.Numbers.{pos}
use spottr.Nntp.{ArticleInfo}
use spottr.Spotnet.Crypto.{Crypto}
use spottr.Db.Tables.{Db, Row, Spot}
use spottr.Sync.Env.{Env, Mode}

-- Base64 is the identity, except that the exponent reads as 2; every hash is zero.
abbrev pub crypto : Crypto
crypto = record {
  sha1 = λ s. replicate 20 0;
  length-sha1 = λ s. refl;
  decode_base64 = λ s. some (if eqb s (codes "AQAB") then 2 ∷ [] else s);
  encode_base64 = λ s. s;
  crc32 = λ s. 0;
  crc32-lt = λ s. omega arith;
  unmarshal_key = λ s. none;
  decode_words = λ s. none;
  utf8_valid = λ s. true;
}

-- A modulus of 52 bytes, and the text whose square it leaves as the padded digest.
abbrev pub spotter_key : Bytes
spotter_key =
    255 ∷ 254 ∷ replicate 14 0
    ++ 255
      ∷ 207
      ∷ 222
      ∷ 207
      ∷ 246
      ∷ 249
      ∷ 250
      ∷ 212
      ∷ 241
      ∷ 250
      ∷ 253
      ∷ 229
      ∷ 250
      ∷ 255
      ∷ 251
      ∷ 236
      ∷ replicate 19 0
    ++ 1 ∷ []

abbrev pub spotter_signature : Bytes
spotter_signature = replicate 26 0 ++ replicate 26 255

-- A book of the year 2014.
abbrev pub article : ArticleInfo
article = record {
  article_num = 41;
  subject = codes "A title | tag";
  from = codes "Bob <K@17a5d31z2.1234.x.1400000000.id.v.sig>";
  date = 0;
  message_id = codes "<x@y>";
  references = [];
  bytes = pos 10;
  lines = pos 1;
}

abbrev pub hidden_row : Row
hidden_row = record {
  id = 1;
  message_id = codes "<a@b>";
  article_num = 7;
  title = codes "old";
  description = [];
  poster = codes "Eve";
  posted_at = 1400000000;
  tag = [];
  nzb_id = [];
  category = 1;
  sub_cat_a = [];
  sub_cat_b = [];
  sub_cat_c = [];
  sub_cat_d = [];
  size = pos 0;
  image_url = [];
  verified = false;
  moderated = true;
  is_adult = false;
  spotter_id = [];
  kind = 0;
}

-- What `ParseFromOverview` makes of the article.
abbrev pub parsed_spot : Spot
parsed_spot = record {
  message_id = codes "<x@y>";
  article_num = 41;
  title = codes "A title";
  description = [];
  poster = codes "Bob";
  posted_at = 1400000000000000000;
  tag = codes "tag";
  nzb_id = [];
  category = 0;
  sub_cat_a = codes "a5|";
  sub_cat_b = [];
  sub_cat_c = [];
  sub_cat_d = codes "d31|z2|";
  size = pos 1234;
  image_url = [];
  verified = false;
  moderated = false;
  is_adult = false;
  spotter_id = [];
  kind = 4;
  key_id = 7;
  header_part = codes "17a5d31z2.1234.x.1400000000.id.v.sig";
  header_sig = codes "sig";
  self_signed_key = codes "K===";
}

-- One withdrawn spot, still there and hidden; the group has been read to article 40.
abbrev pub store : Db
store = record {
  spots = hidden_row ∷ [];
  next_id = 2;
  ring = record { message_id = codes "<a@b>"; stamp = 5 } ∷ [];
  progress =
      record {
        group_name = codes "free.pt";
        last_article_num = 40;
        backfill_article_num = 0;
        dispose_sweep_article_num = 0;
      }
      ∷ [];
  clock = 9;
  faults = [];
}

-- A server that has the article 41, and answers no HEAD.
abbrev pub env : Env
env = record {
  crypto = crypto;
  now = 1500000000000000000;
  settings = record { moderation_mode = Mode.mark; verify_signatures = false; sync_lookback = 100 };
  server = record {
    lease = none;
    select = ok (record { name = codes "free.pt"; count = 41; first = 1; last = 41 });
    overview = λ from to. ok (article ∷ []);
    head = λ id. err Error.no_such_article;
  };
}
