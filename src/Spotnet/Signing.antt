-- ===== src/Spotnet/Signing.antt =====
-- internal/spotnet/signing.go: keys, spotter ids and the signatures of headers and articles.
pub mod Textbook
use spottr.Base.{
  ℕ, zero, suc, ◌+◌, ◌-◌, ◌*◌, ◌/◌, ◌%◌, ◌^◌, Bool, true, false, not, ◌||◌, Option, none, some, [],
  ◌∷◌, ◌++◌, ltb, leb, ◌==◌, if◌then◌else◌, length, take, replicate, Result, ok, err, bad_key,
}
use spottr.Text.{Bytes, codes, is_empty, eqb, has_prefix, last_index, replace_all, trim_space}
use spottr.Spotnet.Crypto.{Crypto}

-- `PublicKey`: base64, as it is sent.
pub record PublicKey : Type 0 where
  pub modulus : Bytes
  pub exponent : Bytes

-- `MasterKeys`, by key id
unfoldable pub master_key : ℕ → Option PublicKey
master_key n =
    if n == 2
    then some (record {
      modulus = codes "ys8WSlqonQMWT8ubG0tAA2Q07P36E+CJmb875wSR1XH7IFhEi0CCwlUzNqBFhC+P";
      exponent = codes "AQAB";
    })
    else if n == 3
    then some (record {
      modulus = codes "uiyChPV23eguLAJNttC/o0nAsxXgdjtvUvidV2JL+hjNzc4Tc/PPo2JdYvsqUsat";
      exponent = codes "AQAB";
    })
    else if n == 4
    then some (record {
      modulus = codes "1k6RNDVD6yBYWR6kHmwzmSud7JkNV4SMigBrs+jFgOK5Ldzwl17mKXJhl+su/GR9";
      exponent = codes "AQAB";
    })
    else none

-- `big.Int.SetBytes`, and `FillBytes` into `k` bytes: most significant byte first.
from_bytes : ℕ → Bytes → ℕ
from_bytes acc [] = acc
from_bytes acc (c ∷ s) = from_bytes (acc * 256 + c) s

unfoldable pub set_bytes : Bytes → ℕ
unfolding from_bytes
set_bytes s = from_bytes 0 s

unfoldable pub fill_bytes : ℕ → ℕ → Bytes
fill_bytes zero n = []
fill_bytes (suc k) n = fill_bytes k (n / 256) ++ n % 256 ∷ []

-- The bytes that a number takes, `(BitLen() + 7) / 8`; a number is fuel enough for its own length.
byte_len_from : ℕ → ℕ → ℕ
byte_len_from zero n = 0
byte_len_from (suc fuel) n =
    let rest = suc (byte_len_from fuel (n / 256)) in if n == 0 then 0 else rest

unfoldable pub byte_len : ℕ → ℕ
unfolding byte_len_from
byte_len n = byte_len_from n n

-- `rsa.PublicKey`
pub record RsaKey : Type 0 where
  pub n : ℕ
  pub e : ℕ

-- `UnprepareBase64`
unfoldable pub pad_base64 : Bytes → Bytes
pad_base64 s = if ltb 0 (length s % 4) then s ++ replicate (4 - length s % 4) b'=' else s

unfoldable pub unprepare_base64 : Bytes → Bytes
unfolding pad_base64
unprepare_base64 s =
    pad_base64 (replace_all (replace_all s (codes "-s") (codes "/")) (codes "-p") (codes "+"))

-- The DER prefix of a SHA-1 digest.
abbrev pub sha1_digest_info : Bytes
sha1_digest_info =
    0x30 ∷ 0x21 ∷ 0x30 ∷ 0x09 ∷ 0x06 ∷ 0x05 ∷ 0x2b ∷ 0x0e ∷ 0x03 ∷ 0x02 ∷ 0x1a ∷ 0x05 ∷ 0x00 ∷ 0x04
    ∷ 0x14 ∷ []

-- The padded digest that a signature of `k` bytes must stand for.
unfoldable pub padded : ℕ → Bytes → Bytes
padded k digest =
    let t_len = length sha1_digest_info + length digest in
    0x00 ∷ 0x01 ∷ (replicate (k - t_len - 3) 0xff ++ 0x00 ∷ (sha1_digest_info ++ digest))

-- `verifyPKCS1v15SHA1`
unfoldable pub verify_pkcs1v15_sha1 : RsaKey → Bytes → Bytes → Bool
unfolding padded
verify_pkcs1v15_sha1 pub_key digest sig =
    let k = byte_len pub_key.n in
    let t_len = length sha1_digest_info + length digest in
    let s = set_bytes sig in
    if not (length sig == k) || (ltb k (t_len + 11) || ltb pub_key.e 2)
    then false
    else if leb pub_key.n s
    then false
    else eqb (fill_bytes k ((s ^ pub_key.e) % pub_key.n)) (padded k digest)

-- `headerSigningString`: title, header up to its signature, poster.
unfoldable pub header_signing_string : Bytes → Bytes → Bytes → Option Bytes
header_signing_string title header poster = elim (last_index header b'.') [
  | none ↦ none
  | some i ↦ some (title ++ (take i header ++ poster))
]

abbrev pub min_self_signed_key_len : ℕ
min_self_signed_key_len = 50

-- A message-id in brackets, as the signatures cover it.
abbrev pub bracketed : Bytes → Bytes
bracketed id = if has_prefix id (b'<' ∷ []) then id else b'<' ∷ (id ++ b'>' ∷ [])

abbrev pub hex_digit : ℕ → ℕ
hex_digit n = if ltb n 10 then b'0' + n else b'a' + (n - 10)

-- `hex.EncodeToString`
unfoldable pub to_hex : Bytes → Bytes
to_hex [] = []
to_hex (c ∷ s) = hex_digit (c / 16) ∷ hex_digit (c % 16) ∷ to_hex s

abbrev pub hashcash_prefix : Bytes
hashcash_prefix = codes "0000"

module _ (c : Crypto) where
  open c use {sha1, decode_base64, encode_base64, crc32, unmarshal_key}

  -- `rsaPub`
  unfoldable pub rsa_pub : PublicKey → Option RsaKey
  rsa_pub key = elim (decode_base64 key.modulus) [
    | none ↦ none
    | some n ↦ elim (decode_base64 key.exponent) [
      | none ↦ none
      | some e ↦
          if is_empty n || is_empty e
          then none
          else if ltb (2 ^ 31 - 1) (set_bytes e)
          then none
          else some (record { n = set_bytes n; e = set_bytes e })
    ]
  ]

  -- `SpotterID`: the checksum of the modulus, least significant byte first, in base64 without
  -- its three special characters.
  unfoldable pub drop_special : Bytes → Bytes
  drop_special [] = []
  drop_special (b ∷ s) =
      if (b == b'/') || ((b == b'+') || (b == b'=')) then drop_special s else b ∷ drop_special s

  unfoldable pub little_endian : ℕ → Bytes
  little_endian n = n % 256 ∷ n / 256 % 256 ∷ n / 65536 % 256 ∷ n / 16777216 % 256 ∷ []

  unfoldable pub spotter_id : Bytes → Bytes
  unfolding drop_special little_endian
  spotter_id modulus = elim (decode_base64 modulus) [
    | none ↦ []
    | some [] ↦ []
    | some (b ∷ raw) ↦ drop_special (encode_base64 (little_endian (crc32 (b ∷ raw))))
  ]

  -- `verify`
  unfoldable pub verify : PublicKey → Bytes → Bytes → Bool
  verify key signed signature = elim (rsa_pub key) [
    | none ↦ false
    | some k ↦ elim (decode_base64 signature) [
      | none ↦ false
      | some [] ↦ false
      | some (b ∷ sig) ↦ verify_pkcs1v15_sha1 k (sha1 signed) (b ∷ sig)
    ]
  ]

  -- `ParseUserKey`
  unfoldable pub parse_user_key : Bytes → Result PublicKey
  parse_user_key header = elim (unmarshal_key (trim_space header)) [
    | none ↦ err bad_key
    | some (m, e) ↦ if is_empty m then err bad_key else ok (record { modulus = m; exponent = e })
  ]

  -- `VerifyHeader`
  unfoldable pub verify_header : Bytes → Bytes → Bytes → Bytes → ℕ → Bool
  verify_header title header poster signature key_id = elim (master_key key_id) [
    | none ↦ false
    | some key ↦ elim (header_signing_string title header poster) [
      | none ↦ false
      | some to_check ↦ verify key to_check (unprepare_base64 signature)
    ]
  ]

  -- `HasValidHashcash`
  unfoldable pub has_valid_hashcash : Bytes → Bool
  has_valid_hashcash message_id = has_prefix (to_hex (sha1 (bracketed message_id))) hashcash_prefix

  -- `VerifySelfSigned`; `none` is the answer ("", false).
  unfoldable pub verify_self_signed : Bytes → Bytes → Bytes → Bytes → Bytes → Bytes → Option Bytes
  verify_self_signed title header poster signature self_signed_key message_id =
      let key : PublicKey = record { modulus = self_signed_key; exponent = codes "AQAB" } in
      if leb (length self_signed_key) min_self_signed_key_len
      then none
      else if has_valid_hashcash message_id
      then elim (header_signing_string title header poster) [
        | none ↦ none
        | some to_check ↦
            if verify key to_check (unprepare_base64 signature)
            then some (spotter_id self_signed_key)
            else none
      ]
      else none

  -- `VerifyFullSpot`
  unfoldable pub verify_full_spot : Bytes → PublicKey → Bytes → Bytes → Bool
  verify_full_spot message_id user_key user_signature xml_signature =
      let sig = unprepare_base64 user_signature in
      if is_empty user_signature || is_empty user_key.modulus
      then false
      else if verify user_key (bracketed message_id) sig
      then true
      else if is_empty xml_signature
      then false
      else verify user_key xml_signature sig
