-- ===== src/Spotnet/Crypto.antt =====
-- What internal/spotnet takes from Go's crypto, encoding and mime packages: operations that the
-- program calls and does not implement. The laws are the documented sizes of their results.
use spottr.Base.{ℕ, ◌≡◌, Option, length, ◌<◌, ◌^◌, Bool}
use spottr.Text.{Bytes}

pub record Crypto : Type 0 where
  -- `sha1.Sum`: twenty bytes
  pub sha1 : Bytes → Bytes
  pub length-sha1 : (s : Bytes) → length (sha1 s) ≡ 20
  -- `base64.StdEncoding`; `none` is a decoding error
  pub decode_base64 : Bytes → Option Bytes
  pub encode_base64 : Bytes → Bytes
  -- `crc32.ChecksumIEEE`
  pub crc32 : Bytes → ℕ
  pub crc32-lt : (s : Bytes) → crc32 s < 2 ^ 32
  -- `xml.Unmarshal` of an X-User-Key header: the text of Modulus and of Exponent, "" when absent
  pub unmarshal_key : Bytes → Option (Bytes × Bytes)
  -- `mime.WordDecoder.DecodeHeader` with the program's charset reader
  pub decode_words : Bytes → Option Bytes
  -- `utf8.Valid`
  pub utf8_valid : Bytes → Bool
