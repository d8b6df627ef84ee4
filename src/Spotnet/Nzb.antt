-- ===== src/Spotnet/Nzb.antt =====
-- internal/spotnet/parser.go: the bodies of NZB and image articles.
pub mod RoundTrip
use spottr.Base.{
  ℕ, ◌+◌, ◌*◌, ◌^◌, Bool, true, false, List, [], ◌∷◌, ltb, ◌==◌, if◌then◌else◌, Result, ok, err,
  Error, nzb_too_large, inflate_failed, take, length,
}
use spottr.Text.{Bytes, codes, has_prefix, replace_all, trim_space}

-- `unspecialZipStr`
unfoldable pub unspecial_zip_str : Bytes → Bytes
unfolding replace_all
unspecial_zip_str s =
    let s1 = replace_all s (codes "=C") (10 ∷ []) in
    let s2 = replace_all s1 (codes "=B") (13 ∷ []) in
    let s3 = replace_all s2 (codes "=A") (0 ∷ []) in replace_all s3 (codes "=D") (codes "=")

-- `DecodeImageBody`
unfoldable pub decode_image_body : Bytes → Bytes
unfolding unspecial_zip_str
decode_image_body = unspecial_zip_str

-- `DefaultMaxNZBBytes`
abbrev pub default_max_nzb_bytes : ℕ
default_max_nzb_bytes = 64 * 2 ^ 20

-- What Go's deflate reader gives for a stream: its bytes, and whether it then ends well.
pub record Inflated : Type 0 where
  pub output : Bytes
  pub good : Bool

abbrev pub nzb_limit : ℕ → ℕ
nzb_limit max_bytes = if max_bytes == 0 then default_max_nzb_bytes else max_bytes

-- What is made of the bytes read up to one past the limit; an error behind these is not seen.
unfoldable pub inflated_nzb : ℕ → Bytes → Inflated → Result Bytes
inflated_nzb limit compressed i =
    if ltb limit (length (take (limit + 1) i.output))
    then err nzb_too_large
    else if i.good
    then ok (take (limit + 1) i.output)
    else if has_prefix (trim_space compressed) (codes "<")
    then ok compressed
    else err inflate_failed

-- `DecodeNZBBodyLimit`
unfoldable pub decode_nzb_body_limit : (Bytes → Inflated) → Bytes → ℕ → Result Bytes
unfolding unspecial_zip_str inflated_nzb
decode_nzb_body_limit inflate body max_bytes =
    inflated_nzb (nzb_limit max_bytes) (unspecial_zip_str body) (inflate (unspecial_zip_str body))
