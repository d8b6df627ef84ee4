-- ===== src/Tests/Spotnet.antt =====
-- internal/spotnet and internal/nntp at concrete inputs.
use spottr.Base.{[], ◌∷◌, refl, ◌≡◌, ok, true, false, ◌*◌, ◌↔◌, ℕ}
use spottr.Text.{
  codes, eqb, fields, to_lower, trim_space, contains, has_prefix, has_suffix, last_index, split,
  index, replace_all,
}
use spottr.Spotnet.Moderation.{
  ModerationCommand, parse_dispose, looks_like_moderation_command, second, sign_check,
}
use spottr.Spotnet.Moderation.Authority.{Proved, parse_dispose-Proved}
use spottr.Spotnet.Signing.{
  master_key, to_hex, verify_self_signed, has_valid_hashcash, header_signing_string, verify,
  unprepare_base64, rsa_pub, set_bytes, byte_len, fill_bytes, padded, verify_pkcs1v15_sha1,
  spotter_id, verify_header,
}
use spottr.Spotnet.Parser.SubCats.{parse_sub_cats, scan_codes, flush, code_text}
use spottr.Spotnet.Moderation.{validate_dispose}
use spottr.Spotnet.Moderation.Authority.{Authorised, validate_dispose_iff}
use spottr.Spotnet.Parser.PostDate.{resolve_posted_at, read_stamp, plausible_spot_time}
use spottr.Spotnet.Parser.Overview.{
  parse_from_overview, address_of, parts_of, first_field, head_field, self_signed_key_of,
  parse_header, spot_of, header_verified,
}
use spottr.Spotnet.Parser.Overview.Fresh.{IsFresh, parse_from_overview-IsFresh}
use spottr.Db.Kind.{kind_of, kind_of_codes, column_codes, has_code, has_any}
use spottr.Spotnet.Parser.Subject.{parse_subject, unescape_pipe}
use spottr.Spotnet.HeaderText.{decode_header_text}
use spottr.Text.Numbers.{parse_int, scan_uint, format_uint}
use spottr.Tests.Data.{crypto, spotter_key, spotter_signature, article, env, parsed_spot}

-- A withdrawal by the spotter with that key; the spotter's id is four zero bytes here.
abbrev command : ModerationCommand
command = record {
  action = codes "dispose";
  target_id = codes "<a@b>";
  spotter = 0 ∷ 0 ∷ 0 ∷ 0 ∷ [];
  verified = true;
  stamp = 3 * second;
  moderator = false;
}

parse_dispose-Proved_example :
    (command.stamp ≡ 3 * second)
    × (◌≡◌ {A = ℕ} 2 2)
    × Proved crypto
        (codes "DISPOSE a@b")
        (codes "x.y")
        (codes "Bob")
        spotter_signature
        spotter_key
        (codes "<c@d>")
        command
unfolding parse_dispose looks_like_moderation_command fields to_lower trim_space contains has_prefix
    has_suffix last_index index replace_all sign_check verify_self_signed has_valid_hashcash
    header_signing_string verify unprepare_base64 rsa_pub set_bytes byte_len fill_bytes padded
    verify_pkcs1v15_sha1 spotter_id verify_header eqb to_hex
parse_dispose-Proved_example =
    parse_dispose-Proved crypto (codes "DISPOSE a@b") (codes "x.y") (codes "Bob") spotter_signature
      spotter_key (codes "<c@d>") 2 (3 * second) command refl refl

validate_dispose_iff_example :
    (validate_dispose command (0 ∷ 0 ∷ 0 ∷ 0 ∷ []) second ≡ true)
    ↔ Authorised command (0 ∷ 0 ∷ 0 ∷ 0 ∷ []) second
validate_dispose_iff_example = validate_dispose_iff command (0 ∷ 0 ∷ 0 ∷ 0 ∷ []) second

pub parse-article : parse_from_overview crypto env.now article ≡ ok (parsed_spot, false)
unfolding parse_from_overview parse_header spot_of header_verified resolve_posted_at
    plausible_spot_time parse_sub_cats scan_codes flush code_text parse_subject decode_header_text
    kind_of kind_of_codes column_codes has_code has_any split last_index trim_space contains
    replace_all to_lower index unescape_pipe parse_int scan_uint format_uint unprepare_base64
    read_stamp verify_header master_key address_of parts_of first_field head_field
    self_signed_key_of
parse-article = refl

parse_from_overview-IsFresh_example : IsFresh env.now article parsed_spot
parse_from_overview-IsFresh_example =
    parse_from_overview-IsFresh crypto env.now article parsed_spot false parse-article
