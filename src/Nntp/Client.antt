-- ===== src/Nntp/Client.antt =====
-- internal/nntp/client.go: the commands of a client. `rounds` bounds each loop over lines; a line
-- takes at least one byte, so one round more than there are bytes is enough.
pub mod Dots
pub mod Commands
pub mod Rounds
pub mod Overview
use spottr.Base.{
  ℕ, zero, suc, ◌+◌, ◌*◌, ◌^◌, Bool, true, false, not, ◌&&◌, ◌||◌, Option, none, some, List, [],
  ◌∷◌, ◌++◌, ◌==◌, ltb, if◌then◌else◌, Result, ok, err, Error, net_error, protocol_error,
  article_too_large, no_such_article, drop, take, length, get_or,
}
use spottr.Text.{
  Bytes, codes, is_empty, eqb, has_prefix, has_suffix, index, trim_space, to_lower, fields,
  push_head,
}
use spottr.Text.Numbers.{ℤ, pos, negsuc, parse_int, format_uint}
use spottr.Nntp.{ArticleInfo, GroupInfo}
use spottr.Nntp.MsgId.{normalize_message_id}
use spottr.Nntp.Wire.{
  Client, Read, read_line, trim_crlf, send_cmd, has_code, unstuff, is_end, is_failed, is_eof,
  line_end, newline, eof, failed,
}

-- `defaultMaxArticleBytes`
abbrev pub default_max_article_bytes : ℕ
default_max_article_bytes = 32 * 2 ^ 20

abbrev pub limit_of : Client → ℕ
limit_of c = if c.max_article_bytes == 0 then default_max_article_bytes else c.max_article_bytes

-- `SetMaxArticleBytes`
unfoldable pub set_max_article_bytes : ℕ → Client → Client
set_max_article_bytes n c = record c {
  max_article_bytes = if n == 0 then default_max_article_bytes else n;
}

-- The loop of `readDot`.
unfoldable pub read_dot_lines : ℕ → ℕ → Bool → Bytes → Client → Result Bytes × Client
unfolding read_line trim_crlf unstuff
read_dot_lines zero limit keep_newlines buf c = (ok buf, c)
read_dot_lines (suc rounds) limit keep_newlines buf c =
    let r = read_line c in
    let line = trim_crlf r.text in
    let more = buf ++ unstuff line ++ line_end keep_newlines in
    let rest = read_dot_lines rounds limit keep_newlines more r.client in
    if is_failed r.ending
    then (err net_error, r.client)
    else if is_end line
    then (ok buf, r.client)
    else if ltb limit (length buf + length (unstuff line) + 1)
    then (err article_too_large, r.client)
    else if is_eof r.ending
    then (ok more, r.client)
    else rest

-- `readDot`
unfoldable pub read_dot : Bool → Client → Result Bytes × Client
unfolding read_dot_lines
read_dot keep_newlines c = read_dot_lines (length c.incoming + 1) (limit_of c) keep_newlines [] c

abbrev pub after_body : Bool → Result Bytes × Client → Result Bytes × Client
after_body keep_newlines (err e, c) = (err e, c)
after_body keep_newlines (ok resp, c) =
    if has_code resp (codes "222") then read_dot keep_newlines c else (err protocol_error, c)

-- `Body` and `BinaryBody`, with and without line feeds
unfoldable pub fetch_body : Bool → Bytes → Client → Result Bytes × Client
unfolding read_dot
fetch_body keep_newlines message_id c = elim (normalize_message_id message_id) [
  | err e ↦ (err e, c)
  | ok id ↦ after_body keep_newlines (send_cmd (codes "BODY " ++ id) c)
]

abbrev pub body : Bytes → Client → Result Bytes × Client
body = fetch_body true

abbrev pub binary_body : Bytes → Client → Result Bytes × Client
binary_body = fetch_body false

-- Headers as the map that the loop of `Head` fills.
abbrev pub HeaderMap : Type 0
HeaderMap = Bytes → Bytes

-- The closure `flush`.
abbrev pub flush_header : Bytes → Bytes → HeaderMap → HeaderMap
flush_header key value headers =
    if is_empty key then headers else λ k. if eqb k key then headers k ++ value else headers k

abbrev is_blank : ℕ → Bool
is_blank c = (c == b' ') || (c == 9)

-- `strings.TrimLeft(line, " \t")`
unfoldable pub trim_blanks : Bytes → Bytes
trim_blanks [] = []
trim_blanks (c ∷ s) = if is_blank c then trim_blanks s else c ∷ s

abbrev is_folded : Bytes → Bool
is_folded [] = false
is_folded (c ∷ s) = is_blank c

-- The name and the value of a header line; a line without a colon has neither.
unfoldable pub key_value : Bytes → Bytes × Bytes
key_value line = elim (index line (codes ":")) [
  | none ↦ ([], [])
  | some i ↦ (to_lower (trim_space (take i line)), trim_space (drop (i + 1) line))
]

-- The loop of `Head`.
unfoldable pub head_lines :
    ℕ → ℕ → ℕ → Bytes → Bytes → HeaderMap → Client → Result HeaderMap × Client
unfolding read_line trim_crlf key_value trim_blanks
head_lines zero limit read key value headers c = (err net_error, c)
head_lines (suc rounds) limit read key value headers c =
    let r = read_line c in
    let line = trim_crlf r.text in
    let size = read + length line + 1 in
    let folded = head_lines rounds limit size key (value ++ trim_blanks line) headers r.client in
    let next_key =
      head_lines rounds limit size (key_value line).0 (key_value line).1
        (flush_header key value headers) r.client in
    if is_failed r.ending || is_eof r.ending
    then (err net_error, r.client)
    else if is_end line
    then (ok (flush_header key value headers), r.client)
    else if ltb limit size
    then (err article_too_large, r.client)
    else if is_folded line
    then folded
    else next_key

abbrev pub after_head : Result Bytes × Client → Result HeaderMap × Client
after_head (err e, c) = (err e, c)
after_head (ok resp, c) =
    if has_prefix resp (codes "430")
    then (err no_such_article, c)
    else if has_code resp (codes "221")
    then head_lines (length c.incoming + 1) (limit_of c) 0 [] [] (λ k. []) c
    else (err protocol_error, c)

-- `Head`
unfoldable pub head : Bytes → Client → Result HeaderMap × Client
unfolding head_lines
head message_id c = elim (normalize_message_id message_id) [
  | err e ↦ (err e, c)
  | ok id ↦ after_head (send_cmd (codes "HEAD " ++ id) c)
]

-- Article numbers and counts are never negative in RFC 3977; one that is reads as 0 here.
abbrev pub natural : ℤ → ℕ
natural (pos n) = n
natural (negsuc n) = 0

abbrev number_in : Bytes → ℕ
number_in s = natural (parse_int s).value

-- The reply of `GROUP`.
unfoldable pub group_info : Bytes → Result GroupInfo
group_info resp =
    let parts = fields resp in
    if not (has_code resp (codes "211"))
    then err protocol_error
    else if ltb (length parts) 5
    then err protocol_error
    else ok (record {
      name = get_or parts 4 [];
      count = number_in (get_or parts 1 []);
      first = number_in (get_or parts 2 []);
      last = number_in (get_or parts 3 []);
    })

abbrev after_group : Result Bytes × Client → Result GroupInfo × Client
after_group (err e, c) = (err e, c)
after_group (ok resp, c) = (group_info resp, c)

-- `SelectGroup`
unfoldable pub select_group : Bytes → Client → Result GroupInfo × Client
unfolding group_info
select_group group c = after_group (send_cmd (codes "GROUP " ++ group) c)

-- `strings.SplitN(s, sep, n)` for a positive n and a separator of one byte.
unfoldable pub split_n : ℕ → Bytes → ℕ → List Bytes
split_n n [] sep = [] ∷ []
split_n zero (c ∷ s) sep = push_head c (split_n zero s sep)
split_n (suc n) (c ∷ s) sep =
    if (c == sep) && ltb 0 n then [] ∷ split_n n s sep else push_head c (split_n (suc n) s sep)
