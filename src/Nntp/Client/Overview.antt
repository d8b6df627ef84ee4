-- ===== src/Nntp/Client/Overview.antt =====
-- internal/nntp/client.go: `Overview` and the dates in it.
use spottr.Base.{
  ℕ, zero, suc, ◌+◌, ◌&&◌, ◌||◌, Option, none, some, List, [], ◌∷◌, ◌++◌, ltb, if◌then◌else◌,
  Result, ok, err, net_error, protocol_error, take, length, get_or,
}
use spottr.Text.{Bytes, codes, is_empty, has_prefix, has_suffix, trim_space}
use spottr.Text.Numbers.{parse_int, format_uint}
use spottr.Nntp.{ArticleInfo}
use spottr.Nntp.Wire.{Client, read_line, trim_crlf, send_cmd, has_code, is_end, is_failed, is_eof}
use spottr.Nntp.Client.{number_in, split_n}

-- `nntpDateFormats`, with the four layouts of Go's time package written out.
abbrev pub date_formats : List Bytes
date_formats =
    codes "Mon, 2 Jan 2006 15:04:05 -0700"
    ∷ codes "Mon, 2 Jan 2006 15:04:05 MST"
    ∷ codes "Mon, 2 Jan 2006 15:04 -0700"
    ∷ codes "Mon, 2 Jan 2006 15:04 MST"
    ∷ codes "2 Jan 2006 15:04:05 -0700"
    ∷ codes "2 Jan 2006 15:04:05 MST"
    ∷ codes "2 Jan 2006 15:04 -0700"
    ∷ codes "2 Jan 2006 15:04 MST"
    ∷ codes "Mon, 2 Jan 06 15:04:05 -0700"
    ∷ codes "Mon, 2 Jan 06 15:04:05 MST"
    ∷ codes "Mon, 2 Jan 06 15:04 -0700"
    ∷ codes "Mon, 2 Jan 06 15:04 MST"
    ∷ codes "2 Jan 06 15:04:05 -0700"
    ∷ codes "2 Jan 06 15:04:05 MST"
    ∷ codes "2 Jan 06 15:04 -0700"
    ∷ codes "2 Jan 06 15:04 MST"
    ∷ codes "Mon, 02 Jan 2006 15:04:05 -0700"
    ∷ codes "Mon, 02 Jan 2006 15:04:05 MST"
    ∷ codes "02 Jan 06 15:04 -0700"
    ∷ codes "02 Jan 06 15:04 MST"
    ∷ []

-- `strings.LastIndex(s, sub)`
unfoldable pub last_of : Bytes → Bytes → Option ℕ
last_of [] sub = if has_prefix [] sub then some 0 else none
last_of (c ∷ s) sub = elim (last_of s sub) [
  | some i ↦ some (suc i)
  | none ↦ if has_prefix (c ∷ s) sub then some 0 else none
]

-- A zone name in parentheses at the end is dropped.
unfoldable pub without_zone_name : Bytes → Bytes
unfolding last_of
without_zone_name s = elim (last_of s (codes " (")) [
  | none ↦ s
  | some i ↦ if ltb 0 i && has_suffix s (codes ")") then trim_space (take i s) else s
]

-- `parse_time` is Go's `time.Parse`, a layout and a text to nanoseconds after 1970.
module _ (parse_time : Bytes → Bytes → Option ℕ) where
  -- The first layout that fits; 0 is the zero time, which goes with the error.
  unfoldable pub first_fit : List Bytes → Bytes → ℕ
  first_fit [] s = 0
  first_fit (f ∷ formats) s = elim (parse_time f s) [ some t ↦ t | none ↦ first_fit formats s ]

  -- `parseNNTPDate`
  unfoldable pub parse_nntp_date : Bytes → ℕ
  unfolding first_fit without_zone_name
  parse_nntp_date s =
      if is_empty (trim_space s)
      then 0
      else first_fit date_formats (without_zone_name (trim_space s))

  -- A line of the reply; one of fewer than eight fields is skipped.
  unfoldable pub overview_line : Bytes → Option ArticleInfo
  unfolding parse_nntp_date
  overview_line line =
      let parts = split_n 9 line 9 in
      if ltb (length parts) 8
      then none
      else some (record {
        article_num = number_in (get_or parts 0 []);
        subject = get_or parts 1 [];
        from = get_or parts 2 [];
        date = parse_nntp_date (get_or parts 3 []);
        message_id = get_or parts 4 [];
        references = get_or parts 5 [];
        bytes = (parse_int (get_or parts 6 [])).value;
        lines = (parse_int (get_or parts 7 [])).value;
      })

  abbrev add_article : Option ArticleInfo → List ArticleInfo → List ArticleInfo
  add_article none articles = articles
  add_article (some ai) articles = articles ++ ai ∷ []

  -- The loop of `Overview`.
  unfoldable pub overview_lines : ℕ → List ArticleInfo → Client → Result (List ArticleInfo) × Client
  unfolding read_line trim_crlf overview_line
  overview_lines zero articles c = (err net_error, c)
  overview_lines (suc rounds) articles c =
      let r = read_line c in
      let line = trim_crlf r.text in
      let rest = overview_lines rounds (add_article (overview_line line) articles) r.client in
      if is_failed r.ending || is_eof r.ending
      then (err net_error, r.client)
      else if is_end line
      then (ok articles, r.client)
      else rest

  abbrev read_articles : Client → Result (List ArticleInfo) × Client
  read_articles c = overview_lines (length c.incoming + 1) [] c

  abbrev after_xover : Result Bytes × Client → Result (List ArticleInfo) × Client
  after_xover (err e, c) = (err e, c)
  after_xover (ok resp, c) =
      if has_code resp (codes "224") then read_articles c else (err protocol_error, c)

  abbrev range : ℕ → ℕ → Bytes
  range from to = format_uint from ++ codes "-" ++ format_uint to

  abbrev after_over : ℕ → ℕ → Result Bytes × Client → Result (List ArticleInfo) × Client
  after_over from to (err e, c) = (err e, c)
  after_over from to (ok resp, c) =
      if has_code resp (codes "224")
      then read_articles c
      else after_xover (send_cmd (codes "XOVER " ++ range from to) c)

  -- `Overview`
  unfoldable pub overview : ℕ → ℕ → Client → Result (List ArticleInfo) × Client
  unfolding overview_lines
  overview from to c = after_over from to (send_cmd (codes "OVER " ++ range from to) c)
