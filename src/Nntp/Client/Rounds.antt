-- ===== src/Nntp/Client/Rounds.antt =====
-- client.go: the loops over lines end before their rounds do.
use spottr.Base.{
  ℕ, zero, suc, ◌+◌, ◌<◌, ◌≡◌, ap, Bool, false, ◌||◌, some, [], ◌∷◌, ◌++◌, ◌==◌, arith, Bool-cases,
  Option-cases, inl, inr, length,
}
use spottr.Text.{Bytes}
use spottr.Nntp.Wire.{
  Client, split_line, read_line, trim_crlf, unstuff, is_failed, is_eof, line_end,
}
use spottr.Nntp.Client.{read_dot_lines, head_lines, key_value, trim_blanks, flush_header, HeaderMap}

split_line-shorter : (s rest : Bytes) → (split_line s).1 ≡ some rest → length rest < length s
unfolding split_line
split_line-shorter [] rest h = absurd (ground arith)
split_line-shorter (c ∷ s) rest h = elim (Bool-cases (c == 10)) [
  | inl e ↦ let same : s ≡ rest = ground arith in omega (arith, ap length same)
  | inr e ↦ omega (arith, split_line-shorter s rest (ground arith))
]

-- A line that ended with a line feed took a byte at least.
pub read_line-shorter :
    (c : Client)
    → is_failed (read_line c).ending ≡ false
    → is_eof (read_line c).ending ≡ false
    → length (read_line c).client.incoming < length c.incoming
unfolding read_line
read_line-shorter c f e = elim (Option-cases (split_line c.incoming).1) [
  | inl n ↦ absurd (ground arith)
  | inr (rest, n) ↦ rw (read_line, n) (split_line-shorter c.incoming rest n)
]

-- The rounds that `readDot` gives its loop are enough: any two numbers of rounds above the count of
-- the bytes to come give the same result and leave the same bytes.
pub read_dot_lines_enough :
    (rounds more limit : ℕ) (keep_newlines : Bool) (buf : Bytes) (c : Client)
    → length c.incoming < rounds
    → length c.incoming < more
    → read_dot_lines rounds limit keep_newlines buf c
      ≡ read_dot_lines more limit keep_newlines buf c
unfolding read_dot_lines
read_dot_lines_enough zero more limit keep_newlines buf c h h' = absurd (omega arith)
read_dot_lines_enough (suc rounds) zero limit keep_newlines buf c h h' = absurd (omega arith)
read_dot_lines_enough (suc rounds) (suc more) limit keep_newlines buf c h h' =
    let r = read_line c in
    let grown = buf ++ unstuff (trim_crlf r.text) ++ line_end keep_newlines in
    elim (Bool-cases (is_failed r.ending)) [
      | inl e ↦ rw (e, read_dot_lines)
      | inr e ↦ elim (Bool-cases (is_eof r.ending)) [
        | inl e' ↦ rw (e, e', read_dot_lines)
        | inr e' ↦
            let less = read_line-shorter c e e' in
            rw (
              read_dot_lines_enough rounds more limit keep_newlines grown r.client
                  (omega (arith, less)) (omega (arith, less)),
              read_dot_lines,
            )
      ]
    ]

-- The same of the loop of `Head`.
pub head_lines_enough :
    (rounds more limit read : ℕ) (key value : Bytes) (headers : HeaderMap) (c : Client)
    → length c.incoming < rounds
    → length c.incoming < more
    → head_lines rounds limit read key value headers c
      ≡ head_lines more limit read key value headers c
unfolding head_lines
head_lines_enough zero more limit read key value headers c h h' = absurd (omega arith)
head_lines_enough (suc rounds) zero limit read key value headers c h h' = absurd (omega arith)
head_lines_enough (suc rounds) (suc more) limit read key value headers c h h' =
    let r = read_line c in
    let line = trim_crlf r.text in
    let size = read + length line + 1 in
    elim (Bool-cases (is_failed r.ending || is_eof r.ending)) [
      | inl e ↦ ground (arith, e)
      | inr e ↦
          let less = read_line-shorter c (ground arith) (ground arith) in
          ground (
            arith,
            e,
            head_lines_enough rounds more limit size key (value ++ trim_blanks line) headers
                r.client (omega (arith, less)) (omega (arith, less)),
            head_lines_enough rounds more limit size (key_value line).0 (key_value line).1
                (flush_header key value headers) r.client (omega (arith, less))
                (omega (arith, less)),
          )
    ]
