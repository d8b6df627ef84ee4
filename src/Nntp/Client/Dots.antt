-- ===== src/Nntp/Client/Dots.antt =====
-- client.go: what `readDot` reads of an article that was posted, and how much it reads at most.
use spottr.Base.{
  ℕ, zero, suc, ◌+◌, ◌≤◌, ◌<◌, ◌≡◌, refl, ap, ◌∙◌, subst, Bool, true, false, Option, some, List, [],
  ◌∷◌, ◌++◌, append-nil, append_assoc, ◌==◌, ltb, if◌then◌else◌, Result, ok, err, arith, Bool-cases,
  inl, inr, length, length-append, All,
}
use spottr.Text.{Bytes, codes, eqb, has_prefix}
use spottr.Nntp.Wire.{
  Client, newline, split_line, read_line, trim_crlf, crlf, unstuff, is_end, is_failed, is_eof,
  line_end,
}
use spottr.Nntp.Client.{read_dot_lines, read_dot, limit_of}

-- What a server sends for a line, and for an article: leading dots doubled, and a dot at the end.
abbrev pub stuffed : Bytes → Bytes
stuffed [] = []
stuffed (c ∷ s) = if c == b'.' then b'.' ∷ c ∷ s else c ∷ s

abbrev pub posted : List Bytes → Bytes
posted [] = codes "." ++ crlf
posted (l ∷ ls) = stuffed l ++ (crlf ++ posted ls)

-- A line of an article: no line feed in it, and no CR or line feed at its end.
abbrev pub NotLf : ℕ → Type 0
NotLf c = (c == 10) ≡ false

abbrev pub IsLine : Bytes → Type 0
IsLine l = All NotLf l × (trim_crlf l ≡ l)

-- The lines, each with a line feed behind it if they are kept.
abbrev pub joined : Bool → List Bytes → Bytes
joined keep_newlines [] = []
joined keep_newlines (l ∷ ls) = l ++ line_end keep_newlines ++ joined keep_newlines ls

split_line-append :
    (l rest : Bytes) → All NotLf l → split_line (l ++ 13 ∷ 10 ∷ rest) ≡ (l ++ crlf, some rest)
unfolding split_line
split_line-append [] rest h = refl
split_line-append (c ∷ l) rest h = ground (arith, split_line-append l rest h.1)

trim_crlf-append : (l : Bytes) → trim_crlf (l ++ crlf) ≡ trim_crlf l
unfolding trim_crlf
trim_crlf-append [] = refl
trim_crlf-append (c ∷ l) = ground (arith, trim_crlf-append l)

stuffed-NotLf : (l : Bytes) → All NotLf l → All NotLf (stuffed l)
stuffed-NotLf [] h = tt
stuffed-NotLf (c ∷ l) h = ground arith

stuffed-trim : (l : Bytes) → trim_crlf l ≡ l → trim_crlf (stuffed l) ≡ stuffed l
unfolding trim_crlf
stuffed-trim [] h = refl
stuffed-trim (c ∷ l) h = ground (arith, h)

unstuff-stuffed : (l : Bytes) → unstuff (stuffed l) ≡ l
unfolding unstuff has_prefix
unstuff-stuffed [] = refl
unstuff-stuffed (c ∷ []) = ground arith
unstuff-stuffed (c ∷ x ∷ l) = ground arith

stuffed-is_end : (l : Bytes) → is_end (stuffed l) ≡ false
unfolding eqb
stuffed-is_end [] = refl
stuffed-is_end (c ∷ []) = ground arith
stuffed-is_end (c ∷ x ∷ l) = ground arith

-- The bytes that the limit counts.
abbrev pub total : List Bytes → ℕ
total [] = 0
total (l ∷ ls) = length l + 1 + total ls

read_line-line :
    (c : Client) (l rest : Bytes)
    → All NotLf l
    → read_line (record c { incoming = l ++ 13 ∷ 10 ∷ rest })
      ≡ record { text = l ++ crlf; ending = newline; client = record c { incoming = rest } }
unfolding read_line
read_line-line c l rest h = rw (
  read_line,
  ap (λ (q : Bytes × Option Bytes). q.1) (split_line-append l rest h),
  ap (λ (q : Bytes × Option Bytes). q.0) (split_line-append l rest h),
)

-- The line in the middle of a posted article.
posted-line :
    (l : Bytes) (ls : List Bytes) (tail : Bytes)
    → posted (l ∷ ls) ++ tail ≡ stuffed l ++ 13 ∷ 10 ∷ (posted ls ++ tail)
posted-line l ls tail = append_assoc (stuffed l) (crlf ++ posted ls) tail

one_line :
    (rounds limit : ℕ) (keep_newlines : Bool) (buf l rest : Bytes) (c : Client)
    → IsLine l
    → length buf + length l + 1 ≤ limit
    → read_dot_lines
        (suc rounds)
        limit
        keep_newlines
        buf
        (record c { incoming = stuffed l ++ 13 ∷ 10 ∷ rest })
      ≡ read_dot_lines rounds limit keep_newlines
          (buf ++ l ++ line_end keep_newlines)
          (record c { incoming = rest })
unfolding read_dot_lines
one_line rounds limit keep_newlines buf l rest c (plain, solid) room =
    let r = read_line-line c (stuffed l) rest (stuffed-NotLf l plain) in
    let t : trim_crlf (stuffed l ++ crlf) ≡ stuffed l =
      trim_crlf-append (stuffed l) ∙ stuffed-trim l solid in
    let fits : ltb limit (length buf + length l + 1) ≡ false = ground arith in
    rw (read_dot_lines, r, t, stuffed-is_end l, unstuff-stuffed l, fits)

last_line :
    (rounds limit : ℕ) (keep_newlines : Bool) (buf tail : Bytes) (c : Client)
    → read_dot_lines
        (suc rounds)
        limit
        keep_newlines
        buf
        (record c { incoming = codes "." ++ crlf ++ tail })
      ≡ (ok buf, record c { incoming = tail })
unfolding read_dot_lines read_line split_line trim_crlf eqb
last_line rounds limit keep_newlines buf tail c = refl

regroup : (a b c d : Bytes) → a ++ b ++ c ++ d ≡ a ++ (b ++ c ++ d)
regroup a b c d = rw (append_assoc a b c, append_assoc a (b ++ c) d)

length-line_end : (keep_newlines : Bool) → length (line_end keep_newlines) ≤ 1
length-line_end true = omega arith
length-line_end false = omega arith

read_dot_lines-posted :
    (rounds limit : ℕ) (keep_newlines : Bool) (buf tail : Bytes) (ls : List Bytes) (c : Client)
    → All IsLine ls
    → length buf + total ls ≤ limit
    → length ls < rounds
    → read_dot_lines rounds limit keep_newlines buf (record c { incoming = posted ls ++ tail })
      ≡ (ok (buf ++ joined keep_newlines ls), record c { incoming = tail })
read_dot_lines-posted zero limit keep_newlines buf tail ls c h room n = absurd (omega arith)
read_dot_lines-posted (suc rounds) limit keep_newlines buf tail [] c h room n =
    last_line rounds limit keep_newlines buf tail c ∙ rw (append-nil buf)
read_dot_lines-posted (suc rounds) limit keep_newlines buf tail (l ∷ ls) c (line, h) room n =
    let more = buf ++ l ++ line_end keep_newlines in
    let grown : length more ≤ length buf + length l + 1 = omega (
      arith,
      length-append (buf ++ l) (line_end keep_newlines),
      length-append buf l,
      length-line_end keep_newlines,
    ) in
    ap (λ w. read_dot_lines (suc rounds) limit keep_newlines buf (record c { incoming = w }))
      (posted-line l ls tail)
    ∙ one_line rounds limit keep_newlines buf l (posted ls ++ tail) c line (omega arith)
    ∙ read_dot_lines-posted rounds limit keep_newlines more tail ls c h (omega (arith, grown))
        (omega arith)
    ∙ ap (λ w. (ok w, record c { incoming = tail }))
        (regroup buf l (line_end keep_newlines) (joined keep_newlines ls))

length-posted : (ls : List Bytes) → length ls < length (posted ls)
length-posted [] = omega arith
length-posted (l ∷ ls) =
    omega (arith, length-append (stuffed l) (crlf ++ posted ls), length-posted ls)

-- An article that a server sends line by line, with leading dots doubled and a line of a single dot
-- at its end, is read back as its lines, with their line feeds or without, when its lines hold no
-- line feed and do not end in a CR and its size is within the limit; and what the server sends
-- behind the article is left for the next command.
pub read_dot-posted :
    (keep_newlines : Bool) (ls : List Bytes) (tail : Bytes) (c : Client)
    → All IsLine ls
    → total ls ≤ limit_of c
    → read_dot keep_newlines (record c { incoming = posted ls ++ tail })
      ≡ (ok (joined keep_newlines ls), record c { incoming = tail })
unfolding read_dot
read_dot-posted keep_newlines ls tail c h room =
    read_dot_lines-posted (length (posted ls ++ tail) + 1) (limit_of c) keep_newlines [] tail ls c h
      (omega (arith, room)) (omega (arith, length-append (posted ls) tail, length-posted ls))

abbrev BoundedBy : ℕ → Result Bytes → Type 0
BoundedBy limit (ok b) = length b ≤ limit
BoundedBy limit (err e) = Unit

read_dot_lines-le :
    (rounds limit : ℕ) (keep_newlines : Bool) (buf : Bytes) (c : Client)
    → length buf ≤ limit
    → BoundedBy limit (read_dot_lines rounds limit keep_newlines buf c).0
unfolding read_dot_lines
read_dot_lines-le zero limit keep_newlines buf c h = h
read_dot_lines-le (suc rounds) limit keep_newlines buf c h =
    let r = read_line c in
    let line = trim_crlf r.text in
    let more = buf ++ unstuff line ++ line_end keep_newlines in
    let grown : length more ≤ length buf + length (unstuff line) + 1 = omega (
      arith,
      length-append (buf ++ unstuff line) (line_end keep_newlines),
      length-append buf (unstuff line),
      length-line_end keep_newlines,
    ) in
    elim (Bool-cases (is_failed r.ending)) [
      | inl e ↦ rw (e, read_dot_lines) tt
      | inr e ↦ elim (Bool-cases (is_end line)) [
        | inl e' ↦ rw (e, e', read_dot_lines) h
        | inr e' ↦ elim (Bool-cases (ltb limit (length buf + length (unstuff line) + 1))) [
          | inl f ↦ rw (e, e', f, read_dot_lines) tt
          | inr f ↦
              let fits : length more ≤ limit = ground (arith, f, grown) in
              elim (Bool-cases (is_eof r.ending)) [
                | inl g ↦ rw (e, e', f, g, read_dot_lines) fits
                | inr g ↦
                    rw (e, e', f, g, read_dot_lines)
                      (read_dot_lines-le rounds limit keep_newlines more r.client fits)
              ]
        ]
      ]
    ]

-- Whatever the server sends, an article that `readDot` returns is no longer than the client's limit.
pub read_dot-le :
    (keep_newlines : Bool) (c : Client) (b : Bytes)
    → (read_dot keep_newlines c).0 ≡ ok b
    → length b ≤ limit_of c
unfolding read_dot
read_dot-le keep_newlines c b h =
    subst (BoundedBy (limit_of c)) h
      (read_dot_lines-le (length c.incoming + 1) (limit_of c) keep_newlines [] c (omega arith))
