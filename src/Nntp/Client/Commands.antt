-- ===== src/Nntp/Client/Commands.antt =====
-- client.go: what a client sends. No message-id, wherever it comes from, can add a command.
use spottr.Base.{
  suc, ℕ, zero, suc, ◌+◌, ◌≡◌, refl, ap, ◌∙◌, Bool, [], ◌∷◌, ◌++◌, All, ◌⊎◌, inl, inr, Result, ok,
  err, Result-cases, arith, length,
}
use spottr.Text.{Bytes, codes}
use spottr.Nntp.MsgId.{normalize_message_id}
use spottr.Nntp.MsgId.Laws.{IsPlain, normalize_message_id_sound}
use spottr.Nntp.Wire.{
  Client, send_cmd, read_line, crlf, sent_line, answer, unstuff, line_end, trim_crlf,
}
use spottr.Nntp.Client.{
  Read, limit_of, key_value, trim_blanks, flush_header, HeaderMap, after_body, after_head,
  fetch_body, head, read_dot, read_dot_lines, head_lines,
}

-- At most one line was sent, and it is the verb and a bracketed id of printable bytes without spaces
-- or further brackets.
abbrev pub OneLine : Bytes → Client → Client → Type 0
OneLine verb c c' =
    (c'.sent ≡ c.sent)
    ⊎ ((s : Bytes) × All IsPlain s
        × (c'.sent ≡ c.sent ++ (verb ++ (b'<' ∷ (s ++ b'>' ∷ [])) ++ crlf) ∷ []))

read_line-sent : (c : Client) → (read_line c).client.sent ≡ c.sent
unfolding read_line
read_line-sent c = ground arith

answer-client : (r : Read) → (answer r).1 ≡ r.client
answer-client r = ground arith

send_cmd-sent : (cmd : Bytes) (c : Client) → (send_cmd cmd c).1.sent ≡ c.sent ++ (cmd ++ crlf) ∷ []
unfolding send_cmd
send_cmd-sent cmd c =
    ap (λ (x : Client). x.sent) (answer-client (read_line (sent_line cmd c)))
    ∙ read_line-sent (sent_line cmd c)

read_dot_lines-sent :
    (rounds limit : ℕ) (keep_newlines : Bool) (buf : Bytes) (c : Client)
    → (read_dot_lines rounds limit keep_newlines buf c).1.sent ≡ c.sent
unfolding read_dot_lines
read_dot_lines-sent zero limit keep_newlines buf c = refl
read_dot_lines-sent (suc rounds) limit keep_newlines buf c =
    let r = read_line c in
    let more = buf ++ unstuff (trim_crlf r.text) ++ line_end keep_newlines in
    ground (arith, read_line-sent c, read_dot_lines-sent rounds limit keep_newlines more r.client)

head_lines-sent :
    (rounds limit read : ℕ) (key value : Bytes) (headers : HeaderMap) (c : Client)
    → (head_lines rounds limit read key value headers c).1.sent ≡ c.sent
unfolding head_lines
head_lines-sent zero limit read key value headers c = refl
head_lines-sent (suc rounds) limit read key value headers c =
    let r = read_line c in
    let line = trim_crlf r.text in
    let size = read + length line + 1 in
    ground (
      arith,
      read_line-sent c,
      head_lines-sent rounds limit size key (value ++ trim_blanks line) headers r.client,
      head_lines-sent rounds limit size (key_value line).0 (key_value line).1
          (flush_header key value headers) r.client,
    )

after_body-sent :
    (keep_newlines : Bool) (p : Result Bytes × Client)
    → (after_body keep_newlines p).1.sent ≡ p.1.sent
unfolding read_dot
after_body-sent keep_newlines (err e, c) = refl
after_body-sent keep_newlines (ok resp, c) =
    ground (arith, read_dot_lines-sent (length c.incoming + 1) (limit_of c) keep_newlines [] c)

after_head-sent : (p : Result Bytes × Client) → (after_head p).1.sent ≡ p.1.sent
after_head-sent (err e, c) = refl
after_head-sent (ok resp, c) =
    ground (arith, head_lines-sent (length c.incoming + 1) (limit_of c) 0 [] [] (λ k. []) c)

-- Whatever the message-id and whatever the server sends, `Body` and `BinaryBody` send nothing or one
-- line, BODY and a bracketed id of printable bytes, and `Head` nothing or one such line with HEAD; so
-- no message-id can carry a second command.
pub commands_OneLine :
    (keep_newlines : Bool) (message_id : Bytes) (c : Client)
    → OneLine (codes "BODY ") c (fetch_body keep_newlines message_id c).1
      × OneLine (codes "HEAD ") c (head message_id c).1
unfolding fetch_body head
commands_OneLine keep_newlines message_id c =
    elim (Result-cases (normalize_message_id message_id)) [
      | inl (x, e) ↦ (rw (e, fetch_body) (inl refl), rw (e, head) (inl refl))
      | inr (id, e) ↦
          let (s, same, _, plain, _) = normalize_message_id_sound message_id id e in
          let sends : (verb : Bytes)
              → (send_cmd (verb ++ id) c).1.sent
                ≡ c.sent ++ (verb ++ (b'<' ∷ (s ++ b'>' ∷ [])) ++ crlf) ∷ [] =
            λ verb.
              send_cmd-sent (verb ++ id) c ∙ ap (λ x. c.sent ++ (verb ++ x ++ crlf) ∷ []) same in
          (
            rw (e, fetch_body)
                (inr (
                  s,
                  plain,
                  after_body-sent keep_newlines (send_cmd (codes "BODY " ++ id) c)
                      ∙ sends (codes "BODY "),
                )),
            rw (e, head)
                (inr (
                  s,
                  plain,
                  after_head-sent (send_cmd (codes "HEAD " ++ id) c) ∙ sends (codes "HEAD "),
                )),
          )
    ]
