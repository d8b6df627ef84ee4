-- ===== src/Nntp/Wire.antt =====
-- internal/nntp/client.go: lines on a connection. The bytes that the server is still to send are
-- the client's `incoming`; behind them the stream ends, or fails when `cut` is set.
use spottr.Base.{
  ℕ, Bool, true, false, ◌&&◌, ◌||◌, Option, none, some, List, [], ◌∷◌, ◌++◌, ◌==◌, if◌then◌else◌,
  Result, ok, err, net_error, drop,
}
use spottr.Text.{Bytes, codes, is_empty, eqb, has_prefix}

-- `Client`, with the lines that it has sent.
pub record Client : Type 0 where
  pub incoming : Bytes
  pub cut : Bool
  pub sent : List Bytes
  pub max_article_bytes : ℕ

pub data Ending : Type 0 where
  newline eof failed : Ending

pub record Read : Type 0 where
  pub text : Bytes
  pub ending : Ending
  pub client : Client

-- The bytes up to the first line feed, that one included, and those behind it, if there is one.
unfoldable pub split_line : Bytes → Bytes × Option Bytes
split_line [] = ([], none)
split_line (c ∷ s) = if c == 10 then (10 ∷ [], some s) else (c ∷ (split_line s).0, (split_line s).1)

-- `ReadString('\n')`
unfoldable pub read_line : Client → Read
unfolding split_line
read_line c = elim (split_line c.incoming).1 [
  | some rest ↦ record {
    text = (split_line c.incoming).0;
    ending = newline;
    client = record c { incoming = rest };
  }
  | none ↦ record {
    text = (split_line c.incoming).0;
    ending = if c.cut then failed else eof;
    client = record c { incoming = [] };
  }
]

abbrev is_crlf : ℕ → Bool
is_crlf c = (c == 13) || (c == 10)

-- `strings.TrimRight(line, "\r\n")`
unfoldable pub trim_crlf : Bytes → Bytes
trim_crlf [] = []
trim_crlf (c ∷ s) = if is_empty (trim_crlf s) && is_crlf c then [] else c ∷ trim_crlf s

abbrev pub crlf : Bytes
crlf = 13 ∷ 10 ∷ []

abbrev pub sent_line : Bytes → Client → Client
sent_line cmd c = record c { sent = c.sent ++ (cmd ++ crlf) ∷ [] }

abbrev pub answer : Read → Result Bytes × Client
answer r = elim r.ending [
  | newline ↦ (ok (trim_crlf r.text), r.client)
  | _ ↦ (err net_error, r.client)
]

-- `sendCmd`: a write that fails ends the stream as a read does.
unfoldable pub send_cmd : Bytes → Client → Result Bytes × Client
unfolding read_line trim_crlf
send_cmd cmd c = answer (read_line (sent_line cmd c))

-- `checkCode`
abbrev pub has_code : Bytes → Bytes → Bool
has_code resp code = has_prefix resp code

-- "Unstuff leading dot"
unfoldable pub unstuff : Bytes → Bytes
unstuff line = if has_prefix line (codes "..") then drop 1 line else line

abbrev pub is_end : Bytes → Bool
is_end line = eqb line (codes ".")

abbrev pub is_failed : Ending → Bool
is_failed failed = true
is_failed e = false

abbrev pub is_eof : Ending → Bool
is_eof eof = true
is_eof e = false

abbrev pub line_end : Bool → Bytes
line_end true = 10 ∷ []
line_end false = []
