-- ===== src/Tests/Nntp.antt =====
-- internal/nntp at concrete inputs.
use spottr.Base.{arith, ℕ, ◌≡◌, ◌≤◌, ◌+◌, refl, [], ◌∷◌, length, ltb, if◌then◌else◌, true, false}
use spottr.Base.{List, ◌++◌, ok}
use spottr.Text.{Bytes, codes}
use spottr.Nntp.Wire.{Client, trim_crlf}
use spottr.Nntp.Client.{read_dot, fetch_body, head}
use spottr.Nntp.Client.Dots.{posted, joined, read_dot-posted}
use spottr.Nntp.Client.Commands.{OneLine, commands_OneLine}
use spottr.Nntp.Pool.{new_pool, acquire, split_last, pop_idle, popped}
use spottr.Nntp.Pool.Bounded.{
  World, Reach, here, then_step, enter, miss, dialled, start, copies_idle, copies_leased,
}
use spottr.Nntp.Pool.Reachable.{pool_bounded}

-- One caller has entered, found nothing idle, and dialled.
abbrev entered : World
entered = record (start 2) { pool = record (new_pool 2) { slots = 1 }; looking = 1 }

abbrev dials : World
dials = record entered { looking = 0; dialling = 1 }

abbrev leased : World
leased = record dials {
  dialling = 0;
  leases = record { client = 0; leased = true; broken = false } ∷ [];
  fresh = 1;
}

run-leased : Reach (start 2) leased
unfolding new_pool acquire pop_idle split_last popped
run-leased =
    then_step
      (then_step (then_step here (enter (record (new_pool 2) { slots = 1 }) refl refl))
        (miss 7 entered.pool (omega arith) refl refl))
      (dialled (omega arith) refl)

pool_bounded_example :
    (length leased.pool.idle + length leased.leases + leased.dialling ≤ (if ltb 2 1 then 1 else 2))
    × ((x : ℕ) → copies_idle x leased.pool.idle + copies_leased x leased.leases ≤ 1)
pool_bounded_example = pool_bounded 2 leased run-leased

-- A server that answers a BODY with two lines, the first of which begins with a dot.
abbrev client : Client
client = record { incoming = []; cut = false; sent = []; max_article_bytes = 0 }

abbrev two_lines : List Bytes
two_lines = codes ".b" ∷ codes "c" ∷ []

read_dot-posted_example :
    read_dot true (record client { incoming = posted two_lines ++ codes "205 bye" })
    ≡ (ok (joined true two_lines), record client { incoming = codes "205 bye" })
unfolding trim_crlf
read_dot-posted_example =
    read_dot-posted true two_lines (codes "205 bye") client
      (((refl, (refl, tt)), refl), (((refl, tt), refl), tt)) (omega arith)

abbrev narrow : Client
narrow = record client { incoming = codes "a\n.\n"; max_article_bytes = 4 }

commands_OneLine_example :
    OneLine (codes "BODY ") narrow (fetch_body true (codes "a\r\nQUIT") narrow).1
    × OneLine (codes "HEAD ") narrow (head (codes "a\r\nQUIT") narrow).1
commands_OneLine_example = commands_OneLine true (codes "a\r\nQUIT") narrow
