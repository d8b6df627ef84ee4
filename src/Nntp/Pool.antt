-- ===== src/Nntp/Pool.antt =====
-- internal/nntp/pool.go: the bounded pool of connections. A connection is a number, since the pool
-- only moves it about and closes it. Each function is a part of an operation that runs under the
-- pool's lock or on its semaphore, and Pool/Bounded lets such parts of many callers interleave.
pub mod Bounded
pub mod Reachable
use spottr.Base.{
  ℕ, suc, ◌+◌, ◌-◌, ◌*◌, ◌^◌, Bool, true, false, not, Option, none, some, List, [], ◌∷◌, ◌++◌, ltb,
  if◌then◌else◌, keep, map,
}

-- `idleConn`
pub record IdleConn : Type 0 where
  pub client : ℕ
  pub put_at : ℕ

-- `Pool`, without the address; `slots` is the number of values in the channel `sem`.
pub record Pool : Type 0 where
  pub cap : ℕ
  pub slots : ℕ
  pub idle : List IdleConn

-- `Conn`; `leased` is whether its field `pool` is still set.
pub record Conn : Type 0 where
  pub client : ℕ
  pub leased : Bool
  pub broken : Bool

-- `idleTimeout`, two minutes
abbrev pub idle_timeout : ℕ
idle_timeout = 2 * 60 * 10 ^ 9

-- `NewPool`
unfoldable pub new_pool : ℕ → Pool
new_pool max_conns = record { cap = if ltb max_conns 1 then 1 else max_conns; slots = 0; idle = [] }

-- The send on `sem`; `none` means that it blocks.
unfoldable pub acquire : Pool → Option Pool
acquire p = if ltb p.slots p.cap then some (record p { slots = p.slots + 1 }) else none

-- The receive from `sem`.
unfoldable pub free_slot : Pool → Pool
free_slot p = record p { slots = p.slots - 1 }

abbrev pub is_stale : ℕ → IdleConn → Bool
is_stale now ic = ltb (ic.put_at + idle_timeout) now

-- All but the last member, and the last one.
unfoldable pub split_last : List IdleConn → Option (List IdleConn × IdleConn)
split_last [] = none
split_last (x ∷ xs) = elim (split_last xs) [
  | none ↦ some ([], x)
  | some (front, y) ↦ some (x ∷ front, y)
]

pub data Popped : Type 0 where
  nothing_idle : Popped
  stale : ℕ → Popped
  warm : ℕ → Popped

unfoldable pub popped : ℕ → Option (List IdleConn × IdleConn) → Pool → Popped × Pool
popped now none p = (nothing_idle, p)
popped now (some (front, ic)) p =
    (if is_stale now ic then stale ic.client else warm ic.client, record p { idle = front })

-- A round of the loop in `Get`: the connection that was put back last, which is closed if it is stale.
unfoldable pub pop_idle : ℕ → Pool → Popped × Pool
unfolding split_last popped
pop_idle now p = popped now (split_last p.idle) p

-- `MarkBroken`
unfoldable pub mark_broken : Conn → Conn
mark_broken c = record c { broken = true }

-- `Release` before its receive from `sem`: a sound connection becomes idle, a broken one is closed,
-- and a connection that was released before is left alone, with its slot.
unfoldable pub put_back : ℕ → Conn → Pool → Pool
put_back now c p =
    if not c.leased
    then p
    else if c.broken
    then p
    else record p { idle = p.idle ++ record { client = c.client; put_at = now } ∷ [] }

-- `Release`, when nobody else runs.
unfoldable pub release : ℕ → Conn → Pool → Conn × Pool
unfolding put_back free_slot
release now c p =
    if c.leased then (record c { leased = false }, free_slot (put_back now c p)) else (c, p)

-- `Reap`: the connections that it closes, and the pool.
unfoldable pub reap : ℕ → Pool → List IdleConn × Pool
reap now p =
    (keep (is_stale now) p.idle, record p { idle = keep (λ ic. not (is_stale now ic)) p.idle })

-- `Close`
unfoldable pub close_idle : Pool → List IdleConn × Pool
close_idle p = (p.idle, record p { idle = [] })
