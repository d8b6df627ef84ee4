-- ===== src/Nntp/Pool/Bounded.antt =====
-- pool.go: what holds of the pool under every interleaving of its callers.
use spottr.Base.{
  ◌⊎◌, ℕ, ◌+◌, ◌-◌, ◌≤◌, ◌<◌, ◌≡◌, refl, Bool, true, false, none, some, List, [], ◌∷◌, ◌++◌, arith,
  ◌==◌, if◌then◌else◌, keep, length, Option-cases, inl, inr,
}
use spottr.Nntp.Pool.{
  IdleConn, Pool, Conn, new_pool, acquire, free_slot, is_stale, split_last, Popped, nothing_idle,
  stale, warm, pop_idle, put_back, reap, close_idle,
}

-- The pool and its callers: those with a slot that look for an idle connection, those that dial,
-- the leased connections, and those that gave a connection back and still hold its slot. `fresh` is
-- the number that the next dialled connection gets.
pub record World : Type 0 where
  pub pool : Pool
  pub looking : ℕ
  pub dialling : ℕ
  pub leases : List Conn
  pub returning : ℕ
  pub fresh : ℕ

-- A step of one caller, or of the reaper.
pub data Step (w w' : World) : Type 0 where
  -- `Get` takes a slot.
  enter :
      (p : Pool)
      → acquire w.pool ≡ some p
      → w' ≡ record w { pool = p; looking = w.looking + 1 }
      → Step w w'
  -- It finds an idle connection that it may use,
  reuse :
      (now client : ℕ) (p : Pool)
      → 0 < w.looking
      → pop_idle now w.pool ≡ (warm client, p)
      → w' ≡ record w {
        pool = p;
        looking = w.looking - 1;
        leases = record { client = client; leased = true; broken = false } ∷ w.leases;
      }
      → Step w w'
  -- or a stale one, which it closes, and looks again,
  discard :
      (now client : ℕ) (p : Pool)
      → pop_idle now w.pool ≡ (stale client, p)
      → w' ≡ record w { pool = p }
      → Step w w'
  -- or none, and dials.
  miss :
      (now : ℕ) (p : Pool)
      → 0 < w.looking
      → pop_idle now w.pool ≡ (nothing_idle, p)
      → w' ≡ record w { pool = p; looking = w.looking - 1; dialling = w.dialling + 1 }
      → Step w w'
  dialled :
      0 < w.dialling
      → w' ≡ record w {
        dialling = w.dialling - 1;
        leases = record { client = w.fresh; leased = true; broken = false } ∷ w.leases;
        fresh = w.fresh + 1;
      }
      → Step w w'
  dial_failed :
      0 < w.dialling
      → w' ≡ record w { dialling = w.dialling - 1; pool = free_slot w.pool }
      → Step w w'
  -- A caller marks its connection as broken.
  breaks :
      (before after : List Conn) (c : Conn)
      → w.leases ≡ before ++ c ∷ after
      → w' ≡ record w { leases = before ++ record c { broken = true } ∷ after }
      → Step w w'
  -- `Release` puts the connection back or closes it, and then gives up the slot.
  give_back :
      (now : ℕ) (before after : List Conn) (c : Conn)
      → w.leases ≡ before ++ c ∷ after
      → w' ≡ record w {
        pool = put_back now c w.pool;
        leases = before ++ after;
        returning = w.returning + 1;
      }
      → Step w w'
  leave :
      0 < w.returning
      → w' ≡ record w { returning = w.returning - 1; pool = free_slot w.pool }
      → Step w w'
  -- `Reap` and `Close`
  reaps : (now : ℕ) → w' ≡ record w { pool = (reap now w.pool).1 } → Step w w'
  closes : w' ≡ record w { pool = (close_idle w.pool).1 } → Step w w'

pub data Reach (w : World) : World → Type 0 where
  here : Reach w w
  then_step : {v u : World} → Reach w v → Step v u → Reach w u

abbrev pub start : ℕ → World
start max_conns = record {
  pool = new_pool max_conns;
  looking = 0;
  dialling = 0;
  leases = [];
  returning = 0;
  fresh = 0;
}

-- How often a connection is idle, and how often it is leased.
abbrev pub copies_idle : ℕ → List IdleConn → ℕ
copies_idle x [] = 0
copies_idle x (ic ∷ ics) = (if x == ic.client then 1 else 0) + copies_idle x ics

abbrev pub copies_leased : ℕ → List Conn → ℕ
copies_leased x [] = 0
copies_leased x (c ∷ cs) = (if x == c.client then 1 else 0) + copies_leased x cs

pub copies_idle-append :
    (x : ℕ) (xs ys : List IdleConn) → copies_idle x (xs ++ ys) ≡ copies_idle x xs + copies_idle x ys
copies_idle-append x [] ys = omega arith
copies_idle-append x (ic ∷ xs) ys = omega (arith, copies_idle-append x xs ys)

pub copies_leased-append :
    (x : ℕ) (xs ys : List Conn)
    → copies_leased x (xs ++ ys) ≡ copies_leased x xs + copies_leased x ys
copies_leased-append x [] ys = omega arith
copies_leased-append x (c ∷ xs) ys = omega (arith, copies_leased-append x xs ys)

pub copies_idle-keep-le :
    (x : ℕ) (p : IdleConn → Bool) (xs : List IdleConn)
    → copies_idle x (keep p xs) ≤ copies_idle x xs
copies_idle-keep-le x p [] = omega arith
copies_idle-keep-le x p (ic ∷ xs) = ground (arith, copies_idle-keep-le x p xs)

split_last-some :
    (xs front : List IdleConn) (y : IdleConn)
    → split_last xs ≡ some (front, y)
    → xs ≡ front ++ y ∷ []
unfolding split_last
split_last-some [] front y h = cc
split_last-some (x ∷ xs) front y h = elim (Option-cases (split_last xs)) [
  | inl e ↦ ground arith
  | inr ((f, z), e) ↦ ground (arith, split_last-some xs f z e)
]

split_last-none : (xs : List IdleConn) → split_last xs ≡ none → xs ≡ []
unfolding split_last
split_last-none [] h = refl
split_last-none (x ∷ xs) h = elim (Option-cases (split_last xs)) [
  | inl e ↦ absurd (ground arith)
  | inr ((f, z), e) ↦ absurd (ground arith)
]

-- What a look at the idle connections takes from them.
pub pop_idle-some :
    (now : ℕ) (p p' : Pool) (out : Popped)
    → pop_idle now p ≡ (out, p')
    → (out ≡ nothing_idle) × (p.idle ≡ []) × (p' ≡ p)
      ⊎ (front : List IdleConn) × (ic : IdleConn) × (p.idle ≡ front ++ ic ∷ [])
        × (out ≡ (if is_stale now ic then stale ic.client else warm ic.client))
        × (p' ≡ record p { idle = front })
unfolding pop_idle
pop_idle-some now p p' out h = elim (Option-cases (split_last p.idle)) [
  | inl e ↦ inl (ground arith, split_last-none p.idle e, ground arith)
  | inr ((front, ic), e) ↦
      inr (front, ic, split_last-some p.idle front ic e, ground arith, ground arith)
]

pub record IsBounded (w : World) : Type 0 where
  pub slots : w.looking + w.dialling + length w.leases + w.returning ≡ w.pool.slots
  pub limit : w.pool.slots ≤ w.pool.cap
  pub open_bound : length w.pool.idle + length w.leases + w.dialling ≤ w.pool.cap
  pub single : (x : ℕ) → copies_idle x w.pool.idle + copies_leased x w.leases ≤ 1
  pub below : (x : ℕ) → w.fresh ≤ x → copies_idle x w.pool.idle + copies_leased x w.leases ≡ 0

pub start-IsBounded : (max_conns : ℕ) → IsBounded (start max_conns)
unfolding new_pool
start-IsBounded max_conns = record {
  slots = refl;
  limit = ground arith;
  open_bound = ground arith;
  single = λ x. omega arith;
  below = λ x h. refl;
}
