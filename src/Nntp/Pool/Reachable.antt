-- ===== src/Nntp/Pool/Reachable.antt =====
-- pool.go: the bound of the pool is kept by every step, and so in every state that is reached.
use spottr.Base.{
  ℕ, suc, ◌+◌, ◌-◌, ◌≤◌, ◌<◌, ◌≡◌, refl, sym, ap, ◌∙◌, subst, Bool, true, false, not, some, List,
  [], ◌∷◌, ◌++◌, arith, ltb, ◌==◌, if◌then◌else◌, length, length-append, Bool-cases, inl, inr,
  length-keep-le,
}
use spottr.Nntp.Pool.{
  IdleConn, Pool, Conn, new_pool, acquire, free_slot, is_stale, Popped, nothing_idle, stale, warm,
  pop_idle, put_back, reap, close_idle,
}
use spottr.Nntp.Pool.Bounded.{
  World, Step, Reach, here, then_step, start, copies_idle, copies_leased, copies_idle-append,
  copies_leased-append, copies_idle-keep-le, pop_idle-some, IsBounded, start-IsBounded, enter,
  reuse, discard, miss, dialled, dial_failed, breaks, give_back, leave, reaps, closes,
}

acquire-some :
    (p p' : Pool)
    → acquire p ≡ some p'
    → (p.slots < p.cap) × (p' ≡ record p { slots = p.slots + 1 })
unfolding acquire
acquire-some p p' h = elim (Bool-cases (ltb p.slots p.cap)) [
  | inl e ↦ (ground arith, ground arith)
  | inr e ↦ absurd (ground arith)
]

enter-IsBounded :
    (w : World) (p : Pool)
    → IsBounded w
    → acquire w.pool ≡ some p
    → IsBounded (record w { pool = p; looking = w.looking + 1 })
enter-IsBounded w p b h =
    let (room, e) = acquire-some w.pool p h in
    subst (λ (q : Pool). IsBounded (record w { pool = q; looking = w.looking + 1 })) (sym e)
      (record {
        slots = omega (arith, b.slots);
        limit = omega (arith, room);
        open_bound = b.open_bound;
        single = b.single;
        below = b.below;
      })

reuse-IsBounded :
    (w : World) (now client : ℕ) (p : Pool)
    → IsBounded w
    → 0 < w.looking
    → pop_idle now w.pool ≡ (warm client, p)
    → IsBounded (record w {
      pool = p;
      looking = w.looking - 1;
      leases = record { client = client; leased = true; broken = false } ∷ w.leases;
    })
reuse-IsBounded w now client p b l h = elim (pop_idle-some now w.pool p (warm client) h) [
  | inl (e, _, _) ↦ absurd (ground arith)
  | inr (front, ic, e, out, same) ↦
      let n = ap length e ∙ length-append front (ic ∷ []) in
      let which : ic.client ≡ client = ground arith in
      let c : Conn = record { client = client; leased = true; broken = false } in
      let copies : (x : ℕ)
          → copies_idle x w.pool.idle ≡ copies_idle x front + (if x == client then 1 else 0) =
        λ x. ground (arith, ap (copies_idle x) e, copies_idle-append x front (ic ∷ []), which) in
      subst
        (λ (q : Pool).
          IsBounded (record w { pool = q; looking = w.looking - 1; leases = c ∷ w.leases }))
        (sym same)
        (record {
          slots = omega (arith, b.slots, l);
          limit = b.limit;
          open_bound = omega (arith, b.open_bound, n);
          single = λ x. omega (arith, b.single x, copies x);
          below = λ x q. omega (arith, b.below x q, copies x);
        })
]

discard-IsBounded :
    (w : World) (now client : ℕ) (p : Pool)
    → IsBounded w
    → pop_idle now w.pool ≡ (stale client, p)
    → IsBounded (record w { pool = p })
discard-IsBounded w now client p b h = elim (pop_idle-some now w.pool p (stale client) h) [
  | inl (e, _, _) ↦ absurd (ground arith)
  | inr (front, ic, e, out, same) ↦
      let n = ap length e ∙ length-append front (ic ∷ []) in
      let copies : (x : ℕ) → copies_idle x front ≤ copies_idle x w.pool.idle =
        λ x. omega (arith, ap (copies_idle x) e, copies_idle-append x front (ic ∷ [])) in
      subst (λ (q : Pool). IsBounded (record w { pool = q })) (sym same)
        (record {
          slots = b.slots;
          limit = b.limit;
          open_bound = omega (arith, b.open_bound, n);
          single = λ x. omega (arith, b.single x, copies x);
          below = λ x q. omega (arith, b.below x q, copies x);
        })
]

miss-IsBounded :
    (w : World) (now : ℕ) (p : Pool)
    → IsBounded w
    → 0 < w.looking
    → pop_idle now w.pool ≡ (nothing_idle, p)
    → IsBounded (record w { pool = p; looking = w.looking - 1; dialling = w.dialling + 1 })
miss-IsBounded w now p b l h = elim (pop_idle-some now w.pool p nothing_idle h) [
  | inr (front, ic, e, out, same) ↦ absurd (ground arith)
  | inl (_, e, same) ↦
      let n = ap length e in
      subst
        (λ (q : Pool).
          IsBounded (record w { pool = q; looking = w.looking - 1; dialling = w.dialling + 1 }))
        (sym same)
        (record {
          slots = omega (arith, b.slots, l);
          limit = b.limit;
          open_bound = omega (arith, b.slots, b.limit, n, l);
          single = b.single;
          below = b.below;
        })
]

dialled-IsBounded :
    (w : World)
    → IsBounded w
    → 0 < w.dialling
    → IsBounded (record w {
      dialling = w.dialling - 1;
      leases = record { client = w.fresh; leased = true; broken = false } ∷ w.leases;
      fresh = w.fresh + 1;
    })
dialled-IsBounded w b l = record {
  slots = omega (arith, b.slots, l);
  limit = b.limit;
  open_bound = omega (arith, b.open_bound, l);
  single = λ x. ground (arith, b.single x, b.below x);
  below = λ x q. ground (arith, b.below x);
}

-- A lease that ends, with the connection idle behind it or not.
module _ (w : World) (before after : List Conn) (c : Conn)
    (e : w.leases ≡ before ++ c ∷ after) where
  leases-length : length w.leases ≡ suc (length before + length after)
  leases-length = omega (arith, ap length e, length-append before (c ∷ after))

  leases-copies :
      (x : ℕ)
      → copies_leased x w.leases
        ≡ copies_leased x (before ++ after) + (if x == c.client then 1 else 0)
  leases-copies x = omega (
    arith,
    ap (copies_leased x) e,
    copies_leased-append x before (c ∷ after),
    copies_leased-append x before after,
  )

  breaks-IsBounded :
      IsBounded w → IsBounded (record w { leases = before ++ record c { broken = true } ∷ after })
  breaks-IsBounded b =
      let c' : Conn = record c { broken = true } in
      let n : length (before ++ c' ∷ after) ≡ length w.leases =
        omega (arith, leases-length, length-append before (c' ∷ after)) in
      let copies : (x : ℕ) → copies_leased x (before ++ c' ∷ after) ≡ copies_leased x w.leases =
        λ x. omega (
          arith,
          ap (copies_leased x) e,
          copies_leased-append x before (c ∷ after),
          copies_leased-append x before (c' ∷ after),
        ) in
      record {
        slots = omega (arith, b.slots, n);
        limit = b.limit;
        open_bound = omega (arith, b.open_bound, n);
        single = λ x. omega (arith, b.single x, copies x);
        below = λ x q. omega (arith, b.below x q, copies x);
      }

  give_back-IsBounded :
      (now : ℕ)
      → IsBounded w
      → IsBounded (record w {
        pool = put_back now c w.pool;
        leases = before ++ after;
        returning = w.returning + 1;
      })
  unfolding put_back
  give_back-IsBounded now b =
      let ic : IdleConn = record { client = c.client; put_at = now } in
      let n = leases-length in
      let m = length-append before after in
      let k = length-append w.pool.idle (ic ∷ []) in
      let put : (x : ℕ)
          → copies_idle x (w.pool.idle ++ ic ∷ [])
            ≡ copies_idle x w.pool.idle + (if x == c.client then 1 else 0) =
        λ x. omega (arith, copies_idle-append x w.pool.idle (ic ∷ [])) in
      record {
        slots = ground (arith, b.slots, n, m);
        limit = ground (arith, b.limit);
        open_bound = ground (arith, b.open_bound, n, m, k);
        single = λ x. ground (arith, b.single x, leases-copies x, put x);
        below = λ x q. ground (arith, b.below x q, leases-copies x, put x);
      }

free_slot-IsBounded :
    (w : World)
    → IsBounded w
    → 0 < w.returning
    → IsBounded (record w { returning = w.returning - 1; pool = free_slot w.pool })
unfolding free_slot
free_slot-IsBounded w b l = record {
  slots = omega (arith, b.slots, l);
  limit = omega (arith, b.limit);
  open_bound = b.open_bound;
  single = b.single;
  below = b.below;
}

dial_failed-IsBounded :
    (w : World)
    → IsBounded w
    → 0 < w.dialling
    → IsBounded (record w { dialling = w.dialling - 1; pool = free_slot w.pool })
unfolding free_slot
dial_failed-IsBounded w b l = record {
  slots = omega (arith, b.slots, l);
  limit = omega (arith, b.limit);
  open_bound = omega (arith, b.open_bound);
  single = b.single;
  below = b.below;
}

reaps-IsBounded :
    (w : World) (now : ℕ) → IsBounded w → IsBounded (record w { pool = (reap now w.pool).1 })
unfolding reap
reaps-IsBounded w now b =
    let live : IdleConn → Bool = λ ic. not (is_stale now ic) in
    record {
      slots = b.slots;
      limit = b.limit;
      open_bound = omega (arith, b.open_bound, length-keep-le live w.pool.idle);
      single = λ x. omega (arith, b.single x, copies_idle-keep-le x live w.pool.idle);
      below = λ x q. omega (arith, b.below x q, copies_idle-keep-le x live w.pool.idle);
    }

closes-IsBounded : (w : World) → IsBounded w → IsBounded (record w { pool = (close_idle w.pool).1 })
unfolding close_idle
closes-IsBounded w b = record {
  slots = b.slots;
  limit = b.limit;
  open_bound = omega (arith, b.open_bound);
  single = λ x. omega (arith, b.single x);
  below = λ x q. omega (arith, b.below x q);
}

Step-IsBounded : {w w' : World} → Step w w' → IsBounded w → IsBounded w'
Step-IsBounded {w = w} (enter p h e) b = subst IsBounded (sym e) (enter-IsBounded w p b h)
Step-IsBounded {w = w} (reuse now c p l h e) b =
    subst IsBounded (sym e) (reuse-IsBounded w now c p b l h)
Step-IsBounded {w = w} (discard now c p h e) b =
    subst IsBounded (sym e) (discard-IsBounded w now c p b h)
Step-IsBounded {w = w} (miss now p l h e) b = subst IsBounded (sym e) (miss-IsBounded w now p b l h)
Step-IsBounded {w = w} (dialled l e) b = subst IsBounded (sym e) (dialled-IsBounded w b l)
Step-IsBounded {w = w} (dial_failed l e) b = subst IsBounded (sym e) (dial_failed-IsBounded w b l)
Step-IsBounded {w = w} (breaks pre post c h e) b =
    subst IsBounded (sym e) (breaks-IsBounded w pre post c h b)
Step-IsBounded {w = w} (give_back now pre post c h e) b =
    subst IsBounded (sym e) (give_back-IsBounded w pre post c h now b)
Step-IsBounded {w = w} (leave l e) b = subst IsBounded (sym e) (free_slot-IsBounded w b l)
Step-IsBounded {w = w} (reaps now e) b = subst IsBounded (sym e) (reaps-IsBounded w now b)
Step-IsBounded {w = w} (closes e) b = subst IsBounded (sym e) (closes-IsBounded w b)

Reach-IsBounded : {w w' : World} → Reach w w' → IsBounded w → IsBounded w'
Reach-IsBounded here b = b
Reach-IsBounded (then_step r s) b = Step-IsBounded s (Reach-IsBounded r b)

pop_idle-cap : (now : ℕ) (p p' : Pool) (out : Popped) → pop_idle now p ≡ (out, p') → p'.cap ≡ p.cap
pop_idle-cap now p p' out h = elim (pop_idle-some now p p' out h) [
  | inl (_, _, same) ↦ ap (λ (q : Pool). q.cap) same
  | inr (front, ic, _, _, same) ↦ ap (λ (q : Pool). q.cap) same
]

Step-cap : {w w' : World} → Step w w' → w'.pool.cap ≡ w.pool.cap
unfolding free_slot put_back reap close_idle
Step-cap {w = w} (enter p h e) =
    ap (λ (v : World). v.pool.cap) e ∙ ap (λ (q : Pool). q.cap) (acquire-some w.pool p h).1
Step-cap {w = w} (reuse now c p l h e) =
    ap (λ (v : World). v.pool.cap) e ∙ pop_idle-cap now w.pool p (warm c) h
Step-cap {w = w} (discard now c p h e) =
    ap (λ (v : World). v.pool.cap) e ∙ pop_idle-cap now w.pool p (stale c) h
Step-cap {w = w} (miss now p l h e) =
    ap (λ (v : World). v.pool.cap) e ∙ pop_idle-cap now w.pool p nothing_idle h
Step-cap (dialled l e) = ap (λ (v : World). v.pool.cap) e
Step-cap (dial_failed l e) = ap (λ (v : World). v.pool.cap) e
Step-cap (breaks pre post c h e) = ap (λ (v : World). v.pool.cap) e
Step-cap (give_back now pre post c h e) = ap (λ (v : World). v.pool.cap) e ∙ ground arith
Step-cap (leave l e) = ap (λ (v : World). v.pool.cap) e
Step-cap (reaps now e) = ap (λ (v : World). v.pool.cap) e
Step-cap (closes e) = ap (λ (v : World). v.pool.cap) e

Reach-cap : {w w' : World} → Reach w w' → w'.pool.cap ≡ w.pool.cap
Reach-cap here = refl
Reach-cap (then_step r s) = Step-cap s ∙ Reach-cap r

-- However the callers of a new pool and its reaper interleave, and whichever dials fail, the
-- connections that are idle, leased or being dialled are together never more than the maximum that
-- the pool was made for, or one where that is 0; and no connection is leased twice, or both
-- leased and idle.
pub pool_bounded :
    (max_conns : ℕ) (w : World)
    → Reach (start max_conns) w
    → (length w.pool.idle + length w.leases + w.dialling
        ≤ (if ltb max_conns 1 then 1 else max_conns))
      × ((x : ℕ) → copies_idle x w.pool.idle + copies_leased x w.leases ≤ 1)
unfolding new_pool
pool_bounded max_conns w r =
    let b = Reach-IsBounded r (start-IsBounded max_conns) in
    (
      subst (λ n. length w.pool.idle + length w.leases + w.dialling ≤ n) (Reach-cap r) b.open_bound,
      b.single,
    )
