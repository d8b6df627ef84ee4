-- ===== src/Auth/Lockout.antt =====
-- session.go: what the lockout promises, and what the clean-up may remove.
use spottr.Base.{
  ℕ, ◌+◌, ◌*◌, ◌≤◌, ◌<◌, ◌≡◌, refl, sym, ap, subst, ◌∙◌, Bool, false, not, ◌&&◌, none, some, List,
  [], ◌∷◌, ltb, ◌==◌, if◌then◌else◌, keep, arith, Bool-cases, Option-cases, inl, inr, is_some,
  length,
}
use spottr.Text.{Bytes, eqb, is_empty}
use spottr.Text.Laws.{eqb_refl, eqb_iff}
use spottr.Auth.{
  Entries, find, remove, set_key, Attempt, Store, minute, create, valid, delete_session, locked,
  attempt_of, fail, record_failure, record_success, cleanup,
}

module _ {ℓ} {A : Type ℓ} where
  pub find-remove : (k : Bytes) (m : Entries A) → find k (remove k m) ≡ none
  find-remove k [] = refl
  find-remove k ((k', a) ∷ m) = ground (arith, find-remove k m)

  pub find-remove_other :
      (k k' : Bytes) (m : Entries A) → eqb k k' ≡ false → find k' (remove k m) ≡ find k' m
  find-remove_other k k' [] h = refl
  find-remove_other k k' ((x, a) ∷ m) h =
      ground (arith, find-remove_other k k' m, eqb_iff x k, eqb_iff x k', eqb_iff k k')

  pub find-set_key : (k : Bytes) (a : A) (m : Entries A) → find k (set_key k a m) ≡ some a
  find-set_key k a m = rw (eqb_refl k)

  pub find-set_key_other :
      (k k' : Bytes) (a : A) (m : Entries A)
      → eqb k k' ≡ false
      → find k' (set_key k a m) ≡ find k' m
  find-set_key_other k k' a m h = rw h (find-remove_other k k' m h)

  -- In a map each key has one entry.
  abbrev pub IsMap : Entries A → Type 0
  IsMap [] = Unit
  IsMap ((k, a) ∷ m) = (is_some (find k m) ≡ false) × IsMap m

  pub find-keep :
      (p : Bytes × A → Bool) (k : Bytes) (m : Entries A)
      → IsMap m
      → find k (keep p m)
        ≡ elim (find k m) [ none ↦ none | some a ↦ if p (k, a) then some a else none ]
  find-keep p k [] h = refl
  find-keep p k ((k', a) ∷ m) h = elim (Bool-cases (eqb k' k)) [
    | inl e ↦
        let same : k' ≡ k = (eqb_iff k' k).0 e in
        let absent : is_some (find k m) ≡ false =
          subst (λ x. is_some (find x m) ≡ false) same h.0 in
        let test : p (k', a) ≡ p (k, a) = ap (λ x. p (x, a)) same in
        ground (arith, find-keep p k m h.1, absent, test, e, Option-cases (find k m))
    | inr e ↦ ground (arith, find-keep p k m h.1, e)
  ]

-- A session is good from its creation to the end of its time to live, measured from then, and not
-- behind its deletion; both leave every other token as it was.
pub session_lifetime :
    (token other : Bytes) (now later : ℕ) (s : Store)
    → is_empty token ≡ false
    → eqb token other ≡ false
    → (valid token later (create token now s) ≡ ltb later (now + s.ttl))
      × (valid token later (delete_session token (create token now s)) ≡ false)
      × (valid other later (create token now s) ≡ valid other later s)
      × (valid other later (delete_session token s) ≡ valid other later s)
unfolding valid create delete_session
session_lifetime token other now later s t o = (
  ground (arith, find-set_key token (now + s.ttl) s.sessions),
  ground (arith, find-remove token (set_key token (now + s.ttl) s.sessions)),
  ground (arith, find-set_key_other token other (now + s.ttl) s.sessions o),
  ground (arith, find-remove_other token other s.sessions o),
)

-- The failed logins of one address at successive times.
abbrev pub failures_at : Bytes → List ℕ → Store → Store
failures_at ip [] s = s
failures_at ip (t ∷ ts) s = failures_at ip ts (record_failure ip t s)

pub attempt_of-record_failure :
    (ip : Bytes) (t : ℕ) (s : Store)
    → attempt_of ip (record_failure ip t s) ≡ fail t (attempt_of ip s)
unfolding record_failure
attempt_of-record_failure ip t s =
    ground (arith, find-set_key ip (fail t (attempt_of ip s)) s.attempts)

pub locked-attempt_of :
    (ip : Bytes) (now : ℕ) (s : Store) → locked ip now s ≡ ltb now (attempt_of ip s).lock_until
unfolding locked
locked-attempt_of ip now s = ground arith

fail_counts :
    (t : ℕ) (a : Attempt)
    → a.failures < 4
    → ((fail t a).failures ≡ a.failures + 1) × ((fail t a).lock_until ≡ a.lock_until)
unfolding fail
fail_counts t a h = (ground arith, ground arith)

-- Fewer than five failures are counted and lock nothing.
failures_at_count :
    (ip : Bytes) (ts : List ℕ) (s : Store)
    → (attempt_of ip s).failures + length ts ≤ 4
    → ((attempt_of ip (failures_at ip ts s)).failures ≡ (attempt_of ip s).failures + length ts)
      × ((attempt_of ip (failures_at ip ts s)).lock_until ≡ (attempt_of ip s).lock_until)
failures_at_count ip [] s h = (omega arith, refl)
failures_at_count ip (t ∷ ts) s h =
    let a = attempt_of ip s in
    let one = attempt_of-record_failure ip t s in
    let (up, same) = fail_counts t a (omega arith) in
    let f : (attempt_of ip (record_failure ip t s)).failures ≡ a.failures + 1 =
      ap (λ (x : Attempt). x.failures) one ∙ up in
    let l : (attempt_of ip (record_failure ip t s)).lock_until ≡ a.lock_until =
      ap (λ (x : Attempt). x.lock_until) one ∙ same in
    let (r, q) = failures_at_count ip ts (record_failure ip t s) (omega arith) in
    (omega arith, q ∙ l)

fail_locks : (t : ℕ) (a : Attempt) → a.failures ≡ 4 → (fail t a).lock_until ≡ t + 15 * minute
unfolding fail
fail_locks t a h = ground arith

-- An address without a record is not locked by four failed logins. After those, another one locks
-- it for a quarter of an hour from that login, however long ago the four were; a successful
-- login lifts that, and a failure of one address leaves every other address as it was.
pub fifth_failure_locks :
    (ip other : Bytes) (early : List ℕ) (t now : ℕ) (s : Store)
    → find ip s.attempts ≡ none
    → length early ≡ 4
    → eqb ip other ≡ false
    → (locked ip now (failures_at ip early s) ≡ false)
      × (locked ip now (record_failure ip t (failures_at ip early s)) ≡ ltb now (t + 15 * minute))
      × (locked ip now (record_success ip (record_failure ip t (failures_at ip early s))) ≡ false)
      × (locked other now (record_failure ip t s) ≡ locked other now s)
unfolding record_success record_failure locked
fifth_failure_locks ip other early t now s z b o =
    let s' = failures_at ip early s in
    let new : attempt_of ip s ≡ record { failures = 0; lock_until = 0 } = rw (attempt_of, z) in
    let zero_f : (attempt_of ip s).failures ≡ 0 = ap (λ (x : Attempt). x.failures) new in
    let zero_l : (attempt_of ip s).lock_until ≡ 0 = ap (λ (x : Attempt). x.lock_until) new in
    let (f, l) = failures_at_count ip early s (omega arith) in
    let until = ap (λ (x : Attempt). x.lock_until) (attempt_of-record_failure ip t s') in
    (
      locked-attempt_of ip now s' ∙ ground arith,
      locked-attempt_of ip now (record_failure ip t s')
          ∙ ap (ltb now) (until ∙ fail_locks t (attempt_of ip s') (omega arith)),
      rw (locked, find-remove ip (record_failure ip t s').attempts),
      rw (locked, find-set_key_other ip other (fail t (attempt_of ip s)) s.attempts o),
    )

module _ {ℓ} {A : Type ℓ} where
  -- A filter that drops only entries which read like no entry changes no reading.
  read-keep {κ} :
      {B : Type κ} (p : Bytes × A → Bool) (read : A → B) (absent : B) (k : Bytes) (m : Entries A)
      → IsMap m
      → ((a : A) → p (k, a) ≡ false → read a ≡ absent)
      → elim (find k (keep p m)) as (λ _. B) [ none ↦ absent | some a ↦ read a ]
        ≡ (elim (find k m) as (λ _. B) [ none ↦ absent | some a ↦ read a ])
  read-keep p read absent k m h gone = elim (Option-cases (find k m)) [
    | inl e ↦ rw (find-keep p k m h, e)
    | inr (a, e) ↦ elim (Bool-cases (p (k, a))) [
      | inl q ↦ rw (find-keep p k m h, e, q)
      | inr q ↦ rw (find-keep p k m h, e, q) (sym (gone a q))
    ]
  ]

-- A clean-up is not observed: in a store whose maps hold one entry for each key, it changes no
-- answer of `Valid` or `Locked` at its time or later, and forgets no failure that counts.
pub cleanup_unobserved :
    (key : Bytes) (now later : ℕ) (s : Store)
    → IsMap s.sessions
    → IsMap s.attempts
    → now ≤ later
    → (valid key later (cleanup now s) ≡ valid key later s)
      × (locked key later (cleanup now s) ≡ locked key later s)
      × ((attempt_of key (cleanup now s)).failures ≡ (attempt_of key s).failures)
unfolding cleanup valid locked
cleanup_unobserved key now later s ms ma b =
    let old : Bytes × Attempt → Bool =
      λ e. not (ltb (e.1).lock_until now && ((e.1).failures == 0)) in
    let live =
      read-keep (λ (e : Bytes × ℕ). not (ltb e.1 now)) (λ x. ltb later x) false key s.sessions ms
        (λ a q. ground arith) in
    let lock =
      read-keep old (λ a. ltb later a.lock_until) false key s.attempts ma (λ a q. ground arith) in
    let count = read-keep old (λ a. a.failures) 0 key s.attempts ma (λ a q. ground arith) in
    (ground (arith, live), lock, ground (arith, count))
