-- ===== src/Auth.antt =====
-- internal/auth/session.go: the store of sessions, and the lockout after failed logins. The store
-- is a pair of maps behind one lock, so an operation is a function of the store and the time; time
-- is in nanoseconds, and 0 is the zero time.
pub mod Lockout
pub mod Maps
pub mod Observed
use spottr.Base.{
  ℕ, ◌+◌, ◌*◌, ◌^◌, Bool, true, false, not, ◌&&◌, Option, none, some, List, [], ◌∷◌, ltb, leb, ◌==◌,
  if◌then◌else◌, keep,
}
use spottr.Text.{Bytes, eqb, is_empty}

-- A Go map with text keys, as its entries.
abbrev pub Entries {ℓ} : Type ℓ → Type ℓ
Entries A = List (Bytes × A)

abbrev pub find {ℓ} : {A : Type ℓ} → Bytes → Entries A → Option A
find k [] = none
find k ((k', a) ∷ m) = if eqb k' k then some a else find k m

abbrev pub remove {ℓ} : {A : Type ℓ} → Bytes → Entries A → Entries A
remove k [] = []
remove k ((k', a) ∷ m) = if eqb k' k then remove k m else (k', a) ∷ remove k m

abbrev pub set_key {ℓ} : {A : Type ℓ} → Bytes → A → Entries A → Entries A
set_key k a m = (k, a) ∷ remove k m

-- `attempt`
pub record Attempt : Type 0 where
  pub failures : ℕ
  pub lock_until : ℕ

-- `Store`
pub record Store : Type 0 where
  pub sessions : Entries ℕ
  pub ttl : ℕ
  pub attempts : Entries Attempt

abbrev pub minute : ℕ
minute = 60 * 10 ^ 9

-- `Create`, with the token that the random source gives.
unfoldable pub create : Bytes → ℕ → Store → Store
create token now s = record s { sessions = set_key token (now + s.ttl) s.sessions }

-- `Valid`
unfoldable pub valid : Bytes → ℕ → Store → Bool
valid token now s =
    if is_empty token
    then false
    else elim (find token s.sessions) [ none ↦ false | some expiry ↦ ltb now expiry ]

-- `Delete`
unfoldable pub delete_session : Bytes → Store → Store
delete_session token s = record s { sessions = remove token s.sessions }

-- `Locked`
unfoldable pub locked : Bytes → ℕ → Store → Bool
locked ip now s = elim (find ip s.attempts) [ none ↦ false | some a ↦ ltb now a.lock_until ]

abbrev pub attempt_of : Bytes → Store → Attempt
attempt_of ip s = elim (find ip s.attempts) [
  | none ↦ record { failures = 0; lock_until = 0 }
  | some a ↦ a
]

-- One more failure; the fifth one locks for a quarter of an hour and starts the count again.
unfoldable pub fail : ℕ → Attempt → Attempt
fail now a =
    if leb 5 (a.failures + 1)
    then record { failures = 0; lock_until = now + 15 * minute }
    else record a { failures = a.failures + 1 }

-- `RecordFailure`
unfoldable pub record_failure : Bytes → ℕ → Store → Store
unfolding fail
record_failure ip now s = record s { attempts = set_key ip (fail now (attempt_of ip s)) s.attempts }

-- `RecordSuccess`
unfoldable pub record_success : Bytes → Store → Store
record_success ip s = record s { attempts = remove ip s.attempts }

-- One round of `periodicCleanup`.
unfoldable pub cleanup : ℕ → Store → Store
cleanup now s = record s {
  sessions = keep (λ (e : Bytes × ℕ). not (ltb e.1 now)) s.sessions;
  attempts =
      keep (λ (e : Bytes × Attempt). not (ltb (e.1).lock_until now && ((e.1).failures == 0)))
        s.attempts;
}
