-- ===== src/Auth/Observed.antt =====
-- session.go: what a client can observe of the store, as functions of the token and of the address
-- that nothing cleans up.
pub mod Refined
use spottr.Base.{
  ℕ, ◌+◌, ◌*◌, ◌≤◌, ◌<◌, ◌≡◌, refl, sym, ap, subst, ◌∙◌, Bool, true, false, not, ◌&&◌, Option, none,
  some, List, [], ◌∷◌, ltb, ◌==◌, if◌then◌else◌, keep, arith, Bool-cases, Option-cases, inl, inr,
  is_some,
}
use spottr.Text.{Bytes, eqb, is_empty}
use spottr.Text.Laws.{eqb_refl, eqb_iff}
use spottr.Auth.{
  Entries, find, remove, set_key, Attempt, Store, create, valid, delete_session, locked, attempt_of,
  fail, record_failure, record_success, cleanup,
}
use spottr.Auth.Lockout.{
  IsMap, find-remove, find-remove_other, find-set_key, find-set_key_other, find-keep,
  attempt_of-record_failure, locked-attempt_of, cleanup_unobserved,
}

-- The abstract store: when each token ends, 0 for none, and the attempts of each address.
pub record View : Type 0 where
  pub ends : Bytes → ℕ
  pub attempts : Bytes → Attempt
  pub ttl : ℕ

abbrev pub at {ℓ} : {A : Type ℓ} → Bytes → A → (Bytes → A) → Bytes → A
at k a f k' = if eqb k k' then a else f k'

abbrev pub no_attempts : Attempt
no_attempts = record { failures = 0; lock_until = 0 }

-- What is done with the store, or asked of it.
pub data Event : Type 0 where
  created deleted asked_valid : Bytes → Event
  failed succeeded asked_locked : Bytes → Event
  cleaned : Event

unfoldable pub specified : ℕ → Event → View → View
specified now (created token) v = record v { ends = at token (now + v.ttl) v.ends }
specified now (deleted token) v = record v { ends = at token 0 v.ends }
specified now (failed ip) v = record v { attempts = at ip (fail now (v.attempts ip)) v.attempts }
specified now (succeeded ip) v = record v { attempts = at ip no_attempts v.attempts }
specified now event v = v

unfoldable pub done : ℕ → Event → Store → Store
done now (created token) s = create token now s
done now (deleted token) s = delete_session token s
done now (failed ip) s = record_failure ip now s
done now (succeeded ip) s = record_success ip s
done now cleaned s = cleanup now s
done now event s = s

abbrev pub is_valid : Bytes → ℕ → View → Bool
is_valid token now v = if is_empty token then false else ltb now (v.ends token)

abbrev pub is_locked : Bytes → ℕ → View → Bool
is_locked ip now v = ltb now (v.attempts ip).lock_until

-- The answers that are given, to the questions among the events.
unfoldable pub answers : List (ℕ × Event) → Store → List Bool
unfolding done
answers [] s = []
answers ((now, asked_valid token) ∷ es) s = valid token now s ∷ answers es s
answers ((now, asked_locked ip) ∷ es) s = locked ip now s ∷ answers es s
answers ((now, event) ∷ es) s = answers es (done now event s)

unfoldable pub specified_answers : List (ℕ × Event) → View → List Bool
unfolding specified
specified_answers [] v = []
specified_answers ((now, asked_valid token) ∷ es) v = is_valid token now v ∷ specified_answers es v
specified_answers ((now, asked_locked ip) ∷ es) v = is_locked ip now v ∷ specified_answers es v
specified_answers ((now, event) ∷ es) v = specified_answers es (specified now event v)

-- Time does not run backwards.
abbrev pub IsOrdered : ℕ → List (ℕ × Event) → Type 0
IsOrdered now [] = Unit
IsOrdered now ((t, event) ∷ es) = (now ≤ t) × IsOrdered t es
