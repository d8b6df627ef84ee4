-- ===== src/Auth/Observed/Refined.antt =====
-- session.go: the store answers as its abstract view does.
use spottr.Base.{
  ℕ, ◌+◌, ◌≤◌, ◌≡◌, refl, sym, ap, ◌∙◌, List, [], ◌∷◌, ltb, arith, Bool-cases, inl, inr,
}
use spottr.Text.{Bytes, eqb}
use spottr.Text.Laws.{eqb_iff}
use spottr.Auth.{
  Attempt, Store, create, valid, delete_session, locked, attempt_of, fail, record_failure,
  record_success, cleanup,
}
use spottr.Auth.Lockout.{
  IsMap, find-remove, find-remove_other, find-set_key_other, locked-attempt_of, cleanup_unobserved,
}
use spottr.Auth.Maps.{remove-IsMap, set_key-IsMap, keep-IsMap}
use spottr.Auth.Observed.{
  View, at, no_attempts, Event, created, deleted, asked_valid, failed, succeeded, asked_locked,
  cleaned, specified, done, is_valid, is_locked, answers, specified_answers, IsOrdered,
}

-- The store answers from `now` on as the view does.
record Simulates (now : ℕ) (s : Store) (v : View) : Type 0 where
  sessions : IsMap s.sessions
  attempts : IsMap s.attempts
  ttl : s.ttl ≡ v.ttl
  live : (token : Bytes) (later : ℕ) → now ≤ later → valid token later s ≡ is_valid token later v
  locks : (ip : Bytes) (later : ℕ) → now ≤ later → locked ip later s ≡ is_locked ip later v
  failures : (ip : Bytes) → (attempt_of ip s).failures ≡ (v.attempts ip).failures

create-Simulates :
    (now : ℕ) (token : Bytes) (s : Store) (v : View)
    → Simulates now s v
    → Simulates now (done now (created token) s) (specified now (created token) v)
unfolding done specified create valid locked
create-Simulates now token s v h = record {
  sessions = set_key-IsMap token (now + s.ttl) s.sessions h.sessions;
  attempts = h.attempts;
  ttl = h.ttl;
  live = λ other later b. elim (Bool-cases (eqb token other)) [
    | inl e ↦ ground (arith, e, h.ttl, eqb_iff token other)
    | inr e ↦
        ground (
          arith,
          e,
          find-set_key_other token other (now + s.ttl) s.sessions e,
          h.live other later b,
        )
  ];
  locks = h.locks;
  failures = h.failures;
}

delete-Simulates :
    (now : ℕ) (token : Bytes) (s : Store) (v : View)
    → Simulates now s v
    → Simulates now (done now (deleted token) s) (specified now (deleted token) v)
unfolding done specified delete_session valid locked
delete-Simulates now token s v h = record {
  sessions = remove-IsMap token s.sessions h.sessions;
  attempts = h.attempts;
  ttl = h.ttl;
  live = λ other later b. elim (Bool-cases (eqb token other)) [
    | inl e ↦ ground (arith, e, eqb_iff token other, find-remove token s.sessions)
    | inr e ↦ ground (arith, e, find-remove_other token other s.sessions e, h.live other later b)
  ];
  locks = h.locks;
  failures = h.failures;
}

-- Attempts that are told apart by no question are told apart by none after a failure.
fail_alike :
    (now later : ℕ) (a b : Attempt)
    → a.failures ≡ b.failures
    → ltb later a.lock_until ≡ ltb later b.lock_until
    → (ltb later (fail now a).lock_until ≡ ltb later (fail now b).lock_until)
      × ((fail now a).failures ≡ (fail now b).failures)
unfolding fail
fail_alike now later a b f l = (ground (arith, f, l), ground (arith, f))

attempt_of-failure :
    (now : ℕ) (ip other : Bytes) (s : Store)
    → attempt_of other (record_failure ip now s)
      ≡ at ip (fail now (attempt_of ip s)) (λ x. attempt_of x s) other
unfolding record_failure
attempt_of-failure now ip other s = elim (Bool-cases (eqb ip other)) [
  | inl e ↦ ground (arith, e)
  | inr e ↦ ground (arith, e, find-remove_other ip other s.attempts e)
]

failure-Simulates :
    (now : ℕ) (ip : Bytes) (s : Store) (v : View)
    → Simulates now s v
    → Simulates now (done now (failed ip) s) (specified now (failed ip) v)
unfolding done specified valid record_failure
failure-Simulates now ip s v h = record {
  sessions = h.sessions;
  attempts = set_key-IsMap ip (fail now (attempt_of ip s)) s.attempts h.attempts;
  ttl = h.ttl;
  live = h.live;
  locks = λ other later b.
      locked-attempt_of other later (record_failure ip now s)
      ∙ ap (λ (a : Attempt). ltb later a.lock_until) (attempt_of-failure now ip other s)
      ∙ (alike other later b).0;
  failures = λ other.
      ap (λ (a : Attempt). a.failures) (attempt_of-failure now ip other s)
      ∙ (alike other now (omega arith)).1;
}
  where
    old :
        (other : Bytes) (later : ℕ)
        → now ≤ later
        → ltb later (attempt_of other s).lock_until ≡ ltb later (v.attempts other).lock_until
    old other later b = sym (locked-attempt_of other later s) ∙ h.locks other later b

    alike :
        (other : Bytes) (later : ℕ)
        → now ≤ later
        → (ltb later (at ip (fail now (attempt_of ip s)) (λ x. attempt_of x s) other).lock_until
            ≡ ltb later (at ip (fail now (v.attempts ip)) v.attempts other).lock_until)
          × ((at ip (fail now (attempt_of ip s)) (λ x. attempt_of x s) other).failures
              ≡ (at ip (fail now (v.attempts ip)) v.attempts other).failures)
    alike other later b = elim (Bool-cases (eqb ip other)) [
      | inl e ↦
          rw e (
            fail_alike now later (attempt_of ip s) (v.attempts ip) (h.failures ip) (old ip later b))
      | inr e ↦ rw e (old other later b, h.failures other)
    ]

success-Simulates :
    (now : ℕ) (ip : Bytes) (s : Store) (v : View)
    → Simulates now s v
    → Simulates now (done now (succeeded ip) s) (specified now (succeeded ip) v)
unfolding done specified record_success valid locked
success-Simulates now ip s v h = record {
  sessions = h.sessions;
  attempts = remove-IsMap ip s.attempts h.attempts;
  ttl = h.ttl;
  live = h.live;
  locks = λ other later b. elim (Bool-cases (eqb ip other)) [
    | inl e ↦ ground (arith, e, eqb_iff ip other, find-remove ip s.attempts)
    | inr e ↦ ground (arith, e, find-remove_other ip other s.attempts e, h.locks other later b)
  ];
  failures = λ other. elim (Bool-cases (eqb ip other)) [
    | inl e ↦ ground (arith, e, eqb_iff ip other, find-remove ip s.attempts)
    | inr e ↦ ground (arith, e, find-remove_other ip other s.attempts e, h.failures other)
  ];
}

cleanup-Simulates :
    (now : ℕ) (s : Store) (v : View)
    → Simulates now s v
    → Simulates now (done now cleaned s) (specified now cleaned v)
unfolding done specified cleanup
cleanup-Simulates now s v h =
    let same = λ (key : Bytes) (later : ℕ) (b : now ≤ later).
      cleanup_unobserved key now later s h.sessions h.attempts b in
    record {
      sessions = keep-IsMap _ s.sessions h.sessions;
      attempts = keep-IsMap _ s.attempts h.attempts;
      ttl = h.ttl;
      live = λ token later b. (same token later b).0 ∙ h.live token later b;
      locks = λ ip later b. (same ip later b).1 ∙ h.locks ip later b;
      failures = λ ip. (same ip now (omega arith)).2 ∙ h.failures ip;
    }

later-Simulates :
    (now later : ℕ) (s : Store) (v : View) → now ≤ later → Simulates now s v → Simulates later s v
later-Simulates now later s v b h = record {
  sessions = h.sessions;
  attempts = h.attempts;
  ttl = h.ttl;
  live = λ token t b'. h.live token t (omega (arith, b, b'));
  locks = λ ip t b'. h.locks ip t (omega (arith, b, b'));
  failures = h.failures;
}

answers-Simulates :
    (now : ℕ) (es : List (ℕ × Event)) (s : Store) (v : View)
    → IsOrdered now es
    → Simulates now s v
    → answers es s ≡ specified_answers es v
unfolding answers specified_answers
answers-Simulates now [] s v o h = refl
answers-Simulates now ((t, asked_valid token) ∷ es) s v (b, o) h =
    let h' = later-Simulates now t s v b h in
    rw (h'.live token t (omega arith), answers-Simulates t es s v o h') refl
answers-Simulates now ((t, asked_locked ip) ∷ es) s v (b, o) h =
    let h' = later-Simulates now t s v b h in
    rw (h'.locks ip t (omega arith), answers-Simulates t es s v o h') refl
answers-Simulates now ((t, created token) ∷ es) s v (b, o) h =
    answers-Simulates t es _ _ o (create-Simulates t token s v (later-Simulates now t s v b h))
answers-Simulates now ((t, deleted token) ∷ es) s v (b, o) h =
    answers-Simulates t es _ _ o (delete-Simulates t token s v (later-Simulates now t s v b h))
answers-Simulates now ((t, failed ip) ∷ es) s v (b, o) h =
    answers-Simulates t es _ _ o (failure-Simulates t ip s v (later-Simulates now t s v b h))
answers-Simulates now ((t, succeeded ip) ∷ es) s v (b, o) h =
    answers-Simulates t es _ _ o (success-Simulates t ip s v (later-Simulates now t s v b h))
answers-Simulates now ((t, cleaned) ∷ es) s v (b, o) h =
    answers-Simulates t es _ _ o (cleanup-Simulates t s v (later-Simulates now t s v b h))

abbrev pub empty_store : ℕ → Store
empty_store ttl = record { sessions = []; ttl = ttl; attempts = [] }

abbrev pub empty_view : ℕ → View
empty_view ttl = record { ends = λ token. 0; attempts = λ ip. no_attempts; ttl = ttl }

-- Whatever is done with a new store, in any order while time does not run backwards, clean-ups
-- included: each question whether a token is valid or an address is locked gets the answer of the
-- abstract view, in which a token has one end and an address one record of attempts, and in which
-- nothing is ever cleaned up.
pub answers_refine :
    (ttl now : ℕ) (es : List (ℕ × Event))
    → IsOrdered now es
    → answers es (empty_store ttl) ≡ specified_answers es (empty_view ttl)
unfolding valid locked
answers_refine ttl now es o =
    answers-Simulates now es (empty_store ttl) (empty_view ttl) o (record {
      sessions = tt;
      attempts = tt;
      ttl = refl;
      live = λ token later b. ground arith;
      locks = λ ip later b. ground arith;
      failures = λ ip. refl;
    })
