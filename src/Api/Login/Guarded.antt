-- ===== src/Api/Login/Guarded.antt =====
-- router.go: no session and no NZB without the password.
use spottr.Base.{
  ◌+◌, ℕ, ◌≡◌, refl, sym, ap, ◌∙◌, ◌⊎◌, inl, inr, true, false, some, List, [], ◌∷◌, arith,
  Bool-cases, Option-cases,
}
use spottr.Text.{Bytes, eqb}
use spottr.Text.Laws.{eqb_iff}
use spottr.Auth.{Store, create, valid, delete_session, locked, record_failure, record_success}
use spottr.Auth.Lockout.{find-set_key_other, find-remove, find-remove_other}
use spottr.Auth.Observed.Refined.{empty_store}
use spottr.Api.Login.{
  by_password, Access, auth_enforced, Attempted, decide_login, auth_login, auth_logout, Call,
  require_auth, valid_api_key, signed_in, nzb_access, Turn, login, logout, after_turns,
}

module _ (a : Access) where
  -- A login that may create a session with the token: the password is right, and the address was
  -- not locked at that time.
  pub record Admitted (token : Bytes) (now : ℕ) (q : Attempted) (s : Store) : Type 0 where
    pub own : q.token ≡ token
    pub password : q.body ≡ some a.app_password
    pub unlocked : locked q.ip now s ≡ false

  -- One of the visits is such a login.
  abbrev pub AdmittedIn : Bytes → List Turn → Store → Type 0
  AdmittedIn token [] s = ⊥
  AdmittedIn token (login now q ∷ vs) s =
      Admitted token now q s ⊎ AdmittedIn token vs (auth_login a now q s).1
  AdmittedIn token (logout t ∷ vs) s = AdmittedIn token vs (auth_logout t s)

  create_other :
      (token other : Bytes) (now later : ℕ) (s : Store)
      → eqb token other ≡ false
      → valid other later (create token now s) ≡ valid other later s
  unfolding valid create
  create_other token other now later s e =
      ground (arith, find-set_key_other token other (now + s.ttl) s.sessions e)

  delete_valid :
      (token other : Bytes) (later : ℕ) (s : Store)
      → valid other later (delete_session token s) ≡ true
      → valid other later s ≡ true
  unfolding valid delete_session
  delete_valid token other later s h = elim (Bool-cases (eqb token other)) [
    | inl e ↦ absurd (ground (arith, e, eqb_iff token other, find-remove token s.sessions, h))
    | inr e ↦ ground (arith, find-remove_other token other s.sessions e, h)
  ]

  success-valid :
      (ip token : Bytes) (later : ℕ) (s : Store)
      → valid token later (record_success ip s) ≡ valid token later s
  unfolding valid record_success
  success-valid ip token later s = refl

  failure-valid :
      (ip token : Bytes) (now later : ℕ) (s : Store)
      → valid token later (record_failure ip now s) ≡ valid token later s
  unfolding valid record_failure
  failure-valid ip token now later s = refl

  password_step :
      (token p : Bytes) (now later : ℕ) (q : Attempted) (s : Store)
      → locked q.ip now s ≡ false
      → q.body ≡ some p
      → valid token later (decide_login a now q s).1 ≡ true
      → Admitted token now q s ⊎ (valid token later s ≡ true)
  unfolding decide_login
  password_step token p now later q s l b h = elim (Bool-cases (eqb p a.app_password)) [
    | inr w ↦ inr (sym (failure-valid q.ip token now later s) ∙ ground (arith, b, w, h))
    | inl w ↦ elim (Bool-cases (eqb q.token token)) [
      | inl t ↦ inl (record {
        own = (eqb_iff q.token token).0 t;
        password = b ∙ ap some ((eqb_iff p a.app_password).0 w);
        unlocked = l;
      })
      | inr t ↦
          let s' = record_success q.ip s in
          inr (
            sym (success-valid q.ip token later s)
            ∙ (sym (create_other q.token token now later s' t) ∙ ground (arith, b, w, h)))
    ]
  ]

  login_step :
      (token : Bytes) (now later : ℕ) (q : Attempted) (s : Store)
      → valid token later (auth_login a now q s).1 ≡ true
      → Admitted token now q s ⊎ (valid token later s ≡ true)
  unfolding auth_login decide_login
  login_step token now later q s h = elim (Bool-cases (auth_enforced a)) [
    | inr e ↦ inr (ground (arith, e, h))
    | inl e ↦ elim (Bool-cases (locked q.ip now s)) [
      | inl l ↦ inr (ground (arith, e, l, h))
      | inr l ↦ elim (Option-cases q.body) [
        | inl b ↦ inr (ground (arith, e, l, b, h))
        | inr (p, b) ↦ password_step token p now later q s l b (ground (arith, e, l, h))
      ]
    ]
  ]

  turns-Admitted :
      (token : Bytes) (later : ℕ) (vs : List Turn) (s : Store)
      → valid token later (after_turns a vs s) ≡ true
      → AdmittedIn token vs s ⊎ (valid token later s ≡ true)
  unfolding after_turns
  turns-Admitted token later [] s h = inr h
  turns-Admitted token later (login now q ∷ vs) s h =
      elim (turns-Admitted token later vs (auth_login a now q s).1 h) [
        | inl x ↦ inl (inr x)
        | inr v ↦ elim (login_step token now later q s v) [ inl x ↦ inl (inl x) | inr v' ↦ inr v' ]
      ]
  turns-Admitted token later (logout t ∷ vs) s h =
      elim (turns-Admitted token later vs (auth_logout t s) h) [
        | inl x ↦ inl x
        | inr v ↦ inr (delete_valid t token later s v)
      ]

  empty-valid : (ttl later : ℕ) (token : Bytes) → valid token later (empty_store ttl) ≡ false
  unfolding valid
  empty-valid ttl later token = ground arith

  valid-AdmittedIn :
      (ttl later : ℕ) (vs : List Turn) (token : Bytes)
      → valid token later (after_turns a vs (empty_store ttl)) ≡ true
      → AdmittedIn token vs (empty_store ttl)
  valid-AdmittedIn ttl later vs token h = elim (turns-Admitted token later vs (empty_store ttl) h) [
    | inl x ↦ x
    | inr v ↦ absurd (ground (arith, v, empty-valid ttl later token))
  ]

  -- Where the application has its own password: when a request for an NZB passes the guard after
  -- any logins and logouts since the start, then it carries the API key, or one of those logins,
  -- which was given the token that the request shows as its cookie, had the right password and
  -- came from an address that was not locked.
  pub nzb_access-AdmittedIn :
      (ttl later : ℕ) (vs : List Turn) (r : Call)
      → a.auth_mode ≡ by_password
      → nzb_access a later (after_turns a vs (empty_store ttl)) r ≡ true
      → (valid_api_key a r ≡ true) ⊎ AdmittedIn r.cookie vs (empty_store ttl)
  unfolding nzb_access signed_in
  nzb_access-AdmittedIn ttl later vs r mode h = elim (Bool-cases (valid_api_key a r)) [
    | inl k ↦ inl k
    | inr k ↦ inr (valid-AdmittedIn ttl later vs r.cookie (ground (arith, mode, k, h)))
  ]

  -- Where the application has its own password: when a request passes the guard of the privileged
  -- routes after any logins and logouts since the start, then it shows the token of one of those
  -- logins, which had the right password and came from an address that was not locked; an API key
  -- is not enough.
  require_auth-AdmittedIn :
      (ttl later : ℕ) (vs : List Turn) (r : Call)
      → a.auth_mode ≡ by_password
      → require_auth a later (after_turns a vs (empty_store ttl)) r ≡ true
      → AdmittedIn r.cookie vs (empty_store ttl)
  unfolding require_auth
  require_auth-AdmittedIn ttl later vs r mode h =
      valid-AdmittedIn ttl later vs r.cookie (ground (arith, mode, h))
