-- ===== src/Api/Login.antt =====
-- internal/api/router.go: who may sign in, and whom the guards of the routes let pass.
pub mod Guarded
use spottr.Base.{
  ℕ, Bool, true, false, not, ◌&&◌, ◌||◌, Option, none, some, List, [], ◌∷◌, if◌then◌else◌,
}
use spottr.Text.{Bytes, codes, is_empty, eqb, trim_space}
use spottr.Auth.{Store, create, valid, delete_session, locked, record_failure, record_success}

-- The values of `AuthMode`
pub data AuthMode : Type 0 where
  by_password by_proxy open_to_all : AuthMode

-- The settings and the key that the handlers read.
pub record Access : Type 0 where
  pub auth_mode : AuthMode
  pub app_password : Bytes
  pub proxy_auth_header : Bytes
  pub api_key : Bytes

-- `AuthEnforced`
abbrev pub auth_enforced : Access → Bool
auth_enforced a = elim a.auth_mode [ by_password ↦ true | by_proxy ↦ false | open_to_all ↦ false ]

-- `CheckPassword`, less the time it takes.
abbrev pub check_password : Bytes → Bytes → Bool
check_password provided expected = eqb provided expected

-- A call of `authLogin`: the client's address, the password if the body could be decoded, and the
-- token that the random source would give.
pub record Attempted : Type 0 where
  pub ip : Bytes
  pub body : Option Bytes
  pub token : Bytes

pub data Reply : Type 0 where
  authenticated too_many_requests bad_request unauthorized : Reply

unfoldable pub decide_login : Access → ℕ → Attempted → Store → Reply × Store
decide_login a now q s = elim q.body [
  | none ↦ (bad_request, s)
  | some password ↦
      if not (check_password password a.app_password)
      then (unauthorized, record_failure q.ip now s)
      else (authenticated, create q.token now (record_success q.ip s))
]

-- `authLogin`
unfoldable pub auth_login : Access → ℕ → Attempted → Store → Reply × Store
unfolding decide_login
auth_login a now q s =
    if not (auth_enforced a)
    then (authenticated, s)
    else if locked q.ip now s
    then (too_many_requests, s)
    else decide_login a now q s

-- `authLogout`
abbrev pub auth_logout : Bytes → Store → Store
auth_logout token s = delete_session token s

-- What the guards read of a request.
pub record Call : Type 0 where
  pub query_key : Bytes
  pub cookie : Bytes
  pub header : Bytes → Bytes
  pub from_trusted_proxy : Bool

-- `requireAuth`: whether the handler behind it runs.
unfoldable pub require_auth : Access → ℕ → Store → Call → Bool
require_auth a now s r = if not (auth_enforced a) then true else valid r.cookie now s

-- `validAPIKey`
unfoldable pub valid_api_key : Access → Call → Bool
valid_api_key a r =
    let provided = if is_empty r.query_key then r.header (codes "X-Api-Key") else r.query_key in
    not (is_empty a.api_key) && check_password provided a.api_key

-- `signedIn`
unfoldable pub signed_in : Access → ℕ → Store → Call → Bool
signed_in a now s r = elim a.auth_mode [
  | open_to_all ↦ true
  | by_proxy ↦
      not (is_empty a.proxy_auth_header)
      && (r.from_trusted_proxy && not (is_empty (trim_space (r.header a.proxy_auth_header))))
  | by_password ↦ valid r.cookie now s
]

-- `nzbAccess`: whether the handler behind it runs.
unfoldable pub nzb_access : Access → ℕ → Store → Call → Bool
unfolding valid_api_key signed_in
nzb_access a now s r = valid_api_key a r || signed_in a now s r

-- Logins and logouts in a row, each at its time.
pub data Turn : Type 0 where
  login : ℕ → Attempted → Turn
  logout : Bytes → Turn

unfoldable pub after_turns : Access → List Turn → Store → Store
unfolding auth_login
after_turns a [] s = s
after_turns a (login now q ∷ vs) s = after_turns a vs (auth_login a now q s).1
after_turns a (logout token ∷ vs) s = after_turns a vs (auth_logout token s)
