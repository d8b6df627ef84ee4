-- ===== src/Tests/Auth.antt =====
-- internal/auth at concrete inputs.
use spottr.Auth.Observed.{
  Event, created, cleaned, asked_valid, asked_locked, failed, answers, specified_answers,
}
use spottr.Auth.Observed.Refined.{empty_store, empty_view, answers_refine}
use spottr.Api.Login.{
  Access, by_password, Turn, login, Call, valid_api_key, nzb_access, after_turns,
}
use spottr.Api.Login.Guarded.{AdmittedIn, nzb_access-AdmittedIn}
use spottr.Base.{List, ℕ, arith, ◌⊎◌, true, some}
use spottr.Base.{false, [], ◌∷◌, refl, ◌≡◌, arith}
use spottr.Text.{codes, eqb}
use spottr.Auth.{Store, create, valid, locked, record_success}

-- A session until 50, and an address with two failures.
abbrev sessions : Store
sessions = record {
  sessions = (codes "t", 50) ∷ [];
  ttl = 100;
  attempts = (codes "1.2.3.4", record { failures = 2; lock_until = 0 }) ∷ [];
}

abbrev events : List (ℕ × Event)
events =
    (1, created (codes "t"))
    ∷ (2, cleaned)
    ∷ (3, asked_valid (codes "t"))
    ∷ (4, failed (codes "ip"))
    ∷ (5, asked_locked (codes "ip"))
    ∷ []

answers_refine_example : answers events (empty_store 9) ≡ specified_answers events (empty_view 9)
answers_refine_example =
    answers_refine 9 0 events
      (omega arith, (omega arith, (omega arith, (omega arith, (omega arith, tt)))))

abbrev access : Access
access = record {
  auth_mode = by_password;
  app_password = codes "secret";
  proxy_auth_header = [];
  api_key = [];
}

abbrev turns : List Turn
turns = login 1 (record { ip = codes "ip"; body = some (codes "secret"); token = codes "t" }) ∷ []

abbrev request : Call
request = record {
  query_key = [];
  cookie = codes "t";
  header = λ key. [];
  from_trusted_proxy = false;
}

nzb_access-AdmittedIn_example :
    (valid_api_key access request ≡ true) ⊎ AdmittedIn access (codes "t") turns (empty_store 9)
unfolding eqb nzb_access valid after_turns locked create record_success
nzb_access-AdmittedIn_example = nzb_access-AdmittedIn access 9 2 turns request refl refl
