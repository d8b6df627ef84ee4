-- ===== src/Sabnzbd.antt =====
-- internal/sabnzbd/client.go, and the handlers of internal/api/router.go that use it. Requests are
-- values: what SABnzbd answers to one is a parameter, and so is the reader of its JSON.
pub mod Same
use spottr.Base.{
  ℕ, Bool, true, false, not, Option, none, some, List, [], ◌∷◌, ◌++◌, if◌then◌else◌, Result, ok,
  err, Error, protocol_error,
}
use spottr.Text.{Bytes, codes, is_empty, eqb, trim_space}
use spottr.Text.Numbers.{ℤ, parse_int}
use spottr.Db.Tables.{Spot}
use spottr.Db.Caches.{Vault}
use spottr.Api.Serve.{News, Serving, Answer, refused, served, Media, resolve_nzb, sanitize_filename}

-- Parameters of a URL, each name once.
abbrev pub Params : Type 0
Params = List (Bytes × Bytes)

-- `url.Values.Set` of a name that is not there.
abbrev pub set : Bytes → Bytes → Params → Params
set key value params = params ++ (key, value) ∷ []

abbrev set_some : Bytes → Bytes → Params → Params
set_some key value params = if is_empty value then params else set key value params

-- A request: its parameters, and the file that it uploads.
pub record Upload : Type 0 where
  pub filename : Bytes
  pub content : Bytes

pub record SabRequest : Type 0 where
  pub params : Params
  pub file : Option Upload

-- `AddNZBResponse`
pub record Added : Type 0 where
  pub status : Bool
  pub nzo_ids : List Bytes

-- SABnzbd as one call finds it, and the readers of JSON; `api_key` is the client's.
pub record Sab : Type 0 where
  pub api_key : Bytes
  pub answer : SabRequest → Result Bytes
  pub read_added : Bytes → Option Added

module _ (sab : Sab) where
  -- `baseParams`
  abbrev pub base_params : Params
  base_params = set (codes "output") (codes "json") (set (codes "apikey") sab.api_key [])

  abbrev read_reply : Option Added → Result (List Bytes)
  read_reply none = err protocol_error
  read_reply (some a) = if a.status then ok a.nzo_ids else err protocol_error

  abbrev added : Result Bytes → Result (List Bytes)
  added (err e) = err e
  added (ok body) = read_reply (sab.read_added body)

  -- The request of `AddNZBContent`.
  unfoldable pub upload_request : Bytes → Bytes → Bytes → Bytes → SabRequest
  upload_request content name category password = record {
    params = set_some (codes "password") password (
        set_some (codes "cat") category
          (set (codes "nzbname") name (set (codes "mode") (codes "addfile") base_params)));
    file = some (record { filename = name ++ codes ".nzb"; content = content });
  }

  -- `AddNZBContent`
  unfoldable pub add_nzb_content : Bytes → Bytes → Bytes → Bytes → Result (List Bytes)
  unfolding upload_request
  add_nzb_content content name category password =
      added (sab.answer (upload_request content name category password))

-- The body of a request to send a spot's NZB to SABnzbd.
pub record SendBody : Type 0 where
  pub name : Bytes
  pub category : Bytes
  pub password : Bytes

-- What a call does: its answer, and the request that SABnzbd has got.
pub record Sending : Type 0 where
  pub answer : Answer (List Bytes)
  pub sent : Option SabRequest
  pub vault : Vault

abbrev given : Vault → SabRequest → Result (List Bytes) → Sending
given v r (err e) = record { answer = refused 502; sent = some r; vault = v }
given v r (ok ids) = record { answer = served ids; sent = some r; vault = v }

module _ (s : Serving) (news : News) where
  abbrev send_nzb : Sab → SendBody → Answer (Spot × Bytes) × Vault → Sending
  send_nzb sab body (refused status, v) = record { answer = refused status; sent = none; vault = v }
  send_nzb sab body (served (spot, nzb), v) =
      let name = sanitize_filename (if is_empty body.name then spot.title else body.name) in
      given v (upload_request sab nzb name body.category (trim_space body.password))
        (add_nzb_content sab nzb name body.category (trim_space body.password))

  abbrev pub sent_nzb : Sab → SendBody → Option (Answer (Spot × Bytes) × Vault) → Option Sending
  sent_nzb sab body none = none
  sent_nzb sab body (some r) = some (send_nzb sab body r)

  abbrev refused_with : ℕ → Vault → Option Sending
  refused_with status v = some (record { answer = refused status; sent = none; vault = v })

  -- `sendToSAB`; no client where SABnzbd is not configured, no body where it cannot be read.
  unfoldable pub send_to_sab : Option Sab → Bytes → Option SendBody → Vault → Option Sending
  unfolding resolve_nzb sanitize_filename upload_request add_nzb_content
  send_to_sab none url_id body v = refused_with 503 v
  send_to_sab (some sab) url_id body v =
      let id = parse_int url_id in
      if id.good
      then elim body [
        | none ↦ refused_with 400 v
        | some b ↦ sent_nzb sab b (resolve_nzb s news id.value v)
      ]
      else refused_with 400 v
