-- ===== src/Api/Enrich.antt =====
-- internal/api/router.go: completing a spot from its article when its page is opened.
pub mod Fields
use spottr.Base.{Bool, true, false, Option, none, some, Result, ok, err, Error, net_error}
use spottr.Text.{Bytes}
use spottr.Db.Tables.{Spot}
use spottr.Spotnet.Crypto.{Crypto}
use spottr.Spotnet.Article.{SpotXml, enrich_from_headers, enrich_from_body}
use spottr.Sync.Env.{Headers}

-- What `enrichSpot` leaves: the spot, the error, and whether it marked the connection as broken.
pub record Visit : Type 0 where
  pub spot : Spot
  pub error : Option Error
  pub broken : Bool

-- `head` and `body` are the leased connection's `Head` and `Body`.
module _ (c : Crypto) (unmarshal : Bytes → Option SpotXml) (head : Bytes → Result Headers)
    (body : Bytes → Result Bytes) where
  -- The fallback: the XML in the body.
  unfoldable pub from_body : Spot → Result Bytes → Option Visit
  from_body spot (err e) = some (record { spot = spot; error = some e; broken = true })
  from_body spot (ok b) = elim (enrich_from_body c unmarshal spot b) [
    | none ↦ none
    | some r ↦ some (record { spot = r.0; error = r.1; broken = false })
  ]

  unfoldable pub from_headers : Spot → Result Headers → Option Visit
  unfolding from_body
  from_headers spot (err e) = some (record { spot = spot; error = some e; broken = true })
  from_headers spot (ok headers) =
      let r = enrich_from_headers c unmarshal spot headers in
      elim r.1 [
        | none ↦ some (record { spot = r.0; error = none; broken = false })
        | some e ↦ from_body r.0 (body r.0.message_id)
      ]

  -- `enrichSpot` behind the lease; none where it panics.
  unfoldable pub enrich_spot : Spot → Option Visit
  unfolding from_headers
  enrich_spot spot = from_headers spot (head spot.message_id)
