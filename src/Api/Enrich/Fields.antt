-- ===== src/Api/Enrich/Fields.antt =====
-- router.go: what the article behind a spot's page may change of it.
use spottr.Base.{
  refl, inr, inl, ◌≡◌, Option, none, some, Result, ok, err, Result-cases, Option-cases,
}
use spottr.Text.{Bytes}
use spottr.Db.Tables.{Spot}
use spottr.Spotnet.Crypto.{Crypto}
use spottr.Spotnet.Article.{SpotXml, enrich_from_headers, enrich_from_body}
use spottr.Spotnet.Article.Enriched.{
  enrich_from_body-Filled, Completed, then-Completed, enrich_from_headers-Completed,
}
use spottr.Sync.Env.{Headers}
use spottr.Api.Enrich.{true, Visit, from_body, from_headers, enrich_spot}

module _ (c : Crypto) (unmarshal : Bytes → Option SpotXml) (head : Bytes → Result Headers)
    (body : Bytes → Result Bytes) where
  abbrev Visited : Spot → Headers → Option Visit → Type 0
  Visited s headers none = Unit
  Visited s headers (some v) = Completed c unmarshal s headers v.spot

  from_body-Completed :
      (s mid : Spot) (headers : Headers) (b : Result Bytes)
      → Completed c unmarshal s headers mid
      → Visited s headers (from_body c unmarshal head body mid b)
  unfolding from_body
  from_body-Completed s mid headers (err e) m = m
  from_body-Completed s mid headers (ok b) m =
      elim (Option-cases (enrich_from_body c unmarshal mid b)) [
        | inl e ↦ rw (e, from_body) tt
        | inr ((after, error), e) ↦
            rw (e, from_body)
              (then-Completed c unmarshal s mid after headers m
                (enrich_from_body-Filled c unmarshal mid after b error e))
      ]

  from_headers-Completed :
      (s : Spot) (headers : Headers)
      → Visited s headers (from_headers c unmarshal head body s (ok headers))
  unfolding from_headers
  from_headers-Completed s headers =
      let r = enrich_from_headers c unmarshal s headers in
      elim (Option-cases r.1) [
        | inl e ↦ rw (e, from_headers) (enrich_from_headers-Completed c unmarshal s headers)
        | inr (x, e) ↦
            rw (e, from_headers)
              (from_body-Completed s r.0 headers _
                (enrich_from_headers-Completed c unmarshal s headers))
      ]

  abbrev pub Outcome : Spot → Result Headers → Option Visit → Type 0
  Outcome s (err e) v = v ≡ some (record { spot = s; error = some e; broken = true })
  Outcome s (ok headers) v = Visited s headers v

  -- Where the article's headers cannot be fetched, the spot stays as it was, the error is returned
  -- and the connection is marked as broken. Otherwise, whatever the article holds and however the
  -- fetch of its body ends, unless it panics: nothing of the spot has changed but the description,
  -- the image, the NZB segment, the size if it was zero, and the spotter's identity. The identity is
  -- the old one, or it is that of the key in X-User-Key, and the spot counts as verified exactly if
  -- `VerifyFullSpot` accepts the key; then X-User-Signature satisfies the RSA equation of the key
  -- for the message-id in brackets, or for the text of an X-XML-Signature that is not empty.
  pub enrich_spot-Outcome :
      (s : Spot) → Outcome s (head s.message_id) (enrich_spot c unmarshal head body s)
  unfolding enrich_spot from_headers
  enrich_spot-Outcome s = elim (Result-cases (head s.message_id)) [
    | inl (x, e) ↦ rw (e, enrich_spot) refl
    | inr (headers, e) ↦ rw (e, enrich_spot) (from_headers-Completed s headers)
  ]
