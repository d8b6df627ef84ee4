-- ===== src/Sabnzbd/Same.antt =====
-- router.go: SABnzbd gets the same NZB as a download.
use spottr.Base.{
  ◌≡◌, refl, ap, Option, none, some, List, Result, ok, err, Bool-cases, inl, inr, if◌then◌else◌,
}
use spottr.Text.{Bytes, trim_space, is_empty}
use spottr.Text.Numbers.{parse_int}
use spottr.Db.Tables.{Spot}
use spottr.Db.Caches.{Vault}
use spottr.Api.Serve.{
  News, Serving, Answer, refused, served, Media, resolve_nzb, download_nzb, downloaded,
  sanitize_filename,
}
use spottr.Sabnzbd.{
  Sab, SendBody, Sending, SabRequest, given, sent_nzb, send_to_sab, upload_request, add_nzb_content,
}

-- The content of what was sent.
abbrev pub content_of : Option SabRequest → Option Bytes
content_of none = none
content_of (some r) = elim r.file [ none ↦ none | some f ↦ some f.content ]

-- What a download answers, as bytes.
abbrev pub served_bytes : Answer Media → Option Bytes
served_bytes (refused status) = none
served_bytes (served (name, nzb)) = some nzb

-- The two calls send the same bytes, or none, and leave the same store.
abbrev pub Alike : Option Sending → Option (Answer Media × Vault) → Type 0
Alike none none = Unit
Alike none (some r) = ⊥
Alike (some w) none = ⊥
Alike (some w) (some r) = (content_of w.sent ≡ served_bytes r.0) × (w.vault ≡ r.1)

given-sent :
    (v : Vault) (r : SabRequest) (a : Result (List Bytes))
    → ((given v r a).sent ≡ some r) × ((given v r a).vault ≡ v)
given-sent v r (err e) = (refl, refl)
given-sent v r (ok ids) = (refl, refl)

module _ (s : Serving) (news : News) (sab : Sab) (body : SendBody) where
  sent_nzb-Alike :
      (o : Option (Answer (Spot × Bytes) × Vault))
      → Alike (sent_nzb s news sab body o) (downloaded s news o)
  unfolding upload_request
  sent_nzb-Alike none = tt
  sent_nzb-Alike (some (refused status, v)) = (refl, refl)
  sent_nzb-Alike (some (served (spot, nzb), v)) =
      let name = sanitize_filename (if is_empty body.name then spot.title else body.name) in
      let (sent, kept) =
        given-sent v (upload_request sab nzb name body.category (trim_space body.password))
          (add_nzb_content sab nzb name body.category (trim_space body.password)) in
      (ap (λ r. content_of r) sent, kept)

  -- With SABnzbd configured and a request body that can be read, sending a spot to SABnzbd uploads
  -- exactly the bytes that a download of the spot's NZB would answer at that moment, or nothing
  -- where the download is refused, and both leave the same store.
  pub send_to_sab-Alike :
      (url_id : Bytes) (v : Vault)
      → Alike (send_to_sab s news (some sab) url_id (some body) v) (download_nzb s news url_id v)
  unfolding send_to_sab download_nzb
  send_to_sab-Alike url_id v = elim (Bool-cases (parse_int url_id).good) [
    | inr g ↦ rw (g, send_to_sab, download_nzb) (refl, refl)
    | inl g ↦
        rw (g, send_to_sab, download_nzb)
          (sent_nzb-Alike (resolve_nzb s news (parse_int url_id).value v))
  ]
