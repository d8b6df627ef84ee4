-- ===== src/Tests/Articles.antt =====
-- Articles, searches and requests at concrete inputs.
use spottr.Base.{inr, ◌≡◌, ◌↔◌, refl, true, false, [], ◌∷◌, ◌++◌, none, some, ok, length}
use spottr.Text.{Bytes, codes, eqb, split, trim_space}
use spottr.Spotnet.Nzb.{Inflated, unspecial_zip_str, decode_image_body}
use spottr.Spotnet.Nzb.RoundTrip.{special_zip_str, unspecial-special}
use spottr.Spotnet.Article.{panics, decode_body}
use spottr.Spotnet.Article.Enriched.{Crossed, decode_body_panics_iff}
use spottr.Api.Enrich.{enrich_spot}
use spottr.Api.Enrich.Fields.{Outcome, enrich_spot-Outcome}
use spottr.Api.ClientIp.{
  Net, Request, host_only, peer_trusted, last_untrusted, connection_scheme, resolve_client_ip,
  real_ip,
}
use spottr.Api.ClientIp.Forged.{with_header, forwarded, real_ip_direct, resolve_client_ip_forged}
use spottr.Db.Fts.{sanitize_fts_query}
use spottr.Db.Fts.Quoted.{IsMatch, sanitize_fts_query-IsMatch}
use spottr.Tests.Data.{crypto, parsed_spot}

unspecial-special_example :
    (unspecial_zip_str (special_zip_str (codes "a=\nA")) ≡ codes "a=\nA")
    × (decode_image_body (special_zip_str (codes "a=\nA")) ≡ codes "a=\nA")
unspecial-special_example = unspecial-special (codes "a=\nA")

-- A reader for which every stream stands for itself.
abbrev inflated_as_is : Bytes → Inflated
inflated_as_is s = record { output = s; good = true }

decode_body_panics_iff_example :
    (decode_body crypto (codes "=yend =ybegin\n") ≡ panics) ↔ Crossed (codes "=yend =ybegin\n")
decode_body_panics_iff_example = decode_body_panics_iff crypto (codes "=yend =ybegin\n")

enrich_spot-Outcome_example :
    Outcome crypto
      (λ s. none)
      (λ id. ok (λ key. []))
      (λ id. ok (codes "text"))
      parsed_spot
      (ok (λ key. []))
      (enrich_spot crypto (λ s. none) (λ id. ok (λ key. [])) (λ id. ok (codes "text")) parsed_spot)
enrich_spot-Outcome_example =
    enrich_spot-Outcome crypto (λ s. none) (λ id. ok (λ key. [])) (λ id. ok (codes "text"))
      parsed_spot

-- Addresses are texts, and a prefix is an address.
abbrev net : Net
net = record {
  Addr = Bytes;
  Prefix = Bytes;
  parse_addr = λ s. some s;
  unmap = λ a. a;
  contains = λ p a. eqb p a;
  split_host_port = λ s. none;
}

abbrev request : Request
request = record { remote_addr = codes "9"; header = λ key. []; tls = true }

real_ip_direct_example :
    let seen = real_ip net (codes "1" ∷ []) (with_header request (λ key. codes "8")) in
    (resolve_client_ip net (with_header request (λ key. codes "8")) (codes "1" ∷ [])
      ≡ host_only net (codes "9"))
    × (seen.1 ≡ record { scheme = connection_scheme request; from_trusted_proxy = false })
    × (seen.0.remote_addr ≡ (real_ip net (codes "1" ∷ []) request).0.remote_addr)
unfolding peer_trusted eqb
real_ip_direct_example =
    real_ip_direct net (codes "1" ∷ []) request (λ key. codes "8") (inr (codes "9", refl, refl))

resolve_client_ip_forged_example :
    resolve_client_ip net
      (forwarded net (codes "6,6" ++ b',' ∷ codes "7, 9") request)
      (codes "9" ∷ [])
    ≡ codes "7"
unfolding peer_trusted eqb last_untrusted split trim_space
resolve_client_ip_forged_example =
    resolve_client_ip_forged net (codes "9" ∷ []) request (codes "6,6") (codes "7, 9") []
      (codes "7") (codes " 9" ∷ []) (codes "9", refl, refl) refl refl (codes "7", refl, refl)
      (inr (codes "9", refl, refl), tt)

sanitize_fts_query-IsMatch_example :
    IsMatch length (sanitize_fts_query (λ s. s) length (codes "a* OR \"b"))
sanitize_fts_query-IsMatch_example = sanitize_fts_query-IsMatch (λ s. s) length (codes "a* OR \"b")
