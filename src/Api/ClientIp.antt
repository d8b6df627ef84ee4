-- ===== src/Api/ClientIp.antt =====
-- internal/api/middleware.go: the client's address and scheme behind proxies. `parse_addr`, `unmap`
-- and `contains` are net/netip's `ParseAddr`, `Addr.Unmap` and `Prefix.Contains`, and
-- `split_host_port` is net's `SplitHostPort`, of which only the host is kept.
pub mod Forged
use spottr.Base.{
  ℕ, Bool, true, false, not, ◌&&◌, ◌||◌, Option, none, some, List, [], ◌∷◌, if◌then◌else◌,
}
use spottr.Text.{Bytes, codes, is_empty, eqb, split, trim_space, to_lower}

pub record Net : Type 1 where
  pub Addr : Type 0
  pub Prefix : Type 0
  pub parse_addr : Bytes → Option Addr
  pub unmap : Addr → Addr
  pub contains : Prefix → Addr → Bool
  pub split_host_port : Bytes → Option Bytes

-- What is read of an `http.Request`; a header that is missing is empty.
pub record Request : Type 0 where
  pub remote_addr : Bytes
  pub header : Bytes → Bytes
  pub tls : Bool

-- `peerInfo`
pub record PeerInfo : Type 0 where
  pub scheme : Bytes
  pub from_trusted_proxy : Bool

abbrev pub connection_scheme : Request → Bytes
connection_scheme r = if r.tls then codes "https" else codes "http"

module _ (n : Net) where
  abbrev pub any_contains : n.Addr → List n.Prefix → Bool
  any_contains addr [] = false
  any_contains addr (p ∷ ps) = n.contains p addr || any_contains addr ps

  -- `inAny`
  unfoldable pub in_any : n.Addr → List n.Prefix → Bool
  in_any addr prefixes = any_contains (n.unmap addr) prefixes

  -- `hostOnly`
  unfoldable pub host_only : Bytes → Bytes
  host_only remote_addr = elim (n.split_host_port remote_addr) [
    | some host ↦ host
    | none ↦ remote_addr
  ]

  -- `len(trusted) > 0`
  abbrev pub some_prefix : List n.Prefix → Bool
  some_prefix [] = false
  some_prefix (p ∷ ps) = true

  -- `peerTrusted`
  unfoldable pub peer_trusted : Request → List n.Prefix → Bool
  unfolding in_any host_only
  peer_trusted r trusted = elim (n.parse_addr (host_only r.remote_addr)) [
    | none ↦ false
    | some peer ↦ some_prefix trusted && in_any peer trusted
  ]

  -- `resolveScheme`
  unfoldable pub resolve_scheme : Request → List n.Prefix → Bytes
  unfolding peer_trusted
  resolve_scheme r trusted =
      let p = to_lower (trim_space (r.header (codes "x-forwarded-proto"))) in
      if peer_trusted r trusted && (eqb p (codes "http") || eqb p (codes "https"))
      then p
      else connection_scheme r

  -- The walk over X-Forwarded-For: the last entry that is an address and no trusted one.
  unfoldable pub last_untrusted : List n.Prefix → List Bytes → Option Bytes
  unfolding in_any
  last_untrusted trusted [] = none
  last_untrusted trusted (part ∷ parts) =
      let found = last_untrusted trusted parts in
      elim found [
        | some ip ↦ some ip
        | none ↦ elim (n.parse_addr (trim_space part)) [
          | none ↦ none
          | some addr ↦ if in_any addr trusted then none else some (trim_space part)
        ]
      ]

  abbrev is_address : Bytes → Bool
  is_address s = elim (n.parse_addr s) [ none ↦ false | some a ↦ true ]

  unfoldable pub forwarded_for : Bytes → List n.Prefix → Bytes → Bytes
  unfolding last_untrusted
  forwarded_for peer trusted xff =
      if is_empty xff
      then peer
      else elim (last_untrusted trusted (split xff b',')) [ some ip ↦ ip | none ↦ peer ]

  -- `resolveClientIP`
  unfoldable pub resolve_client_ip : Request → List n.Prefix → Bytes
  unfolding peer_trusted forwarded_for
  resolve_client_ip r trusted =
      let peer = host_only r.remote_addr in
      let xrip = trim_space (r.header (codes "x-real-ip")) in
      if not (peer_trusted r trusted)
      then peer
      else if not (is_empty xrip) && is_address xrip
      then xrip
      else forwarded_for peer trusted (r.header (codes "x-forwarded-for"))

  -- `realIP`: the request that the next handler sees, and what is recorded with it.
  unfoldable pub real_ip : List n.Prefix → Request → Request × PeerInfo
  unfolding resolve_scheme resolve_client_ip
  real_ip trusted r =
      let ip = resolve_client_ip r trusted in
      let info : PeerInfo = record {
        scheme = resolve_scheme r trusted;
        from_trusted_proxy = peer_trusted r trusted;
      } in
      (if is_empty ip then r else record r { remote_addr = ip }, info)

  -- `requestScheme` of a request that `realIP` has seen, or has not.
  unfoldable pub request_scheme : Request → Option PeerInfo → Bytes
  request_scheme r none = connection_scheme r
  request_scheme r (some info) = if is_empty info.scheme then connection_scheme r else info.scheme
