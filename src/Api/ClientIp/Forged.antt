-- ===== src/Api/ClientIp/Forged.antt =====
-- middleware.go: what a caller that forges headers can choose.
use spottr.Base.{
  exists, All, ap, ◌∙◌, ◌⊎◌, none, false, ◌&&◌, ◌||◌, if◌then◌else◌, ◌≡◌, refl, inl, inr, true,
  false, some, List, [], ◌∷◌, ◌++◌, arith, Bool-cases, ◌==◌,
}
use spottr.Text.{Bytes, codes, is_empty, split, trim_space, eqb}
use spottr.Api.ClientIp.{
  Net, Request, connection_scheme, host_only, peer_trusted, resolve_scheme, last_untrusted,
  any_contains, in_any, some_prefix, forwarded_for, resolve_client_ip, real_ip,
}

-- The same request with other headers.
abbrev pub with_header : Request → (Bytes → Bytes) → Request
with_header r h = record r { header = h }

not_empty : (forged tail : Bytes) → is_empty (forged ++ b',' ∷ tail) ≡ false
not_empty [] tail = refl
not_empty (c ∷ forged) tail = refl

module _ (n : Net) (trusted : List n.Prefix) where
  -- An address that some trusted prefix contains, and one that none does.
  abbrev pub Inside : n.Addr → Type 0
  Inside a = exists (λ p. n.contains p (n.unmap a)) trusted ≡ true

  abbrev pub Outside : n.Addr → Type 0
  Outside a = exists (λ p. n.contains p (n.unmap a)) trusted ≡ false

  -- The peer is no trusted proxy: it has no address, or one outside all trusted prefixes.
  abbrev pub Untrusted : Request → Type 0
  Untrusted r =
      (n.parse_addr (host_only n r.remote_addr) ≡ none)
      ⊎ ((a : n.Addr) × (n.parse_addr (host_only n r.remote_addr) ≡ some a) × Outside a)

  abbrev pub Trusted : Request → Type 0
  Trusted r = (a : n.Addr) × (n.parse_addr (host_only n r.remote_addr) ≡ some a) × Inside a

  -- An entry of X-Forwarded-For that the walk passes over, and one that it stops at.
  abbrev pub Passed : Bytes → Type 0
  Passed s =
      (n.parse_addr (trim_space s) ≡ none)
      ⊎ ((a : n.Addr) × (n.parse_addr (trim_space s) ≡ some a) × Inside a)

  abbrev pub Foreign : Bytes → Type 0
  Foreign s = (a : n.Addr) × (n.parse_addr (trim_space s) ≡ some a) × Outside a

any_contains-exists :
    (n : Net) (a : n.Addr) (ps : List n.Prefix)
    → any_contains n a ps ≡ exists (λ p. n.contains p a) ps
any_contains-exists n a [] = refl
any_contains-exists n a (p ∷ ps) = ap (λ b. n.contains p a || b) (any_contains-exists n a ps)

in_any-exists :
    (n : Net) (a : n.Addr) (ps : List n.Prefix)
    → in_any n a ps ≡ exists (λ p. n.contains p (n.unmap a)) ps
unfolding in_any
in_any-exists n a ps = any_contains-exists n (n.unmap a) ps

some_prefix-exists :
    (n : Net) (a : n.Addr) (ps : List n.Prefix)
    → (some_prefix n ps && exists (λ p. n.contains p (n.unmap a)) ps)
      ≡ exists (λ p. n.contains p (n.unmap a)) ps
some_prefix-exists n a [] = refl
some_prefix-exists n a (p ∷ ps) = refl

module _ (n : Net) where
  peer_trusted-some :
      (trusted : List n.Prefix) (r : Request) (a : n.Addr)
      → n.parse_addr (host_only n r.remote_addr) ≡ some a
      → peer_trusted n r trusted ≡ exists (λ p. n.contains p (n.unmap a)) trusted
  unfolding peer_trusted
  peer_trusted-some trusted r a e =
      rw (e, peer_trusted, in_any-exists n a trusted) (some_prefix-exists n a trusted)

  Untrusted-false :
      (trusted : List n.Prefix) (r : Request)
      → Untrusted n trusted r
      → peer_trusted n r trusted ≡ false
  unfolding peer_trusted
  Untrusted-false trusted r (inl e) = rw (e, peer_trusted) refl
  Untrusted-false trusted r (inr (a, e, out)) = peer_trusted-some trusted r a e ∙ out

  direct_ip :
      (trusted : List n.Prefix) (r : Request)
      → peer_trusted n r trusted ≡ false
      → resolve_client_ip n r trusted ≡ host_only n r.remote_addr
  unfolding resolve_client_ip
  direct_ip trusted r e = ground (arith, e)

  direct_scheme :
      (trusted : List n.Prefix) (r : Request)
      → peer_trusted n r trusted ≡ false
      → resolve_scheme n r trusted ≡ connection_scheme r
  unfolding resolve_scheme
  direct_scheme trusted r e = rw (e, resolve_scheme) refl

  -- Unless the immediate peer's address is in a trusted prefix, nothing that the peer sends in its headers matters: the
  -- client's address is the peer's own, the scheme is that of the connection, and the request that
  -- the handlers see has the same address and the same record, whatever the headers.
  pub real_ip_direct :
      (trusted : List n.Prefix) (r : Request) (h : Bytes → Bytes)
      → Untrusted n trusted r
      → let seen = real_ip n trusted (with_header r h) in
        (resolve_client_ip n (with_header r h) trusted ≡ host_only n r.remote_addr)
        × (seen.1 ≡ record { scheme = connection_scheme r; from_trusted_proxy = false })
        × (seen.0.remote_addr ≡ (real_ip n trusted r).0.remote_addr)
  unfolding real_ip
  real_ip_direct trusted r h out =
      let e = Untrusted-false trusted r out in
      let ip : (h : Bytes → Bytes)
          → resolve_client_ip n (with_header r h) trusted ≡ host_only n r.remote_addr =
        λ h. direct_ip trusted (with_header r h) e in
      (ip h, rw (direct_scheme trusted (with_header r h) e, e, real_ip) refl, seen_address e)
    where
      seen_address :
          peer_trusted n r trusted ≡ false
          → (real_ip n trusted (with_header r h)).0.remote_addr
            ≡ (real_ip n trusted r).0.remote_addr
      seen_address e = elim (Bool-cases (is_empty (host_only n r.remote_addr))) [
        | inl e' ↦
            rw (direct_ip trusted (with_header r h) e, direct_ip trusted r e, e', real_ip) refl
        | inr e' ↦
            rw (direct_ip trusted (with_header r h) e, direct_ip trusted r e, e', real_ip) refl
      ]

  walk_behind :
      (trusted : List n.Prefix) (p ip : Bytes) (ps : List Bytes)
      → last_untrusted n trusted ps ≡ some ip
      → last_untrusted n trusted (p ∷ ps) ≡ some ip
  unfolding last_untrusted
  walk_behind trusted p ip ps h = rw (h, last_untrusted) refl

  -- The entries of a text that someone else's proxy has put a comma and more behind.
  record Behind (trusted : List n.Prefix) (entries : List Bytes) (ip : Bytes) : Type 0 where
    first : Bytes
    rest : List Bytes
    same : entries ≡ first ∷ rest
    found : last_untrusted n trusted rest ≡ some ip

  split-Behind :
      (trusted : List n.Prefix) (forged tail ip : Bytes)
      → last_untrusted n trusted (split tail b',') ≡ some ip
      → Behind trusted (split (forged ++ b',' ∷ tail) b',') ip
  unfolding split
  split-Behind trusted [] tail ip h = record {
    first = [];
    rest = split tail b',';
    same = refl;
    found = h;
  }
  split-Behind trusted (c ∷ forged) tail ip h =
      let behind = split-Behind trusted forged tail ip h in
      elim (Bool-cases (c == b',')) [
        | inl e ↦ record {
          first = [];
          rest = behind.first ∷ behind.rest;
          same = rw (e, split, behind.same) refl;
          found = walk_behind trusted behind.first ip behind.rest behind.found;
        }
        | inr e ↦ record {
          first = c ∷ behind.first;
          rest = behind.rest;
          same = rw (e, split, behind.same) refl;
          found = behind.found;
        }
      ]

  forwarded_for-forged :
      (trusted : List n.Prefix) (peer forged tail ip : Bytes)
      → last_untrusted n trusted (split tail b',') ≡ some ip
      → forwarded_for n peer trusted (forged ++ b',' ∷ tail) ≡ ip
  unfolding forwarded_for
  forwarded_for-forged trusted peer forged tail ip h =
      let behind = split-Behind trusted forged tail ip h in
      let found = walk_behind trusted behind.first ip behind.rest behind.found in
      rw (not_empty forged tail, behind.same, found, forwarded_for) refl

  abbrev pub forwarded : Bytes → Request → Request
  forwarded xff r =
      with_header r (λ key. if eqb key (codes "x-forwarded-for") then xff else r.header key)

  last_untrusted-Passed :
      (trusted : List n.Prefix) (parts : List Bytes)
      → All (Passed n trusted) parts
      → last_untrusted n trusted parts ≡ none
  unfolding last_untrusted
  last_untrusted-Passed trusted [] h = refl
  last_untrusted-Passed trusted (part ∷ parts) (inl e, h) =
      rw (last_untrusted-Passed trusted parts h, e, last_untrusted) refl
  last_untrusted-Passed trusted (part ∷ parts) (inr (a, e, inside), h) =
      rw
        (
          last_untrusted-Passed trusted parts h,
          e,
          in_any-exists n a trusted,
          inside,
          last_untrusted,
        )
        refl

  last_untrusted-Foreign :
      (trusted : List n.Prefix) (before : List Bytes) (part : Bytes) (after : List Bytes)
      → Foreign n trusted part
      → All (Passed n trusted) after
      → last_untrusted n trusted (before ++ part ∷ after) ≡ some (trim_space part)
  unfolding last_untrusted
  last_untrusted-Foreign trusted [] part after (a, e, out) h =
      rw (last_untrusted-Passed trusted after h, e, in_any-exists n a trusted, out, last_untrusted)
        refl
  last_untrusted-Foreign trusted (p ∷ before) part after f h =
      walk_behind trusted p (trim_space part) (before ++ part ∷ after)
        (last_untrusted-Foreign trusted before part after f h)

  -- A request that carries no X-Real-Ip comes from a trusted proxy, and the proxies have appended
  -- `tail` to the X-Forwarded-For that the caller wrote. Of the entries of `tail`, `part` is an
  -- address outside all trusted prefixes, and those behind it are trusted or no addresses. Then
  -- `resolveClientIP` gives `part`, whatever the caller has written in front. Nothing is said of a
  -- request with an X-Real-Ip, which a trusted proxy may pass on as the caller wrote it.
  pub resolve_client_ip_forged :
      (trusted : List n.Prefix) (r : Request) (forged tail : Bytes) (before : List Bytes)
      (part : Bytes) (after : List Bytes)
      → Trusted n trusted r
      → r.header (codes "x-real-ip") ≡ []
      → split tail b',' ≡ before ++ part ∷ after
      → Foreign n trusted part
      → All (Passed n trusted) after
      → resolve_client_ip n (forwarded (forged ++ b',' ∷ tail) r) trusted ≡ trim_space part
  unfolding resolve_client_ip peer_trusted trim_space eqb
  resolve_client_ip_forged trusted r forged tail before part after (a, k, inside) none_set cut f h =
      let e : peer_trusted n r trusted ≡ true = peer_trusted-some trusted r a k ∙ inside in
      let e' : peer_trusted n (forwarded (forged ++ b',' ∷ tail) r) trusted ≡ true = e in
      let last : last_untrusted n trusted (split tail b',') ≡ some (trim_space part) =
        ap (last_untrusted n trusted) cut ∙ last_untrusted-Foreign trusted before part after f h in
      rw (e', none_set, resolve_client_ip)
        (forwarded_for-forged trusted (host_only n r.remote_addr) forged tail (trim_space part)
          last)
