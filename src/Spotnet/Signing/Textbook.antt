-- ===== src/Spotnet/Signing/Textbook.antt =====
-- signing.go: what a signature that verifies is, as an equation between numbers.
use spottr.Base.{
  subst, ℕ, suc, ◌+◌, ◌-◌, ◌/◌, ◌%◌, ◌^◌, ◌≤◌, ◌<◌, ◌&&◌, ◌≡◌, refl, ap, sym, ◌∙◌, ◌⊎◌, inl, inr,
  Bool, true, false, not, ◌||◌, ◌==◌, some, none, [], ◌∷◌, ◌++◌, arith, Bool-cases, Option-cases,
  All, take, length, replicate, ltb, leb,
}
use spottr.Text.{Bytes, codes, is_empty, eqb, has_prefix, last_index}
use spottr.Text.Laws.{eqb_eq}
use spottr.Spotnet.Crypto.{Crypto}
use spottr.Spotnet.Signing.{
  PublicKey, RsaKey, set_bytes, fill_bytes, byte_len, padded, sha1_digest_info, unprepare_base64,
  verify_pkcs1v15_sha1, header_signing_string, bracketed, hex_digit, to_hex, rsa_pub, verify,
  verify_header, verify_self_signed, has_valid_hashcash, verify_full_spot, master_key,
  hashcash_prefix, min_self_signed_key_len,
}

module _ (c : Crypto) where
  -- The numbers of the key and of the signature satisfy the RSA equation for the SHA-1 digest of
  -- the text, padded as PKCS #1 v1.5 says.
  pub record Signs (key : PublicKey) (text signature : Bytes) : Type 0 where
    pub modulus : Bytes
    pub exponent : Bytes
    pub sig : Bytes
    pub pad : ℕ
    pub modulus_read : c.decode_base64 key.modulus ≡ some modulus
    pub exponent_read : c.decode_base64 key.exponent ≡ some exponent
    pub sig_read : c.decode_base64 signature ≡ some sig
    pub whole : length sig ≡ byte_len (set_bytes modulus)
    pub below : set_bytes sig < set_bytes modulus
    pub proper : 2 ≤ set_bytes exponent
    pub long : 8 ≤ pad
    pub equation :
        fill_bytes (length sig) ((set_bytes sig ^ set_bytes exponent) % set_bytes modulus)
        ≡ 0 ∷ 1 ∷ (replicate pad 255 ++ 0 ∷ (sha1_digest_info ++ c.sha1 text))

  -- The signature covers the title, the header up to its last dot, and the poster.
  abbrev pub HeaderSigned : PublicKey → Bytes → Bytes → Bytes → Bytes → Type 0
  HeaderSigned key title header poster signature =
      (before : Bytes) × (after : Bytes) × (header ≡ before ++ b'.' ∷ after)
      × All (λ b. (b == b'.') ≡ false) after
      × Signs key (title ++ (before ++ poster)) (unprepare_base64 signature)

  -- The digest of the message-id in brackets begins with two zero bytes.
  abbrev pub ProofOfWork : Bytes → Type 0
  ProofOfWork id = (rest : Bytes) × (c.sha1 (bracketed id) ≡ 0 ∷ 0 ∷ rest)

record PkcsTrue (k : RsaKey) (digest sig : Bytes) : Type 0 where
  whole : length sig ≡ byte_len k.n
  room : length sha1_digest_info + length digest + 11 ≤ byte_len k.n
  proper : 2 ≤ k.e
  below : set_bytes sig < k.n
  equal :
      eqb (fill_bytes (byte_len k.n) ((set_bytes sig ^ k.e) % k.n)) (padded (byte_len k.n) digest)
      ≡ true

verify_pkcs-PkcsTrue :
    (k : RsaKey) (digest sig : Bytes)
    → verify_pkcs1v15_sha1 k digest sig ≡ true
    → PkcsTrue k digest sig
unfolding verify_pkcs1v15_sha1
verify_pkcs-PkcsTrue k digest sig h =
    let bad =
      not (length sig == byte_len k.n)
      || (ltb (byte_len k.n) (length sha1_digest_info + length digest + 11) || ltb k.e 2) in
    elim (Bool-cases bad) [
      | inl e ↦ absurd (cc (rw e at h))
      | inr e ↦ elim (Bool-cases (leb k.n (set_bytes sig))) [
        | inl e' ↦ absurd (cc (rw (e, e') at h))
        | inr e' ↦ record {
          whole = ground (arith, e);
          room = ground (arith, e);
          proper = ground (arith, e);
          below = ground (arith, e');
          equal = rw (e, e') at h;
        }
      ]
    ]

last_index-none : (s : Bytes) (x : ℕ) → last_index s x ≡ none → All (λ b. (b == x) ≡ false) s
unfolding last_index
last_index-none [] x h = tt
last_index-none (b ∷ s) x h = elim (Option-cases (last_index s x)) [
  | inr (i, e) ↦ absurd (cc (rw (e, last_index) at h))
  | inl e ↦ elim (Bool-cases (b == x)) [
    | inl f ↦ absurd (cc (rw (e, f, last_index) at h))
    | inr f ↦ (f, last_index-none s x e)
  ]
]

last_index-some :
    (s : Bytes) (x i : ℕ)
    → last_index s x ≡ some i
    → (after : Bytes) × (s ≡ take i s ++ x ∷ after) × All (λ b. (b == x) ≡ false) after
unfolding last_index
last_index-some [] x i h = absurd (cc (h))
last_index-some (b ∷ s) x i h = elim (Option-cases (last_index s x)) [
  | inr (j, e) ↦
      let (after, cut, none_after) = last_index-some s x j e in
      let at : suc j ≡ i = cc (rw (e, last_index) at h) in
      rw (sym at) (after, ap (λ t. b ∷ t) cut, none_after)
  | inl e ↦ elim (Bool-cases (b == x)) [
    | inl f ↦
        let at : 0 ≡ i = cc (rw (e, f, last_index) at h) in
        rw (sym at) (s, ap (λ y. y ∷ s) (ground (arith, f)), last_index-none s x e)
    | inr f ↦ absurd (cc (rw (e, f, last_index) at h))
  ]
]

-- The key that a base64 key reads as.
record KeyRead (c : Crypto) (key : PublicKey) (k : RsaKey) : Type 0 where
  modulus : Bytes
  exponent : Bytes
  modulus_read : c.decode_base64 key.modulus ≡ some modulus
  exponent_read : c.decode_base64 key.exponent ≡ some exponent
  same : k ≡ record { n = set_bytes modulus; e = set_bytes exponent }

module _ (c : Crypto) where
  rsa_pub-KeyRead : (key : PublicKey) (k : RsaKey) → rsa_pub c key ≡ some k → KeyRead c key k
  unfolding rsa_pub
  rsa_pub-KeyRead key k h = elim (Option-cases (c.decode_base64 key.modulus)) [
    | inl e ↦ absurd (cc (rw (e, rsa_pub) at h))
    | inr (n, e) ↦ elim (Option-cases (c.decode_base64 key.exponent)) [
      | inl e' ↦ absurd (cc (rw (e, e', rsa_pub) at h))
      | inr (x, e') ↦ elim (Bool-cases (is_empty n || is_empty x)) [
        | inl f ↦ absurd (cc (rw (e, e', f, rsa_pub) at h))
        | inr f ↦ elim (Bool-cases (ltb (2 ^ 31 - 1) (set_bytes x))) [
          | inl g ↦ absurd (cc (rw (e, e', f, g, rsa_pub) at h))
          | inr g ↦ record {
            modulus = n;
            exponent = x;
            modulus_read = e;
            exponent_read = e';
            same = cc (rw (e, e', f, g, rsa_pub) at h);
          }
        ]
      ]
    ]
  ]

  Signs-by :
      (key : PublicKey) (text signature : Bytes) (k : RsaKey) (sig : Bytes)
      → KeyRead c key k
      → c.decode_base64 signature ≡ some sig
      → PkcsTrue k (c.sha1 text) sig
      → Signs c key text signature
  unfolding padded
  Signs-by key text signature k sig r s t =
      let size = length sha1_digest_info + length (c.sha1 text) in
      let pad = byte_len k.n - size - 3 in
      let at_n : k.n ≡ set_bytes r.modulus = ap (λ (k : RsaKey). k.n) r.same in
      let at_e : k.e ≡ set_bytes r.exponent = ap (λ (k : RsaKey). k.e) r.same in
      let want : Bytes = 0 ∷ 1 ∷ (replicate pad 255 ++ 0 ∷ (sha1_digest_info ++ c.sha1 text)) in
      let equation : fill_bytes (length sig) ((set_bytes sig ^ k.e) % k.n) ≡ want =
        ap (λ n. fill_bytes n ((set_bytes sig ^ k.e) % k.n)) t.whole ∙ eqb_eq _ _ t.equal in
      record {
        modulus = r.modulus;
        exponent = r.exponent;
        sig = sig;
        pad = pad;
        modulus_read = r.modulus_read;
        exponent_read = r.exponent_read;
        sig_read = s;
        whole = t.whole ∙ ap byte_len at_n;
        below = subst (λ n. set_bytes sig < n) at_n t.below;
        proper = subst (λ n. 2 ≤ n) at_e t.proper;
        long = omega (arith, t.room);
        equation =
            subst (λ n. fill_bytes (length sig) ((set_bytes sig ^ set_bytes r.exponent) % n) ≡ want)
              at_n
              (subst (λ x. fill_bytes (length sig) ((set_bytes sig ^ x) % k.n) ≡ want) at_e
                equation);
      }

  -- A signature that `verify` accepts.
  pub verify-Signs :
      (key : PublicKey) (text signature : Bytes)
      → verify c key text signature ≡ true
      → Signs c key text signature
  unfolding verify
  verify-Signs key text signature h = elim (Option-cases (rsa_pub c key)) [
    | inl e ↦ absurd (cc (rw (e, verify) at h))
    | inr (k, e) ↦ elim (Option-cases (c.decode_base64 signature)) [
      | inl e' ↦ absurd (cc (rw (e, e', verify) at h))
      | inr ([], e') ↦ absurd (cc (rw (e, e', verify) at h))
      | inr (b ∷ sig, e') ↦
          Signs-by key text signature k (b ∷ sig) (rsa_pub-KeyRead key k e) e'
            (verify_pkcs-PkcsTrue k (c.sha1 text) (b ∷ sig) (rw (e, e', verify) at h))
    ]
  ]

  -- A signature over the header.
  signed-HeaderSigned :
      (key : PublicKey) (title header poster signature text : Bytes)
      → header_signing_string title header poster ≡ some text
      → verify c key text (unprepare_base64 signature) ≡ true
      → HeaderSigned c key title header poster signature
  unfolding header_signing_string
  signed-HeaderSigned key title header poster signature text h v =
      elim (Option-cases (last_index header b'.')) [
        | inl e ↦ absurd (cc (rw (e, header_signing_string) at h))
        | inr (i, e) ↦
            let (after, cut, none_after) = last_index-some header b'.' i e in
            let same : title ++ (take i header ++ poster) ≡ text =
              cc (rw (e, header_signing_string) at h) in
            (
              take i header,
              after,
              cut,
              none_after,
              verify-Signs _ _ _
                  (subst (λ t. verify c key t (unprepare_base64 signature) ≡ true) (sym same) v),
            )
      ]

  pub verify_header-HeaderSigned :
      (title header poster signature : Bytes) (key_id : ℕ)
      → verify_header c title header poster signature key_id ≡ true
      → (key : PublicKey) × (master_key key_id ≡ some key)
        × HeaderSigned c key title header poster signature
  unfolding verify_header
  verify_header-HeaderSigned title header poster signature key_id h =
      elim (Option-cases (master_key key_id)) [
        | inl e ↦ absurd (cc (rw (e, verify_header) at h))
        | inr (key, e) ↦ elim (Option-cases (header_signing_string title header poster)) [
          | inl e' ↦ absurd (cc (rw (e, e', verify_header) at h))
          | inr (text, e') ↦ (
            key,
            e,
            signed-HeaderSigned key title header poster signature text e'
                (rw (e, e', verify_header) at h),
          )
        ]
      ]

  hex_zero : (n : ℕ) → (hex_digit n == b'0') ≡ true → n ≡ 0
  hex_zero n h = ground (arith, h)

  zero_byte : (b : ℕ) → b / 16 ≡ 0 → b % 16 ≡ 0 → b ≡ 0
  zero_byte b h h' = omega (arith, h, h')

  all_four :
      (a b c d : Bool) (s : Bytes)
      → (a && (b && (c && (d && has_prefix s [])))) ≡ true
      → (a ≡ true) × (b ≡ true) × (c ≡ true) × (d ≡ true)
  all_four true true true true s h = (refl, refl, refl, refl)
  all_four true true true false s h = absurd (cc (h))
  all_four true true false d s h = absurd (cc (h))
  all_four true false c d s h = absurd (cc (h))
  all_four false b c d s h = absurd (cc (h))

  hex_zeros :
      (s : Bytes)
      → has_prefix (to_hex s) hashcash_prefix ≡ true
      → (rest : Bytes) × (s ≡ 0 ∷ 0 ∷ rest)
  unfolding to_hex has_prefix
  hex_zeros [] h = absurd (cc (h))
  hex_zeros (a ∷ []) h = absurd (ground (arith, h))
  hex_zeros (a ∷ b ∷ s) h =
      let (h1, h2, h3, h4) =
        all_four (hex_digit (a / 16) == b'0') (hex_digit (a % 16) == b'0')
          (hex_digit (b / 16) == b'0') (hex_digit (b % 16) == b'0') (to_hex s) h in
      let first = zero_byte a (hex_zero (a / 16) h1) (hex_zero (a % 16) h2) in
      let second = zero_byte b (hex_zero (b / 16) h3) (hex_zero (b % 16) h4) in
      (s, cc (first, second))

  pub has_valid_hashcash-ProofOfWork :
      (id : Bytes) → has_valid_hashcash c id ≡ true → ProofOfWork c id
  unfolding has_valid_hashcash
  has_valid_hashcash-ProofOfWork id h = hex_zeros (c.sha1 (bracketed id)) h

  pub verify_self_signed-HeaderSigned :
      (title header poster signature key id spotter : Bytes)
      → verify_self_signed c title header poster signature key id ≡ some spotter
      → ProofOfWork c id
        × HeaderSigned c
            (record { modulus = key; exponent = codes "AQAB" })
            title
            header
            poster
            signature
  unfolding verify_self_signed
  verify_self_signed-HeaderSigned title header poster signature key id spotter h =
      elim (Bool-cases (leb (length key) min_self_signed_key_len)) [
        | inl e ↦ absurd (cc (rw (e, verify_self_signed) at h))
        | inr e ↦ elim (Bool-cases (has_valid_hashcash c id)) [
          | inr f ↦ absurd (cc (rw (e, f, verify_self_signed) at h))
          | inl f ↦ elim (Option-cases (header_signing_string title header poster)) [
            | inl g ↦ absurd (cc (rw (e, f, g, verify_self_signed) at h))
            | inr (text, g) ↦
                let own : PublicKey = record { modulus = key; exponent = codes "AQAB" } in
                elim (Bool-cases (verify c own text (unprepare_base64 signature))) [
                  | inr v ↦ absurd (cc (rw (e, f, g, v, verify_self_signed) at h))
                  | inl v ↦ (
                    has_valid_hashcash-ProofOfWork id f,
                    signed-HeaderSigned own title header poster signature text g v,
                  )
                ]
          ]
        ]
      ]

  pub verify_full_spot-Signs :
      (id : Bytes) (key : PublicKey) (user_signature xml_signature : Bytes)
      → (verify_full_spot c id key user_signature xml_signature ≡ false)
        ⊎ (Signs c key (bracketed id) (unprepare_base64 user_signature)
            ⊎ ((is_empty xml_signature ≡ false)
                × Signs c key xml_signature (unprepare_base64 user_signature)))
  unfolding verify_full_spot
  verify_full_spot-Signs id key user_signature xml_signature =
      let sig = unprepare_base64 user_signature in
      elim (Bool-cases (is_empty user_signature || is_empty key.modulus)) [
        | inl e ↦ inl (rw (e, verify_full_spot) refl)
        | inr e ↦ elim (Bool-cases (verify c key (bracketed id) sig)) [
          | inl f ↦ inr (inl (verify-Signs key (bracketed id) sig f))
          | inr f ↦ elim (Bool-cases (is_empty xml_signature)) [
            | inl g ↦ inl (rw (e, f, g, verify_full_spot) refl)
            | inr g ↦ elim (Bool-cases (verify c key xml_signature sig)) [
              | inl v ↦ inr (inr (g, verify-Signs key xml_signature sig v))
              | inr v ↦ inl (rw (e, f, g, v, verify_full_spot) refl)
            ]
          ]
        ]
      ]
