-- ===== src/Spotnet/Article/Enriched.antt =====
-- parser.go: which fields an article can change, and which articles panic.
use spottr.Base.{
  Bool, sym, take, ◌<◌, ◌∙◌, ◌↔◌, ap, subst, [], ℕ, ◌+◌, ◌-◌, ◌≡◌, refl, ◌⊎◌, inl, inr, ◌≤◌, true,
  false, Option, none, some, arith, Bool-cases, Option-cases, Result, ok, err, Error, drop, ltb,
}
use spottr.Text.{Bytes, codes, index, is_empty, trim_space, has_prefix}
use spottr.Text.Numbers.{pos, is_zero}
use spottr.Db.Tables.{Spot}
use spottr.Spotnet.Crypto.{Crypto}
use spottr.Spotnet.Signing.Textbook.{Signs, verify_full_spot-Signs}
use spottr.Spotnet.Signing.{
  bracketed, unprepare_base64, parse_user_key, spotter_id, verify_full_spot, PublicKey,
}
use spottr.Spotnet.Article.{
  replace_all, SpotXml, Decoded, decoded, no_payload, panics, fill_from, enrich_from_xml,
  with_owner, identified, enrich_from_headers, decode_payload, slice_decoded, decode_body,
  enrich_from_text, enrich_from_body, sanitize_xml,
}
use spottr.Sync.Env.{Headers}

-- A spot less what an article's text may fill in.
abbrev pub frame : Spot → Spot
frame s = record s { description = []; image_url = []; nzb_id = []; size = pos 0 }

-- A spot less the spotter's identity as well.
abbrev pub core : Spot → Spot
core s = record (frame s) { spotter_id = []; verified = false }

-- `after` differs from `before` in nothing but the text, and in the size only where that was 0.
pub record Filled (before after : Spot) : Type 0 where
  pub same : frame after ≡ frame before
  pub size : (is_zero before.size ≡ true) ⊎ (after.size ≡ before.size)

Filled-refl : (s : Spot) → Filled s s
Filled-refl s = record { same = refl; size = inr refl }

fill_from-Filled : (x : SpotXml) (s : Spot) → Filled s (fill_from x s)
unfolding fill_from
fill_from-Filled x s = elim (Bool-cases (is_zero s.size)) [
  | inl e ↦ record { same = refl; size = inl e }
  | inr e ↦ record { same = refl; size = inr (ground (arith, e)) }
]

module _ (c : Crypto) (unmarshal : Bytes → Option SpotXml) where
  enrich_from_xml-Filled : (s : Spot) (raw : Bytes) → Filled s (enrich_from_xml c unmarshal s raw).0
  unfolding enrich_from_xml
  enrich_from_xml-Filled s raw = elim (Bool-cases (is_empty (trim_space (sanitize_xml c raw)))) [
    | inl e ↦ rw (e, enrich_from_xml) (Filled-refl s)
    | inr e ↦ elim (Option-cases (unmarshal (trim_space (sanitize_xml c raw)))) [
      | inl e' ↦ rw (e, e', enrich_from_xml) (Filled-refl s)
      | inr (x, e') ↦ rw (e, e', enrich_from_xml) (fill_from-Filled x s)
    ]
  ]

  enrich_from_text-Filled :
      (s : Spot) (text : Bytes) → Filled s (enrich_from_text c unmarshal s text).0
  unfolding enrich_from_text
  enrich_from_text-Filled s text =
      let trimmed = trim_space (sanitize_xml c text) in
      elim (Bool-cases (has_prefix trimmed (codes "<"))) [
        | inl e ↦ elim (Option-cases (unmarshal trimmed)) [
          | inl e' ↦ rw (e, e', enrich_from_text) (Filled-refl s)
          | inr (x, e') ↦ rw (e, e', enrich_from_text) (fill_from-Filled x s)
        ]
        | inr e ↦ elim (Bool-cases (is_empty trimmed)) [
          | inl e' ↦ rw (e, e', enrich_from_text) (Filled-refl s)
          | inr e' ↦ rw (e, e', enrich_from_text) (record { same = refl; size = inr refl })
        ]
      ]

  -- What an outcome that may be a panic leaves.
  abbrev FilledBy : Spot → Option (Spot × Option Error) → Type 0
  FilledBy s none = Unit
  FilledBy s (some (after, error)) = Filled s after

  abbrev chosen : Spot → Bytes → Decoded → Option (Spot × Option Error)
  chosen spot body d = elim d [
    | panics ↦ none
    | no_payload ↦ some (enrich_from_text c unmarshal spot body)
    | decoded b ↦ some (enrich_from_text c unmarshal spot b)
  ]

  chosen-Filled : (s : Spot) (body : Bytes) (d : Decoded) → FilledBy s (chosen s body d)
  chosen-Filled s body panics = tt
  chosen-Filled s body no_payload = enrich_from_text-Filled s body
  chosen-Filled s body (decoded b) = enrich_from_text-Filled s b

  pub enrich_from_body-Filled :
      (s after : Spot) (body : Bytes) (error : Option Error)
      → enrich_from_body c unmarshal s body ≡ some (after, error)
      → Filled s after
  unfolding enrich_from_body
  enrich_from_body-Filled s after body error h =
      subst (FilledBy s) h (chosen-Filled s body (decode_body c body))

  -- A spot that counts as verified has a signature of the key over its message-id, or over the text
  -- of an X-XML-Signature that is not empty.
  abbrev pub Vouched : PublicKey → Bytes → Bytes → Bytes → Bool → Type 0
  Vouched key id user_signature xml_signature verified =
      (verified ≡ false)
      ⊎ (Signs c key (bracketed id) (unprepare_base64 user_signature)
          ⊎ ((is_empty xml_signature ≡ false)
              × Signs c key xml_signature (unprepare_base64 user_signature)))

  -- Where the identity of the spotter comes from.
  pub data Identity (before : Spot) (headers : Headers) (after : Spot) : Type 0 where
    kept :
        after.spotter_id ≡ before.spotter_id
        → after.verified ≡ before.verified
        → Identity before headers after
    by_key :
        (key : PublicKey)
        → parse_user_key c (headers (codes "x-user-key")) ≡ ok key
        → after.spotter_id ≡ spotter_id c key.modulus
        → after.verified
          ≡ verify_full_spot c before.message_id key
              (headers (codes "x-user-signature"))
              (headers (codes "x-xml-signature"))
        → Vouched key before.message_id
            (headers (codes "x-user-signature"))
            (headers (codes "x-xml-signature"))
            after.verified
        → Identity before headers after

  -- What an article may make of a spot.
  pub record Completed (before : Spot) (headers : Headers) (after : Spot) : Type 0 where
    pub same : core after ≡ core before
    pub size : (is_zero before.size ≡ true) ⊎ (after.size ≡ before.size)
    pub identity : Identity before headers after

  with_key-Completed :
      (s : Spot) (headers : Headers) (r : Result PublicKey)
      → parse_user_key c (headers (codes "x-user-key")) ≡ r
      → Completed s headers (with_owner c s headers r)
  unfolding with_owner
  with_key-Completed s headers (err e) h = record {
    same = refl;
    size = inr refl;
    identity = kept refl refl;
  }
  with_key-Completed s headers (ok key) h = record {
    same = refl;
    size = inr refl;
    identity = by_key key h refl refl (
        verify_full_spot-Signs c s.message_id key (headers (codes "x-user-signature"))
          (headers (codes "x-xml-signature")));
  }

  identified-Completed :
      (s : Spot) (headers : Headers) → Completed s headers (identified c s headers)
  identified-Completed s headers = elim (Bool-cases (is_empty (headers (codes "x-user-key")))) [
    | inl e ↦
        rw (e, identified) (record { same = refl; size = inr refl; identity = kept refl refl })
    | inr e ↦ rw (e, identified) (with_key-Completed s headers _ refl)
  ]

  move-Identity :
      (s mid after : Spot) (headers : Headers)
      → frame after ≡ frame mid
      → Identity s headers mid
      → Identity s headers after
  move-Identity s mid after headers e (kept x y) =
      kept (ap (λ s. s.spotter_id) e ∙ x) (ap (λ s. s.verified) e ∙ y)
  move-Identity s mid after headers e (by_key key h x y z) =
      by_key key h (ap (λ s. s.spotter_id) e ∙ x) (ap (λ s. s.verified) e ∙ y) (
        subst
          (Vouched key s.message_id (headers (codes "x-user-signature"))
            (headers (codes "x-xml-signature")))
          (sym (ap (λ s. s.verified) e)) z)

  pub then-Completed :
      (s mid after : Spot) (headers : Headers)
      → Completed s headers mid
      → Filled mid after
      → Completed s headers after
  then-Completed s mid after headers m f = record {
    same = ap core f.same ∙ m.same;
    size = elim m.size [
      | inl e ↦ inl e
      | inr e ↦ elim f.size [
        | inl e' ↦ inl (subst (λ n. is_zero n ≡ true) e e')
        | inr e' ↦ inr (e' ∙ e)
      ]
    ];
    identity = move-Identity s mid after headers f.same m.identity;
  }

  pub enrich_from_headers-Completed :
      (s : Spot) (headers : Headers)
      → Completed s headers (enrich_from_headers c unmarshal s headers).0
  unfolding enrich_from_headers
  enrich_from_headers-Completed s headers =
      elim (Bool-cases (is_empty (trim_space (headers (codes "x-xml"))))) [
        | inl e ↦ rw (e, enrich_from_headers) (identified-Completed s headers)
        | inr e ↦
            let mid = identified c s headers in
            rw (e, enrich_from_headers)
              (then-Completed s mid _ headers (identified-Completed s headers)
                (enrich_from_xml-Filled mid (headers (codes "x-xml"))))
      ]

-- Where the two markers of an article's body stand such that its data would end before it starts.
pub record Crossed (s : Bytes) : Type 0 where
  pub start : ℕ
  pub stop : ℕ
  pub line : ℕ
  pub begins : index s (codes "=ybegin") ≡ some start
  pub ends : index s (codes "=yend") ≡ some stop
  pub newline : index (drop start s) (codes "\n") ≡ some line
  pub crossed : stop ≤ start + line

slice_decoded-panics :
    (c : Crypto) (s : Bytes) (from to : ℕ) → (slice_decoded c s from to ≡ panics) ↔ (to < from)
unfolding slice_decoded decode_payload
slice_decoded-panics c s from to = elim (Bool-cases (ltb to from)) [
  | inl e ↦ (λ h. ground (arith, e), λ h. ground (arith, e))
  | inr e ↦
      elim (Option-cases (
        c.decode_base64
          (replace_all (trim_space (take (to - from) (drop from s))) (codes "\n") []))) [
            | inl e' ↦ (λ h. absurd (ground (arith, e, e', h)), λ h. absurd (ground (arith, e, h)))
            | inr (b, e') ↦
                (λ h. absurd (ground (arith, e, e', h)), λ h. absurd (ground (arith, e, h)))
          ]
]

-- `DecodeBody` panics on exactly the bodies that hold both markers and a line feed behind the first
-- `=ybegin`, where the first `=yend` stands before the end of that line.
pub decode_body_panics_iff : (c : Crypto) (s : Bytes) → (decode_body c s ≡ panics) ↔ Crossed s
unfolding decode_body
decode_body_panics_iff c s = (panicked, crosses)
  where
    panicked : decode_body c s ≡ panics → Crossed s
    panicked h = elim (Option-cases (index s (codes "=ybegin"))) [
      | inl e ↦ absurd (ground (arith, e, h))
      | inr (start, e) ↦ elim (Option-cases (index s (codes "=yend"))) [
        | inl e' ↦ absurd (ground (arith, e, e', h))
        | inr (stop, e') ↦ elim (Option-cases (index (drop start s) (codes "\n"))) [
          | inl e'' ↦ absurd (ground (arith, e, e', e'', h))
          | inr (line, e'') ↦
              let sliced : slice_decoded c s (line + start + 1) stop ≡ panics =
                ground (arith, e, e', e'', h) in
              let less = (slice_decoded-panics c s (line + start + 1) stop).0 sliced in
              record {
                start = start;
                stop = stop;
                line = line;
                begins = e;
                ends = e';
                newline = e'';
                crossed = omega (arith, less);
              }
        ]
      ]
    ]

    crosses : Crossed s → decode_body c s ≡ panics
    crosses x =
        let sliced =
          (slice_decoded-panics c s (x.line + x.start + 1) x.stop).1 (omega (arith, x.crossed)) in
        rw (x.begins, x.ends, x.newline, decode_body) sliced
