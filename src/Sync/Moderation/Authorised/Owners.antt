-- ===== src/Sync/Moderation/Authorised/Owners.antt =====
-- moderation.go: where the owner of a target comes from, which `applyModeration` compares with the
-- spotter that signed a withdrawal.
use spottr.Base.{
  ◌≡◌, refl, sym, ◌∙◌, subst, Bool, not, ◌&&◌, ◌⊎◌, inl, inr, some, [], map, arith, Bool-cases,
  Option-cases, Result-cases, Result, ok, err, is_some,
}
use spottr.Text.{Bytes, codes, is_empty, eqb}
use spottr.Text.Laws.{eqb_iff}
use spottr.Db.Tables.{Db, next, fails}
use spottr.Db.Invariant.{shown}
use spottr.Db.Withdrawals.{DisposeTargetInfo, find_target, set_spot_owner, own_row}
use spottr.Db.Withdrawals.Shown.{set_spot_owner-shown, find_target-own}
use spottr.Spotnet.Crypto.{Crypto}
use spottr.Spotnet.Signing.{PublicKey, parse_user_key, spotter_id, verify_full_spot}
use spottr.Sync.Env.{Headers}
use spottr.Sync.Moderation.{Round, store_owner, lookup_owner, after_lookup, owner_of, bump_lookups}

module _ (c : Crypto) (head : Bytes → Result Headers) where
  -- The owner is the id of the key in the X-User-Key header of the spot's own article.
  abbrev pub Named : Bytes → Bytes → Type 0
  Named id owner =
      (headers : Headers) × (key : PublicKey) × (head id ≡ ok headers)
      × (parse_user_key c (headers (codes "x-user-key")) ≡ ok key)
      × (owner ≡ spotter_id c key.modulus)

  -- A store in which, since `d0`, only owners have changed, and each to the one that is named.
  pub record Traced (d0 d : Db) : Type 0 where
    pub same_shown : (x : Bytes) → shown d.spots x ≡ shown d0.spots x
    pub source :
        (x : Bytes) (t : DisposeTargetInfo)
        → find_target x d.spots ≡ some t
        → (t0 : DisposeTargetInfo) × (find_target x d0.spots ≡ some t0)
          × (t0.posted ≡ t.posted)
          × ((t.owner ≡ t0.owner) ⊎ Named x t.owner)

  pub Traced-refl : (d : Db) → Traced d d
  Traced-refl d = record { same_shown = λ x. refl; source = λ x t h. (t, h, refl, inl refl) }

  pub Traced-next : (d0 d : Db) → Traced d0 d → Traced d0 (next d)
  Traced-next d0 d h = record { same_shown = h.same_shown; source = h.source }

  -- The target behind the update, from the one before it.
  own-source :
      (d0 d : Db) (id o x : Bytes) (v : Bool) (t : DisposeTargetInfo)
      → Traced d0 d
      → Named id o
      → find_target x (map (own_row id o v) d.spots) ≡ some t
      → (t0 : DisposeTargetInfo) × (find_target x d0.spots ≡ some t0)
        × (t0.posted ≡ t.posted)
        × ((t.owner ≡ t0.owner) ⊎ Named x t.owner)
  own-source d0 d id o x v t h n found = elim (Option-cases (find_target x d.spots)) [
    | inl e ↦ absurd (ground (arith, e, find_target-own id o x v d.spots))
    | inr (s, e) ↦
        let (t0, f, p, w) = h.source x s e in
        elim (Bool-cases (eqb id x)) [
          | inl q ↦
              let same : id ≡ x = (eqb_iff id x).0 q in
              let eq : record s { owner = o } ≡ t =
                ground (arith, e, q, find_target-own id o x v d.spots) in
              (
                t0,
                f,
                ground (arith, eq),
                inr (
                    subst (λ y. Named y t.owner) same
                      (subst (λ (y : DisposeTargetInfo). Named id y.owner) eq n)),
              )
          | inr q ↦
              let eq : s ≡ t = ground (arith, e, q, find_target-own id o x v d.spots) in
              (
                t0,
                f,
                ground (arith, eq),
                subst (λ (y : DisposeTargetInfo). (y.owner ≡ t0.owner) ⊎ Named x y.owner) eq w,
              )
        ]
  ]

  set_spot_owner-Traced :
      (d0 d : Db) (id o : Bytes) (v : Bool)
      → Traced d0 d
      → Named id o
      → Traced d0 (set_spot_owner d id o v).1
  unfolding set_spot_owner
  set_spot_owner-Traced d0 d id o v h n = elim (Bool-cases (fails d)) [
    | inl e ↦ rw (e, set_spot_owner) (Traced-next d0 d h)
    | inr e ↦ record {
      same_shown = λ x. set_spot_owner-shown d id o x v ∙ h.same_shown x;
      source = λ x t f. own-source d0 d id o x v t h n (ground (arith, e, f));
    }
  ]

  store_owner-Traced :
      (d0 d : Db) (id : Bytes) (hs : Headers) (k : Result PublicKey)
      → Traced d0 d
      → head id ≡ ok hs
      → parse_user_key c (hs (codes "x-user-key")) ≡ k
      → Traced d0 (store_owner c head d id hs k).1
        × ((o : Bytes) → (store_owner c head d id hs k).0 ≡ ok o → (o ≡ []) ⊎ Named id o)
  unfolding store_owner
  store_owner-Traced d0 d id hs (err e) h eh ek = (h, λ o q. inl (ground arith))
  store_owner-Traced d0 d id hs (ok key) h eh ek =
      let o = spotter_id c key.modulus in
      let n : Named id o = (hs, key, eh, ek, refl) in
      let v =
        verify_full_spot c id key (hs (codes "x-user-signature")) (hs (codes "x-xml-signature")) in
      elim (Option-cases (set_spot_owner d id o v).0) [
        | inl e ↦ (
          rw (e, store_owner) (set_spot_owner-Traced d0 d id o v h n),
          λ p q. inr (subst (Named id) (ground (arith, e, q)) n),
        )
        | inr (x, e) ↦ (
          rw (e, store_owner) (set_spot_owner-Traced d0 d id o v h n),
          λ p q. absurd (ground (arith, e, q)),
        )
      ]

  lookup_owner-found :
      (d : Db) (id : Bytes) (hs : Headers)
      → head id ≡ ok hs
      → lookup_owner c head d id
        ≡ store_owner c head d id hs (parse_user_key c (hs (codes "x-user-key")))
  unfolding lookup_owner
  lookup_owner-found d id hs e = rw (e, lookup_owner)

  lookup_owner-Traced :
      (d0 d : Db) (id : Bytes)
      → Traced d0 d
      → Traced d0 (lookup_owner c head d id).1
        × ((o : Bytes) → (lookup_owner c head d id).0 ≡ ok o → (o ≡ []) ⊎ Named id o)
  unfolding lookup_owner
  lookup_owner-Traced d0 d id h = elim (Result-cases (head id)) [
    | inl (x, e) ↦ (rw (e, lookup_owner) h, λ o q. absurd (ground (arith, e, q)))
    | inr (hs, e) ↦
        subst
          (λ (p : Result Bytes × Db).
            Traced d0 p.1 × ((o : Bytes) → p.0 ≡ ok o → (o ≡ []) ⊎ Named id o))
          (sym (lookup_owner-found d id hs e))
          (store_owner-Traced d0 d id hs (parse_user_key c (hs (codes "x-user-key"))) h e refl)
  ]

  -- What `owner_of` gives: the targets as they were, and an owner that is unknown, stored or named.
  pub record Found (d0 : Db) (r : Round) (id stored : Bytes) (p : Bytes × Round) : Type 0 where
    pub traced : Traced d0 p.1.db
    pub same_targets : p.1.targets ≡ r.targets
    pub owner : (p.0 ≡ []) ⊎ ((p.0 ≡ stored) ⊎ Named id p.0)

  after_lookup-Found :
      (d0 : Db) (r : Round) (id stored : Bytes) (q : Result Bytes × Db)
      → Traced d0 q.1
      → ((o : Bytes) → q.0 ≡ ok o → (o ≡ []) ⊎ Named id o)
      → Found d0 r id stored (after_lookup c head r q)
  unfolding after_lookup
  after_lookup-Found d0 r id stored (ok o, d) h n = record {
    traced = h;
    same_targets = refl;
    owner = elim (n o refl) [ inl e ↦ inl e | inr e ↦ inr (inr e) ];
  }
  after_lookup-Found d0 r id stored (err e, d) h n = record {
    traced = h;
    same_targets = refl;
    owner = inl refl;
  }

  pub owner_of-Found :
      (d0 : Db) (r : Round) (id stored : Bytes)
      → Traced d0 r.db
      → Found d0 r id stored (owner_of c head r id stored)
  unfolding owner_of
  owner_of-Found d0 r id stored h =
      elim (Bool-cases (is_empty stored && not (is_some r.lookup_err))) [
        | inr e ↦
            rw (e, owner_of) (record { traced = h; same_targets = refl; owner = inr (inl refl) })
        | inl e ↦
            let (t, n) = lookup_owner-Traced d0 r.db id h in
            let f =
              after_lookup-Found d0 (bump_lookups r) id stored (lookup_owner c head r.db id) t n in
            rw (e, owner_of)
              (record { traced = f.traced; same_targets = f.same_targets; owner = f.owner })
      ]
