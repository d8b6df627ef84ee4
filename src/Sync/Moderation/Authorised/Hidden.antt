-- ===== src/Sync/Moderation/Authorised/Hidden.antt =====
-- moderation.go: a spot that disappears was withdrawn by the moderator or by its owner.
use spottr.Base.{
  ◌≡◌, refl, sym, ◌∙◌, subst, true, false, ◌⊎◌, inl, inr, Option, none, some, List, [], ◌∷◌, arith,
  Bool-cases, Option-cases, Result-cases, Result, ok, Error, All, All-append, All-mono,
}
use spottr.Text.{Bytes, is_empty, eqb}
use spottr.Text.Laws.{eqb_iff}
use spottr.Db.Tables.{Db, next, fails}
use spottr.Db.Invariant.{shown}
use spottr.Db.Withdrawals.{
  DisposeTargetInfo, dispose_target, find_target, is_listed, delete_spots_by_message_id,
}
use spottr.Db.Withdrawals.Shown.{mark_moderated-shown, delete_spots-shown}
use spottr.Spotnet.Crypto.{Crypto}
use spottr.Spotnet.Moderation.{ModerationCommand, validate_dispose, within_dispose_window}
use spottr.Spotnet.Moderation.Authority.{Authorised, validate_dispose_iff}
use spottr.Sync.Env.{Mode, Headers}
use spottr.Sync.Moderation.{
  Round, owner_of, decide, consider_target, consider_found, consider, consider_all, withdraw,
  finish, apply_moderation, first_round, bump_unknown, bump_rejected, bump_unverified, queue,
}
use spottr.Sync.Moderation.Authorised.Owners.{
  Named, Traced, Traced-refl, Traced-next, owner_of-Found,
}

-- Membership in a batch.
abbrev pub Among : ModerationCommand → List ModerationCommand → Type 0
Among m [] = ⊥
Among m (x ∷ xs) = (m ≡ x) ⊎ Among m xs

Among-self : (ms : List ModerationCommand) → All (λ m. Among m ms) ms
Among-self [] = tt
Among-self (m ∷ ms) =
    (inl refl, All-mono (λ x. Among x ms) (λ x. Among x (m ∷ ms)) (λ x h. inr h) ms (Among-self ms))

module _ (c : Crypto) (head : Bytes → Result Headers) (cmds : List ModerationCommand)
    (d0 : Db) where
  -- The reason for which a spot of the store `d0` may be withdrawn.
  pub record Justified (id : Bytes) : Type 0 where
    pub command : ModerationCommand
    pub among : Among command cmds
    pub target : command.target_id ≡ id
    pub verified : command.verified ≡ true
    pub row : DisposeTargetInfo
    pub indexed : find_target id d0.spots ≡ some row
    pub authority :
        (command.moderator ≡ true)
        ⊎ ((owner : Bytes) × ((owner ≡ row.owner) ⊎ Named c head id owner)
            × Authorised command owner row.posted)

  record Fair (r : Round) : Type 0 where
    traced : Traced c head d0 r.db
    targets : All Justified r.targets

  queue-Fair : (id : Bytes) (r : Round) → Fair r → Justified id → Fair (queue id r)
  queue-Fair id r f j = record {
    traced = f.traced;
    targets = All-append Justified r.targets (id ∷ []) f.targets (j, tt);
  }

  same-Fair : (r r' : Round) → r'.db ≡ r.db → r'.targets ≡ r.targets → Fair r → Fair r'
  same-Fair r r' e e' f = record {
    traced = subst (Traced c head d0) (sym e) f.traced;
    targets = subst (All Justified) (sym e') f.targets;
  }

  module _ (m : ModerationCommand) (among : Among m cmds) (verified : m.verified ≡ true) where
    decide-Fair :
        (row : DisposeTargetInfo) (owner : Bytes) (r : Round)
        → Fair r
        → find_target m.target_id d0.spots ≡ some row
        → (owner ≡ []) ⊎ ((owner ≡ row.owner) ⊎ Named c head m.target_id owner)
        → Fair (decide c head m row.posted (owner, r))
    unfolding decide
    decide-Fair row owner r f found (inl e) =
        rw (e, decide) (same-Fair r (bump_unknown r) refl refl f)
    decide-Fair row owner r f found (inr source) = elim (Bool-cases (is_empty owner)) [
      | inl e ↦ rw (e, decide) (same-Fair r (bump_unknown r) refl refl f)
      | inr e ↦ elim (Bool-cases (validate_dispose m owner row.posted)) [
        | inr e' ↦ rw (e, e', decide) (same-Fair r (bump_rejected r) refl refl f)
        | inl e' ↦
            rw (e, e', decide)
              (queue-Fair m.target_id r f (record {
                command = m;
                among = among;
                target = refl;
                verified = verified;
                row = row;
                indexed = found;
                authority = inr (owner, source, (validate_dispose_iff m owner row.posted).0 e');
              }))
      ]
    ]

    consider_target-Fair :
        (t : DisposeTargetInfo) (r : Round)
        → Fair r
        → find_target m.target_id r.db.spots ≡ some t
        → Fair (consider_target c head m t r)
    unfolding consider_target
    consider_target-Fair t r f found =
        let (t0, f0, same, w) = f.traced.source m.target_id t found in
        elim (Bool-cases t.moderated) [
          | inl e ↦ rw (e, consider_target) f
          | inr e ↦ elim (Bool-cases m.moderator) [
            | inl e' ↦
                let r1 = queue m.target_id r in
                rw (e, e', consider_target)
                  (same-Fair r1 _ refl refl (
                    queue-Fair m.target_id r f (record {
                      command = m;
                      among = among;
                      target = refl;
                      verified = verified;
                      row = t0;
                      indexed = f0;
                      authority = inl e';
                    })))
            | inr e' ↦ elim (Bool-cases (within_dispose_window m t.posted)) [
              | inr e'' ↦
                  simp (e, e', e'', consider_target) (same-Fair r (bump_rejected r) refl refl f)
              | inl e'' ↦
                  let o = owner_of c head r m.target_id t.owner in
                  let g = owner_of-Found c head d0 r m.target_id t.owner f.traced in
                  let source : (o.0 ≡ []) ⊎ ((o.0 ≡ t0.owner) ⊎ Named c head m.target_id o.0) =
                    elim g.owner [
                      | inl q ↦ inl q
                      | inr (inr n) ↦ inr (inr n)
                      | inr (inl q) ↦ elim w [
                        | inl q' ↦ inr (inl (q ∙ q'))
                        | inr n ↦ inr (inr (subst (Named c head m.target_id) (sym q) n))
                      ]
                    ] in
                  let fair : Fair o.1 = record {
                    traced = g.traced;
                    targets = subst (All Justified) (sym g.same_targets) f.targets;
                  } in
                  simp (e, e', e'', consider_target)
                    (subst (λ n. Fair (decide c head m n o)) same
                      (decide-Fair t0 o.0 o.1 fair f0 source))
            ]
          ]
        ]

    consider_found-Fair :
        (t : Option DisposeTargetInfo) (r : Round)
        → Fair r
        → find_target m.target_id r.db.spots ≡ t
        → Fair (consider_found c head m t r)
    unfolding consider_found
    consider_found-Fair none r f found = same-Fair r _ refl refl f
    consider_found-Fair (some t) r f found = consider_target-Fair t r f found

  consider-Fair :
      (m : ModerationCommand) (r r' : Round)
      → Among m cmds
      → Fair r
      → consider c head m r ≡ ok r'
      → Fair r'
  unfolding consider dispose_target
  consider-Fair m r r' among f h = elim (Bool-cases m.verified) [
    | inr e ↦
        subst Fair {x = bump_unverified r} {y = r'} (ground arith)
          (same-Fair r (bump_unverified r) refl refl f)
    | inl e ↦ elim (Bool-cases (is_listed r.queued m.target_id)) [
      | inl e' ↦ subst Fair {x = r} {y = r'} (ground arith) f
      | inr e' ↦ elim (Bool-cases (fails r.db)) [
        | inl e'' ↦ absurd (ground arith)
        | inr e'' ↦
            let r1 : Round = record r { db = next r.db } in
            let t = find_target m.target_id r.db.spots in
            let f1 : Fair r1 = record {
              traced = Traced-next c head d0 r.db f.traced;
              targets = f.targets;
            } in
            subst Fair {x = consider_found c head m t r1} {y = r'} (ground arith)
              (consider_found-Fair m among e t r1 f1 refl)
      ]
    ]
  ]

  consider_all-Fair :
      (ms : List ModerationCommand) (r : Round)
      → All (λ m. Among m cmds) ms
      → Fair r
      → Fair (consider_all c head ms r).0
  unfolding consider_all
  consider_all-Fair [] r h f = f
  consider_all-Fair (m ∷ ms) r (among, h) f = elim (Result-cases (consider c head m r)) [
    | inl (x, e) ↦
        rw (e, consider_all)
          (record { traced = Traced-next c head d0 r.db f.traced; targets = f.targets })
    | inr (r', e) ↦
        rw (e, consider_all) (consider_all-Fair ms r' h (consider-Fair m r r' among f e))
  ]

  listed-Justified :
      (ids : List Bytes) (x : Bytes) → All Justified ids → is_listed ids x ≡ true → Justified x
  listed-Justified [] x a h = absurd (ground arith)
  listed-Justified (id ∷ ids) x (j, a) h = elim (Bool-cases (eqb x id)) [
    | inl e ↦ subst Justified (sym ((eqb_iff x id).0 e)) j
    | inr e ↦ listed-Justified ids x a (ground arith)
  ]

withdraw-shown :
    (mode : Mode) (ids : List Bytes) (d : Db) (x : Bytes)
    → is_listed ids x ≡ false
    → shown (withdraw mode ids d).2.spots x ≡ shown d.spots x
unfolding withdraw
withdraw-shown Mode.off ids d x h = refl
withdraw-shown Mode.mark ids d x h = mark_moderated-shown d ids x h
withdraw-shown Mode.delete ids d x h = elim (Option-cases (delete_spots_by_message_id d ids).1) [
  | inl e ↦ rw (e, withdraw) (mark_moderated-shown _ ids x h ∙ delete_spots-shown d ids x h)
  | inr (y, e) ↦ rw (e, withdraw) (delete_spots-shown d ids x h)
]

finish-shown :
    (mode : Mode) (p : Round × Option Error) (x : Bytes)
    → is_listed p.0.targets x ≡ false
    → shown (finish mode p).2.spots x ≡ shown p.0.db.spots x
unfolding finish
finish-shown mode (r, some e) x h = refl
finish-shown mode (r, none) x h = by_targets r.targets refl
  where
    by_targets :
        (ts : List Bytes)
        → r.targets ≡ ts
        → shown (finish mode (r, none)).2.spots x ≡ shown r.db.spots x
    by_targets [] e = rw (e, finish)
    by_targets (id ∷ ids) e = rw (e, finish) (withdraw-shown mode r.targets r.db x h)

all_shown :
    (c : Crypto) (head : Bytes → Result Headers) (mode : Mode) (cmds : List ModerationCommand)
    (d : Db) (id : Bytes)
    → shown d.spots id ≡ true
    → shown (finish mode (consider_all c head cmds (first_round d))).2.spots id ≡ false
    → Justified c head cmds d id
all_shown c head mode cmds d id before after =
    let p = consider_all c head cmds (first_round d) in
    let fair =
      consider_all-Fair c head cmds d cmds (first_round d) (Among-self cmds)
        (record { traced = Traced-refl c head d; targets = tt }) in
    elim (Bool-cases (is_listed p.0.targets id)) [
      | inl e ↦ listed-Justified c head cmds d p.0.targets id fair.targets e
      | inr e ↦ absurd (ground (arith, finish-shown mode p id e, fair.traced.same_shown id))
    ]

-- When a message-id is shown before `applyModeration` and no longer behind it, then the batch holds
-- a withdrawal that names it, whose own signature was verified, and the spot was indexed. Either the
-- withdrawal is the moderator's, or the spot's owner, as stored before the batch or as the key in
-- the article's X-User-Key header says, is the spotter that signed the withdrawal, no earlier than
-- the spot and at most five days after it. This is so in every mode and whatever fails.
pub apply_moderation_authorised :
    (c : Crypto) (head : Bytes → Result Headers) (mode : Mode) (cmds : List ModerationCommand)
    (d : Db) (id : Bytes)
    → shown d.spots id ≡ true
    → shown (apply_moderation c head mode cmds d).2.spots id ≡ false
    → Justified c head cmds d id
unfolding apply_moderation
apply_moderation_authorised c head Mode.off cmds d id before after = absurd (ground arith)
apply_moderation_authorised c head Mode.mark cmds d id before after =
    all_shown c head Mode.mark cmds d id before after
apply_moderation_authorised c head Mode.delete cmds d id before after =
    all_shown c head Mode.delete cmds d id before after
