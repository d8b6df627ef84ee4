-- ===== src/Sync/Moderation/Safety.antt =====
-- moderation.go: `applyModeration` keeps the store's invariant and its records of withdrawals,
-- whatever the server answers and whichever statement fails.
use spottr.Base.{
  false, true, ℕ, ◌≡◌, refl, subst, not, ◌&&◌, Option, none, some, List, [], ◌∷◌, arith, Bool-cases,
  Option-cases, Result-cases, inl, inr, ◌⊎◌, Result, ok, err, Error, is_some,
}
use spottr.Text.{Bytes, codes, is_empty}
use spottr.Db.Tables.{Db, next, in_ring}
use spottr.Db.Invariant.{IsKept, shown, Hidden-shown}
use spottr.Db.Withdrawals.{
  DisposeTargetInfo, dispose_target, is_listed, delete_spots_by_message_id, set_spot_owner,
}
use spottr.Db.Safe.{
  Safe, Safe-refl, Safe-trans, Safe-next, mark_moderated-Safe, delete_spots-Safe,
  set_spot_owner-Safe,
}
use spottr.Spotnet.Crypto.{Crypto}
use spottr.Spotnet.Signing.{PublicKey, spotter_id, verify_full_spot}
use spottr.Spotnet.Moderation.{ModerationCommand}
use spottr.Sync.Env.{Mode, Headers}
use spottr.Sync.Moderation.{
  Round, store_owner, lookup_owner, after_lookup, owner_of, decide, consider_target, consider_found,
  consider, consider_all, withdraw, finish, apply_moderation, first_round, bump_lookups,
  bump_unverified,
}

module _ (c : Crypto) (head : Bytes → Result Headers) where
  store_owner-Safe :
      (d : Db) (id : Bytes) (h : Headers) (k : Result PublicKey)
      → Safe d (store_owner c head d id h k).1
  unfolding store_owner
  store_owner-Safe d id h (err e) = Safe-refl d
  store_owner-Safe d id h (ok key) =
      let owner = spotter_id c key.modulus in
      let verified =
        verify_full_spot c id key (h (codes "x-user-signature")) (h (codes "x-xml-signature")) in
      elim (Option-cases (set_spot_owner d id owner verified).0) [
        | inl e ↦ rw (e, store_owner) (set_spot_owner-Safe d id owner verified)
        | inr (x, e) ↦ rw (e, store_owner) (set_spot_owner-Safe d id owner verified)
      ]

  lookup_owner-Safe : (d : Db) (id : Bytes) → Safe d (lookup_owner c head d id).1
  unfolding lookup_owner
  lookup_owner-Safe d id = elim (Result-cases (head id)) [
    | inl (x, e) ↦ rw (e, lookup_owner) (Safe-refl d)
    | inr (hs, e) ↦ rw (e, lookup_owner) (store_owner-Safe d id hs _)
  ]

  after_lookup-db : (r : Round) (p : Result Bytes × Db) → (after_lookup c head r p).1.db ≡ p.1
  unfolding after_lookup
  after_lookup-db r (ok o, d) = refl
  after_lookup-db r (err e, d) = refl

  owner_of-Safe : (r : Round) (id stored : Bytes) → Safe r.db (owner_of c head r id stored).1.db
  unfolding owner_of
  owner_of-Safe r id stored = elim (Bool-cases (is_empty stored && not (is_some r.lookup_err))) [
    | inl e ↦
        rw (e, owner_of, after_lookup-db (bump_lookups r) (lookup_owner c head r.db id))
          (lookup_owner-Safe r.db id)
    | inr e ↦ rw (e, owner_of) (Safe-refl r.db)
  ]

  decide-db :
      (m : ModerationCommand) (n : ℕ) (p : Bytes × Round) → (decide c head m n p).db ≡ p.1.db
  unfolding decide
  decide-db m n (o, r) = ground arith

  consider_target-db :
      (m : ModerationCommand) (t : DisposeTargetInfo) (r : Round)
      → ((consider_target c head m t r).db ≡ r.db)
        ⊎ ((consider_target c head m t r).db ≡ (owner_of c head r m.target_id t.owner).1.db)
  unfolding consider_target
  consider_target-db m t r =
      ground (arith, decide-db m t.posted (owner_of c head r m.target_id t.owner))

  consider_target-Safe :
      (m : ModerationCommand) (t : DisposeTargetInfo) (r : Round)
      → Safe r.db (consider_target c head m t r).db
  consider_target-Safe m t r = elim (consider_target-db m t r) [
    | inl e ↦ rw e (Safe-refl r.db)
    | inr e ↦ rw e (owner_of-Safe r m.target_id t.owner)
  ]

  consider_found-Safe :
      (m : ModerationCommand) (t : Option DisposeTargetInfo) (r : Round)
      → Safe r.db (consider_found c head m t r).db
  unfolding consider_found
  consider_found-Safe m none r = Safe-refl r.db
  consider_found-Safe m (some t) r = consider_target-Safe m t r

  consider-Safe :
      (m : ModerationCommand) (r r' : Round) → consider c head m r ≡ ok r' → Safe r.db r'.db
  unfolding consider
  consider-Safe m r r' h = elim (Bool-cases (not m.verified)) [
    | inl e ↦
        subst (λ (x : Round). Safe r.db x.db) {x = bump_unverified r} {y = r'} (ground arith)
          (Safe-refl r.db)
    | inr e ↦ elim (Bool-cases (is_listed r.queued m.target_id)) [
      | inl e' ↦
          subst (λ (x : Round). Safe r.db x.db) {x = r} {y = r'} (ground arith) (Safe-refl r.db)
      | inr e' ↦ elim (Result-cases (dispose_target r.db m.target_id)) [
        | inl (x, e'') ↦ absurd (ground arith)
        | inr (t, e'') ↦
            let r1 : Round = record r { db = next r.db } in
            subst (λ (x : Round). Safe r.db x.db) {x = consider_found c head m t r1} {y = r'}
              (ground arith) (Safe-trans (Safe-next r.db) (consider_found-Safe m t r1))
      ]
    ]
  ]

  consider_all-Safe :
      (cmds : List ModerationCommand) (r : Round) → Safe r.db (consider_all c head cmds r).0.db
  unfolding consider_all
  consider_all-Safe [] r = Safe-refl r.db
  consider_all-Safe (m ∷ cmds) r = elim (Result-cases (consider c head m r)) [
    | inl (x, e) ↦ rw (e, consider_all) (Safe-next r.db)
    | inr (r', e) ↦
        rw (e, consider_all) (Safe-trans (consider-Safe m r r' e) (consider_all-Safe cmds r'))
  ]

withdraw-Safe : (mode : Mode) (ids : List Bytes) (d : Db) → Safe d (withdraw mode ids d).2
unfolding withdraw
withdraw-Safe Mode.off ids d = Safe-refl d
withdraw-Safe Mode.mark ids d = mark_moderated-Safe d ids
withdraw-Safe Mode.delete ids d = elim (Option-cases (delete_spots_by_message_id d ids).1) [
  | inl e ↦ rw (e, withdraw) (Safe-trans (delete_spots-Safe d ids) (mark_moderated-Safe _ ids))
  | inr (x, e) ↦ rw (e, withdraw) (delete_spots-Safe d ids)
]

finish-Safe : (mode : Mode) (p : Round × Option Error) → Safe p.0.db (finish mode p).2
unfolding finish
finish-Safe mode (r, some e) = Safe-refl r.db
finish-Safe mode (r, none) = by_targets r.targets refl
  where
    by_targets : (ts : List Bytes) → r.targets ≡ ts → Safe r.db (finish mode (r, none)).2
    by_targets [] e = rw (e, finish) (Safe-refl r.db)
    by_targets (id ∷ ids) e = rw (e, finish) (withdraw-Safe mode _ r.db)

-- The withdrawals of a batch keep the store's invariant, forget no earlier withdrawal and move no
-- checkpoint.
pub apply_moderation-Safe :
    (c : Crypto) (head : Bytes → Result Headers) (mode : Mode) (cmds : List ModerationCommand)
    (d : Db)
    → Safe d (apply_moderation c head mode cmds d).2
unfolding apply_moderation
apply_moderation-Safe c head Mode.off cmds d = Safe-refl d
apply_moderation-Safe c head Mode.mark cmds d =
    Safe-trans (consider_all-Safe c head cmds (first_round d))
      (finish-Safe Mode.mark (consider_all c head cmds (first_round d)))
apply_moderation-Safe c head Mode.delete cmds d =
    Safe-trans (consider_all-Safe c head cmds (first_round d))
      (finish-Safe Mode.delete (consider_all c head cmds (first_round d)))

-- A recorded withdrawal outlasts a batch of withdrawals: when the store satisfies its invariant and
-- the ring holds a message-id, then behind `applyModeration` both are still so, no row with that
-- message-id is shown, and no checkpoint has moved. This is so in every mode, for every answer of
-- the server and every outcome of each statement.
pub apply_moderation_keeps_withdrawn :
    (c : Crypto) (head : Bytes → Result Headers) (mode : Mode) (cmds : List ModerationCommand)
    (d : Db) (id : Bytes)
    → IsKept d.spots d.ring
    → in_ring d.ring id ≡ true
    → let d' = (apply_moderation c head mode cmds d).2 in
      IsKept d'.spots d'.ring
      × (in_ring d'.ring id ≡ true)
      × (shown d'.spots id ≡ false)
      × (d'.progress ≡ d.progress)
apply_moderation_keeps_withdrawn c head mode cmds d id kept listed =
    let s = apply_moderation-Safe c head mode cmds d in
    let d' = (apply_moderation c head mode cmds d).2 in
    (
      s.invariant kept,
      s.remembers id listed,
      Hidden-shown d'.ring d'.spots id (s.invariant kept).hidden (s.remembers id listed),
      s.checkpoints,
    )
