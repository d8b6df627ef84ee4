-- ===== src/Sync/Moderation.antt =====
-- internal/sync/moderation.go: honouring withdrawals.
pub mod Safety
pub mod Authorised
use spottr.Base.{
  ℕ, ◌+◌, Bool, true, false, not, ◌&&◌, Option, none, some, List, [], ◌∷◌, ◌++◌, if◌then◌else◌,
  is_some, Result, ok, err, Error, no_such_article,
}
use spottr.Text.{Bytes, codes, is_empty}
use spottr.Db.Tables.{Db, next}
use spottr.Db.Withdrawals.{
  DisposeTargetInfo, dispose_target, is_listed, mark_moderated, delete_spots_by_message_id,
  set_spot_owner,
}
use spottr.Spotnet.Crypto.{Crypto}
use spottr.Spotnet.Signing.{PublicKey, parse_user_key, spotter_id, verify_full_spot}
use spottr.Spotnet.Moderation.{ModerationCommand, within_dispose_window, validate_dispose}
use spottr.Sync.Env.{Mode, Headers}

-- `ModerationStats`
pub record ModerationStats : Type 0 where
  pub applied : ℕ
  pub rejected : ℕ
  pub no_target : ℕ
  pub unverified : ℕ
  pub owner_lookups : ℕ
  pub owner_unknown : ℕ
  pub by_moderator : ℕ

abbrev pub no_stats : ModerationStats
no_stats = record {
  applied = 0;
  rejected = 0;
  no_target = 0;
  unverified = 0;
  owner_lookups = 0;
  owner_unknown = 0;
  by_moderator = 0;
}

-- The variables of the loop in `applyModeration`.
pub record Round : Type 0 where
  pub stats : ModerationStats
  pub targets : List Bytes
  pub queued : List Bytes
  pub lookup_err : Option Error
  pub db : Db

abbrev pub bump_rejected : Round → Round
bump_rejected r = record r { stats = let s = r.stats in record s { rejected = s.rejected + 1 } }

abbrev pub bump_no_target : Round → Round
bump_no_target r = record r { stats = let s = r.stats in record s { no_target = s.no_target + 1 } }

abbrev pub bump_unverified : Round → Round
bump_unverified r = record r {
  stats = let s = r.stats in record s { unverified = s.unverified + 1 };
}

abbrev pub bump_lookups : Round → Round
bump_lookups r = record r {
  stats = let s = r.stats in record s { owner_lookups = s.owner_lookups + 1 };
}

abbrev pub bump_unknown : Round → Round
bump_unknown r = record r {
  stats = let s = r.stats in record s { owner_unknown = s.owner_unknown + 1 };
}

abbrev pub bump_moderator : Round → Round
bump_moderator r = record r {
  stats = let s = r.stats in record s { by_moderator = s.by_moderator + 1 };
}

abbrev pub queue : Bytes → Round → Round
queue id r = record r { targets = r.targets ++ id ∷ []; queued = id ∷ r.queued }

module _ (c : Crypto) (head : Bytes → Result Headers) where
  -- The owner that a parsed key names, stored with the spot.
  unfoldable pub store_owner : Db → Bytes → Headers → Result PublicKey → Result Bytes × Db
  store_owner d id headers (err e) = (ok [], d)
  store_owner d id headers (ok key) =
      let owner = spotter_id c key.modulus in
      let verified =
        verify_full_spot c id key (headers (codes "x-user-signature"))
          (headers (codes "x-xml-signature")) in
      elim (set_spot_owner d id owner verified).0 [
        | some e ↦ (err e, (set_spot_owner d id owner verified).1)
        | none ↦ (ok owner, (set_spot_owner d id owner verified).1)
      ]

  -- `lookupOwner`
  unfoldable pub lookup_owner : Db → Bytes → Result Bytes × Db
  unfolding store_owner
  lookup_owner d id = elim (head id) [
    | err e ↦ (err e, d)
    | ok headers ↦ store_owner d id headers (parse_user_key c (headers (codes "x-user-key")))
  ]

  -- An expired article leaves the owner unknown; any other error stops further lookups.
  unfoldable pub keep_lookup_error : Error → Option Error
  keep_lookup_error no_such_article = none
  keep_lookup_error e = some e

  unfoldable pub after_lookup : Round → Result Bytes × Db → Bytes × Round
  after_lookup r (ok owner, d) = (owner, record r { db = d; lookup_err = none })
  after_lookup r (err e, d) = ([], record r { db = d; lookup_err = keep_lookup_error e })

  -- The owner of a target: stored, or read from the server unless an earlier reading failed.
  unfoldable pub owner_of : Round → Bytes → Bytes → Bytes × Round
  unfolding after_lookup
  owner_of r id stored =
      if is_empty stored && not (is_some r.lookup_err)
      then after_lookup (bump_lookups r) (lookup_owner r.db id)
      else (stored, r)

  unfoldable pub decide : ModerationCommand → ℕ → Bytes × Round → Round
  decide cmd posted (owner, r) =
      if is_empty owner
      then bump_unknown r
      else if validate_dispose cmd owner posted
      then queue cmd.target_id r
      else bump_rejected r

  unfoldable pub consider_target : ModerationCommand → DisposeTargetInfo → Round → Round
  unfolding decide
  consider_target cmd t r =
      if t.moderated
      then r
      else if cmd.moderator
      then bump_moderator (queue cmd.target_id r)
      else if within_dispose_window cmd t.posted
      then decide cmd t.posted (owner_of r cmd.target_id t.owner)
      else bump_rejected r

  unfoldable pub consider_found : ModerationCommand → Option DisposeTargetInfo → Round → Round
  unfolding consider_target
  consider_found cmd none r = bump_no_target r
  consider_found cmd (some t) r = consider_target cmd t r

  -- One round: the command's own signature, the batch's duplicates, then its target. `err` is the
  -- early return on a failed query.
  unfoldable pub consider : ModerationCommand → Round → Result Round
  unfolding consider_found
  consider cmd r =
      if not cmd.verified
      then ok (bump_unverified r)
      else if is_listed r.queued cmd.target_id
      then ok r
      else elim (dispose_target r.db cmd.target_id) [
        | err e ↦ err e
        | ok found ↦ ok (consider_found cmd found (record r { db = next r.db }))
      ]

  -- The loop: the last state, and the error that broke it off.
  unfoldable pub consider_all : List ModerationCommand → Round → Round × Option Error
  consider_all [] r = (r, none)
  consider_all (cmd ∷ cmds) r = elim (consider cmd r) [
    | err e ↦ (record r { db = next r.db }, some e)
    | ok r' ↦ consider_all cmds r'
  ]

-- The `switch` on the mode, with the count of spots that were hidden or removed.
unfoldable pub withdraw : Mode → List Bytes → Db → ℕ × Option Error × Db
withdraw Mode.off ids d = (0, none, d)
withdraw Mode.mark ids d = mark_moderated d ids
withdraw Mode.delete ids d = elim (delete_spots_by_message_id d ids).1 [
  | some e ↦ delete_spots_by_message_id d ids
  | none ↦ (
    (delete_spots_by_message_id d ids).0,
    (mark_moderated (delete_spots_by_message_id d ids).2 ids).1,
    (mark_moderated (delete_spots_by_message_id d ids).2 ids).2,
  )
]

abbrev with_applied : ModerationStats → ℕ → ModerationStats
with_applied s n = record s { applied = n }

-- The end of `applyModeration`, behind the loop.
unfoldable pub finish : Mode → Round × Option Error → ModerationStats × Option Error × Db
unfolding withdraw
finish mode (r, some e) = (r.stats, some e, r.db)
finish mode (r, none) =
    let w = withdraw mode r.targets r.db in
    elim r.targets [
      | [] ↦ (r.stats, r.lookup_err, r.db)
      | id ∷ ids ↦
          (with_applied r.stats w.0, elim w.1 [ some e ↦ some e | none ↦ r.lookup_err ], w.2)
    ]

abbrev pub first_round : Db → Round
first_round d = record { stats = no_stats; targets = []; queued = []; lookup_err = none; db = d }

-- `applyModeration`
unfoldable pub apply_moderation :
    Crypto
    → (Bytes → Result Headers)
    → Mode
    → List ModerationCommand
    → Db
    → ModerationStats × Option Error × Db
unfolding finish consider_all
apply_moderation c head Mode.off cmds d = (no_stats, none, d)
apply_moderation c head Mode.mark cmds d =
    finish Mode.mark (consider_all c head cmds (first_round d))
apply_moderation c head Mode.delete cmds d =
    finish Mode.delete (consider_all c head cmds (first_round d))
