-- ===== src/Tests/Sync.antt =====
-- internal/sync at concrete inputs.
use spottr.Base.{true, false, [], ◌∷◌, refl, ◌≡◌, Error, Result, ok, err, some, arith}
use spottr.Text.{Bytes, codes, eqb}
use spottr.Db.Tables.{Db, in_ring, next}
use spottr.Db.Withdrawals.{dispose_target, mark_moderated}
use spottr.Db.Spots.{commit}
use spottr.Db.Invariant.{IsKept, shown}
use spottr.Db.Progress.{find_progress, get_sync_state}
use spottr.Spotnet.Moderation.{ModerationCommand}
use spottr.Sync.Env.{Env, Mode}
use spottr.Sync.Moderation.{apply_moderation, consider}
use spottr.Sync.Moderation.Authorised.Hidden.{Justified, apply_moderation_authorised}
use spottr.Sync.Forward.{sync_group}
use spottr.Sync.Forward.Safety.{sync_group_keeps_withdrawn}
use spottr.Db.Progress.Columns.{column}
use spottr.Sync.Backfill.{backfill_chunk, backfill_group}
use spottr.Sync.Backfill.Watermark.{
  backfill_keeps_withdrawn, backfill_never_begins, backfill_group_ends,
}
use spottr.Tests.Data.{hidden_row, env, store}
use spottr.Tests.Store.{store-IsKept}

abbrev group : Bytes
group = codes "free.pt"

-- A server whose overviews fail.
abbrev broken : Env
broken = record env { server = record env.server { overview = λ from to. err Error.net_error } }

-- A withdrawal that the moderator signed.
abbrev by_moderator : ModerationCommand
by_moderator = record {
  action = codes "dispose";
  target_id = codes "<x@y>";
  spotter = [];
  verified = true;
  stamp = 0;
  moderator = true;
}

sync_group_keeps_withdrawn_example :
    let d = (sync_group env group (λ n. false) store).1.db in
    IsKept d.spots d.ring
    × (in_ring d.ring (codes "<a@b>") ≡ true)
    × (shown d.spots (codes "<a@b>") ≡ false)
unfolding eqb
sync_group_keeps_withdrawn_example =
    sync_group_keeps_withdrawn env group (λ n. false) store (codes "<a@b>") store-IsKept refl

backfill_keeps_withdrawn_example :
    let d = (backfill_group (λ n. env) group (λ n. false) 3 store).1 in
    IsKept d.spots d.ring
    × (in_ring d.ring (codes "<a@b>") ≡ true)
    × (shown d.spots (codes "<a@b>") ≡ false)
unfolding eqb
backfill_keeps_withdrawn_example =
    backfill_keeps_withdrawn (λ n. env) group (λ n. false) 3 store (codes "<a@b>") store-IsKept refl

backfill_never_begins_example :
    let d = (sync_group env group (λ n. true) store).1.db in
    (column (λ p. p.backfill_article_num) d.progress group ≡ 0)
    × (backfill_chunk env group d ≡ (ok true, next d))
unfolding sync_group find_progress eqb get_sync_state
backfill_never_begins_example =
    backfill_never_begins env env group (λ n. true) store
      (record { name = codes "free.pt"; count = 41; first = 1; last = 41 }) refl refl refl refl

backfill_group_ends_example :
    (r : Result (Unit {0})) × ((backfill_group (λ n. env) group (λ n. false) 1 store).0 ≡ some r)
unfolding find_progress eqb
backfill_group_ends_example =
    backfill_group_ends (λ n. env) group (λ n. false) 1 store (omega arith)

-- The store with a spot that is shown, which the moderator withdraws.
abbrev shown_store : Db
shown_store = record store {
  spots = record hidden_row { message_id = codes "<x@y>"; moderated = false } ∷ [];
}

apply_moderation_authorised_example :
    Justified env.crypto env.server.head (by_moderator ∷ []) shown_store (codes "<x@y>")
unfolding eqb apply_moderation consider dispose_target mark_moderated commit
apply_moderation_authorised_example =
    apply_moderation_authorised env.crypto env.server.head Mode.mark (by_moderator ∷ []) shown_store
      (codes "<x@y>") refl refl
