-- ===== src/Sync/Ingest.antt =====
-- internal/sync: what the three walks make of the articles of an overview chunk. The forward sync
-- and the backfill filter alike; they differ in what they do with a withdrawal.
pub mod Filtered
use spottr.Base.{
  ℕ, ◌+◌, Bool, true, false, not, ◌&&◌, Option, none, some, List, [], ◌∷◌, ◌++◌, if◌then◌else◌,
  Result, ok, err,
}
use spottr.Text.{Bytes}
use spottr.Nntp.{ArticleInfo}
use spottr.Nntp.MsgId.{valid_message_id}
use spottr.Db.Tables.{Spot}
use spottr.Spotnet.Moderation.{ModerationCommand, parse_dispose}
use spottr.Spotnet.Parser.Overview.{parse_from_overview}
use spottr.Sync.Env.{Env}

pub data Verdict : Type 0 where
  skip : Verdict
  withdrawal : ModerationCommand → Verdict
  reject : Verdict
  accept : Spot → Verdict

module _ (env : Env) where
  -- The withdrawal that a spot is, if any, as the workers ask `ParseDispose`.
  unfoldable pub command_of_spot : Spot → Option ModerationCommand
  command_of_spot s =
      parse_dispose env.crypto s.title s.header_part s.poster s.header_sig s.self_signed_key
        s.message_id s.key_id s.posted_at

  unfoldable pub judge_spot : Spot → Bool → Verdict
  judge_spot s verified =
      if env.settings.verify_signatures && not verified
      then reject
      else if valid_message_id s.message_id
      then accept s
      else reject

  unfoldable pub judge_parsed : Result (Spot × Bool) → Verdict
  unfolding judge_spot
  judge_parsed (err e) = skip
  judge_parsed (ok (s, verified)) = elim (command_of_spot s) [
    | some cmd ↦ withdrawal cmd
    | none ↦ judge_spot s verified
  ]

  -- The body of the loop over the articles.
  unfoldable pub judge : ArticleInfo → Verdict
  unfolding judge_parsed
  judge ai = judge_parsed (parse_from_overview env.crypto env.now ai)

-- What a chunk comes to, in the order of its articles.
pub record Batch : Type 0 where
  pub spots : List Spot
  pub commands : List ModerationCommand
  pub control : ℕ
  pub rejected : ℕ

abbrev pub no_batch : Batch
no_batch = record { spots = []; commands = []; control = 0; rejected = 0 }

unfoldable pub add_verdict : Verdict → Batch → Batch
add_verdict skip b = b
add_verdict (withdrawal cmd) b = record b { commands = cmd ∷ b.commands; control = b.control + 1 }
add_verdict reject b = record b { rejected = b.rejected + 1 }
add_verdict (accept s) b = record b { spots = s ∷ b.spots }

-- The loop over the articles of a chunk.
unfoldable pub collect : Env → List ArticleInfo → Batch
unfolding add_verdict judge
collect env [] = no_batch
collect env (ai ∷ ais) = add_verdict (judge env ai) (collect env ais)
