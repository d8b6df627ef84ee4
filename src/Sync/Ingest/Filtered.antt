-- ===== src/Sync/Ingest/Filtered.antt =====
-- syncer.go and backfill.go: which spots of a chunk are stored.
use spottr.Base.{
  ◌≡◌, refl, subst, Bool, true, not, ◌&&◌, none, List, [], ◌∷◌, arith, Bool-cases, Option-cases,
  Result-cases, inl, inr, ok, All,
}
use spottr.Nntp.{ArticleInfo}
use spottr.Nntp.MsgId.{valid_message_id}
use spottr.Db.Tables.{Spot}
use spottr.Spotnet.Parser.Overview.{parse_from_overview}
use spottr.Sync.Env.{Env}
use spottr.Sync.Ingest.{
  Verdict, skip, withdrawal, reject, accept, command_of_spot, judge_spot, judge_parsed, judge,
  Batch, add_verdict, collect,
}

module _ (env : Env) where
  -- A spot that may be stored.
  pub record Accepted (s : Spot) : Type 0 where
    pub article : ArticleInfo
    pub proved : Bool
    pub parsed : parse_from_overview env.crypto env.now article ≡ ok (s, proved)
    pub signed : env.settings.verify_signatures ≡ true → proved ≡ true
    pub usable_id : valid_message_id s.message_id ≡ true
    pub no_command : command_of_spot env s ≡ none

  abbrev AcceptedOf : Verdict → Type 0
  AcceptedOf v = (s : Spot) → v ≡ accept s → Accepted s

  judge_spot-eq :
      (s t : Spot) (proved : Bool)
      → judge_spot env s proved ≡ accept t
      → (s ≡ t)
        × (env.settings.verify_signatures ≡ true → proved ≡ true)
        × (valid_message_id s.message_id ≡ true)
  unfolding judge_spot
  judge_spot-eq s t proved h = elim (Bool-cases (env.settings.verify_signatures && not proved)) [
    | inl e ↦ absurd (ground arith)
    | inr e ↦ elim (Bool-cases (valid_message_id s.message_id)) [
      | inl e' ↦ (ground arith, ground arith, e')
      | inr e' ↦ absurd (ground arith)
    ]
  ]

  judge-Accepted : (ai : ArticleInfo) → AcceptedOf (judge env ai)
  unfolding judge judge_parsed
  judge-Accepted ai t h = elim (Result-cases (parse_from_overview env.crypto env.now ai)) [
    | inl (x, e) ↦ absurd (ground arith)
    | inr ((s, proved), e) ↦ elim (Option-cases (command_of_spot env s)) [
      | inr (m, e') ↦ absurd (ground arith)
      | inl e' ↦
          let (same, signed, usable) = judge_spot-eq s t proved (ground arith) in
          subst Accepted same (record {
            article = ai;
            proved = proved;
            parsed = e;
            signed = signed;
            usable_id = usable;
            no_command = e';
          })
    ]
  ]

  add_verdict-All :
      (v : Verdict) (b : Batch)
      → AcceptedOf v
      → All Accepted b.spots
      → All Accepted (add_verdict v b).spots
  unfolding add_verdict
  add_verdict-All skip b h a = a
  add_verdict-All (withdrawal m) b h a = a
  add_verdict-All reject b h a = a
  add_verdict-All (accept s) b h a = (h s refl, a)

  -- Every spot that a chunk hands to the store is parsed from an article, is no withdrawal, has a
  -- message-id that NNTP accepts, and its header signature was verified if the settings ask for it.
  collect-Accepted : (ais : List ArticleInfo) → All Accepted (collect env ais).spots
  unfolding collect
  collect-Accepted [] = tt
  collect-Accepted (ai ∷ ais) =
      add_verdict-All (judge env ai) (collect env ais) (judge-Accepted ai) (collect-Accepted ais)
