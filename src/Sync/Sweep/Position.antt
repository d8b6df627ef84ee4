-- ===== src/Sync/Sweep/Position.antt =====
-- disposesweep.go: the position of the sweep.
use spottr.Base.{
  ℕ, ◌+◌, ◌≡◌, refl, ap, sym, subst, Bool, Option, none, some, List, arith, Bool-cases,
  Option-cases, Result-cases, inl, inr, ◌⊎◌, ok, err, Error, ltb, leb, if◌then◌else◌,
}
use spottr.Text.{Bytes}
use spottr.Nntp.{ArticleInfo, GroupInfo}
use spottr.Db.Tables.{Db, fails}
use spottr.Db.Progress.{set_dispose_sweep_state, update_progress}
use spottr.Sync.Env.{Env}
use spottr.Sync.Moderation.{ModerationStats, apply_moderation}
use spottr.Sync.Moderation.Safety.{apply_moderation-Safe}
use spottr.Sync.Sweep.{SweepStep, commands_in, save_position, read_range}

module _ (env : Env) (group : Bytes) where
  -- The range's last article.
  abbrev pub range_end : ℕ → ℕ → ℕ
  range_end end pos = if ltb end (pos + 5000) then end else pos + 5000

  -- What a range of the sweep that succeeds did: all its withdrawals were applied without an error,
  -- and only then its last article became the position.
  pub record Advanced (end pos : ℕ) (d d' : Db) (done : Bool) : Type 0 where
    pub articles : List ArticleInfo
    pub read : env.server.overview (pos + 1) (range_end end pos) ≡ ok articles
    pub behind : Db
    pub applied :
        (apply_moderation env.crypto env.server.head env.settings.moderation_mode
          (commands_in env group articles)
          d).1
        ≡ none
    pub behind_eq :
        (apply_moderation env.crypto env.server.head env.settings.moderation_mode
          (commands_in env group articles)
          d).2
        ≡ behind
    pub stored :
        d'.progress
        ≡ update_progress group
            (λ p. record p { dispose_sweep_article_num = range_end end pos })
            d.progress
    pub complete : done ≡ leb end (range_end end pos)

  abbrev pub Outcome : ℕ → ℕ → Db → SweepStep → Type 0
  Outcome end pos d step =
      ((e : Error) × (step.0 ≡ err e) × (step.2.progress ≡ d.progress))
      ⊎ ((done : Bool) × (step.0 ≡ ok done) × Advanced end pos d step.2 done)

  save_position-Outcome :
      (end pos : ℕ) (d : Db) (ais : List ArticleInfo) (r : ModerationStats × Option Error × Db)
      → env.server.overview (pos + 1) (range_end end pos) ≡ ok ais
      → apply_moderation env.crypto env.server.head env.settings.moderation_mode
          (commands_in env group ais)
          d
        ≡ r
      → r.2.progress ≡ d.progress
      → Outcome end pos d (save_position env group end (range_end end pos) r)
  unfolding save_position set_dispose_sweep_state
  save_position-Outcome end pos d ais (st, some x, d') h same kept = inl (x, refl, kept)
  save_position-Outcome end pos d ais (st, none, d') h same kept = elim (Bool-cases (fails d')) [
    | inl f ↦
        inl (Error.sql_error, rw (f, save_position, set_dispose_sweep_state), ground (arith, kept))
    | inr f ↦ inr (
      leb end (range_end end pos),
      rw (f, save_position, set_dispose_sweep_state),
      record {
        articles = ais;
        read = h;
        behind = d';
        applied = ap (λ (p : ModerationStats × Option Error × Db). p.1) same;
        behind_eq = ap (λ (p : ModerationStats × Option Error × Db). p.2) same;
        stored = ground (arith, kept);
        complete = refl;
      },
    )
  ]

  range_read :
      (end pos : ℕ) (d : Db) (gi : GroupInfo) (ais : List ArticleInfo)
      → env.server.lease ≡ none
      → env.server.select ≡ ok gi
      → env.server.overview (pos + 1) (range_end end pos) ≡ ok ais
      → read_range env group end pos d
        ≡ save_position env group end (range_end end pos) (
            apply_moderation env.crypto env.server.head env.settings.moderation_mode
              (commands_in env group ais)
              d)
  unfolding read_range
  range_read end pos d gi ais e e' e'' = simp (e, e', e'', read_range)

  -- A range of the sweep either returns an error and moves no checkpoint, or it read the range that
  -- begins behind the position, applied its withdrawals without an error, and recorded the range's
  -- last article, and it reports that the sweep is complete exactly when that is the sweep's end.
  pub read_range-Outcome :
      (end pos : ℕ) (d : Db) → Outcome end pos d (read_range env group end pos d)
  unfolding read_range
  read_range-Outcome end pos d = elim (Option-cases env.server.lease) [
    | inr (x, e) ↦ inl (x, rw (e, read_range), rw (e, read_range))
    | inl e ↦ elim (Result-cases env.server.select) [
      | inl (x, e') ↦ inl (x, rw (e, e', read_range), rw (e, e', read_range))
      | inr (gi, e') ↦ elim (Result-cases (env.server.overview (pos + 1) (range_end end pos))) [
        | inl (x, e'') ↦ inl (x, rw (e, e', e'', read_range), rw (e, e', e'', read_range))
        | inr (ais, e'') ↦ subst (Outcome end pos d) (sym (range_read end pos d gi ais e e' e'')) (
            save_position-Outcome end pos d ais _ e'' refl
              (apply_moderation-Safe env.crypto env.server.head env.settings.moderation_mode
                (commands_in env group ais) d).checkpoints)
      ]
    ]
  ]
