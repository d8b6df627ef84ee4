-- ===== src/Sync/Env.antt =====
-- What the workers of internal/sync are given: the settings they read, and the news server and
-- the clock, which the program does not implement.
use spottr.Base.{ℕ, Bool, List, Option, Result, Error}
use spottr.Text.{Bytes}
use spottr.Nntp.{ArticleInfo, GroupInfo}
use spottr.Spotnet.Crypto.{Crypto}

-- The three values of MODERATION_MODE that the configuration admits.
pub data Mode : Type 0 where
  off mark delete : Mode

-- The fields of `Config` that the workers read.
pub record Settings : Type 0 where
  pub moderation_mode : Mode
  pub verify_signatures : Bool
  pub sync_lookback : ℕ

-- Headers by lower-case name; a missing one is the empty text, as a Go map reads it.
abbrev pub Headers : Type 0
Headers = Bytes → Bytes

-- The answers of one run on one connection: leasing it, GROUP, OVER on a range, and HEAD.
pub record Server : Type 0 where
  pub lease : Option Error
  pub select : Result GroupInfo
  pub overview : ℕ → ℕ → Result (List ArticleInfo)
  pub head : Bytes → Result Headers

pub record Env : Type 0 where
  pub crypto : Crypto
  pub now : ℕ
  pub settings : Settings
  pub server : Server

-- `overviewChunkSize`
abbrev pub overview_chunk_size : ℕ
overview_chunk_size = 5000
