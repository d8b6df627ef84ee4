-- ===== src/Nntp.antt =====
-- internal/nntp: what the other packages use of it.
pub mod MsgId
pub mod Pool
pub mod Wire
pub mod Client
use spottr.Base.{ℕ}
use spottr.Text.{Bytes}
use spottr.Text.Numbers.{ℤ}

-- `ArticleInfo`. A date is in nanoseconds after 1970; 0 stands for the zero time.
pub record ArticleInfo : Type 0 where
  pub article_num : ℕ
  pub subject : Bytes
  pub from : Bytes
  pub date : ℕ
  pub message_id : Bytes
  pub references : Bytes
  pub bytes : ℤ
  pub lines : ℤ

pub record GroupInfo : Type 0 where
  pub name : Bytes
  pub count : ℕ
  pub first : ℕ
  pub last : ℕ
