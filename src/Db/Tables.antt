-- ===== src/Db/Tables.antt =====
-- internal/db/db.go and schema.go: the spots, the tables, and what a statement may do. Every
-- statement takes the next outcome from `faults`, where true is an error of SQLite; an empty list
-- means that all statements to come succeed.
use spottr.Base.{ℕ, ◌^◌, Bool, false, List, [], ◌∷◌, exists}
use spottr.Text.{Bytes, eqb}
use spottr.Text.Numbers.{ℤ}

-- `Spot`. `posted_at` is in nanoseconds after 1970.
pub record Spot : Type 0 where
  pub message_id : Bytes
  pub article_num : ℕ
  pub title : Bytes
  pub description : Bytes
  pub poster : Bytes
  pub posted_at : ℕ
  pub tag : Bytes
  pub nzb_id : Bytes
  pub category : ℕ
  pub sub_cat_a : Bytes
  pub sub_cat_b : Bytes
  pub sub_cat_c : Bytes
  pub sub_cat_d : Bytes
  pub size : ℤ
  pub image_url : Bytes
  pub verified : Bool
  pub moderated : Bool
  pub is_adult : Bool
  pub spotter_id : Bytes
  pub kind : ℕ
  pub key_id : ℕ
  pub header_part : Bytes
  pub header_sig : Bytes
  pub self_signed_key : Bytes

-- A row of the table `spots`: the id, and the persisted fields of a spot. Time is in seconds.
pub record Row : Type 0 where
  pub id : ℕ
  pub message_id : Bytes
  pub article_num : ℕ
  pub title : Bytes
  pub description : Bytes
  pub poster : Bytes
  pub posted_at : ℕ
  pub tag : Bytes
  pub nzb_id : Bytes
  pub category : ℕ
  pub sub_cat_a : Bytes
  pub sub_cat_b : Bytes
  pub sub_cat_c : Bytes
  pub sub_cat_d : Bytes
  pub size : ℤ
  pub image_url : Bytes
  pub verified : Bool
  pub moderated : Bool
  pub is_adult : Bool
  pub spotter_id : Bytes
  pub kind : ℕ

-- A row of `moderated_ring`.
pub record Withdrawn : Type 0 where
  pub message_id : Bytes
  pub stamp : ℕ

-- A row of `sync_state`, without `last_sync_at`, which nothing reads.
pub record Progress : Type 0 where
  pub group_name : Bytes
  pub last_article_num : ℕ
  pub backfill_article_num : ℕ
  pub dispose_sweep_article_num : ℕ

-- The tables that synchronisation works on, and the ids to come; `clock` is `unixepoch()`.
pub record Db : Type 0 where
  pub spots : List Row
  pub next_id : ℕ
  pub ring : List Withdrawn
  pub progress : List Progress
  pub clock : ℕ
  pub faults : List Bool

abbrev pub head_fault : List Bool → Bool
head_fault [] = false
head_fault (b ∷ bs) = b

abbrev pub later_faults : List Bool → List Bool
later_faults [] = []
later_faults (b ∷ bs) = bs

-- Whether the next statement fails, and the store behind that statement's outcome.
abbrev pub fails : Db → Bool
fails d = head_fault d.faults

abbrev pub next : Db → Db
next d = record d { faults = later_faults d.faults }

-- A transaction that ends without a commit: the tables of `d`, the outcomes left in `d'`.
abbrev pub rollback : Db → Db → Db
rollback d d' = record d { faults = d'.faults }

abbrev pub nanos : ℕ
nanos = 10 ^ 9

abbrev pub has_id : Bytes → Row → Bool
has_id id r = eqb r.message_id id

abbrev pub in_ring : List Withdrawn → Bytes → Bool
in_ring ring id = exists (λ (w : Withdrawn). eqb w.message_id id) ring

abbrev pub in_spots : List Row → Bytes → Bool
in_spots rows id = exists (has_id id) rows
