-- ===== src/Db/Schema.antt =====
-- internal/db/schema.go and the list of migrations.go: the texts that SQLite is given when the
-- program starts. Comments of the Go code are left out.
use spottr.Base.{ℕ, String, Option, none, some, List, [], ◌∷◌, ◌++◌, map}
use spottr.Text.{Bytes, codes, join}
use spottr.Db.Kind.{erotic_genres, book_codes, picture_codes}

-- A text of several lines.
abbrev pub lines : List String → Bytes
lines [] = []
lines (l ∷ []) = codes l
lines (l ∷ l' ∷ ls) = codes l ++ codes "\n" ++ lines (l' ∷ ls)

-- `Schema`
abbrev pub schema : Bytes
schema = lines (
    "" ∷ "PRAGMA journal_mode = WAL;" ∷ "PRAGMA foreign_keys = ON;" ∷ "PRAGMA synchronous = NORMAL;"
    ∷ "PRAGMA temp_store = MEMORY;" ∷ "" ∷ "-- Core spots table"
    ∷ "CREATE TABLE IF NOT EXISTS spots (" ∷ "    id          INTEGER PRIMARY KEY AUTOINCREMENT,"
    ∷ "    message_id  TEXT    NOT NULL UNIQUE,         -- NNTP Message-ID"
    ∷ "    article_num INTEGER NOT NULL,                 -- NNTP article number"
    ∷ "    title       TEXT    NOT NULL," ∷ "    description TEXT    NOT NULL DEFAULT '',"
    ∷ "    poster      TEXT    NOT NULL,"
    ∷ "    posted_at   INTEGER NOT NULL,                 -- Unix timestamp"
    ∷ "    tag         TEXT    NOT NULL DEFAULT '',"
    ∷ "    nzb_id      TEXT    NOT NULL DEFAULT '',      -- Message-ID of the NZB article"
    ∷ "    category    INTEGER NOT NULL DEFAULT 0,       -- Main category (0=image,1=audio,2=game,3=app)"
    ∷ "    sub_cat_a   TEXT    NOT NULL DEFAULT '',       -- Subcategory list A (pipe-separated, e.g. \"a2|a5|\")"
    ∷ "    sub_cat_b   TEXT    NOT NULL DEFAULT '',       -- Subcategory list B"
    ∷ "    sub_cat_c   TEXT    NOT NULL DEFAULT '',       -- Subcategory list C"
    ∷ "    sub_cat_d   TEXT    NOT NULL DEFAULT '',       -- Subcategory list D"
    ∷ "    size        INTEGER NOT NULL DEFAULT 0,       -- Bytes"
    ∷ "    image_url   TEXT    NOT NULL DEFAULT '',"
    ∷ "    verified    INTEGER NOT NULL DEFAULT 0,       -- 1 = RSA signature verified"
    ∷ "    moderated   INTEGER NOT NULL DEFAULT 0,       -- 1 = removed by moderator"
    ∷ "    created_at  INTEGER NOT NULL DEFAULT (unixepoch())" ∷ ");" ∷ ""
    ∷ "CREATE INDEX IF NOT EXISTS idx_spots_posted_at   ON spots(posted_at DESC);"
    ∷ "CREATE INDEX IF NOT EXISTS idx_spots_category    ON spots(category, sub_cat_a);"
    ∷ "CREATE INDEX IF NOT EXISTS idx_spots_poster      ON spots(poster);"
    ∷ "CREATE INDEX IF NOT EXISTS idx_spots_article_num ON spots(article_num);" ∷ ""
    ∷ "-- FTS5 virtual table for full-text search"
    ∷ "CREATE VIRTUAL TABLE IF NOT EXISTS spots_fts USING fts5 (" ∷ "    title,"
    ∷ "    description," ∷ "    poster," ∷ "    tag," ∷ "    content=spots,"
    ∷ "    content_rowid=id," ∷ "    tokenize='unicode61 remove_diacritics 1'" ∷ ");" ∷ ""
    ∷ "-- Triggers to keep FTS in sync"
    ∷ "CREATE TRIGGER IF NOT EXISTS spots_ai AFTER INSERT ON spots BEGIN"
    ∷ "    INSERT INTO spots_fts(rowid, title, description, poster, tag)"
    ∷ "    VALUES (new.id, new.title, new.description, new.poster, new.tag);" ∷ "END;" ∷ ""
    ∷ "CREATE TRIGGER IF NOT EXISTS spots_ad AFTER DELETE ON spots BEGIN"
    ∷ "    INSERT INTO spots_fts(spots_fts, rowid, title, description, poster, tag)"
    ∷ "    VALUES ('delete', old.id, old.title, old.description, old.poster, old.tag);" ∷ "END;"
    ∷ "" ∷ "-- spots_au: see spotsUpdateTrigger (Go), shared with migration 5." ∷ ""
    ∷ "-- NZB cache: store raw NZB XML fetched from Usenet" ∷ "CREATE TABLE IF NOT EXISTS nzbs ("
    ∷ "    message_id TEXT    PRIMARY KEY," ∷ "    content    BLOB    NOT NULL,"
    ∷ "    fetched_at INTEGER NOT NULL DEFAULT (unixepoch())" ∷ ");" ∷ ""
    ∷ "-- Image cache: store decoded image bytes fetched from Usenet"
    ∷ "CREATE TABLE IF NOT EXISTS images (" ∷ "    message_id TEXT    PRIMARY KEY,"
    ∷ "    content    BLOB    NOT NULL," ∷ "    mime_type  TEXT    NOT NULL DEFAULT 'image/jpeg',"
    ∷ "    fetched_at INTEGER NOT NULL DEFAULT (unixepoch())" ∷ ");" ∷ "" ∷ "-- Users"
    ∷ "CREATE TABLE IF NOT EXISTS users (" ∷ "    id           INTEGER PRIMARY KEY AUTOINCREMENT,"
    ∷ "    username     TEXT    NOT NULL UNIQUE COLLATE NOCASE,"
    ∷ "    password     TEXT    NOT NULL,  -- bcrypt"
    ∷ "    email        TEXT    NOT NULL DEFAULT ''," ∷ "    api_key      TEXT    NOT NULL UNIQUE,"
    ∷ "    role         TEXT    NOT NULL DEFAULT 'user',  -- 'admin' or 'user'"
    ∷ "    preferences  TEXT    NOT NULL DEFAULT '{}',    -- JSON blob"
    ∷ "    created_at   INTEGER NOT NULL DEFAULT (unixepoch()),"
    ∷ "    last_seen_at INTEGER NOT NULL DEFAULT (unixepoch())" ∷ ");" ∷ ""
    ∷ "-- Per-user spot state (read, downloaded, bookmarked)"
    ∷ "CREATE TABLE IF NOT EXISTS user_spots ("
    ∷ "    user_id  INTEGER NOT NULL REFERENCES users(id) ON DELETE CASCADE,"
    ∷ "    spot_id  INTEGER NOT NULL REFERENCES spots(id) ON DELETE CASCADE,"
    ∷ "    state    TEXT    NOT NULL DEFAULT 'unread',   -- 'read','downloaded','bookmarked'"
    ∷ "    updated_at INTEGER NOT NULL DEFAULT (unixepoch()),"
    ∷ "    PRIMARY KEY (user_id, spot_id)" ∷ ");" ∷ ""
    ∷ "-- Sync state: track highest article number retrieved per group."
    ∷ "-- backfill_article_num is the lowest article we have walked back to; the"
    ∷ "-- backfill worker moves it down towards the group's first article."
    ∷ "CREATE TABLE IF NOT EXISTS sync_state (" ∷ "    group_name           TEXT    PRIMARY KEY,"
    ∷ "    last_article_num     INTEGER NOT NULL DEFAULT 0,"
    ∷ "    last_sync_at         INTEGER NOT NULL DEFAULT 0,"
    ∷ "    backfill_article_num INTEGER NOT NULL DEFAULT 0" ∷ ");" ∷ ""
    ∷ "-- Persistent application settings. Owns the newznab API key so it survives"
    ∷ "-- both process restarts and container recreation."
    ∷ "CREATE TABLE IF NOT EXISTS app_settings (" ∷ "    key        TEXT PRIMARY KEY,"
    ∷ "    value      TEXT NOT NULL," ∷ "    updated_at INTEGER NOT NULL DEFAULT (unixepoch())"
    ∷ ");" ∷ "" ∷ "-- Spotter blacklist/whitelist, populated from external XML feeds."
    ∷ "CREATE TABLE IF NOT EXISTS spotter_lists (" ∷ "    spotter_id TEXT NOT NULL,"
    ∷ "    list_type  TEXT NOT NULL,              -- 'black' | 'white'"
    ∷ "    origin     TEXT NOT NULL DEFAULT '',   -- feed URL it came from"
    ∷ "    updated_at INTEGER NOT NULL DEFAULT (unixepoch()),"
    ∷ "    PRIMARY KEY (spotter_id, list_type)" ∷ ");" ∷ ""
    ∷ "-- Message-ids removed by a moderator dispose. Kept after the spot is deleted so"
    ∷ "-- a later sync pass does not re-insert it." ∷ "CREATE TABLE IF NOT EXISTS moderated_ring ("
    ∷ "    message_id TEXT PRIMARY KEY," ∷ "    stamp      INTEGER NOT NULL DEFAULT (unixepoch())"
    ∷ ");" ∷ "" ∷ "CREATE INDEX IF NOT EXISTS idx_nzbs_fetched_at   ON nzbs(fetched_at);"
    ∷ "CREATE INDEX IF NOT EXISTS idx_images_fetched_at ON images(fetched_at);" ∷ "" ∷ [])

-- `spotsUpdateTrigger`
abbrev pub spots_update_trigger : Bytes
spots_update_trigger = lines (
    "CREATE TRIGGER IF NOT EXISTS spots_au"
    ∷ "AFTER UPDATE OF title, description, poster, tag ON spots BEGIN"
    ∷ "    INSERT INTO spots_fts(spots_fts, rowid, title, description, poster, tag)"
    ∷ "    VALUES ('delete', old.id, old.title, old.description, old.poster, old.tag);"
    ∷ "    INSERT INTO spots_fts(rowid, title, description, poster, tag)"
    ∷ "    VALUES (new.id, new.title, new.description, new.poster, new.tag);" ∷ "END" ∷ [])

-- `kindCaseSQL`: `has`, `anyOf` and the expression.
abbrev pub has_sql : Bytes → Bytes → Bytes
has_sql col code = codes "instr('|' || " ++ col ++ codes ", '|" ++ code ++ codes "|') > 0"

abbrev pub any_of_sql : Bytes → List Bytes → Bytes
any_of_sql col list = codes "(" ++ join (map (has_sql col) list) (codes " OR ") ++ codes ")"

abbrev pub kind_case_sql : Bytes
kind_case_sql =
    let d : Bytes → Bytes = has_sql (codes "sub_cat_d") in
    let books = codes "(" ++ any_of_sql (codes "sub_cat_a") book_codes ++ codes ")" in
    let series =
      codes "("
      ++ has_sql (codes "sub_cat_b") (codes "b4")
      ++ codes " OR "
      ++ d (codes "d11")
      ++ codes ")" in
    codes "CASE\n\tWHEN category <> 0 THEN 0\n\tWHEN "
    ++ d (codes "z3")
    ++ codes " THEN 5\n\tWHEN "
    ++ d (codes "z2")
    ++ codes " AND "
    ++ d (codes "d31")
    ++ codes " THEN 4\n\tWHEN "
    ++ d (codes "z2")
    ++ codes " THEN 3\n\tWHEN "
    ++ d (codes "z1")
    ++ codes " THEN 2\n\tWHEN "
    ++ d (codes "z0")
    ++ codes " THEN 1\n\tWHEN "
    ++ d (codes "z4")
    ++ codes " THEN 0\n\tWHEN "
    ++ any_of_sql (codes "sub_cat_d") erotic_genres
    ++ codes " THEN 5\n\tWHEN "
    ++ series
    ++ codes " THEN 2\n\tWHEN "
    ++ books
    ++ codes " AND "
    ++ d (codes "d31")
    ++ codes " THEN 4\n\tWHEN "
    ++ books
    ++ codes " THEN 3\n\tWHEN "
    ++ any_of_sql (codes "sub_cat_a") picture_codes
    ++ codes " THEN 0\n\tELSE 1 END"

-- The functions that a migration may run after its statements: there is one.
pub data Repair : Type 0 where
  redecode_eight_bit_text : Repair

-- `migration`
pub record Migration : Type 0 where
  pub version : ℕ
  pub stmts : List Bytes
  pub fn : Option Repair

-- `migrations`. Their names, which only messages of errors read, are left out.
abbrev pub migrations : List Migration
migrations =
    record {
      version = 1;
      stmts =
          codes "ALTER TABLE spots ADD COLUMN is_adult INTEGER NOT NULL DEFAULT 0"
          ∷ codes "ALTER TABLE spots ADD COLUMN spotter_id TEXT NOT NULL DEFAULT ''"
          ∷ codes "UPDATE spots SET is_adult = 1 WHERE sub_cat_d LIKE '%z3%'"
          ∷ lines (
              "CREATE INDEX IF NOT EXISTS idx_spots_browse"
              ∷ "\t\t\t   ON spots(posted_at DESC) WHERE moderated = 0 AND is_adult = 0" ∷ [])
          ∷ lines (
              "CREATE INDEX IF NOT EXISTS idx_spots_browse_adult"
              ∷ "\t\t\t   ON spots(posted_at DESC) WHERE moderated = 0" ∷ [])
          ∷ codes "CREATE INDEX IF NOT EXISTS idx_spots_spotter_id ON spots(spotter_id)"
          ∷ [];
      fn = none;
    }
    ∷ record {
      version = 2;
      stmts =
          codes "ALTER TABLE sync_state ADD COLUMN backfill_article_num INTEGER NOT NULL DEFAULT 0"
          ∷ lines (
              "UPDATE sync_state SET backfill_article_num ="
              ∷ "\t\t\t   COALESCE((SELECT MIN(article_num) FROM spots), 0)"
              ∷ "\t\t\t WHERE backfill_article_num = 0" ∷ [])
          ∷ [];
      fn = none;
    }
    ∷ record {
      version = 3;
      stmts =
          lines (
            "DELETE FROM spots" ∷ "\t\t\t   WHERE title LIKE 'DISPOSE %@%'"
            ∷ "\t\t\t      OR title LIKE 'DELETE %@%'" ∷ "\t\t\t      OR title LIKE 'REMOVE %@%'"
            ∷ [])
          ∷ [];
      fn = none;
    }
    ∷ record {
      version = 4;
      stmts =
          codes "DELETE FROM spots WHERE ABS(posted_at - created_at) <= 60"
          ∷ lines (
              "UPDATE sync_state"
              ∷ "\t\t\t    SET last_article_num = COALESCE((SELECT MIN(article_num) FROM spots), 0)"
              ∷ "\t\t\t  WHERE group_name = 'free.pt'" ∷ [])
          ∷ [];
      fn = none;
    }
    ∷ record {
      version = 5;
      stmts =
          codes "DROP TRIGGER IF EXISTS spots_au"
          ∷ spots_update_trigger
          ∷ codes "ALTER TABLE spots ADD COLUMN kind INTEGER NOT NULL DEFAULT 0"
          ∷ (codes "UPDATE spots SET kind = " ++ kind_case_sql ++ codes " WHERE category = 0")
          ∷ lines (
              "CREATE INDEX IF NOT EXISTS idx_spots_kind"
              ∷ "\t\t\t   ON spots(kind, posted_at DESC) WHERE moderated = 0 AND is_adult = 0" ∷ [])
          ∷ lines (
              "CREATE INDEX IF NOT EXISTS idx_spots_category_browse"
              ∷ "\t\t\t   ON spots(category, posted_at DESC) WHERE moderated = 0 AND is_adult = 0"
              ∷ [])
          ∷ [];
      fn = none;
    }
    ∷ record { version = 6; stmts = []; fn = some redecode_eight_bit_text }
    ∷ record {
      version = 7;
      stmts =
          codes
            "ALTER TABLE sync_state ADD COLUMN dispose_sweep_article_num INTEGER NOT NULL DEFAULT 0"
          ∷ [];
      fn = none;
    }
    ∷ record {
      version = 8;
      stmts = codes "UPDATE sync_state SET dispose_sweep_article_num = 0" ∷ [];
      fn = none;
    }
    ∷ record {
      version = 9;
      stmts = codes "UPDATE spots SET is_adult = 0 WHERE category <> 0 AND is_adult = 1" ∷ [];
      fn = none;
    }
    ∷ record {
      version = 10;
      stmts =
          lines (
            "CREATE INDEX IF NOT EXISTS idx_spots_kind_adult"
            ∷ "\t\t\t   ON spots(kind, posted_at DESC) WHERE moderated = 0 AND is_adult = 1" ∷ [])
          ∷ [];
      fn = none;
    }
    ∷ record {
      version = 11;
      stmts =
          (codes "UPDATE spots SET kind = " ++ kind_case_sql ++ codes " WHERE category = 0")
          ∷ codes
              "UPDATE spots SET is_adult = (kind = 5) WHERE category = 0 AND is_adult <> (kind = 5)"
          ∷ [];
      fn = none;
    }
    ∷ []
