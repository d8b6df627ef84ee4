-- ===== src/Lib.antt =====
-- Spottr indexes the spots that are posted to a Usenet group. This library models how articles
-- become rows of its database, and what keeps that database right.
--
-- The parts and how they meet. Nntp is internal/nntp: its own file has the records that the others
-- read, Wire and Client are client.go, MsgId is msgid.go, Pool is pool.go. Spotnet is
-- internal/spotnet: Signing and Crypto are signing.go, Parser and HeaderText are parser.go and
-- text.go as far as an overview line goes, Article and Nzb the rest of parser.go, Moderation is
-- moderation.go. Db is internal/db: Tables has the spots and the rows, Kind and KindSql are
-- kind.go, Spots, Withdrawals and Progress are InsertSpots, the withdrawal operations of
-- maintenance.go and the checkpoints of db.go, Fts is fts.go, Search is SearchSpots with the query
-- it writes and, in Run, what SQLite makes of it, Caches is the reading of one spot and the
-- caches, Maintenance and SpotterLists are the rest of maintenance.go, Schema and Migrations are
-- schema.go and migrations.go with the texts that SQLite is given. Api is internal/api: ClientIp
-- is realIP of middleware.go and all it calls, ApiKey is apikey.go, Enrich is enrichSpot of
-- router.go, Login its login, logout and guards, Listing the two listings with their filters,
-- Serve the page of a spot, its NZB and its image. Sync is internal/sync: Ingest is the loop over
-- the articles of a chunk, which the forward sync (Forward, syncer.go) and the backfill (Backfill,
-- backfill.go) share, Moderation is moderation.go, Sweep is disposesweep.go, Maintenance is
-- maintenance.go. Auth is internal/auth/session.go, Config is internal/config/config.go. Sabnzbd
-- is the upload of internal/sabnzbd/client.go with the handler sendToSAB. Text has the functions
-- of Go's strings and strconv packages that the program calls, Base the shared helpers, Tests the
-- theorems at concrete inputs. A Go function keeps its name in the model's spelling:
-- ParseFromOverview is parse_from_overview.
--
-- State. A store is a record of tables, and every SQL statement, begin, prepare and commit
-- included, takes its outcome from the store's list `faults`, so that a theorem for every store is
-- one for every pattern of failures. A transaction that fails puts the tables back. The answers of
-- the news server are functions of the request within a pass, or within one chunk of a backfill;
-- `now` is constant within a pass.
-- The store of sessions is a record of maps; its lock makes each operation atomic. A client of the
-- news server holds the bytes that the server is still to send and the lines it has sent itself.
-- The pool of connections is a state whose callers, each between two operations, take steps in any
-- order. The events of Auth/Observed are calls of the store of sessions in any order at times that
-- do not run backwards. Serving and housekeeping work on a Vault: the store with the tables of
-- cached articles and of spotters. SQLite's choice of the rows of a statement with a LIMIT and no
-- order is a parameter, Visiting, which visits each row once, and its sorting is one, Ordered,
-- which also puts the rows in the order asked for and leaves equals open. Engine has its full-text
-- matching, its sorting of a search, and which statements of a search it refuses, as SQLite does
-- one that is too long or too deep.
--
-- Numbers. Times are natural numbers of nanoseconds after 1970, 0 for the zero time and all
-- before; rows have seconds. Article numbers are natural numbers: the server's are, and none comes
-- near the 64-bit bound. Integers read from text saturate at 64 bits as strconv does.
--
-- Fuel. strip_markers has as many rounds as the text has bytes, since a round removes some;
-- delete_batches as many as there are ids; byte_len as many as the number; sync_chunks as many as
-- there are article numbers left; the loops over lines have one round more than there are bytes to
-- come; sweep_rounds and backfill_group have any number, and for backfill_group a theorem says
-- which is enough. delete_rounds and evict_rounds have one round more than there are rows,
-- delete_by_spotter as many as there are ids.
--
-- Outside code. Migrations run on a parameter, Sqlite, over contents of any type. Crypto has Go's
-- sha1, base64, crc32, XML, MIME and UTF-8 functions as parameters with their documented sizes;
-- the RSA check of PKCS #1 v1.5 signatures is the program's own and modelled. to_lower changes
-- ASCII letters and the two other characters whose lower case is ASCII. The readers of XML and of
-- deflate, Go's net/netip and the parser of dates are parameters.
--
-- Not modelled: log lines, the start-up glue of cmd/spottr, durations and last_sync_at, which no
-- decision reads; texts of error messages; SABnzbd's queue and categories, metrics, the password
-- hint, the files of the web page; the rate limiter, which computes with floating point, and
-- cookies; dialling, TLS, authentication and deadlines of a connection; the content security
-- policy; the names of the categories.
pub mod Api
pub mod Auth
pub mod Base
pub mod Config
pub mod Db
pub mod Nntp
pub mod Sabnzbd
pub mod Spotnet
pub mod Sync
pub mod Tests
pub mod Text
