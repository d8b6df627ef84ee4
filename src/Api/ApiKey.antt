-- ===== src/Api/ApiKey.antt =====
-- internal/api/apikey.go: the key of the Newznab interface, with the settings of migrations.go that
-- it is kept in. Each statement takes its outcome from the list `faults`.
pub mod Stable
use spottr.Base.{
  [], ℕ, ◌+◌, ◌≡◌, Bool, true, false, Option, none, some, List, Result, ok, err, Error, sql_error,
  if◌then◌else◌, length,
}
use spottr.Text.{Bytes, codes, is_empty}
use spottr.Auth.{Entries, find, set_key}
use spottr.Db.Tables.{head_fault, later_faults}

-- The table `app_settings`, without the time of an entry, which nothing reads.
pub record AppSettings : Type 0 where
  pub entries : Entries Bytes
  pub faults : List Bool

-- `crypto/rand.Read` of so many bytes, `none` where it fails, and `hex.EncodeToString`: a byte has
-- two digits.
pub record Entropy : Type 0 where
  pub read : ℕ → Option Bytes
  pub hex : Bytes → Bytes
  pub length-read : (n : ℕ) (b : Bytes) → read n ≡ some b → length b ≡ n
  pub length-hex : (b : Bytes) → length (hex b) ≡ length b + length b

abbrev pub setting_api_key : Bytes
setting_api_key = codes "newznab_api_key"

abbrev pub queried : AppSettings → AppSettings
queried s = record s { faults = later_faults s.faults }

abbrev pub or_empty : Option Bytes → Bytes
or_empty none = []
or_empty (some v) = v

-- `Setting`: a key that is not there is empty and no error.
unfoldable pub setting : Bytes → AppSettings → Result Bytes
setting key s = if head_fault s.faults then err sql_error else ok (or_empty (find key s.entries))

-- `SetSetting`
unfoldable pub set_setting : Bytes → Bytes → AppSettings → Option Error × AppSettings
set_setting key value s =
    if head_fault s.faults
    then (some sql_error, queried s)
    else (none, record (queried s) { entries = set_key key value s.entries })

-- `randomHex`
abbrev pub random_hex : Entropy → ℕ → Option Bytes
random_hex r n = elim (r.read n) [ none ↦ none | some b ↦ some (r.hex b) ]

-- A key that was made, and what storing it has come to.
abbrev pub stored_key : Bytes → Option Error × AppSettings → Result (Bytes × Bool) × AppSettings
stored_key key (some e, s) = (err e, s)
stored_key key (none, s) = (ok (key, true), s)

abbrev pub new_key : Option Bytes → AppSettings → Result (Bytes × Bool) × AppSettings
new_key none s = (err Error.no_random, s)
new_key (some key) s = stored_key key (set_setting setting_api_key key s)

abbrev pub key_from : Entropy → AppSettings → Result Bytes → Result (Bytes × Bool) × AppSettings
key_from r s (err e) = (err e, s)
key_from r s (ok stored) =
    if is_empty stored then new_key (random_hex r 16) s else (ok (stored, false), s)

-- `ResolveAPIKey`, with the key of the environment: the key, and whether it is new.
unfoldable pub resolve_api_key : Bytes → Entropy → AppSettings → Result (Bytes × Bool) × AppSettings
unfolding setting set_setting
resolve_api_key env_key r s =
    if is_empty env_key
    then key_from r (queried s) (setting setting_api_key s)
    else (ok (env_key, false), s)
