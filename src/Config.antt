-- ===== src/Config.antt =====
-- internal/config/config.go: the configuration, read from the environment. `parse_prefix` and
-- `whole` are net/netip's `ParsePrefix` and `PrefixFrom` with the address's own length, and
-- `parse_duration` is `time.ParseDuration`. The rate limits are left out.
pub mod Loaded
pub mod Paging
use spottr.Base.{
  ℕ, ◌+◌, ◌*◌, ◌^◌, Bool, true, false, not, ◌&&◌, ◌||◌, Option, none, some, List, [], ◌∷◌, ◌++◌,
  if◌then◌else◌,
}
use spottr.Text.{Bytes, codes, is_empty, eqb, split, trim_space, to_lower}
use spottr.Text.Numbers.{ℤ, pos, negsuc, parse_int}
use spottr.Db.Search.Run.{leb_int}
use spottr.Sync.Env.{Mode}
use spottr.Api.ClientIp.{Net}
use spottr.Api.Login.{AuthMode, by_password, by_proxy, open_to_all, Access}
use spottr.Api.Listing.{Limits}

pub record Libraries : Type 1 where
  pub net : Net
  pub parse_prefix : Bytes → Option net.Prefix
  pub whole : net.Addr → net.Prefix
  pub parse_duration : Bytes → Option ℤ

-- The errors of `Load`.
pub data LoadError : Type 0 where
  no_host no_password bad_auth_mode bad_moderation_mode bad_proxies : LoadError

-- `Config`, less the rate limits.
pub record Config (Prefix : Type 0) : Type 0 where
  pub listen_addr : Bytes
  pub trusted_proxies : List Prefix
  pub db_path : Bytes
  pub nntp_host : Bytes
  pub nntp_port : ℤ
  pub nntp_user : Bytes
  pub nntp_pass : Bytes
  pub nntp_tls : Bool
  pub nntp_max_conns : ℤ
  pub sync_interval : ℤ
  pub sync_lookback : ℤ
  pub backfill_enabled : Bool
  pub sab_host : Bytes
  pub sab_port : ℤ
  pub sab_api_key : Bytes
  pub sab_tls : Bool
  pub auth_mode : AuthMode
  pub app_password : Bytes
  pub session_duration : ℤ
  pub secure_cookie : Bool
  pub proxy_auth_header : Bytes
  pub allow_adult : Bool
  pub api_key : Bytes
  pub max_page_size : ℤ
  pub max_offset : ℤ
  pub max_article_bytes : ℤ
  pub max_nzb_bytes : ℤ
  pub retention_days : ℤ
  pub cache_max_bytes : ℤ
  pub blacklist_url : Bytes
  pub whitelist_url : Bytes
  pub blacklist_interval : ℤ
  pub verify_signatures : Bool
  pub moderation_mode : Mode
  pub tz : Bytes

pub data LoadResult (Prefix : Type 0) : Type 0 where
  refused : LoadError → LoadResult Prefix
  loaded : Config Prefix → LoadResult Prefix

-- The environment: a variable that is not set is empty.
abbrev pub Env : Type 0
Env = Bytes → Bytes

-- `envOr`
abbrev pub env_or : Env → Bytes → Bytes → Bytes
env_or env key def = if is_empty (env key) then def else env key

-- `envInt` and `envInt64`
abbrev pub env_int : Env → Bytes → ℤ → ℤ
env_int env key def =
    if not (is_empty (env key)) && (parse_int (env key)).good
    then (parse_int (env key)).value
    else def

-- `strconv.ParseBool`
abbrev pub parse_bool : Bytes → Option Bool
parse_bool s =
    if ((eqb s (codes "1") || eqb s (codes "t")) || (eqb s (codes "T") || eqb s (codes "true")))
      || (eqb s (codes "TRUE") || eqb s (codes "True"))
    then some true
    else if ((eqb s (codes "0") || eqb s (codes "f"))
          || (eqb s (codes "F") || eqb s (codes "false")))
        || (eqb s (codes "FALSE") || eqb s (codes "False"))
    then some false
    else none

abbrev pub value_or {u} : {A : Type u} → A → Option A → A
value_or def none = def
value_or def (some a) = a

-- `envBool`
abbrev pub env_bool : Env → Bytes → Bool → Bool
env_bool env key def = if is_empty (env key) then def else value_or def (parse_bool (env key))

-- The values of AUTH_MODE and of MODERATION_MODE that `Load` admits.
abbrev pub auth_mode_named : Bytes → Option AuthMode
auth_mode_named s =
    if eqb s (codes "password")
    then some by_password
    else if eqb s (codes "proxy")
    then some by_proxy
    else if eqb s (codes "open")
    then some open_to_all
    else none

abbrev pub moderation_mode_named : Bytes → Option Mode
moderation_mode_named s =
    if eqb s (codes "off")
    then some Mode.off
    else if eqb s (codes "mark")
    then some Mode.mark
    else if eqb s (codes "delete")
    then some Mode.delete
    else none

abbrev at_least_one : ℤ → ℤ
at_least_one n = if leb_int (pos 1) n then n else pos 1

abbrev minutes : ℕ → ℤ
minutes n = pos (n * (60 * 10 ^ 9))

module _ (l : Libraries) where
  -- `envDuration`
  abbrev pub env_duration : Env → Bytes → ℤ → ℤ
  env_duration env key def =
      if is_empty (env key) then def else value_or def (l.parse_duration (env key))

  -- A part of TRUSTED_PROXIES: a prefix, or an address as the prefix of its own.
  abbrev pub part_prefix : Bytes → Option l.net.Prefix
  part_prefix part = elim (l.parse_prefix part) [
    | some p ↦ some p
    | none ↦ elim (l.net.parse_addr part) [ some addr ↦ some (l.whole addr) | none ↦ none ]
  ]

  abbrev add_prefix : Option l.net.Prefix → Option (List l.net.Prefix) → Option (List l.net.Prefix)
  add_prefix none rest = none
  add_prefix (some p) none = none
  add_prefix (some p) (some ps) = some (p ∷ ps)

  -- The loop of `parseCIDRs`; none is its error.
  unfoldable pub parse_parts : List Bytes → Option (List l.net.Prefix)
  parse_parts [] = some []
  parse_parts (raw ∷ parts) =
      let part = trim_space raw in
      let rest = parse_parts parts in
      if is_empty part then rest else add_prefix (part_prefix part) rest

  -- `parseCIDRs`
  unfoldable pub parse_cidrs : Bytes → Option (List l.net.Prefix)
  unfolding parse_parts
  parse_cidrs s =
      if is_empty (trim_space s) then some [] else parse_parts (split (trim_space s) b',')

  -- The configuration, once the two modes and the proxies are known.
  abbrev pub config_of : Env → AuthMode → Mode → List l.net.Prefix → Config l.net.Prefix
  config_of env auth_mode moderation_mode proxies = record {
    listen_addr = env_or env (codes "LISTEN_ADDR") (codes ":8080");
    trusted_proxies = proxies;
    db_path = env_or env (codes "DB_PATH") (codes "/data/spottr.db");
    nntp_host = env_or env (codes "NNTP_HOST") [];
    nntp_port = env_int env (codes "NNTP_PORT") (pos 119);
    nntp_user = env_or env (codes "NNTP_USER") [];
    nntp_pass = env_or env (codes "NNTP_PASS") [];
    nntp_tls = env_bool env (codes "NNTP_TLS") false;
    nntp_max_conns = at_least_one (env_int env (codes "NNTP_MAX_CONNS") (pos 4));
    sync_interval = env_duration env (codes "SYNC_INTERVAL") (minutes 15);
    sync_lookback = env_int env (codes "SYNC_LOOKBACK") (pos 500000);
    backfill_enabled = env_bool env (codes "BACKFILL") false;
    sab_host = env_or env (codes "SAB_HOST") [];
    sab_port = env_int env (codes "SAB_PORT") (pos 8080);
    sab_api_key = env_or env (codes "SAB_API_KEY") [];
    sab_tls = env_bool env (codes "SAB_TLS") false;
    auth_mode = auth_mode;
    app_password = env_or env (codes "APP_PASSWORD") [];
    session_duration = env_duration env (codes "SESSION_DURATION") (minutes 1440);
    secure_cookie = env_bool env (codes "SECURE_COOKIE") false;
    proxy_auth_header = env_or env (codes "PROXY_AUTH_HEADER") (codes "X-authentik-username");
    allow_adult = env_bool env (codes "ALLOW_ADULT") false;
    api_key = env_or env (codes "API_KEY") [];
    max_page_size = at_least_one (env_int env (codes "MAX_PAGE_SIZE") (pos 200));
    max_offset = env_int env (codes "MAX_OFFSET") (pos 100000);
    max_article_bytes = env_int env (codes "MAX_ARTICLE_BYTES") (pos (32 * 2 ^ 20));
    max_nzb_bytes = env_int env (codes "MAX_NZB_BYTES") (pos (64 * 2 ^ 20));
    retention_days = env_int env (codes "RETENTION_DAYS") (pos 0);
    cache_max_bytes = env_int env (codes "CACHE_MAX_BYTES") (pos (512 * 2 ^ 20));
    blacklist_url = env_or env (codes "BLACKLIST_URL") [];
    whitelist_url = env_or env (codes "WHITELIST_URL") [];
    blacklist_interval = env_duration env (codes "BLACKLIST_INTERVAL") (minutes 720);
    verify_signatures = env_bool env (codes "VERIFY_SIGNATURES") false;
    moderation_mode = moderation_mode;
    tz = env_or env (codes "TZ") (codes "UTC");
  }

  abbrev pub auth_mode_of : Env → Option AuthMode
  auth_mode_of env = auth_mode_named (to_lower (env_or env (codes "AUTH_MODE") (codes "password")))

  abbrev pub moderation_mode_of : Env → Option Mode
  moderation_mode_of env =
      moderation_mode_named (to_lower (env_or env (codes "MODERATION_MODE") (codes "off")))

  -- Whether a mode needs the password that is missing.
  abbrev pub lacks_password : Env → AuthMode → Bool
  lacks_password env by_password = is_empty (env_or env (codes "APP_PASSWORD") [])
  lacks_password env by_proxy = false
  lacks_password env open_to_all = false

  abbrev with_proxies : Env → AuthMode → Mode → Option (List l.net.Prefix) → LoadResult l.net.Prefix
  with_proxies env a m none = refused bad_proxies
  with_proxies env a m (some ps) = loaded (config_of env a m ps)

  abbrev with_moderation :
      Env → AuthMode → Option Mode → Option (List l.net.Prefix) → LoadResult l.net.Prefix
  with_moderation env a none ps = refused bad_moderation_mode
  with_moderation env a (some m) ps = with_proxies env a m ps

  abbrev with_auth :
      Env → Option AuthMode → Option Mode → Option (List l.net.Prefix) → LoadResult l.net.Prefix
  with_auth env none m ps = refused bad_auth_mode
  with_auth env (some a) m ps =
      if lacks_password env a then refused no_password else with_moderation env a m ps

  -- `Load`
  unfoldable pub load : Env → LoadResult l.net.Prefix
  unfolding parse_cidrs
  load env =
      if is_empty (env_or env (codes "NNTP_HOST") [])
      then refused no_host
      else with_auth env (auth_mode_of env) (moderation_mode_of env)
          (parse_cidrs (env_or env (codes "TRUSTED_PROXIES") []))

  -- The settings that the guards and the listings read.
  abbrev pub access_of : Config l.net.Prefix → Bytes → Access
  access_of c key = record {
    auth_mode = c.auth_mode;
    app_password = c.app_password;
    proxy_auth_header = c.proxy_auth_header;
    api_key = key;
  }

  abbrev pub limits_of : Config l.net.Prefix → Limits
  limits_of c = record {
    allow_adult = c.allow_adult;
    max_page_size = c.max_page_size;
    max_offset = c.max_offset;
  }
