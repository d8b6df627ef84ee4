-- ===== src/Tests/Settings.antt =====
-- The configuration at a concrete environment, and an upload to SABnzbd.
use spottr.Base.{
  arith, subst, false, ℕ, zero, suc, ◌∙◌, length, length-append, replicate, ap, none, some, ◌++◌,
  ok, ◌∷◌, true, ok, ◌≡◌, refl, not, ◌&&◌, none, some, [], if◌then◌else◌,
}
use spottr.Text.{Bytes, codes, is_empty, eqb, to_lower, trim_space}
use spottr.Text.Numbers.{pos, parse_int}
use spottr.Api.ClientIp.{Net}
use spottr.Api.Listing.{list_spots}
use spottr.Api.Login.{AuthMode}
use spottr.Sync.Env.{Mode}
use spottr.Api.ApiKey.{Entropy, AppSettings, setting_api_key, resolve_api_key, setting, set_setting}
use spottr.Api.ApiKey.Stable.{resolve_api_key_again}
use spottr.Config.{Libraries, Config, Env, load, loaded, config_of, limits_of, parse_cidrs}
use spottr.Config.Loaded.{auth_good, moderation_good, is_loaded, proxies_good, load_iff}
use spottr.Config.Paging.{ShortPage, list_spots-ShortPage}
use spottr.Tests.Data.{store}
use spottr.Tests.Searches.{engine, serving, news, vault}
use spottr.Sabnzbd.{Sab, SendBody, send_to_sab}
use spottr.Sabnzbd.Same.{Alike, send_to_sab-Alike}
use spottr.Api.Serve.{download_nzb}

abbrev net : Net
net = record {
  Addr = Bytes;
  Prefix = Bytes;
  parse_addr = λ s. some s;
  unmap = λ a. a;
  contains = λ p a. eqb p a;
  split_host_port = λ s. some s;
}

abbrev libraries : Libraries
libraries = record {
  net = net;
  parse_prefix = λ s. none;
  whole = λ a. a;
  parse_duration = λ s. none;
}

-- A news server and a password, and pages of no spots.
abbrev env : Env
env key =
    if eqb key (codes "NNTP_HOST")
    then codes "news"
    else if eqb key (codes "APP_PASSWORD")
    then codes "secret"
    else if eqb key (codes "MAX_PAGE_SIZE")
    then codes "0"
    else []

load_iff_example : is_loaded (load libraries env) ≡ (
    not (is_empty (env (codes "NNTP_HOST")))
    && (auth_good libraries env
        && (moderation_good libraries env
            && proxies_good libraries (env (codes "TRUSTED_PROXIES")))))
load_iff_example = load_iff libraries env

abbrev config : Config Bytes
config = config_of libraries env AuthMode.by_password Mode.off []

config-loaded : load libraries env ≡ loaded config
unfolding load parse_cidrs eqb to_lower trim_space
config-loaded = refl

list_spots-ShortPage_example :
    ShortPage (pos 1) (list_spots engine (limits_of libraries config) (λ key. codes "-1") store).0
unfolding eqb parse_int
list_spots-ShortPage_example =
    list_spots-ShortPage libraries env config engine (λ key. codes "-1") store config-loaded

abbrev sab : Sab
sab = record {
  api_key = codes "key";
  answer = λ r. ok [];
  read_added = λ s. some (record { status = true; nzo_ids = codes "1" ∷ [] });
}

abbrev send_body : SendBody
send_body = record { name = codes "a/b"; category = []; password = codes " p " }

send_to_sab-Alike_example :
    Alike
      (send_to_sab serving news (some sab) (codes "1") (some send_body) vault)
      (download_nzb serving news (codes "1") vault)
send_to_sab-Alike_example = send_to_sab-Alike serving news sab send_body (codes "1") vault

-- So many bytes, all alike.
abbrev same_bytes : ℕ → Bytes
same_bytes n = replicate n 171

length-same_bytes : (n : ℕ) → length (same_bytes n) ≡ n
length-same_bytes zero = refl
length-same_bytes (suc n) = ap suc (length-same_bytes n) ∙ omega arith

length-read_same : (n : ℕ) (b : Bytes) → some (same_bytes n) ≡ some b → length b ≡ n
length-read_same n b h = subst (λ s. length s ≡ n) (cc (h)) (length-same_bytes n)

nothing_read : (n : ℕ) (b : Bytes) → none ≡ some b → length b ≡ n
nothing_read n b h = absurd (cc (h))

-- The digits of a text are the text twice.
abbrev entropy : Entropy
entropy = record {
  read = λ n. some (same_bytes n);
  hex = λ b. b ++ b;
  length-read = length-read_same;
  length-hex = λ b. length-append b b;
}

-- Another source, which fails.
abbrev no_entropy : Entropy
no_entropy = record entropy { read = λ n. none; length-read = nothing_read }

abbrev first_start : AppSettings
first_start = record { entries = []; faults = [] }

abbrev later_start : AppSettings
later_start = record first_start { entries = (setting_api_key, same_bytes 32) ∷ [] }

resolve_api_key_again_example :
    (resolve_api_key [] no_entropy later_start).0 ≡ ok (same_bytes 32, false)
unfolding resolve_api_key setting set_setting
resolve_api_key_again_example =
    resolve_api_key_again [] entropy no_entropy first_start later_start (same_bytes 32) true [] refl
      refl
