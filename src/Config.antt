-- ===== src/Config.antt =====
-- internal/config/config.go: the configuration from its file, the defaults and the environment.
-- `json.Unmarshal` of the file stands before `load`; `getenv` is `os.Getenv`, `scan` is
-- `fmt.Sscanf` with "%d", nothing where it finds no number.
pub mod Precedence
mod Tests
use clean_api.Base.{
  String, Bool, true, false, Option, none, some, List, if◌then◌else◌, ◌==◌, ◌||◌, string_equality,
}
use clean_api.Base.Int.{ℤ, pos, int_equality}
use clean_api.Base.Text.{◌+++◌}

pub record Config : Type 0 where
  pub addr : String
  pub db_path : String
  pub session_secret : String
  pub log_level : String
  pub log_retention_days : ℤ
  pub default_timeout_sec : ℤ
  pub admin_username : String
  pub admin_password : String
  pub enc_key : String
  pub session_secure : Bool
  pub routing_strategy : String
  pub health_check_enabled : Bool
  pub health_check_interval_sec : ℤ
  pub health_check_max_failures : ℤ
  pub key_cooldown_sec : ℤ
  pub probe_capabilities : Bool
  pub model_redirects : List (String × String)
  pub cache_enabled : Option Bool
  pub cache_ttl_sec : ℤ
  pub timezone : String

abbrev pub or_text : String → String → String
or_text s default = if s == "" then default else s

abbrev pub or_number : ℤ → ℤ → ℤ
or_number n default = if n == pos 0 then default else n

abbrev pub or_bool : Option Bool → Bool → Option Bool
or_bool none default = some default
or_bool (some b) default = some b

unfoldable pub set_defaults : Config → Config
set_defaults c = record c {
  addr = or_text c.addr ":8080";
  db_path = or_text c.db_path "data/gateway.db";
  log_level = or_text c.log_level "info";
  log_retention_days = or_number c.log_retention_days (pos 7);
  default_timeout_sec = or_number c.default_timeout_sec (pos 120);
  admin_username = or_text c.admin_username "admin";
  routing_strategy = or_text c.routing_strategy "random";
  health_check_interval_sec = or_number c.health_check_interval_sec (pos 300);
  health_check_max_failures = or_number c.health_check_max_failures (pos 3);
  key_cooldown_sec = or_number c.key_cooldown_sec (pos 60);
  cache_enabled = or_bool c.cache_enabled true;
  cache_ttl_sec = or_number c.cache_ttl_sec (pos 300);
}

abbrev pub is_on : String → Bool
is_on v = v == "1" || v == "true"

abbrev pub scanned : Option ℤ → ℤ → ℤ
scanned none n = n
scanned (some m) n = m

module _ (getenv : String → String) (scan : String → Option ℤ) where
  abbrev pub get : String → String
  get key = getenv ("GATEWAY_" +++ key)

  abbrev pub text_of : String → String → String
  text_of key s = if get key == "" then s else get key

  abbrev pub bool_of : String → Bool → Bool
  bool_of key b = if get key == "" then b else is_on (get key)

  abbrev pub number_of : String → ℤ → ℤ
  number_of key n = if get key == "" then n else scanned (scan (get key)) n

  abbrev pub option_of : String → Option Bool → Option Bool
  option_of key o = if get key == "" then o else some (is_on (get key))

  unfoldable pub apply_env : Config → Config
  apply_env c = record c {
    addr = text_of "ADDR" c.addr;
    db_path = text_of "DB_PATH" c.db_path;
    session_secret = text_of "SESSION_SECRET" c.session_secret;
    log_level = text_of "LOG_LEVEL" c.log_level;
    admin_username = text_of "ADMIN_USERNAME" c.admin_username;
    admin_password = text_of "ADMIN_PASSWORD" c.admin_password;
    enc_key = text_of "ENC_KEY" c.enc_key;
    session_secure = bool_of "SESSION_SECURE" c.session_secure;
    routing_strategy = text_of "ROUTING_STRATEGY" c.routing_strategy;
    health_check_enabled = bool_of "HEALTH_CHECK_ENABLED" c.health_check_enabled;
    health_check_interval_sec =
        number_of "HEALTH_CHECK_INTERVAL_SECONDS" c.health_check_interval_sec;
    health_check_max_failures = number_of "HEALTH_CHECK_MAX_FAILURES" c.health_check_max_failures;
    key_cooldown_sec = number_of "KEY_COOLDOWN_SECONDS" c.key_cooldown_sec;
    probe_capabilities = bool_of "PROBE_CAPABILITIES" c.probe_capabilities;
    cache_enabled = option_of "CACHE_ENABLED" c.cache_enabled;
    cache_ttl_sec = number_of "CACHE_TTL_SECONDS" c.cache_ttl_sec;
    timezone = text_of "TIMEZONE" c.timezone;
  }

  -- Load, after the file was read.
  unfoldable pub load : Config → Config
  load c = apply_env (set_defaults c)
