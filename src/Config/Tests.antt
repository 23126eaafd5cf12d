-- ===== src/Config/Tests.antt =====
-- An empty file, with the address in the environment.
use clean_api.Base.{String, false, Option, none, [], if◌then◌else◌, ◌==◌, ◌≡◌, string_equality}
use clean_api.Base.Int.{ℤ, pos}
use clean_api.Config.{Config, get, load}
use clean_api.Config.Precedence.{HasTexts, HasNumbers, HasFlags, load-precedence}

abbrev file : Config
file = record {
  addr = "";
  db_path = "";
  session_secret = "";
  log_level = "";
  log_retention_days = pos 0;
  default_timeout_sec = pos 0;
  admin_username = "";
  admin_password = "";
  enc_key = "";
  session_secure = false;
  routing_strategy = "";
  health_check_enabled = false;
  health_check_interval_sec = pos 0;
  health_check_max_failures = pos 5;
  key_cooldown_sec = pos 0;
  probe_capabilities = false;
  model_redirects = [];
  cache_enabled = none;
  cache_ttl_sec = pos 0;
  timezone = "";
}

abbrev environment : String → String
environment key = if key == "GATEWAY_ADDR" then ":9000" else ""

abbrev no_number : String → Option ℤ
no_number v = none

load-precedence_example :
    HasTexts (get environment no_number) file (load environment no_number file)
    × HasNumbers (get environment no_number) no_number file (load environment no_number file)
    × HasFlags (get environment no_number) file (load environment no_number file)
    × ((load environment no_number file).model_redirects ≡ file.model_redirects)
load-precedence_example = load-precedence environment no_number file
