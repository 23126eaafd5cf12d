-- ===== src/Config/Precedence.antt =====
-- Which of the environment, the file and the defaults a setting is taken from.
use clean_api.Base.{
  String, Bool, true, false, Option, none, some, if◌then◌else◌, ◌==◌, string_equality, ◌≡◌, refl,
  ◌⊎◌, inl, inr, Bool-cases, if_true, if_false, ◌∙◌, eq_iff,
}
use clean_api.Base.Int.{ℤ, pos, int_equality}
use clean_api.Config.{
  Config, or_text, or_number, or_bool, is_on, scanned, set_defaults, get, apply_env, load,
}

-- The first of three texts that is not empty, or the last.
abbrev pub IsFirstText : String → String → String → String → Type 0
IsFirstText env file default v =
    (((env == "") ≡ false) × (v ≡ env))
    ⊎ (((env == "") ≡ true) × ((file == "") ≡ false) × (v ≡ file))
    ⊎ (((env == "") ≡ true) × ((file == "") ≡ true) × (v ≡ default))

-- The number that the environment gives, or the file's, or the default where that is 0.
abbrev pub IsFirstNumber : Option ℤ → ℤ → ℤ → ℤ → Type 0
IsFirstNumber (some n) file default v = v ≡ n
IsFirstNumber none file default v =
    (((file == pos 0) ≡ false) × (v ≡ file)) ⊎ (((file == pos 0) ≡ true) × (v ≡ default))

-- The flag that the environment gives, or the file's.
abbrev pub IsFirstFlag : String → Bool → Bool → Type 0
IsFirstFlag env file v =
    (((env == "") ≡ false) × (v ≡ is_on env)) ⊎ (((env == "") ≡ true) × (v ≡ file))

IsFirstText-override :
    (env file default : String)
    → IsFirstText env file default (if env == "" then or_text file default else env)
IsFirstText-override env file default = elim (Bool-cases (env == "")) [
  | inl e ↦ elim (Bool-cases (file == "")) [
    | inl f ↦ inr (inr (e, f, if_true (env == "") _ env e ∙ if_true (file == "") default file f))
    | inr f ↦ inr (inl (e, f, if_true (env == "") _ env e ∙ if_false (file == "") default file f))
  ]
  | inr e ↦ inl (e, if_false (env == "") _ env e)
]

IsFirstFlag-override :
    (env : String) (file : Bool) → IsFirstFlag env file (if env == "" then file else is_on env)
IsFirstFlag-override env file = elim (Bool-cases (env == "")) [
  | inl e ↦ inr (e, if_true (env == "") file (is_on env) e)
  | inr e ↦ inl (e, if_false (env == "") file (is_on env) e)
]

-- The number in a variable that is set.
abbrev pub given : String → Option ℤ → Option ℤ
given env n = if env == "" then none else n

IsFirstNumber-default :
    (file default : ℤ) → IsFirstNumber none file default (or_number file default)
IsFirstNumber-default file default = elim (Bool-cases (file == pos 0)) [
  | inl f ↦ inr (f, if_true (file == pos 0) default file f)
  | inr f ↦ inl (f, if_false (file == pos 0) default file f)
]

IsFirstNumber-scanned :
    (n : Option ℤ) (file default : ℤ)
    → IsFirstNumber n file default (scanned n (or_number file default))
IsFirstNumber-scanned none file default = IsFirstNumber-default file default
IsFirstNumber-scanned (some n) file default = refl

IsFirstNumber-override :
    (env : String) (n : Option ℤ) (file default : ℤ)
    → IsFirstNumber
        (given env n)
        file
        default
        (if env == "" then or_number file default else scanned n (or_number file default))
IsFirstNumber-override env n file default = elim (Bool-cases (env == "")) [
  | inl e ↦ rw e (IsFirstNumber-default file default)
  | inr e ↦ rw e (IsFirstNumber-scanned n file default)
]

-- The flag that the environment gives, or the file's, or true.
abbrev pub IsFirstOption : String → Option Bool → Option Bool → Type 0
IsFirstOption env (some b) v =
    (((env == "") ≡ false) × (v ≡ some (is_on env))) ⊎ (((env == "") ≡ true) × (v ≡ some b))
IsFirstOption env none v =
    (((env == "") ≡ false) × (v ≡ some (is_on env))) ⊎ (((env == "") ≡ true) × (v ≡ some true))

IsFirstOption-override :
    (env : String) (file : Option Bool)
    → IsFirstOption env file (if env == "" then or_bool file true else some (is_on env))
IsFirstOption-override env none = elim (Bool-cases (env == "")) [
  | inl e ↦ inr (e, if_true (env == "") _ _ e)
  | inr e ↦ inl (e, if_false (env == "") _ _ e)
]
IsFirstOption-override env (some b) = elim (Bool-cases (env == "")) [
  | inl e ↦ inr (e, if_true (env == "") _ _ e)
  | inr e ↦ inl (e, if_false (env == "") _ _ e)
]

IsFirstText-plain : (env file : String) → IsFirstText env file "" (if env == "" then file else env)
IsFirstText-plain env file = elim (Bool-cases (env == "")) [
  | inl e ↦ elim (Bool-cases (file == "")) [
    | inl f ↦ inr (inr (e, f, if_true (env == "") file env e ∙ (eq_iff file "").0 f))
    | inr f ↦ inr (inl (e, f, if_true (env == "") file env e))
  ]
  | inr e ↦ inl (e, if_false (env == "") file env e)
]

-- Every text comes from the environment if its variable is not empty, else from the file if it is
-- not empty there, else it is the default, which for the password, the secrets and the time zone is the
-- empty text.
abbrev pub HasTexts : (String → String) → Config → Config → Type 0
HasTexts var c l =
    IsFirstText (var "ADDR") c.addr ":8080" l.addr
    × IsFirstText (var "DB_PATH") c.db_path "data/gateway.db" l.db_path
    × IsFirstText (var "LOG_LEVEL") c.log_level "info" l.log_level
    × IsFirstText (var "ADMIN_USERNAME") c.admin_username "admin" l.admin_username
    × IsFirstText (var "ROUTING_STRATEGY") c.routing_strategy "random" l.routing_strategy
    × IsFirstText (var "SESSION_SECRET") c.session_secret "" l.session_secret
    × IsFirstText (var "ADMIN_PASSWORD") c.admin_password "" l.admin_password
    × IsFirstText (var "ENC_KEY") c.enc_key "" l.enc_key
    × IsFirstText (var "TIMEZONE") c.timezone "" l.timezone

-- The same for the numbers, where a variable that is no number leaves them. The retention and the
-- timeout have no variable.
abbrev pub HasNumbers : (String → String) → (String → Option ℤ) → Config → Config → Type 0
HasNumbers var scan c l =
    IsFirstNumber
      (given (var "HEALTH_CHECK_INTERVAL_SECONDS") (scan (var "HEALTH_CHECK_INTERVAL_SECONDS")))
      c.health_check_interval_sec (pos 300) l.health_check_interval_sec
    × IsFirstNumber
        (given (var "HEALTH_CHECK_MAX_FAILURES") (scan (var "HEALTH_CHECK_MAX_FAILURES")))
        c.health_check_max_failures (pos 3) l.health_check_max_failures
    × IsFirstNumber (given (var "KEY_COOLDOWN_SECONDS") (scan (var "KEY_COOLDOWN_SECONDS")))
        c.key_cooldown_sec (pos 60) l.key_cooldown_sec
    × IsFirstNumber (given (var "CACHE_TTL_SECONDS") (scan (var "CACHE_TTL_SECONDS")))
        c.cache_ttl_sec (pos 300) l.cache_ttl_sec
    × IsFirstNumber none c.log_retention_days (pos 7) l.log_retention_days
    × IsFirstNumber none c.default_timeout_sec (pos 120) l.default_timeout_sec

-- The flags, of which the cache alone has a default.
abbrev pub HasFlags : (String → String) → Config → Config → Type 0
HasFlags var c l =
    IsFirstFlag (var "SESSION_SECURE") c.session_secure l.session_secure
    × IsFirstFlag (var "HEALTH_CHECK_ENABLED") c.health_check_enabled l.health_check_enabled
    × IsFirstFlag (var "PROBE_CAPABILITIES") c.probe_capabilities l.probe_capabilities
    × IsFirstOption (var "CACHE_ENABLED") c.cache_enabled l.cache_enabled

-- For every file and environment: each text is the variable's, else the file's, else the default,
-- an empty one counting as missing; each number likewise, 0 counting as missing in the file and a
-- variable without a number as missing, except that the retention and the timeout have no variable;
-- the flags of the cookie, the health check and the probe are the variable's, else the file's, so that
-- the health check is off where neither names it, and the cache's is on where neither names it. The
-- redirects are the file's.
pub load-precedence :
    (getenv : String → String) (scan : String → Option ℤ) (c : Config)
    → HasTexts (get getenv scan) c (load getenv scan c)
      × HasNumbers (get getenv scan) scan c (load getenv scan c)
      × HasFlags (get getenv scan) c (load getenv scan c)
      × ((load getenv scan c).model_redirects ≡ c.model_redirects)
unfolding load apply_env set_defaults
load-precedence getenv scan c =
    let var = get getenv scan in
    (
      (
        IsFirstText-override (var "ADDR") c.addr ":8080",
        IsFirstText-override (var "DB_PATH") c.db_path "data/gateway.db",
        IsFirstText-override (var "LOG_LEVEL") c.log_level "info",
        IsFirstText-override (var "ADMIN_USERNAME") c.admin_username "admin",
        IsFirstText-override (var "ROUTING_STRATEGY") c.routing_strategy "random",
        IsFirstText-plain (var "SESSION_SECRET") c.session_secret,
        IsFirstText-plain (var "ADMIN_PASSWORD") c.admin_password,
        IsFirstText-plain (var "ENC_KEY") c.enc_key,
        IsFirstText-plain (var "TIMEZONE") c.timezone,
      ),
      (
        IsFirstNumber-override (var "HEALTH_CHECK_INTERVAL_SECONDS")
            (scan (var "HEALTH_CHECK_INTERVAL_SECONDS")) c.health_check_interval_sec (pos 300),
        IsFirstNumber-override (var "HEALTH_CHECK_MAX_FAILURES")
            (scan (var "HEALTH_CHECK_MAX_FAILURES")) c.health_check_max_failures (pos 3),
        IsFirstNumber-override (var "KEY_COOLDOWN_SECONDS") (scan (var "KEY_COOLDOWN_SECONDS"))
            c.key_cooldown_sec (pos 60),
        IsFirstNumber-override (var "CACHE_TTL_SECONDS") (scan (var "CACHE_TTL_SECONDS"))
            c.cache_ttl_sec (pos 300),
        IsFirstNumber-default c.log_retention_days (pos 7),
        IsFirstNumber-default c.default_timeout_sec (pos 120),
      ),
      (
        IsFirstFlag-override (var "SESSION_SECURE") c.session_secure,
        IsFirstFlag-override (var "HEALTH_CHECK_ENABLED") c.health_check_enabled,
        IsFirstFlag-override (var "PROBE_CAPABILITIES") c.probe_capabilities,
        IsFirstOption-override (var "CACHE_ENABLED") c.cache_enabled,
      ),
      refl,
    )
