-- ===== src/Api/Auth.antt =====
-- internal/auth/middleware.go: the token check in front of /v1, and the model whitelist. The
-- SHA-256 hash and the two queries of the database are parameters, an error of a query is `none`;
-- TouchToken, whose error is dropped, only writes the time of the last use, and is not modelled.
pub mod Laws
use Prim.Native.String
use clean_api.Base.{
  ℕ, String, Bool, true, false, Option, none, some, List, [], ◌∷◌, Result, ok, err, if◌then◌else◌,
  ◌==◌, string_equality, contains, starts_with,
}

pub record Token : Type 0 where
  pub id : ℕ
  pub user_id : ℕ
  pub model_whitelist : List String
  pub allow_all : Bool
  pub enabled : Bool

-- CheckModelAllowed.
unfoldable pub check_model_allowed : Option Token → String → Bool
check_model_allowed none model = false
check_model_allowed (some t) model =
    if model == "" then false else if t.allow_all then true else contains t.model_whitelist model

-- The error type of a request that is refused with 401.
pub record Refusal : Type 0 where
  pub type : String
  pub message : String

abbrev pub unauthorized : String → Refusal
unauthorized m = record { type = "unauthorized"; message = m }

-- The headers of a request, one that is missing is the empty text.
pub record Headers : Type 0 where
  pub authorization : String
  pub x_api_key : String

abbrev pub raw_token : Headers → String
raw_token h =
    if starts_with h.authorization "Bearer "
    then String.slice h.authorization 7 (String.len h.authorization)
    else h.x_api_key

module _ {User : Type 0} (hash : String → String) (token_by_hash : String → Option Token)
    (user_by_id : ℕ → Option User) where
  abbrev pub with_user : Token → Option User → Result Refusal (Token × User)
  with_user t none = err (unauthorized "用户不存在")
  with_user t (some u) = ok (t, u)

  abbrev pub with_token : Option Token → Result Refusal (Token × User)
  with_token none = err (unauthorized "令牌无效")
  with_token (some t) =
      if t.enabled
      then with_user t (user_by_id t.user_id)
      else err (record { type = "token_disabled"; message = "令牌已被禁用" })

  -- APIAuth: what the next handler gets in the context, or the refusal.
  unfoldable pub api_auth : Headers → Result Refusal (Token × User)
  api_auth h =
      if raw_token h == ""
      then err (unauthorized "缺少 Bearer 令牌或 x-api-key")
      else with_token (token_by_hash (hash (raw_token h)))
