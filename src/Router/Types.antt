-- ===== src/Router/Types.antt =====
-- internal/router/router.go: what one request sees and changes while it is routed.
use clean_api.Base.{
  ℕ, String, Bool, false, Option, none, some, List, Result, if◌then◌else◌, eqb, ◌==◌,
  string_equality, ◌||◌, lookup,
}
use clean_api.Base.Text.{◌+++◌}
use clean_api.Protocol.Ir.{ChatRequest}
use clean_api.Protocol.Fold.{Slot, messages_of, fold_system_into_user}
use clean_api.Store.Channels.{Channel}
use clean_api.Store.Models.{Model, ModelRoute}
use clean_api.Channel.Keys.{KeyState}
use clean_api.Upstream.Errors.{Error}

-- `panic` is an index out of range; `other` is any error that is no `*upstream.Error`.
pub data RouteError : Type 0 where
  model_not_found : RouteError
  other : String → RouteError
  upstream : Error → RouteError
  panic : RouteError

-- A call of an adapter: its type, its base URL and key, and the request that it sends.
pub record Call : Type 0 where
  pub route : ModelRoute
  pub key : String
  pub key_id : ℕ
  pub request : ChatRequest

-- A call with the error that it returned.
pub record Attempt : Type 0 where
  pub call : Call
  pub failure : Option RouteError

-- The shared state, the array behind `req.Messages`, and the calls made, the newest first.
pub record World : Type 0 where
  pub keys : KeyState
  pub route_rr : List (String × ℕ)
  pub messages : List Slot
  pub attempts : ℕ
  pub calls : List Attempt

-- What the request meets outside: at the n-th attempt the clock, the random number and the errors
-- of the key query and of the key update.
pub record Env : Type 0 where
  pub strategy : String
  pub redirects : List (String × String)
  pub channels : List Channel
  pub models : List Model
  pub route_error : Option String
  pub shuffle : List ℕ → List ℕ
  pub decrypt : String → Result String String
  pub cooldown : ℕ
  pub key_error : ℕ → Option String
  pub now : ℕ → ℕ
  pub rand : ℕ → ℕ
  pub fail_time : ℕ → ℕ
  pub mark_error : ℕ → Option String

abbrev target : String → Option String → String
target model none = model
target model (some t) = if t == "" then model else t

unfoldable pub apply_redirect : List (String × String) → String → String
apply_redirect redirects model = target model (lookup model redirects)

unfoldable pub supported_channel_type : String → Bool
supported_channel_type t = t == "" || (t == "openai" || t == "anthropic")

unfoldable pub unsupported_type_error : String → RouteError
unsupported_type_error t = upstream (record {
  status_code = 501;
  type = "not_implemented";
  message = "渠道类型 " +++ t +++ " 暂不支持（后续版本实现）";
  retryable = false;
})

-- The request for a route, and the array behind the caller's messages after it.
unfoldable pub prepare_req : ChatRequest → List Slot → ModelRoute → ChatRequest × List Slot
prepare_req req messages route =
    let ir = record req { model = route.model_name; messages = messages_of messages } in
    let folded = fold_system_into_user messages in
    if route.caps.system
    then (ir, messages)
    else (record ir { messages = messages_of folded.messages }, folded.array)

-- What the loops do after an error of the adapter.
pub data Verdict : Type 0 where
  rotate_key switch_channel give_up : Verdict

unfoldable pub verdict : RouteError → Verdict
verdict (upstream e) =
    if eqb e.status_code 429 || eqb e.status_code 401
    then rotate_key
    else if e.retryable
    then switch_channel
    else give_up
verdict _ = give_up
