-- ===== src/Router/Tests.antt =====
-- One model on two channels: the first channel's key is refused with 429, the second one answers.
use clean_api.Base.{
  ℕ, String, true, false, Option, none, List, [], ◌∷◌, Result, ok, err, ◌≡◌, refl, ◌≤◌, ◌⊎◌, arith,
  ◌*◌, length, eqb, if◌then◌else◌, lookup, string_equality,
}
use mathlib.Core.List.{Perm}
use mathlib.Core.List.Perm
use clean_api.Protocol.Fold.{
  slots, compact, fold_system_into_user, prefix_content, system_texts, write_user,
}
use clean_api.Base.Int.{pos}
use clean_api.Protocol.Ir.{
  null, ChatRequest, ChatResponse, StreamEvent, text_delta, done, text_message,
}
use clean_api.Store.Channels.{Channel, ChannelKey, list_channel_keys, set_key_cooldown}
use clean_api.Store.Models.{Model, list_channels_by_model}
use clean_api.Channel.Keys.{counter, select_key, choose, picked, mark_key_failed}
use clean_api.Router.Types.{
  RouteError, upstream, Call, World, Env, apply_redirect, supported_channel_type, prepare_req,
  unsupported_type_error, verdict,
}
use clean_api.Router.Order.{channel_order, numbers, order_from, max_attempts}
use clean_api.Router.Loop.{channel_loop, key_loop, turn, call_with, settle}
use clean_api.Router.Order.Rotation.{Shuffles, channel_order-perm, channel_order-round_robin}
use clean_api.Router.Chat.{chat, chat_stream, Body, dispatch, resolve_routes, plan_routes}
use clean_api.Router.Chat.Laws.{chat_bounded, chat-IsAnswered, IsAnswered, routes_of}
use clean_api.Router.Chat.Stream.{HasOneSource, chat_stream-HasOneSource}

abbrev keep_order : List ℕ → List ℕ
keep_order xs = xs

keep_order-Shuffles : Shuffles keep_order
keep_order-Shuffles xs = Perm.refl xs

abbrev channel : ℕ → Channel
channel n = record {
  id = n;
  name = "c";
  type = "openai";
  base_url = "https://u";
  status = "active";
  weight = 1;
  balance_strategy = "random";
}

abbrev model_on : ℕ → Model
model_on n = record {
  id = n;
  channel_id = n;
  name = "m";
  enabled = true;
  alias = "";
  capabilities = record { system = true; tools = true; vision = false; json_mode = false };
  capability_override = "";
  last_sync_at = 0;
}

abbrev key_of : ℕ → ChannelKey
key_of n = record { id = n; channel_id = n; key_enc = "k"; cooldown_until = none }

abbrev two_channels : Env
two_channels = record {
  strategy = "round_robin";
  redirects = ("alias", "m") ∷ [];
  channels = channel 1 ∷ channel 2 ∷ [];
  models = model_on 1 ∷ model_on 2 ∷ [];
  route_error = none;
  shuffle = keep_order;
  decrypt = λ t. ok t;
  cooldown = 60;
  key_error = λ n. none;
  now = λ n. n;
  rand = λ n. 0;
  fail_time = λ n. n;
  mark_error = λ n. none;
}

abbrev fresh : World
fresh = record {
  keys = record { keys = key_of 1 ∷ key_of 2 ∷ []; rr = [] };
  route_rr = [];
  messages = slots 0 (text_message "user" "hi" ∷ []);
  attempts = 0;
  calls = [];
}

abbrev request : ChatRequest
request = record {
  model = "alias";
  messages = text_message "user" "hi" ∷ [];
  tools = [];
  tool_choice = null;
  stream = false;
  temperature = none;
  max_tokens = none;
  response_format = null;
}

abbrev response : ChatResponse
response = record {
  id = "r";
  model = "m";
  created = 1;
  choices = [];
  usage = record { prompt_tokens = pos 1; completion_tokens = pos 1; total_tokens = pos 2 };
}

abbrev too_many : RouteError
too_many =
    upstream
      (record { status_code = 429; type = "rate_limit_error"; message = "busy"; retryable = false })

abbrev answer_of : ℕ → Call → Result RouteError ChatResponse
answer_of n c = if eqb c.key_id 1 then err too_many else ok response

abbrev body_of : ℕ → Call → Body
body_of n c =
    if eqb c.key_id 1
    then record { events = []; ending = err too_many }
    else record { events = text_delta "a" ∷ done "stop" none ∷ []; ending = ok tt }

abbrev emit_ok : List StreamEvent → StreamEvent → List StreamEvent × Option String
emit_ok seen ev = (ev ∷ seen, none)

chat_test : (chat two_channels answer_of "alias" request fresh).result ≡ ok response
unfolding chat dispatch resolve_routes plan_routes list_channels_by_model apply_redirect
    channel_loop channel_order order_from max_attempts key_loop turn select_key list_channel_keys
    choose picked call_with supported_channel_type settle mark_key_failed compact
    fold_system_into_user prefix_content system_texts write_user prepare_req unsupported_type_error
    verdict set_key_cooldown
chat_test = refl

chat_bounded_example :
    (length (chat two_channels answer_of "alias" request fresh).world.calls ≤ 4)
    × (length (chat two_channels answer_of "alias" request fresh).world.calls
        ≤ 2 * length (routes_of two_channels "alias"))
chat_bounded_example =
    chat_bounded two_channels answer_of "alias" request fresh keep_order-Shuffles refl

chat-IsAnswered_example :
    IsAnswered two_channels "alias" answer_of
      (chat two_channels answer_of "alias" request fresh).world.calls
      response
chat-IsAnswered_example =
    chat-IsAnswered two_channels answer_of "alias" request fresh response keep_order-Shuffles refl
      chat_test

chat_stream-HasOneSource_example :
    HasOneSource body_of
      (chat_stream emit_ok two_channels body_of "alias" request fresh []).world.calls
      (chat_stream emit_ok two_channels body_of "alias" request fresh []).state
      (chat_stream emit_ok two_channels body_of "alias" request fresh []).result
    ⊎ (((chat_stream emit_ok two_channels body_of "alias" request fresh []).state.delivered ≡ [])
        × (e : RouteError) × ((chat_stream emit_ok two_channels body_of "alias" request fresh
              []).result
            ≡ err e))
chat_stream-HasOneSource_example =
    chat_stream-HasOneSource emit_ok two_channels body_of "alias" request fresh []
      keep_order-Shuffles refl

channel_order-perm_example :
    Perm (channel_order keep_order "round_robin" (("m", 4) ∷ []) "m" 3).1 (numbers 0 3)
channel_order-perm_example =
    channel_order-perm keep_order "round_robin" (("m", 4) ∷ []) "m" 3 keep_order-Shuffles
      (omega arith)

channel_order-round_robin_example :
    ((channel_order keep_order "round_robin" (("m", 4) ∷ []) "m" 3).1 ≡ 1 ∷ 2 ∷ 0 ∷ [])
    × (counter (lookup "m" (channel_order keep_order "round_robin" (("m", 4) ∷ []) "m" 3).0) ≡ 5)
channel_order-round_robin_example =
    channel_order-round_robin keep_order (("m", 4) ∷ []) "m" 3 (omega arith)
