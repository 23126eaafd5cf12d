-- ===== src/Api/Tests.antt =====
-- A token for one model, and a request that it allows.
use clean_api.Base.{
  ℕ, String, true, false, Option, none, some, [], ◌∷◌, ok, ◌≡◌, refl, string_equality,
}
use clean_api.Base.Int.{pos}
use clean_api.Protocol.Ir.{ChatRequest, ChatResponse, text_message, null}
use clean_api.Router.Types.{RouteError, upstream}
use clean_api.Api.Auth.{Token, Headers, api_auth}
use clean_api.Api.Auth.Laws.{IsAuthenticated, api_auth-IsAuthenticated}
use clean_api.Api.Errors.{anthropic, openai, write_route_error, error_status}
use clean_api.Api.Errors.Laws.{Reports, write_route_error-Reports}
use clean_api.Store.Models.{Model}
use clean_api.Api.Models.{model_names}
use clean_api.Api.Models.Names.{IsListing, model_names-IsListing}
use clean_api.Api.Handler.{Server, Gate, Reply, handle_non_stream}

abbrev token : Token
token = record {
  id = 7;
  user_id = 3;
  model_whitelist = "m" ∷ [];
  allow_all = false;
  enabled = true;
}

abbrev headers : Headers
headers = record { authorization = "Bearer secret"; x_api_key = "" }

abbrev stored : String → Option Token
stored h = some token

abbrev user : ℕ → Option String
user id = some "alice"

abbrev hashed : String → String
hashed t = t

auth_test : api_auth hashed stored user headers ≡ ok (token, "alice")
unfolding api_auth
auth_test = refl

api_auth-IsAuthenticated_example : IsAuthenticated hashed stored user headers token "alice"
api_auth-IsAuthenticated_example =
    api_auth-IsAuthenticated hashed stored user headers token "alice" auth_test

abbrev no_network : RouteError
no_network = upstream (record { status_code = 0; type = ""; message = "refused"; retryable = true })

write_route_error-Reports_example :
    Reports anthropic (write_route_error anthropic no_network "m") (error_status no_network)
write_route_error-Reports_example = write_route_error-Reports anthropic no_network "m"

abbrev request : ChatRequest
request = record {
  model = "m";
  messages = text_message "user" "hi" ∷ [];
  tools = [];
  tool_choice = null;
  stream = false;
  temperature = none;
  max_tokens = none;
  response_format = null;
}

abbrev response : ChatResponse
response = record {
  id = "r";
  model = "m";
  created = 1;
  choices = [];
  usage = record { prompt_tokens = pos 1; completion_tokens = pos 1; total_tokens = pos 2 };
}

abbrev gate : Gate ℕ
gate = record {
  parse = λ entry body. ok request;
  serialize = λ entry resp. ok resp.id;
  encode = λ resp. some resp.id;
  decode = λ text. some response;
  cache_key = λ id body. body;
  chat = λ req n. (1, 2, ok response);
  chat_stream = λ req n. (1, record { events = []; channel_id = 2; failure = none });
}

abbrev server : Server ℕ
server = record {
  cache = record { items = []; ttl = 300; enabled = true; max = 5000 };
  logs = [];
  world = 0;
}

abbrev first : Server ℕ × Reply
first = handle_non_stream gate 5 6 token openai request (some "{}") server

abbrev model_of : String → String → Model
model_of name alias = record {
  id = 1;
  channel_id = 1;
  name = name;
  enabled = true;
  alias = alias;
  capabilities = record { system = true; tools = true; vision = false; json_mode = false };
  capability_override = "";
  last_sync_at = 0;
}

model_names-IsListing_example :
    IsListing token [] (model_names token [] (model_of "m" "" ∷ model_of "x" "m" ∷ []))
model_names-IsListing_example =
    model_names-IsListing token [] (model_of "m" "" ∷ model_of "x" "m" ∷ [])
