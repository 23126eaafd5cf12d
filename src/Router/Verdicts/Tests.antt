-- ===== src/Router/Verdicts/Tests.antt =====
-- An upstream that limits the rate.
use clean_api.Base.{String, false, none, [], ◌∷◌, Result, ok, err, ◌≡◌, refl}
use clean_api.Base.Url.{normalize_base}
use clean_api.Protocol.Ir.{null, ChatRequest, ChatResponse, text_message}
use clean_api.Upstream.Errors.{Error, parse_upstream_error}
use clean_api.Upstream.Adapters.{Outside, openai, replied, adapter_chat}
use clean_api.Router.Types.{verdict, upstream}
use clean_api.Router.Verdicts.{verdict_on, verdict-adapter_chat}

abbrev limited : Outside
limited = record {
  trim = λ s. s;
  serialize = λ r. ok "{}";
  build = λ p. none;
  client = λ p. replied 429 "slow down";
  error_body = λ raw. none;
}

abbrev unread : String → Result String ChatResponse
unread raw = err "no JSON"

abbrev hello : ChatRequest
hello = record {
  model = "m";
  messages = text_message "user" "hi" ∷ [];
  tools = [];
  tool_choice = null;
  stream = false;
  temperature = none;
  max_tokens = none;
  response_format = null;
}

abbrev rate_error : Error
rate_error = parse_upstream_error (λ raw. none) 429 "slow down"

chat_test : adapter_chat limited openai "https://a.b" "k" unread hello ≡ err rate_error
unfolding adapter_chat normalize_base
chat_test = refl

verdict-adapter_chat_example : verdict (upstream rate_error) ≡ verdict_on (replied 429 "slow down")
verdict-adapter_chat_example =
    verdict-adapter_chat limited openai "https://a.b" "k" unread hello (replied 429 "slow down")
      rate_error refl chat_test
