-- ===== src/Api/Handler.antt =====
-- internal/api/chat.go: one request to /v1, from its body to the response and the log entry.
-- A request's parser and a response's serializer, the hash of the cache key and the router are
-- parameters; the router's state is `W`. The times, and a log entry's latency, are left out: the
-- cache is read at `now` and written at `later`. A request whose body cannot be read is `none`.
pub mod Guards
pub mod Cached
use clean_api.Base.{
  ℕ, String, Bool, true, false, Option, none, some, List, [], ◌∷◌, Result, ok, err, if◌then◌else◌,
  ◌==◌, string_equality, not, eqb,
}
use clean_api.Base.Int.{ℤ, pos}
use clean_api.Base.Text.{◌+++◌, itoa, truncate}
use clean_api.Protocol.Ir.{
  ChatRequest, ChatResponse, Usage, Message, StreamEvent, done, text_delta, tool_call_start,
  tool_call_delta, tool_call_stop,
}
use clean_api.Cache.{Manager, get, set}
use clean_api.Upstream.Errors.{Error}
use clean_api.Router.Types.{RouteError, model_not_found, other, upstream, panic}
use clean_api.Api.Auth.{Token, check_model_allowed}
use clean_api.Api.Errors.{Entry, ErrorReply, write_entry_error, error_status, write_route_error}

pub record Log : Type 0 where
  pub token_id : ℕ
  pub model : String
  pub channel_id : ℕ
  pub status : ℕ
  pub prompt_tokens : ℤ
  pub completion_tokens : ℤ
  pub cache_hit : Bool
  pub error : String

-- The calls of the stream's writer, and what the client gets.
pub data StreamEnd : Type 0 where
  finished : StreamEnd
  failed : RouteError → StreamEnd

pub data Reply : Type 0 where
  json : String → Reply
  refused : ErrorReply → Reply
  event_stream : List StreamEvent → StreamEnd → Reply
  aborted : Reply

-- The logs, the newest first.
pub record Server (W : Type 0) : Type 0 where
  pub cache : Manager
  pub logs : List Log
  pub world : W

-- `err.Error()`.
abbrev pub upstream_text : Error → String
upstream_text e =
    if eqb e.status_code 0
    then e.message
    else "上游 HTTP " +++ itoa e.status_code +++ ": " +++ e.message

abbrev pub error_text : RouteError → String
error_text model_not_found = "model not found"
error_text (other m) = m
error_text (upstream e) = upstream_text e
error_text panic = ""

-- The usage of the last `done` event that has one.
abbrev pub usage_in : List StreamEvent → Option Usage → Option Usage
usage_in [] u = u
usage_in (done reason (some v) ∷ evs) u = usage_in evs (some v)
usage_in (done reason none ∷ evs) u = usage_in evs u
usage_in (text_delta t ∷ evs) u = usage_in evs u
usage_in (tool_call_start i id n ∷ evs) u = usage_in evs u
usage_in (tool_call_delta i a ∷ evs) u = usage_in evs u
usage_in (tool_call_stop i ∷ evs) u = usage_in evs u

abbrev pub tokens_of : Option Usage → ℤ × ℤ
tokens_of none = (pos 0, pos 0)
tokens_of (some u) = (u.prompt_tokens, u.completion_tokens)

abbrev pub is_empty : List Message → Bool
is_empty [] = true
is_empty (m ∷ ms) = false

-- What the router's ChatStream did: the events it emitted, its channel and its error.
pub record Streamed : Type 0 where
  pub events : List StreamEvent
  pub channel_id : ℕ
  pub failure : Option RouteError

-- The parameters of one request.
pub record Gate (W : Type 0) : Type 0 where
  pub parse : Entry → String → Result String ChatRequest
  pub serialize : Entry → ChatResponse → Result String String
  pub encode : ChatResponse → Option String
  pub decode : String → Option ChatResponse
  pub cache_key : ℕ → String → String
  pub chat : ChatRequest → W → W × ℕ × Result RouteError ChatResponse
  pub chat_stream : ChatRequest → W → W × Streamed

module _ {W : Type 0} (gate : Gate W) (now later : ℕ) (tok : Token) (entry : Entry) where
  abbrev pub log_request : ChatRequest → ℕ → ℕ → RouteError → Server W → Server W
  log_request req channel_id status e s = record s {
    logs =
        record {
          token_id = tok.id;
          model = req.model;
          channel_id = channel_id;
          status = status;
          prompt_tokens = pos 0;
          completion_tokens = pos 0;
          cache_hit = false;
          error = truncate (error_text e) 300;
        }
        ∷ s.logs;
  }

  abbrev pub log_success : ChatRequest → ℕ → ℤ × ℤ → Bool → Server W → Server W
  log_success req channel_id tokens hit s = record s {
    logs =
        record {
          token_id = tok.id;
          model = req.model;
          channel_id = channel_id;
          status = 200;
          prompt_tokens = tokens.0;
          completion_tokens = tokens.1;
          cache_hit = hit;
          error = "";
        }
        ∷ s.logs;
  }

  abbrev pub refuse : ℕ → String → String → Server W → Server W × Reply
  refuse status type msg s = (s, refused (write_entry_error entry status type msg))

  abbrev pub log_status : ChatRequest → ℕ → Option ℕ → RouteError → Server W → Server W
  log_status req ch none e s = s
  log_status req ch (some status) e s = log_request req ch status e s

  abbrev pub reply_of : Option ErrorReply → Reply
  reply_of none = aborted
  reply_of (some r) = refused r

  abbrev pub route_failure : ChatRequest → ℕ → RouteError → Server W → Server W × Reply
  route_failure req ch e s =
      (log_status req ch (error_status e) e s, reply_of (write_route_error entry e req.model))

  abbrev pub tokens : ChatResponse → ℤ × ℤ
  tokens resp = (resp.usage.prompt_tokens, resp.usage.completion_tokens)

  -- Only a request that may be cached has a key.
  abbrev pub remember : Option String → ChatResponse → Server W → Server W
  remember none resp s = s
  remember (some key) resp s = record s {
    cache = set gate.encode gate.decode later key resp s.cache;
  }

  abbrev pub answer :
      ChatRequest
      → Option String
      → ℕ
      → ChatResponse
      → Result String String
      → Server W
      → Server W × Reply
  answer req key ch resp (ok out) s =
      (log_success req ch (tokens resp) false (remember key resp s), json out)
  answer req key ch resp (err e) s = refuse 500 "internal_error" ("序列化响应失败: " +++ e) s

  abbrev pub routed :
      ChatRequest
      → Option String
      → Server W
      → W × ℕ × Result RouteError ChatResponse
      → Server W × Reply
  routed req key s (w, ch, err e) = route_failure req ch e (record s { world = w })
  routed req key s (w, ch, ok resp) =
      answer req key ch resp (gate.serialize entry resp) (record s { world = w })

  unfoldable pub handle_non_stream : ChatRequest → Option String → Server W → Server W × Reply
  handle_non_stream req key s = routed req key s (gate.chat req s.world)

  abbrev pub stream_end :
      ChatRequest → Server W → List StreamEvent → ℕ → Option RouteError → Server W × Reply
  stream_end req s evs ch none =
      (log_success req ch (tokens_of (usage_in evs none)) false s, event_stream evs finished)
  stream_end req s [] ch (some e) = route_failure req ch e s
  stream_end req s (ev ∷ evs) ch (some panic) = (s, aborted)
  stream_end req s (ev ∷ evs) ch (some e) =
      (log_request req ch 0 e s, event_stream (ev ∷ evs) (failed e))

  -- The first event sends the headers: an error before it is an ordinary response.
  abbrev pub streamed : ChatRequest → Server W → Streamed → Server W × Reply
  streamed req s r = stream_end req s r.events r.channel_id r.failure

  unfoldable pub handle_stream : ChatRequest → Server W → Server W × Reply
  handle_stream req s =
      let (w, r) = gate.chat_stream req s.world in streamed req (record s { world = w }) r

  abbrev pub served :
      ChatRequest → String → ChatResponse → Result String String → Server W → Server W × Reply
  served req key resp (ok out) s = (log_success req 0 (tokens resp) true s, json out)
  served req key resp (err e) s = handle_non_stream req (some key) s

  -- A hit that does not serialize is no hit.
  abbrev pub hit :
      ChatRequest → String → Manager × Option ChatResponse → Server W → Server W × Reply
  hit req key (m, none) s = handle_non_stream req (some key) (record s { cache = m })
  hit req key (m, some resp) s =
      served req key resp (gate.serialize entry resp) (record s { cache = m })

  unfoldable pub dispatch : String → ChatRequest → Server W → Server W × Reply
  dispatch body req s =
      if req.stream
      then handle_stream req s
      else if s.cache.enabled
      then hit req (gate.cache_key tok.id body)
          (get gate.encode gate.decode now (gate.cache_key tok.id body) s.cache) s
      else handle_non_stream req none s

  abbrev pub parsed : String → Result String ChatRequest → Server W → Server W × Reply
  parsed body (err e) s = refuse 400 "invalid_request" e s
  parsed body (ok req) s =
      if not (check_model_allowed (some tok) req.model)
      then refuse 403 "model_not_allowed" "model not allowed" s
      else if is_empty req.messages
      then refuse 400 "invalid_request" "请求消息为空（messages/input 不能为空）" s
      else dispatch body req s

  abbrev pub handle_body : Option String → Server W → Server W × Reply
  handle_body none s = refuse 400 "invalid_request" "读取请求体失败" s
  handle_body (some body) s =
      if body == ""
      then refuse 400 "invalid_request" "请求体不能为空" s
      else parsed body (gate.parse entry body) s

-- `handle`, with the token that APIAuth has put into the context.
unfoldable pub handle :
    {W : Type 0}
    → Gate W
    → ℕ
    → ℕ
    → Option Token
    → Entry
    → Option String
    → Server W
    → Server W × Reply
handle gate now later none entry body s =
    (s, refused (write_entry_error entry 401 "unauthorized" "缺少鉴权上下文"))
handle gate now later (some tok) entry body s = handle_body gate now later tok entry body s
