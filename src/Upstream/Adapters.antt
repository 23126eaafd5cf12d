-- ===== src/Upstream/Adapters.antt =====
-- internal/upstream/openai.go and anthropic.go: the calls of the adapters. Serializing, sending and
-- decoding are parameters: `serialize` is a serializer with `json.Marshal`, `build` the error of
-- `http.NewRequestWithContext`, `client` the HTTP client, `parse` a parser of responses with
-- `json.Unmarshal`, `feed` a stream parser.
pub mod Streams
use clean_api.Base.{
  ℕ, ◌&&◌, String, Bool, true, false, Option, none, some, List, [], ◌∷◌, ◌++◌, Result, ok, err,
  if◌then◌else◌, ltb, leb, starts_with, ◌==◌, string_equality,
}
use clean_api.Base.Text.{◌+++◌, after_bytes}
use clean_api.Base.Url.{normalize_base}
use clean_api.Protocol.Ir.{ChatRequest, ChatResponse, StreamEvent}
use clean_api.Upstream.Errors.{Error, ErrorBody, parse_upstream_error}

pub record Post : Type 0 where
  pub url : String
  pub headers : List (String × String)
  pub body : String

-- What a request is answered with: a status and what is read of the body, or the client's error.
pub data Reply : Type 0 where
  unreachable : String → Reply
  replied : ℕ → String → Reply

abbrev pub own_error : String → Bool → Error
own_error message retryable = record {
  status_code = 0;
  type = "";
  message = message;
  retryable = retryable;
}

abbrev pub json_header : String × String
json_header = ("Content-Type", "application/json")

-- The end of the URL and the headers of a protocol.
pub record Protocol : Type 0 where
  pub path : String
  pub headers : String → List (String × String)

abbrev pub openai : Protocol
openai = record {
  path = "/v1/chat/completions";
  headers = λ key. json_header ∷ ("Authorization", "Bearer " +++ key) ∷ [];
}

abbrev pub anthropic : Protocol
anthropic = record {
  path = "/v1/messages";
  headers = λ key. json_header ∷ ("x-api-key", key) ∷ ("anthropic-version", "2023-06-01") ∷ [];
}

pub record Outside : Type 0 where
  pub trim : String → String
  pub serialize : ChatRequest → Result String String
  pub build : Post → Option String
  pub client : Post → Reply
  pub error_body : String → Option ErrorBody

abbrev pub is_success : ℕ → Bool
is_success status = leb 200 status && ltb status 300

module _ (env : Outside) (protocol : Protocol) (base_url key : String) where
  abbrev pub sent : Post → Option String → Result Error Reply
  sent p (some e) = err (own_error ("构造上游请求失败: " +++ e) false)
  sent p none = ok (env.client p)

  abbrev pub post : String → Post
  post body = record {
    url = normalize_base env.trim base_url +++ protocol.path;
    headers = protocol.headers key;
    body = body;
  }

  abbrev pub posted : Result String String → Result Error Reply
  posted (err e) = err (own_error ("序列化上游请求失败: " +++ e) false)
  posted (ok body) = sent (post body) (env.build (post body))

  -- A response that is not 2xx, and one that is.
  abbrev pub read_reply :
      {A : Type 0} → (String → Result Error A) → Result Error Reply → Result Error A
  read_reply read (err e) = err e
  read_reply read (ok (unreachable e)) = err (own_error ("调用上游失败: " +++ e) true)
  read_reply read (ok (replied status raw)) =
      if is_success status then read raw else err (parse_upstream_error env.error_body status raw)

  abbrev pub parsed : Result String ChatResponse → Result Error ChatResponse
  parsed (ok resp) = ok resp
  parsed (err e) = err (own_error e true)

  -- Chat of both adapters.
  unfoldable pub adapter_chat :
      (String → Result String ChatResponse) → ChatRequest → Result Error ChatResponse
  adapter_chat parse req = read_reply (λ raw. parsed (parse raw)) (posted (env.serialize req))

-- The data of a line, where it has any.
module _ (trim : String → String) where
  abbrev pub line_text : String → Option String
  line_text line =
      if starts_with line "data:"
      then (if trim (after_bytes 5 line) == "" then none else some (trim (after_bytes 5 line)))
      else none

  abbrev pub with_line : Option String → List String → List String
  with_line none rest = rest
  with_line (some t) rest = t ∷ rest

  unfoldable pub data_lines : List String → List String
  data_lines [] = []
  data_lines (line ∷ lines) = with_line (line_text (trim line)) (data_lines lines)

-- What the loop over the lines emits, and how it ends if the client takes every event.
pub record Stream : Type 0 where
  pub events : List StreamEvent
  pub failure : Option Error

abbrev pub scan_failure : Option String → Option Error
scan_failure none = none
scan_failure (some e) = some (own_error ("读取上游流式响应失败: " +++ e) true)

module _ {P : Type 0} (trim : String → String)
    (feed : String → P → Result String (P × List StreamEvent)) where
  abbrev pub continued : (P → Stream) → Result String (P × List StreamEvent) → Stream
  continued k (err e) = record {
    events = [];
    failure = some (own_error ("解析上游流式响应失败: " +++ e) false);
  }
  continued k (ok (p, evs)) = record { events = evs ++ (k p).events; failure = (k p).failure }

  abbrev pub with_text : (P → Stream) → Option String → P → Stream
  with_text k none p = k p
  with_text k (some t) p = continued k (feed t p)

  -- The loop of ChatStream; `broken` is the error of the scanner after the lines.
  unfoldable pub read_lines : Option String → List String → P → Stream
  read_lines broken [] p = record { events = []; failure = scan_failure broken }
  read_lines broken (line ∷ lines) p =
      with_text (read_lines broken lines) (line_text trim (trim line)) p
