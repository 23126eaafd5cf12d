-- ===== src/Channel/Detect.antt =====
-- internal/channel/detect.go: which protocol a base URL speaks, and its models and capabilities.
-- The HTTP client is a parameter: what a request is answered with, or the error of the call. The
-- decoding of a model list is another: its identifiers, the empty ones included, where `data` is an
-- array, nothing where it is missing, or the error of `json.Unmarshal`.
use clean_api.Base.{
  ℕ, String, Bool, false, not, ◌&&◌, ◌||◌, Option, none, some, List, [], ◌∷◌, filter, Result, ok,
  err, if◌then◌else◌, ◌==◌, nat_equality, string_equality, ltb, leb,
}
use clean_api.Base.Text.{◌+++◌, join, itoa, truncate}
use clean_api.Base.Url.{normalize_base}
use clean_api.Store.Models.{Capabilities}

pub data Feature : Type 0 where
  system : Feature
  tools : Feature
  vision : Feature
  json_mode : Feature

-- The bodies of the requests; a trial asks a model for one token with one feature (JSON mode is
-- no field of Anthropic's protocol: its trial has none).
pub data Body : Type 0 where
  empty : Body
  greeting : String → Body
  trial : String → Feature → Body

pub record Request : Type 0 where
  pub method : String
  pub url : String
  pub headers : List (String × String)
  pub body : Body

pub data Reply : Type 0 where
  unreachable : String → Reply
  replied : ℕ → String → Reply

abbrev pub bearer : String → List (String × String)
bearer key = ("Authorization", "Bearer " +++ key) ∷ []

abbrev pub anthropic_headers : String → List (String × String)
anthropic_headers key = ("x-api-key", key) ∷ ("anthropic-version", "2023-06-01") ∷ []

abbrev pub json_content : List (String × String) → List (String × String)
json_content hs = ("Content-Type", "application/json") ∷ hs

abbrev pub is_success : ℕ → Bool
is_success status = leb 200 status && ltb status 300

abbrev pub list_request : List (String × String) → String → Request
list_request headers base = record {
  method = "GET";
  url = base +++ "/v1/models";
  headers = headers;
  body = empty;
}

abbrev pub post : String → List (String × String) → Body → Request
post url headers body = record {
  method = "POST";
  url = url;
  headers = json_content headers;
  body = body;
}

-- `trim` is `strings.TrimSpace`.
module _ (trim : String → String) where
  module _ (client : Request → Reply)
      (model_ids : String → Result String (Option (List String))) where
    abbrev pub model_list_or_error : String → Result String (Option (List String)) → Option String
    model_list_or_error body (ok (some ids)) = none
    model_list_or_error body (ok none) = some ("响应不是模型列表: " +++ truncate body 200)
    model_list_or_error body (err e) = some ("响应不是模型列表: " +++ truncate body 200)

    abbrev pub openai_evidence : Reply → Option String
    openai_evidence (unreachable e) = some ("请求失败: " +++ e)
    openai_evidence (replied status body) =
        if is_success status
        then model_list_or_error body (model_ids body)
        else some ("HTTP " +++ itoa status +++ ": " +++ truncate body 200)

    -- The evidence against the protocol, none where it was found.
    unfoldable pub detect_openai : String → String → Option String
    detect_openai base key = openai_evidence (client (list_request (bearer key) base))

    abbrev pub path_evidence : Reply → Option String
    path_evidence (unreachable e) = some ("请求失败: " +++ e)
    path_evidence (replied status body) =
        if status == 404 || status == 405
        then some ("HTTP " +++ itoa status +++ ": 路径不存在")
        else none

    unfoldable pub detect_anthropic : String → String → Option String
    detect_anthropic base key = path_evidence (
        client (
          post (base +++ "/v1/messages") (anthropic_headers key)
            (greeting "claude-sonnet-4-20250514")))

    unfoldable pub detect_responses : String → String → Option String
    detect_responses base key =
        path_evidence
          (client (post (base +++ "/v1/responses") (bearer key) (greeting "gpt-4o-mini")))

    abbrev pub undetected : String → String → String → String
    undetected o a r =
        "协议探测失败："
        +++ join (("openai: " +++ o) ∷ ("anthropic: " +++ a) ∷ ("responses: " +++ r) ∷ []) "；"
        +++ "。可在编辑时手动指定类型重试"

    abbrev pub third : String → String → Option String → Result String String
    third o a none = ok "responses"
    third o a (some r) = err (undetected o a r)

    abbrev pub second : String → String → String → Option String → Result String String
    second base key o none = ok "anthropic"
    second base key o (some a) = third o a (detect_responses base key)

    abbrev pub first : String → String → Option String → Result String String
    first base key none = ok "openai"
    first base key (some o) = second base key o (detect_anthropic base key)

    unfoldable pub detect : String → String → Result String String
    detect base_url key =
        first (normalize_base trim base_url) key (detect_openai (normalize_base trim base_url) key)

    abbrev pub listed_names : Result String (Option (List String)) → Result String (List String)
    listed_names (ok (some ids)) = ok (filter (λ id. not (id == "")) ids)
    listed_names (ok none) = ok []
    listed_names (err e) = err ("解析模型列表失败: " +++ e)

    abbrev pub names_in : Reply → Result String (List String)
    names_in (unreachable e) = err e
    names_in (replied status body) =
        if is_success status
        then listed_names (model_ids body)
        else err ("拉取模型列表失败: HTTP " +++ itoa status +++ ": " +++ truncate body 300)

    abbrev pub headers_of : String → String → List (String × String)
    headers_of type key = if type == "anthropic" then anthropic_headers key else bearer key

    -- SyncModels of the manager.
    unfoldable pub list_models : String → String → String → Result String (List String)
    list_models type base_url key =
        names_in (client (list_request (headers_of type key) (normalize_base trim base_url)))

    abbrev pub is_supported : Reply → Bool
    is_supported (unreachable e) = false
    is_supported (replied status body) = is_success status

    abbrev pub tried : String → List (String × String) → String → Capabilities
    tried url headers model = record {
      system = is_supported (client (post url headers (trial model system)));
      tools = is_supported (client (post url headers (trial model tools)));
      vision = is_supported (client (post url headers (trial model vision)));
      json_mode = is_supported (client (post url headers (trial model json_mode)));
    }

    -- The base URL is used as it is stored.
    unfoldable pub probe_capabilities : String → String → String → String → Capabilities
    probe_capabilities type base key model =
        if type == "anthropic"
        then tried (base +++ "/v1/messages") (anthropic_headers key) model
        else tried (base +++ "/v1/chat/completions") (bearer key) model
