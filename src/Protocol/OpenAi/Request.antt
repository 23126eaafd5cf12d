-- ===== src/Protocol/OpenAi/Request.antt =====
-- internal/protocol/openai.go, ParseOpenAIChatRequest and SerializeOpenAIChatRequest.
-- `json.Marshal` and `json.Unmarshal` stand between a text and the records here, which have the
-- fields of the source's structs for both directions; a field that is left out is its zero value.
-- A raw content is the value that it stands for, null if it is missing; the decoding of an array of
-- content parts is the parameter `decode_parts`. What the raw parameters of a tool become on the way
-- out is the parameter `marshal_raw`; the way in keeps them as they are in the text.
pub mod RoundTrip
mod Tests
use clean_api.Base.{
  ℕ, suc, String, Bool, Option, none, some, List, [], ◌∷◌, map, Result, ok, err, ◌>>=◌,
  if◌then◌else◌, ◌==◌, string_equality,
}
use clean_api.Base.Int.{ℤ}
use clean_api.Base.Text.{◌+++◌, itoa}
use clean_api.Protocol.Ir.{
  Value, null, bool, number, string, array, object, Items, nil, cons, Fields, end, field,
  ContentPart, text, image, ToolCall, Message, Tool, ToolFunction, ChatRequest,
}
use clean_api.Protocol.OpenAi.ToolChoice.{normalize_tool_choice}

pub record JsonToolCall : Type 0 where
  pub id : String
  pub type : String
  pub name : String
  pub arguments : String

pub record JsonMessage : Type 0 where
  pub role : String
  pub content : Value
  pub name : String
  pub tool_call_id : String
  pub tool_calls : List JsonToolCall

pub record JsonRequest : Type 0 where
  pub model : String
  pub messages : List JsonMessage
  pub tools : List Tool
  pub tool_choice : Value
  pub stream : Bool
  pub temperature : Option String
  pub max_tokens : Option ℤ
  pub response_format : Value

-- A decoded element of a content array.
pub record JsonPart : Type 0 where
  pub type : String
  pub text : String
  pub url : String

unfoldable pub with_type : Tool → Tool
with_type t = record t { type = if t.type == "" then "function" else t.type }

-- The way out.
unfoldable pub part_value : ContentPart → Value
part_value (text t) = object (field "type" (string "text") (field "text" (string t) end))
part_value (image url) = object (
    field "type" (string "image_url")
      (field "image_url" (object (field "url" (string url) end)) end))

unfoldable pub part_values : List ContentPart → Items
part_values [] = nil
part_values (p ∷ ps) = cons (part_value p) (part_values ps)

unfoldable pub content_value : List ContentPart → Value
content_value [] = null
content_value (text t ∷ []) = string t
content_value (image url ∷ []) = array (part_values (image url ∷ []))
content_value (p ∷ q ∷ ps) = array (part_values (p ∷ q ∷ ps))

abbrev pub call_out : ToolCall → JsonToolCall
call_out tc = record { id = tc.id; type = "function"; name = tc.name; arguments = tc.arguments }

unfoldable pub message_out : Message → JsonMessage
message_out m = record {
  role = m.role;
  content = content_value m.content;
  name = m.name;
  tool_call_id = m.tool_call_id;
  tool_calls = map call_out m.tool_calls;
}

-- `omitempty`, and what `json.Marshal` makes of a raw message: its text without spaces and with
-- escapes, or an error where it is no JSON.
abbrev pub raw_out : (String → Result String String) → String → Result String String
raw_out marshal_raw t = if t == "" then ok "" else marshal_raw t

unfoldable pub tool_out : (String → Result String String) → Tool → Result String Tool
tool_out marshal_raw t =
    raw_out marshal_raw t.function.parameters
    >>= (λ p. ok (with_type (record t { function = record t.function { parameters = p } })))

unfoldable pub tools_out : (String → Result String String) → List Tool → Result String (List Tool)
tools_out marshal_raw [] = ok []
tools_out marshal_raw (t ∷ ts) =
    tool_out marshal_raw t >>= (λ x. tools_out marshal_raw ts >>= (λ xs. ok (x ∷ xs)))

unfoldable pub serialize_request :
    (String → Result String String) → ChatRequest → Result String JsonRequest
serialize_request marshal_raw req = tools_out marshal_raw req.tools >>= (λ tools. ok (record {
  model = req.model;
  messages = map message_out req.messages;
  tools = tools;
  tool_choice = normalize_tool_choice req.tool_choice;
  stream = req.stream;
  temperature = req.temperature;
  max_tokens = req.max_tokens;
  response_format = req.response_format;
}))

-- The way in.
abbrev pub call_in : JsonToolCall → ToolCall
call_in tc = record { id = tc.id; name = tc.name; arguments = tc.arguments }

unfoldable pub parse_part : JsonPart → Result String ContentPart
parse_part p =
    if p.type == "text"
    then ok (text p.text)
    else if p.type == "image_url"
    then ok (image p.url)
    else err ("不支持的消息内容类型: " +++ p.type)

unfoldable pub parse_parts : List JsonPart → Result String (List ContentPart)
parse_parts [] = ok []
parse_parts (p ∷ ps) = parse_part p >>= (λ c. parse_parts ps >>= (λ cs. ok (c ∷ cs)))

abbrev pub parse_array : Option (List JsonPart) → Result String (List ContentPart)
parse_array none = err "content 既不是字符串也不是内容数组"
parse_array (some ps) = parse_parts ps

module _ (decode_parts : Value → Option (List JsonPart)) where
  unfoldable pub parse_content : Value → Result String (List ContentPart)
  parse_content null = ok []
  parse_content (string s) = ok (text s ∷ [])
  parse_content (array vs) = parse_array (decode_parts (array vs))
  parse_content (object fs) = parse_array (decode_parts (object fs))
  parse_content (bool b) = parse_array (decode_parts (bool b))
  parse_content (number n) = parse_array (decode_parts (number n))

  unfoldable pub parse_message : JsonMessage → Result String Message
  parse_message m = parse_content m.content >>= (λ parts. ok (record {
    role = m.role;
    content = parts;
    name = m.name;
    tool_call_id = m.tool_call_id;
    tool_calls = map call_in m.tool_calls;
  }))

  abbrev pub numbered : ℕ → Result String Message → Result String Message
  numbered i (ok m) = ok m
  numbered i (err e) = err ("第 " +++ itoa i +++ " 条消息解析失败: " +++ e)

  -- The messages from the i-th one on, counted from 1.
  unfoldable pub parse_messages : ℕ → List JsonMessage → Result String (List Message)
  parse_messages i [] = ok []
  parse_messages i (m ∷ ms) =
      numbered i (parse_message m) >>= (λ x. parse_messages (suc i) ms >>= (λ xs. ok (x ∷ xs)))

  unfoldable pub parse_request : JsonRequest → Result String ChatRequest
  parse_request raw =
      if raw.model == ""
      then err "缺少 model 字段"
      else parse_messages 1 raw.messages >>= (λ ms. ok (record {
        model = raw.model;
        messages = ms;
        tools = map with_type raw.tools;
        tool_choice = raw.tool_choice;
        stream = raw.stream;
        temperature = raw.temperature;
        max_tokens = raw.max_tokens;
        response_format = raw.response_format;
      }))
