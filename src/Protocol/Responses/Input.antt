-- ===== src/Protocol/Responses/Input.antt =====
-- internal/protocol/responses.go, ParseResponsesRequest: requests of the Responses protocol as unified
-- ones. `json.Unmarshal` stands before these types: an input is missing or null, a text, an array of
-- objects, or none of them. `format` is `text.format`, null where there is none.
use clean_api.Base.{
  ℕ, suc, String, Bool, Option, none, some, List, [], ◌∷◌, ◌++◌, map, Result, ok, err, ◌>>=◌,
  is_some, if◌then◌else◌, ◌==◌, ◌||◌, string_equality,
}
use clean_api.Base.Int.{ℤ}
use clean_api.Base.Text.{◌+++◌, itoa}
use clean_api.Protocol.Ir.{
  Value, null, bool, number, string, array, object, Items, nil, cons, Fields, ContentPart, text,
  image, Message, Tool, ChatRequest, text_message,
}
use clean_api.Protocol.OpenAi.ToolChoice.{get_field, text_field}
use clean_api.Protocol.Anthropic.Blocks.{or_png, data_url}
use clean_api.Protocol.Anthropic.Messages.{message_of, tool_message}

pub data RawInput : Type 0 where
  missing : RawInput
  plain : String → RawInput
  listed : List Fields → RawInput
  invalid : RawInput

pub record InputTool : Type 0 where
  pub type : String
  pub name : String
  pub description : String
  pub parameters : String

pub record ResponsesRequest : Type 0 where
  pub model : String
  pub instructions : String
  pub input : RawInput
  pub tools : List InputTool
  pub tool_choice : Value
  pub stream : Bool
  pub temperature : Option String
  pub max_output_tokens : Option ℤ
  pub format : Value

abbrev pub inline_image : Fields → String
inline_image fs =
    if text_field "data" fs == ""
    then ""
    else data_url (or_png (text_field "media_type" fs)) (text_field "data" fs)

abbrev pub image_url : Fields → String
image_url fs =
    if text_field "image_url" fs == ""
    then (if text_field "url" fs == "" then inline_image fs else text_field "url" fs)
    else text_field "image_url" fs

abbrev pub image_part : String → List ContentPart
image_part url = if url == "" then [] else image url ∷ []

abbrev pub part_by_type : String → Fields → List ContentPart
part_by_type type fs =
    if type == "input_text" || type == "output_text"
    then text (text_field "text" fs) ∷ []
    else if type == "input_image"
    then image_part (image_url fs)
    else []

unfoldable pub parts_in : Items → List ContentPart
parts_in nil = []
parts_in (cons (object fs) vs) = part_by_type (text_field "type" fs) fs ++ parts_in vs
parts_in (cons null vs) = parts_in vs
parts_in (cons (bool b) vs) = parts_in vs
parts_in (cons (number n) vs) = parts_in vs
parts_in (cons (string s) vs) = parts_in vs
parts_in (cons (array us) vs) = parts_in vs

abbrev pub content_error : String
content_error = "content 既不是字符串也不是数组"

-- parseResponsesContent; a field that is missing is nil.
unfoldable pub parse_content : Option Value → Result String (List ContentPart)
parse_content none = ok []
parse_content (some null) = ok []
parse_content (some (string s)) = ok (text s ∷ [])
parse_content (some (array vs)) = ok (parts_in vs)
parse_content (some (bool b)) = err content_error
parse_content (some (number n)) = err content_error
parse_content (some (object fs)) = err content_error

-- The type of an item that names none, from its fields.
abbrev pub inferred_type : Fields → String
inferred_type fs =
    if is_some (get_field "role" fs)
    then "message"
    else if is_some (get_field "output" fs)
    then "function_call_output"
    else if is_some (get_field "arguments" fs)
    then "function_call"
    else ""

unfoldable pub item_type : Fields → String
item_type fs = if text_field "type" fs == "" then inferred_type fs else text_field "type" fs

abbrev pub or_text : String → String → String
or_text s default = if s == "" then default else s

abbrev pub message_in : ℕ → Fields → Result String (List ContentPart) → Result String (List Message)
message_in i fs (ok parts) = ok (message_of (or_text (text_field "role" fs) "user") parts [] ∷ [])
message_in i fs (err e) = err ("input[" +++ itoa i +++ "] 消息内容解析失败: " +++ e)

abbrev pub call_message : Fields → Message
call_message fs = message_of "assistant" [] (
    record {
      id = or_text (text_field "call_id" fs) (text_field "id" fs);
      name = text_field "name" fs;
      arguments = text_field "arguments" fs;
    }
    ∷ [])

unfoldable pub item_by_type : String → ℕ → Fields → Result String (List Message)
item_by_type type i fs =
    if type == "message"
    then message_in i fs (parse_content (get_field "content" fs))
    else if type == "function_call_output"
    then ok (tool_message (text_field "call_id" fs) (text_field "output" fs) ∷ [])
    else if type == "function_call"
    then ok (call_message fs ∷ [])
    else ok []

-- The items from the i-th one on, counted from 0.
unfoldable pub parse_items : ℕ → List Fields → Result String (List Message)
parse_items i [] = ok []
parse_items i (fs ∷ rest) =
    item_by_type (item_type fs) i fs >>= (λ ms. parse_items (suc i) rest >>= (λ ns. ok (ms ++ ns)))

unfoldable pub parse_input : RawInput → Result String (List Message)
parse_input missing = ok []
parse_input (plain s) = ok (text_message "user" s ∷ [])
parse_input (listed items) = parse_items 0 items
parse_input invalid = err "input 既不是字符串也不是条目数组"

abbrev pub instruction_message : String → List Message
instruction_message s = if s == "" then [] else text_message "system" s ∷ []

abbrev pub tool_in : InputTool → Tool
tool_in t = record {
  type = or_text t.type "function";
  function = record { name = t.name; description = t.description; parameters = t.parameters };
}

abbrev pub request_of : ResponsesRequest → List Message → ChatRequest
request_of raw ms = record {
  model = raw.model;
  messages = instruction_message raw.instructions ++ ms;
  tools = map tool_in raw.tools;
  tool_choice = raw.tool_choice;
  stream = raw.stream;
  temperature = raw.temperature;
  max_tokens = raw.max_output_tokens;
  response_format = raw.format;
}

unfoldable pub parse_responses_request : ResponsesRequest → Result String ChatRequest
parse_responses_request raw =
    if raw.model == ""
    then err "缺少 model 字段"
    else parse_input raw.input >>= (λ ms. ok (request_of raw ms))
