-- ===== src/Protocol/Anthropic/Messages.antt =====
-- internal/protocol/anthropic.go, ParseAnthropicMessagesRequest: Anthropic's requests as unified ones.
pub mod Passes
use clean_api.Base.{
  ℕ, suc, String, Bool, Option, none, some, List, [], ◌∷◌, ◌++◌, map, Result, ok, err, ◌>>=◌,
  if◌then◌else◌, ◌==◌, string_equality,
}
use clean_api.Base.Int.{ℤ}
use clean_api.Base.Text.{◌+++◌, itoa}
use clean_api.Protocol.Ir.{
  Value, null, ContentPart, text, image, ToolCall, Message, Tool, ChatRequest, text_message,
}
use clean_api.Protocol.Anthropic.Blocks.{
  RawText, RawContent, nothing, plain, listed, invalid, Block, parse_raw_text, image_to_data_url,
}

pub record JsonTool : Type 0 where
  pub name : String
  pub description : String
  pub input_schema : String

pub record MessagesRequest : Type 0 where
  pub model : String
  pub max_tokens : Option ℤ
  pub temperature : Option String
  pub system : RawText
  pub messages : List (String × RawContent)
  pub tools : List JsonTool
  pub tool_choice : Value
  pub stream : Bool

abbrev pub message_of : String → List ContentPart → List ToolCall → Message
message_of role parts calls = record {
  role = role;
  content = parts;
  name = "";
  tool_call_id = "";
  tool_calls = calls;
}

abbrev pub tool_message : String → String → Message
tool_message id t = record (text_message "tool" t) { tool_call_id = id }

-- `out`, `textParts` and `toolCalls` of the loop over the blocks.
pub record Gathered : Type 0 where
  pub out : List Message
  pub parts : List ContentPart
  pub calls : List ToolCall

abbrev pub add_part : Gathered → ContentPart → Gathered
add_part g p = record g { parts = g.parts ++ p ∷ [] }

abbrev pub call_of : Block → ToolCall
call_of b = record { id = b.id; name = b.name; arguments = b.input }

abbrev pub result_of : Block → Message
result_of b = tool_message b.tool_use_id (parse_raw_text "\n" b.content)

unfoldable pub add_block : String → Block → Gathered → Result String Gathered
add_block role b g =
    if b.type == "text"
    then ok (add_part g (text b.text))
    else if b.type == "image"
    then image_to_data_url b.source >>= (λ url. ok (add_part g (image url)))
    else if b.type == "tool_use"
    then ok (if role == "assistant" then record g { calls = g.calls ++ call_of b ∷ [] } else g)
    else if b.type == "tool_result"
    then ok (record g { out = g.out ++ result_of b ∷ [] })
    else err ("不支持的内容块类型: " +++ b.type)

unfoldable pub add_blocks : String → List Block → Gathered → Result String Gathered
add_blocks role [] g = ok g
add_blocks role (b ∷ bs) g = add_block role b g >>= add_blocks role bs

abbrev pub with_parts : String → List ContentPart → List Message → List Message
with_parts role [] out = out
with_parts role (p ∷ ps) out = out ++ message_of role (p ∷ ps) [] ∷ []

-- The calls go to the last message if it has the role, and into a message of their own otherwise.
unfoldable pub attach : String → List ToolCall → List Message → List Message
attach role calls [] = message_of role [] calls ∷ []
attach role calls (m ∷ []) =
    if m.role == role
    then record m { tool_calls = calls } ∷ []
    else m ∷ message_of role [] calls ∷ []
attach role calls (m ∷ n ∷ ms) = m ∷ attach role calls (n ∷ ms)

abbrev pub with_calls : String → List ToolCall → List Message → List Message
with_calls role [] out = out
with_calls role (c ∷ cs) out = attach role (c ∷ cs) out

unfoldable pub messages_of : String → Gathered → List Message
messages_of role g = with_calls role g.calls (with_parts role g.parts g.out)

abbrev pub nothing_yet : Gathered
nothing_yet = record { out = []; parts = []; calls = [] }

-- parseAnthropicMessage.
unfoldable pub parse_message : String → RawContent → Result String (List Message)
parse_message role nothing = ok (message_of role [] [] ∷ [])
parse_message role (plain s) = ok (text_message role s ∷ [])
parse_message role (listed bs) = add_blocks role bs nothing_yet >>= (λ g. ok (messages_of role g))
parse_message role invalid = err "content 既不是字符串也不是内容块数组"

abbrev pub numbered : ℕ → Result String (List Message) → Result String (List Message)
numbered i (ok ms) = ok ms
numbered i (err e) = err ("第 " +++ itoa i +++ " 条消息解析失败: " +++ e)

-- The messages from the i-th one on, counted from 1.
unfoldable pub parse_messages : ℕ → List (String × RawContent) → Result String (List Message)
parse_messages i [] = ok []
parse_messages i ((role, content) ∷ ms) =
    numbered i (parse_message role content)
    >>= (λ xs. parse_messages (suc i) ms >>= (λ ys. ok (xs ++ ys)))

abbrev pub system_message : String → List Message
system_message t = if t == "" then [] else text_message "system" t ∷ []

abbrev pub tool_in : JsonTool → Tool
tool_in t = record {
  type = "function";
  function = record { name = t.name; description = t.description; parameters = t.input_schema };
}

abbrev pub request_of : MessagesRequest → List Message → ChatRequest
request_of raw ms = record {
  model = raw.model;
  messages = system_message (parse_raw_text "\n\n" raw.system) ++ ms;
  tools = map tool_in raw.tools;
  tool_choice = raw.tool_choice;
  stream = raw.stream;
  temperature = raw.temperature;
  max_tokens = raw.max_tokens;
  response_format = null;
}

abbrev pub with_limit : MessagesRequest → Option ℤ → Result String ChatRequest
with_limit raw none = err "缺少 max_tokens 字段"
with_limit raw (some n) = parse_messages 1 raw.messages >>= (λ ms. ok (request_of raw ms))

unfoldable pub parse_messages_request : MessagesRequest → Result String ChatRequest
parse_messages_request raw =
    if raw.model == "" then err "缺少 model 字段" else with_limit raw raw.max_tokens
