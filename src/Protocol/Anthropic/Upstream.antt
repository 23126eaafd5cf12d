-- ===== src/Protocol/Anthropic/Upstream.antt =====
-- internal/protocol/anthropic.go, SerializeAnthropicMessagesRequest: unified requests as Anthropic's.
-- `object_text` is `json.Marshal` of the object that `json.Unmarshal` makes of arguments that are not
-- empty. A field that is left out of the JSON is its zero value.
pub mod RoundTrip
use clean_api.Base.{
  String, Bool, Option, none, some, List, [], ◌∷◌, ◌++◌, map, if◌then◌else◌, ◌==◌, string_equality,
}
use clean_api.Base.Int.{ℤ, pos}
use clean_api.Base.Text.{join}
use clean_api.Protocol.Ir.{ContentPart, text, image, ToolCall, Message, Tool, ChatRequest}
use clean_api.Protocol.OpenAi.ToolChoice.{normalize_anthropic_tool_choice}
use clean_api.Protocol.Anthropic.Blocks.{
  RawText, RawContent, nothing, plain, listed, Block, Image, image_source_from_data_url,
}
use clean_api.Protocol.Anthropic.Messages.{JsonTool, MessagesRequest}

abbrev pub empty_block : String → Block
empty_block type = record {
  type = type;
  text = "";
  source = none;
  id = "";
  name = "";
  input = "";
  tool_use_id = "";
  content = nothing;
}

abbrev pub part_block : ContentPart → Block
part_block (text t) = record (empty_block "text") { text = t }
part_block (image url) = record (empty_block "image") {
  source = some (image_source_from_data_url url);
}

abbrev pub first_text : List ContentPart → String
first_text [] = ""
first_text (text t ∷ ps) = t
first_text (image url ∷ ps) = ""

abbrev pub result_block : Message → Block
result_block m = record (empty_block "tool_result") {
  tool_use_id = m.tool_call_id;
  content = plain (first_text m.content);
}

-- A single text is sent as a text, and no block at all as the empty text.
abbrev pub collapse : List Block → RawContent
collapse [] = plain ""
collapse (b ∷ []) = if b.type == "text" then plain b.text else listed (b ∷ [])
collapse (b ∷ c ∷ bs) = listed (b ∷ c ∷ bs)

-- The texts of the system messages, the empty ones included.
unfoldable pub part_texts : List ContentPart → List String
part_texts [] = []
part_texts (text t ∷ ps) = t ∷ part_texts ps
part_texts (image url ∷ ps) = part_texts ps

unfoldable pub system_parts : List Message → List String
system_parts [] = []
system_parts (m ∷ ms) =
    if m.role == "system" then part_texts m.content ++ system_parts ms else system_parts ms

abbrev pub system_out : String → RawText
system_out t = if t == "" then nothing else plain t

abbrev pub limit_or_default : Option ℤ → ℤ
limit_or_default none = pos 1024
limit_or_default (some n) = n

abbrev pub tool_out : Tool → JsonTool
tool_out t = record {
  name = t.function.name;
  description = t.function.description;
  input_schema = t.function.parameters;
}

module _ (object_text : String → String) where
  abbrev pub input_text : String → String
  input_text arguments = if arguments == "" then "{}" else object_text arguments

  abbrev pub call_block : ToolCall → Block
  call_block tc = record (empty_block "tool_use") {
    id = tc.id;
    name = tc.name;
    input = input_text tc.arguments;
  }

  -- anthropicContentToAny.
  unfoldable pub content_out : Message → RawContent
  content_out m =
      if m.role == "tool"
      then listed (result_block m ∷ [])
      else collapse (map part_block m.content ++ map call_block m.tool_calls)

  unfoldable pub messages_out : List Message → List (String × RawContent)
  messages_out [] = []
  messages_out (m ∷ ms) =
      if m.role == "system" then messages_out ms else (m.role, content_out m) ∷ messages_out ms

  unfoldable pub serialize_messages_request : ChatRequest → MessagesRequest
  serialize_messages_request req = record {
    model = req.model;
    max_tokens = some (limit_or_default req.max_tokens);
    temperature = req.temperature;
    system = system_out (join (system_parts req.messages) "\n\n");
    messages = messages_out req.messages;
    tools = map tool_out req.tools;
    tool_choice = normalize_anthropic_tool_choice req.tool_choice;
    stream = req.stream;
  }
