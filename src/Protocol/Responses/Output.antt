-- ===== src/Protocol/Responses/Output.antt =====
-- internal/protocol/responses.go, SerializeResponsesResponse: unified responses as those of the
-- Responses protocol. `random` is `RandHex(8)`, `now` the time in seconds.
pub mod Replay
use clean_api.Base.{
  ℕ, suc, ◌+◌, eqb, length, String, List, [], ◌∷◌, ◌++◌, if◌then◌else◌, ◌==◌, string_equality,
}
use clean_api.Base.Text.{◌+++◌, itoa}
use clean_api.Protocol.Ir.{
  Value, string, array, object, nil, cons, Fields, end, field, ContentPart, text, image, ToolCall,
  Choice, ChatResponse, Usage,
}

pub data OutputItem : Type 0 where
  message_item : String → String → OutputItem
  call_item : String → String → String → String → OutputItem

abbrev pub output_text : String → Value
output_text t = object (
    field "type" (string "output_text")
      (field "text" (string t) (field "annotations" (array nil) end)))

-- The JSON object of an item.
abbrev pub item_fields : OutputItem → Fields
item_fields (message_item id t) = field "type" (string "message") (
    field "id" (string id) (
      field "role" (string "assistant") (
        field "status" (string "completed")
          (field "content" (array (cons (output_text t) nil)) end))))
item_fields (call_item id call_id name arguments) = field "type" (string "function_call") (
    field "id" (string id) (
      field "call_id" (string call_id)
        (field "name" (string name) (field "arguments" (string arguments) end))))

pub record ResponsesResponse : Type 0 where
  pub id : String
  pub created_at : ℕ
  pub status : String
  pub model : String
  pub output : List OutputItem
  pub usage : Usage

unfoldable pub texts_in : List ContentPart → String
texts_in [] = ""
texts_in (text t ∷ ps) = t +++ texts_in ps
texts_in (image url ∷ ps) = texts_in ps

abbrev pub msg_id : ℕ → String
msg_id n = "msg_" +++ itoa n

abbrev pub fc_id : ℕ → String
fc_id n = "fc_" +++ itoa n

-- The items that follow the first n.
abbrev pub text_items : ℕ → String → List OutputItem
text_items n t = if t == "" then [] else message_item (msg_id (suc n)) t ∷ []

unfoldable pub call_items : ℕ → List ToolCall → List OutputItem
call_items n [] = []
call_items n (c ∷ cs) = call_item (fc_id (suc n)) c.id c.name c.arguments ∷ call_items (suc n) cs

abbrev pub after_text : ℕ → String → List ToolCall → List OutputItem
after_text n t cs = text_items n t ++ call_items (n + length (text_items n t)) cs

abbrev pub choice_items : ℕ → Choice → List OutputItem
choice_items n c = after_text n (texts_in c.message.content) c.message.tool_calls

unfoldable pub output_items : ℕ → List Choice → List OutputItem
output_items n [] = []
output_items n (c ∷ cs) = choice_items n c ++ output_items (n + length (choice_items n c)) cs

unfoldable pub serialize_responses_response : String → ℕ → ChatResponse → ResponsesResponse
serialize_responses_response random now resp = record {
  id = if resp.id == "" then "resp_" +++ random else resp.id;
  created_at = if eqb resp.created 0 then now else resp.created;
  status = "completed";
  model = resp.model;
  output = output_items 0 resp.choices;
  usage = resp.usage;
}
