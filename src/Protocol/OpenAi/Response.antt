-- ===== src/Protocol/OpenAi/Response.antt =====
-- internal/protocol/openai.go, ParseOpenAIChatResponse and SerializeOpenAIChatResponse.
-- `json.Marshal` and `json.Unmarshal` stand between a text and the records, as in Request;
-- `random` is `RandHex(8)`.
pub mod RoundTrip
use clean_api.Base.{
  ℕ, String, Bool, Option, List, [], ◌∷◌, map, Result, ok, ◌>>=◌, if◌then◌else◌, ◌==◌,
  string_equality,
}
use clean_api.Base.Int.{ℤ}
use clean_api.Base.Text.{◌+++◌}
use clean_api.Protocol.Ir.{Value, Message, Choice, ChatResponse, Usage}
use clean_api.Protocol.OpenAi.Request.{JsonMessage, JsonPart, message_out, parse_message}

pub record JsonChoice : Type 0 where
  pub index : ℤ
  pub message : JsonMessage
  pub finish_reason : String

pub record JsonResponse : Type 0 where
  pub id : String
  pub created : ℕ
  pub model : String
  pub choices : List JsonChoice
  pub usage : Usage

abbrev pub choice_out : Choice → JsonChoice
choice_out c = record {
  index = c.index;
  message = message_out c.message;
  finish_reason = c.finish_reason;
}

unfoldable pub serialize_response : String → ChatResponse → JsonResponse
serialize_response random resp = record {
  id = if resp.id == "" then "chatcmpl-" +++ random else resp.id;
  created = resp.created;
  model = resp.model;
  choices = map choice_out resp.choices;
  usage = resp.usage;
}

module _ (decode_parts : Value → Option (List JsonPart)) where
  abbrev pub choice_in : JsonChoice → Message → Choice
  choice_in c m = record { index = c.index; message = m; finish_reason = c.finish_reason }

  unfoldable pub parse_choices : List JsonChoice → Result String (List Choice)
  parse_choices [] = ok []
  parse_choices (c ∷ cs) =
      parse_message decode_parts c.message
      >>= (λ m. parse_choices cs >>= (λ rest. ok (choice_in c m ∷ rest)))

  unfoldable pub parse_response : JsonResponse → Result String ChatResponse
  parse_response raw = parse_choices raw.choices >>= (λ cs. ok (record {
    id = raw.id;
    model = raw.model;
    created = raw.created;
    choices = cs;
    usage = raw.usage;
  }))
