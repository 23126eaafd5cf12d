-- ===== src/Protocol/OpenAi/Request/Tests.antt =====
-- A decoder of content arrays, and a request with a text and an image.
use clean_api.Base.{
  String, true, Option, none, some, List, [], ◌∷◌, map, ok, err, Result, ◌>>=◌, inr, ◌==◌,
  if◌then◌else◌, ◌≡◌, refl, ap, string_equality,
}
use mathlib.Core.Path.{ap₂}
use clean_api.Protocol.Ir.{
  Value, null, bool, number, string, array, object, Items, nil, cons, field, end, ContentPart, text,
  image, ChatRequest, ChatResponse,
}
use clean_api.Protocol.OpenAi.ToolChoice.{get_field, text_field}
use clean_api.Protocol.OpenAi.Request.{
  JsonPart, part_value, part_values, parse_request, serialize_request,
}
use clean_api.Protocol.OpenAi.Request.RoundTrip.{
  part_in, normalized, parse_request-serialize_request,
}
use clean_api.Base.Int.{pos}
use clean_api.Protocol.OpenAi.Response.{serialize_response, parse_response}
use clean_api.Protocol.OpenAi.Response.RoundTrip.{parse_response-openai}

abbrev url_in : Option Value → String
url_in (some (object fs)) = text_field "url" fs
url_in (some (string s)) = ""
url_in (some null) = ""
url_in (some (bool b)) = ""
url_in (some (number n)) = ""
url_in (some (array vs)) = ""
url_in none = ""

abbrev decode_part : Value → JsonPart
decode_part (object fs) = record {
  type = text_field "type" fs;
  text = text_field "text" fs;
  url = url_in (get_field "image_url" fs);
}
decode_part (string s) = record { type = ""; text = ""; url = "" }
decode_part null = record { type = ""; text = ""; url = "" }
decode_part (bool b) = record { type = ""; text = ""; url = "" }
decode_part (number n) = record { type = ""; text = ""; url = "" }
decode_part (array vs) = record { type = ""; text = ""; url = "" }

abbrev decode_items : Items → List JsonPart
decode_items nil = []
decode_items (cons v vs) = decode_part v ∷ decode_items vs

abbrev decode_array : Value → Option (List JsonPart)
decode_array (array vs) = some (decode_items vs)
decode_array (object fs) = none
decode_array (string s) = none
decode_array null = none
decode_array (bool b) = none
decode_array (number n) = none

decode_part-part_value : (p : ContentPart) → decode_part (part_value p) ≡ part_in p
unfolding part_value
decode_part-part_value (text t) = refl
decode_part-part_value (image url) = refl

decode_items-part_values : (ps : List ContentPart) → decode_items (part_values ps) ≡ map part_in ps
unfolding part_values
decode_items-part_values [] = refl
decode_items-part_values (p ∷ ps) =
    ap₂ (λ x xs. x ∷ xs) (decode_part-part_value p) (decode_items-part_values ps)

decodes : (ps : List ContentPart) → decode_array (array (part_values ps)) ≡ some (map part_in ps)
decodes ps = ap some (decode_items-part_values ps)

abbrev spaced : String
spaced = "{\"a\": 1}"

abbrev marshal_raw : String → Result String String
marshal_raw p = if p == spaced then ok "{\"a\":1}" else err "invalid character"

abbrev written : String → String
written p = "{\"a\":1}"

abbrev picture : ChatRequest
picture = record {
  model = "m";
  messages =
      record {
        role = "user";
        content = text "what is this" ∷ image "data:image/png;base64,AA" ∷ [];
        name = "";
        tool_call_id = "";
        tool_calls = [];
      }
      ∷ [];
  tools =
      record { type = ""; function = record { name = "f"; description = ""; parameters = spaced } }
      ∷ [];
  tool_choice = object (field "type" (string "any") end);
  stream = true;
  temperature = none;
  max_tokens = none;
  response_format = null;
}

parse_request-serialize_request_example :
    serialize_request marshal_raw picture >>= parse_request decode_array
    ≡ ok (normalized written picture)
parse_request-serialize_request_example =
    parse_request-serialize_request decode_array marshal_raw written picture decodes
      (inr (refl, refl), tt) refl

abbrev reply : ChatResponse
reply = record {
  id = "r";
  model = "m";
  created = 7;
  choices =
      record {
        index = pos 0;
        message = record {
          role = "assistant";
          content = text "a" ∷ image "data:image/png;base64,AA" ∷ [];
          name = "";
          tool_call_id = "";
          tool_calls = record { id = "c"; name = "f"; arguments = "{}" } ∷ [];
        };
        finish_reason = "stop";
      }
      ∷ [];
  usage = record { prompt_tokens = pos 2; completion_tokens = pos 3; total_tokens = pos 5 };
}

parse_response-openai_example :
    parse_response decode_array (serialize_response "x" reply) ≡ ok reply
parse_response-openai_example = parse_response-openai decode_array "x" reply decodes refl
