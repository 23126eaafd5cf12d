-- ===== src/Protocol/OpenAi/Response/RoundTrip.antt =====
-- A response of the gateway, read by another gateway's upstream parser.
use clean_api.Base.{
  String, false, Option, some, List, [], ◌∷◌, map, ok, ◌>>=◌, ◌≡◌, refl, ap, ◌∙◌, ◌==◌,
  string_equality,
}
use clean_api.Protocol.Ir.{Value, array, ContentPart, Choice, ChatResponse}
use clean_api.Protocol.OpenAi.Request.{JsonPart, part_values}
use clean_api.Protocol.OpenAi.Request.RoundTrip.{part_in, parse_message-message_out}
use clean_api.Protocol.OpenAi.Response.{
  choice_in, choice_out, serialize_response, parse_choices, parse_response,
}

parse_choices-choice_out :
    (decode_parts : Value → Option (List JsonPart)) (cs : List Choice)
    → ((ps : List ContentPart) → decode_parts (array (part_values ps)) ≡ some (map part_in ps))
    → parse_choices decode_parts (map choice_out cs) ≡ ok cs
unfolding parse_choices
parse_choices-choice_out decode_parts [] decodes = refl
parse_choices-choice_out decode_parts (c ∷ cs) decodes =
    ap
      (λ r. r >>= (λ m.
        parse_choices decode_parts (map choice_out cs)
        >>= (λ rest. ok (choice_in decode_parts (choice_out c) m ∷ rest))))
      (parse_message-message_out decode_parts decodes c.message)
    ∙ ap (λ r. r >>= (λ rest. ok (c ∷ rest))) (parse_choices-choice_out decode_parts cs decodes)

-- A response with an identifier is parsed back from what it is serialized to. The decoder of content
-- arrays gives back the parts that a content was written with.
pub parse_response-openai :
    (decode_parts : Value → Option (List JsonPart)) (random : String) (resp : ChatResponse)
    → ((ps : List ContentPart) → decode_parts (array (part_values ps)) ≡ some (map part_in ps))
    → (resp.id == "") ≡ false
    → parse_response decode_parts (serialize_response random resp) ≡ ok resp
unfolding parse_response serialize_response
parse_response-openai decode_parts random resp decodes e = rw e (
    ap (λ r. r >>= (λ cs. ok (record resp { choices = cs })))
      (parse_choices-choice_out decode_parts resp.choices decodes))
