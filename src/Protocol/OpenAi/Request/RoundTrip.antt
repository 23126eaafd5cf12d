-- ===== src/Protocol/OpenAi/Request/RoundTrip.antt =====
-- A serialized request, parsed again.
use clean_api.Base.{
  All, Result, if_true, if_false, if◌then◌else◌, sym, ◌⊎◌, String, true, ℕ, suc, false, Option,
  some, List, [], ◌∷◌, map, ok, ◌>>=◌, ◌≡◌, refl, ap, ◌∙◌, ◌==◌, string_equality, Bool-cases, inl,
  inr,
}
use mathlib.Core.Path.{ap₂}
use clean_api.Protocol.Ir.{
  Value, array, ContentPart, text, image, ToolCall, Message, Tool, ChatRequest,
}
use clean_api.Protocol.OpenAi.ToolChoice.{normalize_tool_choice}
use clean_api.Protocol.OpenAi.Request.{
  JsonPart, with_type, part_values, content_value, call_out, call_in, message_out, raw_out,
  tool_out, tools_out, serialize_request, parse_part, parse_parts, parse_array, parse_content,
  parse_message, numbered, parse_messages, parse_request,
}

-- The element that a content part is decoded to.
abbrev pub part_in : ContentPart → JsonPart
part_in (text t) = record { type = "text"; text = t; url = "" }
part_in (image url) = record { type = "image_url"; text = ""; url = url }

parse_part-part_in : (p : ContentPart) → parse_part (part_in p) ≡ ok p
unfolding parse_part
parse_part-part_in (text t) = refl
parse_part-part_in (image url) = refl

parse_parts-part_in : (ps : List ContentPart) → parse_parts (map part_in ps) ≡ ok ps
unfolding parse_parts
parse_parts-part_in [] = refl
parse_parts-part_in (p ∷ ps) =
    ap (λ r. r >>= (λ c. parse_parts (map part_in ps) >>= (λ cs. ok (c ∷ cs))))
      (parse_part-part_in p)
    ∙ ap (λ r. r >>= (λ cs. ok (p ∷ cs))) (parse_parts-part_in ps)

call_in-call_out : (tcs : List ToolCall) → map call_in (map call_out tcs) ≡ tcs
call_in-call_out [] = refl
call_in-call_out (tc ∷ tcs) = ap (λ rest. tc ∷ rest) (call_in-call_out tcs)

with_type-with_type : (t : Tool) → with_type (with_type t) ≡ with_type t
unfolding with_type
with_type-with_type t = elim (Bool-cases (t.type == "")) [
  | inl e ↦ rw e refl
  | inr e ↦ rw e (rw e refl)
]

-- A tool as it is sent: with a type, and its parameters written anew.
abbrev pub sent : (String → String) → Tool → Tool
sent written t = record {
  type = if t.type == "" then "function" else t.type;
  function = record t.function { parameters = written t.function.parameters };
}

-- The parameters of the tool are left out where there are none, and otherwise marshalled to the text
-- that `written` has for them.
abbrev pub IsWritten : (String → Result String String) → (String → String) → Tool → Type 0
IsWritten marshal_raw written t =
    let p = t.function.parameters in
    (((p == "") ≡ true) × (written p ≡ ""))
    ⊎ (((p == "") ≡ false) × (marshal_raw p ≡ ok (written p)))

raw_out-written :
    (marshal_raw : String → Result String String) (written : String → String) (t : Tool)
    → IsWritten marshal_raw written t
    → raw_out marshal_raw t.function.parameters ≡ ok (written t.function.parameters)
raw_out-written marshal_raw written t (inl (e, w)) =
    if_true (t.function.parameters == "") (ok "") _ e ∙ ap ok (sym w)
raw_out-written marshal_raw written t (inr (e, w)) =
    if_false (t.function.parameters == "") (ok "") _ e ∙ w

tools_out-sent :
    (marshal_raw : String → Result String String) (written : String → String) (ts : List Tool)
    → All (IsWritten marshal_raw written) ts
    → tools_out marshal_raw ts ≡ ok (map (sent written) ts)
unfolding tools_out tool_out with_type
tools_out-sent marshal_raw written [] h = refl
tools_out-sent marshal_raw written (t ∷ ts) (w, h) =
    ap
      (λ r.
        r
        >>= (λ p. ok (with_type (record t { function = record t.function { parameters = p } })))
        >>= (λ x. tools_out marshal_raw ts >>= (λ xs. ok (x ∷ xs))))
      (raw_out-written marshal_raw written t w)
    ∙ ap (λ r. r >>= (λ xs. ok (sent written t ∷ xs))) (tools_out-sent marshal_raw written ts h)

map-with_type-sent :
    (written : String → String) (ts : List Tool)
    → map with_type (map (sent written) ts) ≡ map (sent written) ts
unfolding with_type
map-with_type-sent written [] = refl
map-with_type-sent written (t ∷ ts) =
    ap₂ (λ x xs. x ∷ xs)
      (with_type-with_type
        (record t { function = record t.function { parameters = written t.function.parameters } }))
      (map-with_type-sent written ts)

-- What the request is after both ways: the tool choice in its normal form, every tool as it is sent.
unfoldable pub normalized : (String → String) → ChatRequest → ChatRequest
normalized written req = record req {
  tools = map (sent written) req.tools;
  tool_choice = normalize_tool_choice req.tool_choice;
}

module _ (decode_parts : Value → Option (List JsonPart))
    (decodes : (ps : List ContentPart)
      → decode_parts (array (part_values ps)) ≡ some (map part_in ps)) where
  array-content :
      (ps : List ContentPart) → parse_array (decode_parts (array (part_values ps))) ≡ ok ps
  array-content ps = ap parse_array (decodes ps) ∙ parse_parts-part_in ps

  parse_content-content_value :
      (ps : List ContentPart) → parse_content decode_parts (content_value ps) ≡ ok ps
  unfolding parse_content content_value
  parse_content-content_value [] = refl
  parse_content-content_value (text t ∷ []) = refl
  parse_content-content_value (image url ∷ []) = array-content (image url ∷ [])
  parse_content-content_value (text t ∷ q ∷ ps) = array-content (text t ∷ q ∷ ps)
  parse_content-content_value (image url ∷ q ∷ ps) = array-content (image url ∷ q ∷ ps)

  pub parse_message-message_out : (m : Message) → parse_message decode_parts (message_out m) ≡ ok m
  unfolding parse_message message_out
  parse_message-message_out m =
      ap
        (λ r. r >>= (λ parts.
          ok (record m { content = parts; tool_calls = map call_in (map call_out m.tool_calls) })))
        (parse_content-content_value m.content)
      ∙ ap (λ tcs. ok (record m { tool_calls = tcs })) (call_in-call_out m.tool_calls)

  parse_messages-message_out :
      (i : ℕ) (ms : List Message) → parse_messages decode_parts i (map message_out ms) ≡ ok ms
  unfolding parse_messages
  parse_messages-message_out i [] = refl
  parse_messages-message_out i (m ∷ ms) =
      ap
        (λ r. numbered decode_parts i r >>= (λ x.
          parse_messages decode_parts (suc i) (map message_out ms) >>= (λ xs. ok (x ∷ xs))))
        (parse_message-message_out m)
      ∙ ap (λ r. r >>= (λ xs. ok (m ∷ xs))) (parse_messages-message_out (suc i) ms)

parse_request-json :
    (decode_parts : Value → Option (List JsonPart)) (written : String → String) (req : ChatRequest)
    → ((ps : List ContentPart) → decode_parts (array (part_values ps)) ≡ some (map part_in ps))
    → (req.model == "") ≡ false
    → parse_request decode_parts (record {
      model = req.model;
      messages = map message_out req.messages;
      tools = map (sent written) req.tools;
      tool_choice = normalize_tool_choice req.tool_choice;
      stream = req.stream;
      temperature = req.temperature;
      max_tokens = req.max_tokens;
      response_format = req.response_format;
    })
      ≡ ok (normalized written req)
unfolding parse_request normalized
parse_request-json decode_parts written req decodes m = rw m (
    ap
      (λ r. r >>= (λ ms. ok (record (normalized written req) {
        messages = ms;
        tools = map with_type (map (sent written) req.tools);
      })))
      (parse_messages-message_out decode_parts decodes 1 req.messages)
    ∙ ap (λ ts. ok (record (normalized written req) { tools = ts }))
        (map-with_type-sent written req.tools))

-- A request with a model, and parameters of its tools that `json.Marshal` accepts. It is serialized, and
-- what it is serialized to is parsed back to it, with its tool choice in normal form, every tool with a
-- type and its parameters as `json.Marshal` writes them. The decoder of content arrays gives back the
-- parts that a content was written with.
pub parse_request-serialize_request :
    (decode_parts : Value → Option (List JsonPart)) (marshal_raw : String → Result String String)
    (written : String → String) (req : ChatRequest)
    → ((ps : List ContentPart) → decode_parts (array (part_values ps)) ≡ some (map part_in ps))
    → All (IsWritten marshal_raw written) req.tools
    → (req.model == "") ≡ false
    → serialize_request marshal_raw req >>= parse_request decode_parts ≡ ok (normalized written req)
unfolding serialize_request
parse_request-serialize_request decode_parts marshal_raw written req decodes w m =
    ap
      (λ r.
        r
        >>= (λ tools. ok (record {
          model = req.model;
          messages = map message_out req.messages;
          tools = tools;
          tool_choice = normalize_tool_choice req.tool_choice;
          stream = req.stream;
          temperature = req.temperature;
          max_tokens = req.max_tokens;
          response_format = req.response_format;
        }))
        >>= parse_request decode_parts)
      (tools_out-sent marshal_raw written req.tools w)
    ∙ parse_request-json decode_parts written req decodes m
