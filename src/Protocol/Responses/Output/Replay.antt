-- ===== src/Protocol/Responses/Output/Replay.antt =====
-- The output of a response, sent back as the input of the next request.
use clean_api.Base.{
  ℕ, suc, ◌+◌, length, String, false, List, [], ◌∷◌, ◌++◌, map, ok, ◌>>=◌, ◌≡◌, refl, ap, ◌∙◌, All,
  append-nil, append_assoc, sym, if_false, if◌then◌else◌, ◌==◌, string_equality, Bool-cases, inl,
  inr,
}
use clean_api.Protocol.Ir.{text, ToolCall, Message, Choice, ChatResponse}
use clean_api.Protocol.Anthropic.Messages.{message_of}
use clean_api.Protocol.Responses.Input.{
  listed, parse_input, parse_items, item_by_type, item_type, parse_content, parts_in,
}
use clean_api.Protocol.Responses.Output.{
  OutputItem, message_item, call_item, item_fields, texts_in, text_items, call_items, choice_items,
  output_items, serialize_responses_response, fc_id, msg_id,
}

-- The conversation that a choice stands for: its text, and each call in a message of its own.
abbrev pub text_said : String → List Message
text_said t = if t == "" then [] else message_of "assistant" (text t ∷ []) [] ∷ []

unfoldable pub calls_said : List ToolCall → List Message
calls_said [] = []
calls_said (c ∷ cs) = message_of "assistant" [] (c ∷ []) ∷ calls_said cs

unfoldable pub said : List Choice → List Message
said [] = []
said (c ∷ cs) = text_said (texts_in c.message.content) ++ calls_said c.message.tool_calls ++ said cs

-- A call that the upstream gave an identifier.
abbrev pub IsNamed : ToolCall → Type 0
IsNamed c = (c.id == "") ≡ false

abbrev pub HasNamedCalls : Choice → Type 0
HasNamedCalls c = All IsNamed c.message.tool_calls

-- The items of a list are read as its messages, wherever the list stands.
abbrev Reads : List OutputItem → List Message → Type 0
Reads items ms =
    (i : ℕ) (rest : List OutputItem) (ns : List Message)
    → ((j : ℕ) → parse_items j (map item_fields rest) ≡ ok ns)
    → parse_items i (map item_fields (items ++ rest)) ≡ ok (ms ++ ns)

Reads-call :
    (n : ℕ) (c : ToolCall) (i : ℕ)
    → IsNamed c
    → item_by_type
        (item_type (item_fields (call_item (fc_id n) c.id c.name c.arguments)))
        i
        (item_fields (call_item (fc_id n) c.id c.name c.arguments))
      ≡ ok (message_of "assistant" [] (c ∷ []) ∷ [])
unfolding item_by_type item_type
Reads-call n c i e =
    ap (λ x. ok (message_of "assistant" [] (record c { id = x } ∷ []) ∷ []))
      (if_false (c.id == "") (fc_id n) c.id e)

Reads-message :
    (n : ℕ) (t : String) (i : ℕ)
    → item_by_type
        (item_type (item_fields (message_item (msg_id n) t)))
        i
        (item_fields (message_item (msg_id n) t))
      ≡ ok (message_of "assistant" (text t ∷ []) [] ∷ [])
unfolding item_by_type item_type parse_content parts_in
Reads-message n t i = refl

Reads-cons :
    (it : OutputItem) (m : Message) (items : List OutputItem) (ms : List Message)
    → ((i : ℕ) → item_by_type (item_type (item_fields it)) i (item_fields it) ≡ ok (m ∷ []))
    → Reads items ms
    → Reads (it ∷ items) (m ∷ ms)
unfolding parse_items
Reads-cons it m items ms one r i rest ns h =
    ap
      (λ x.
        x
        >>= (λ xs. parse_items (suc i) (map item_fields (items ++ rest)) >>= (λ ys. ok (xs ++ ys))))
      (one i)
    ∙ ap (λ x. x >>= (λ ys. ok (m ∷ ys))) (r (suc i) rest ns h)

Reads-append :
    (xs ys : List OutputItem) (ms ns : List Message)
    → Reads xs ms
    → Reads ys ns
    → Reads (xs ++ ys) (ms ++ ns)
Reads-append xs ys ms ns r q i rest ks h =
    ap (λ x. parse_items i (map item_fields x)) (append_assoc xs ys rest)
    ∙ r i (ys ++ rest) (ns ++ ks) (λ j. q j rest ks h)
    ∙ ap ok (sym (append_assoc ms ns ks))

Reads-text : (n : ℕ) (t : String) → Reads (text_items n t) (text_said t)
Reads-text n t = elim (Bool-cases (t == "")) [
  | inl e ↦ rw e (λ i rest ns h. h i)
  | inr e ↦ rw e (
      Reads-cons (message_item (msg_id (suc n)) t) (message_of "assistant" (text t ∷ []) []) [] []
        (Reads-message (suc n) t) (λ i rest ns h. h i))
]

Reads-calls :
    (n : ℕ) (cs : List ToolCall) → All IsNamed cs → Reads (call_items n cs) (calls_said cs)
unfolding call_items calls_said
Reads-calls n [] h = λ i rest ns k. k i
Reads-calls n (c ∷ cs) (e, h) =
    Reads-cons (call_item (fc_id (suc n)) c.id c.name c.arguments)
      (message_of "assistant" [] (c ∷ [])) (call_items (suc n) cs) (calls_said cs)
      (λ i. Reads-call (suc n) c i e) (Reads-calls (suc n) cs h)

Reads-output :
    (n : ℕ) (cs : List Choice) → All HasNamedCalls cs → Reads (output_items n cs) (said cs)
unfolding output_items said
Reads-output n [] h = λ i rest ns k. k i
Reads-output n (c ∷ cs) (e, h) =
    Reads-append (choice_items n c) (output_items (n + length (choice_items n c)) cs)
      (text_said (texts_in c.message.content) ++ calls_said c.message.tool_calls) (said cs)
      (Reads-append (text_items n (texts_in c.message.content))
        (call_items (n + length (text_items n (texts_in c.message.content))) c.message.tool_calls)
        (text_said (texts_in c.message.content)) (calls_said c.message.tool_calls)
        (Reads-text n (texts_in c.message.content))
        (Reads-calls (n + length (text_items n (texts_in c.message.content))) c.message.tool_calls
          e))
      (Reads-output (n + length (choice_items n c)) cs h)

-- A client that sends the output of a response back as the input of its next request is understood:
-- the input is parsed without an error to the messages that the choices stand for, each choice's text
-- as one message of the assistant and each tool call with its identifier, name and arguments, where
-- every call has an identifier.
pub parse_input-serialize_responses_response :
    (random : String) (now : ℕ) (resp : ChatResponse)
    → All HasNamedCalls resp.choices
    → parse_input (listed (map item_fields (serialize_responses_response random now resp).output))
      ≡ ok (said resp.choices)
unfolding parse_input serialize_responses_response parse_items
parse_input-serialize_responses_response random now resp h =
    ap (λ x. parse_items 0 (map item_fields x)) (sym (append-nil (output_items 0 resp.choices)))
    ∙ Reads-output 0 resp.choices h 0 [] [] (λ j. refl)
    ∙ ap ok (append-nil (said resp.choices))
