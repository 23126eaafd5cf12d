-- ===== src/Protocol/Anthropic/Response/Merge.antt =====
-- A response that an Anthropic client gets, read by an Anthropic upstream's parser.
use clean_api.Base.{
  String, Bool, false, not, List, [], ◌∷◌, ◌++◌, map, append-nil, append_assoc, filter, ◌≡◌, refl,
  ap, sym, ◌∙◌, ◌==◌, string_equality, Bool-cases, inl, inr,
}
use clean_api.Base.Int.{pos, ◌+ℤ◌}
use clean_api.Protocol.Ir.{ContentPart, text, image, ToolCall, Message, Choice, ChatResponse}
use clean_api.Protocol.Anthropic.Reasons.{anthropic_stop_reason, ir_finish_reason}
use clean_api.Protocol.Anthropic.Blocks.{Block}
use clean_api.Protocol.Anthropic.Messages.{message_of}
use clean_api.Protocol.Anthropic.Upstream.{call_block}
use clean_api.Protocol.Anthropic.Upstream.RoundTrip.{sent_call}
use clean_api.Protocol.Anthropic.Response.{
  text_blocks, first_finish_reason, choice_blocks, serialize_response, read_blocks, parse_response,
}

-- A part that Anthropic's clients are shown: a text that is not empty.
abbrev pub is_shown : ContentPart → Bool
is_shown (text t) = not (t == "")
is_shown (image url) = false

unfoldable pub all_parts : List Choice → List ContentPart
all_parts [] = []
all_parts (c ∷ cs) = c.message.content ++ all_parts cs

unfoldable pub all_calls : List Choice → List ToolCall
all_calls [] = []
all_calls (c ∷ cs) = c.message.tool_calls ++ all_calls cs

filter-append :
    (ps qs : List ContentPart)
    → filter is_shown (ps ++ qs) ≡ filter is_shown ps ++ filter is_shown qs
filter-append [] qs = refl
filter-append (p ∷ ps) qs = elim (Bool-cases (is_shown p)) [
  | inl e ↦ rw (e, filter-append ps qs) refl
  | inr e ↦ rw (e, filter-append ps qs) refl
]

map-append :
    (f : ToolCall → ToolCall) (cs ds : List ToolCall) → map f (cs ++ ds) ≡ map f cs ++ map f ds
map-append f [] ds = refl
map-append f (c ∷ cs) ds = ap (λ xs. f c ∷ xs) (map-append f cs ds)

abbrev pub with_part : Message → List ContentPart → Message
with_part m ps = record m { content = m.content ++ ps }

abbrev pub with_call : Message → List ToolCall → Message
with_call m cs = record m { tool_calls = m.tool_calls ++ cs }

read_blocks-texts :
    (m : Message) (ps : List ContentPart) (bs : List Block)
    → read_blocks m (text_blocks ps ++ bs) ≡ read_blocks (with_part m (filter is_shown ps)) bs
unfolding text_blocks read_blocks
read_blocks-texts m [] bs =
    ap (λ x. read_blocks (record m { content = x }) bs) (sym (append-nil m.content))
read_blocks-texts m (text t ∷ ps) bs = elim (Bool-cases (t == "")) [
  | inl e ↦ rw e (read_blocks-texts m ps bs)
  | inr e ↦ rw e (
      read_blocks-texts (with_part m (text t ∷ [])) ps bs
      ∙ ap (λ x. read_blocks (record m { content = x }) bs)
          (append_assoc m.content (text t ∷ []) (filter is_shown ps)))
]
read_blocks-texts m (image url ∷ ps) bs = read_blocks-texts m ps bs

-- Equal parts and equal calls make equal messages.
put : Message → List ContentPart → List ToolCall → Message
put m ps cs = record m { content = ps; tool_calls = cs }

put-eq :
    (m : Message) {ps qs : List ContentPart} {cs ds : List ToolCall}
    → ps ≡ qs
    → cs ≡ ds
    → put m ps cs ≡ put m qs ds
put-eq m {ps} {qs} {cs} {ds} p c = ap (λ x. put m x cs) p ∙ ap (put m qs) c

module _ (object_text : String → String) where
  read_blocks-calls :
      (m : Message) (cs : List ToolCall) (bs : List Block)
      → read_blocks m (map (call_block object_text) cs ++ bs)
        ≡ read_blocks (with_call m (map (sent_call object_text) cs)) bs
  unfolding read_blocks
  read_blocks-calls m [] bs =
      ap (λ x. read_blocks (record m { tool_calls = x }) bs) (sym (append-nil m.tool_calls))
  read_blocks-calls m (c ∷ cs) bs =
      read_blocks-calls (with_call m (sent_call object_text c ∷ [])) cs bs
      ∙ ap (λ x. read_blocks (record m { tool_calls = x }) bs)
          (append_assoc m.tool_calls (sent_call object_text c ∷ [])
            (map (sent_call object_text) cs))

  abbrev pub merged : Message → List Choice → Message
  merged m cs = record m {
    content = m.content ++ filter is_shown (all_parts cs);
    tool_calls = m.tool_calls ++ map (sent_call object_text) (all_calls cs);
  }

  read_blocks-choice_blocks :
      (m : Message) (cs : List Choice) → read_blocks m (choice_blocks object_text cs) ≡ merged m cs
  unfolding choice_blocks all_parts all_calls read_blocks put
  read_blocks-choice_blocks m [] =
      put-eq m (sym (append-nil m.content)) (sym (append-nil m.tool_calls))
  read_blocks-choice_blocks m (c ∷ cs) =
      read_blocks-texts m c.message.content
        (map (call_block object_text) c.message.tool_calls ++ choice_blocks object_text cs)
      ∙ read_blocks-calls (with_part m (filter is_shown c.message.content)) c.message.tool_calls
          (choice_blocks object_text cs)
      ∙ read_blocks-choice_blocks
          (with_call (with_part m (filter is_shown c.message.content))
            (map (sent_call object_text) c.message.tool_calls))
          cs
      ∙ put-eq m
          (append_assoc m.content (filter is_shown c.message.content)
              (filter is_shown (all_parts cs))
            ∙ ap (λ x. m.content ++ x) (sym (filter-append c.message.content (all_parts cs))))
          (append_assoc m.tool_calls (map (sent_call object_text) c.message.tool_calls)
              (map (sent_call object_text) (all_calls cs))
            ∙ ap (λ x. m.tool_calls ++ x)
                (sym (map-append (sent_call object_text) c.message.tool_calls (all_calls cs))))

  -- The parser reads what the serializer wrote: the same identifier and model, one choice with the
  -- texts that are not empty and the tool calls of all choices in order, the first finish reason
  -- through both tables, and as the total of the tokens the sum of the two others.
  pub parse_response-serialize_response :
      (random : String) (resp : ChatResponse)
      → (resp.id == "") ≡ false
      → parse_response (serialize_response object_text random resp) ≡ record {
        id = resp.id;
        model = resp.model;
        created = 0;
        choices =
            record {
              index = pos 0;
              message =
                  message_of ""
                    (filter is_shown (all_parts resp.choices))
                    (map (sent_call object_text) (all_calls resp.choices));
              finish_reason =
                  ir_finish_reason (anthropic_stop_reason (first_finish_reason resp.choices));
            }
            ∷ [];
        usage = record {
          prompt_tokens = resp.usage.prompt_tokens;
          completion_tokens = resp.usage.completion_tokens;
          total_tokens = resp.usage.prompt_tokens +ℤ resp.usage.completion_tokens;
        };
      }
  unfolding parse_response serialize_response
  parse_response-serialize_response random resp e =
      rw (e, read_blocks-choice_blocks (message_of "" [] []) resp.choices) refl
