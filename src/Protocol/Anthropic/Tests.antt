-- ===== src/Protocol/Anthropic/Tests.antt =====
-- Contents with texts, an image and a tool call, and a response with two choices.
use clean_api.Base.{
  String, some, List, [], ◌∷◌, ◌++◌, map, filter, ok, ◌≡◌, refl, inl, inr, string_equality,
}
use clean_api.Base.Int.{pos, ◌+ℤ◌}
use clean_api.Protocol.Ir.{ChatResponse, Message, text, image, text_message}
use clean_api.Protocol.Fold.{without_system}
use clean_api.Protocol.Anthropic.Reasons.{anthropic_stop_reason, ir_finish_reason}
use clean_api.Protocol.Anthropic.Blocks.{
  Block, listed, image_source_from_data_url, image_to_data_url,
}
use clean_api.Protocol.Anthropic.Blocks.DataUrl.{image_to_data_url-image_source_from_data_url}
use clean_api.Protocol.Anthropic.Messages.{
  message_of, parse_message, messages_of, add_blocks, add_block, attach, tool_message,
}
use clean_api.Protocol.Anthropic.Messages.Passes.{
  results_of, parts_of, calls_of, own_message, parse_message-passes,
}
use clean_api.Protocol.Anthropic.Upstream.{part_block, call_block, content_out, messages_out}
use clean_api.Protocol.Anthropic.Upstream.RoundTrip.{
  sent_call, parse_message-content_out, messages_out-without_system,
}
use clean_api.Protocol.Anthropic.Response.{serialize_response, parse_response, first_finish_reason}
use clean_api.Protocol.Anthropic.Response.Merge.{
  is_shown, all_parts, all_calls, parse_response-serialize_response,
}

abbrev same : String → String
same s = s

abbrev url : String
url = "data:image/png;base64,AAAA"

image_to_data_url-image_source_from_data_url_example :
    image_to_data_url (some (image_source_from_data_url url)) ≡ ok url
unfolding image_source_from_data_url
image_to_data_url-image_source_from_data_url_example =
    image_to_data_url-image_source_from_data_url url (inr (refl, refl))

abbrev answer : Message
answer = record {
  role = "assistant";
  content = text "see" ∷ image "https://a.b/c.png" ∷ [];
  name = "";
  tool_call_id = "";
  tool_calls = record { id = "c"; name = "f"; arguments = "" } ∷ [];
}

parse_message-content_out_example :
    parse_message answer.role (content_out same answer)
    ≡ ok (message_of answer.role answer.content (map (sent_call same) answer.tool_calls) ∷ [])
unfolding image_source_from_data_url image_to_data_url
parse_message-content_out_example =
    parse_message-content_out same answer refl (inl (λ e. cc)) (tt, (refl, tt)) refl

messages_out-without_system_example :
    map (λ p. p.0) (messages_out same (text_message "system" "s" ∷ tool_message "c" "42" ∷ []))
    ≡ map (λ m. m.role) (without_system (text_message "system" "s" ∷ tool_message "c" "42" ∷ []))
messages_out-without_system_example =
    messages_out-without_system same (text_message "system" "s" ∷ tool_message "c" "42" ∷ [])

abbrev blocks : List Block
blocks =
    part_block (text "a")
    ∷ call_block same (record { id = "c"; name = "f"; arguments = "{}" })
    ∷ part_block (text "b")
    ∷ []

abbrev read : List Message
read =
    message_of "assistant" (text "a" ∷ text "b" ∷ [])
      (record { id = "c"; name = "f"; arguments = "{}" } ∷ [])
    ∷ []

blocks_test : parse_message "assistant" (listed blocks) ≡ ok read
unfolding parse_message add_blocks add_block messages_of attach
blocks_test = refl

parse_message-passes_example :
    read
    ≡ results_of blocks ++ own_message "assistant" (parts_of blocks) (calls_of "assistant" blocks)
parse_message-passes_example = parse_message-passes "assistant" blocks read blocks_test

abbrev response : ChatResponse
response = record {
  id = "r";
  model = "m";
  created = 7;
  choices =
      record { index = pos 0; message = answer; finish_reason = "length" }
      ∷ record { index = pos 1; message = text_message "assistant" ""; finish_reason = "stop" }
      ∷ [];
  usage = record { prompt_tokens = pos 2; completion_tokens = pos 3; total_tokens = pos 5 };
}

parse_response-serialize_response_example :
    parse_response (serialize_response same "x" response) ≡ record {
      id = "r";
      model = "m";
      created = 0;
      choices =
          record {
            index = pos 0;
            message =
                message_of ""
                  (filter is_shown (all_parts response.choices))
                  (map (sent_call same) (all_calls response.choices));
            finish_reason =
                ir_finish_reason (anthropic_stop_reason (first_finish_reason response.choices));
          }
          ∷ [];
      usage = record {
        prompt_tokens = pos 2;
        completion_tokens = pos 3;
        total_tokens = pos 2 +ℤ pos 3;
      };
    }
parse_response-serialize_response_example = parse_response-serialize_response same "x" response refl
