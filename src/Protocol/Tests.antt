-- ===== src/Protocol/Tests.antt =====
-- A conversation with a system message, and a stream with a text and a tool call.
use clean_api.Base.{String, none, some, List, [], ◌∷◌, Result, ok, ◌≡◌, refl, ◌<◌, length}
use clean_api.Base.Text.{join}
use clean_api.Base.Int.{pos}
use clean_api.Protocol.Ir.{
  Message, StreamEvent, text_delta, tool_call_start, tool_call_delta, done, text_message,
}
use clean_api.Protocol.Fold.{
  Slot, slots, messages_of, next_cell, compact, system_texts, write_user, fold_system_into_user,
  prefix_content,
}
use clean_api.Protocol.Fold.Laws.{IsFolding, fold_system_into_user-IsFolding}
use clean_api.Protocol.Fold.Retry.{fold_system_into_user-retry}
use clean_api.Protocol.OpenAi.Parser.{Chunk, new_parser, feed_lines}
use clean_api.Protocol.OpenAi.Parser.Order.{IsInOrder, feed_lines-IsInOrder}
use clean_api.Protocol.OpenAi.Writer as Chat
use clean_api.Protocol.OpenAi.Writer.Marker.{Ended, finish-write_events-Ended}
use clean_api.Protocol.OpenAi.ToolChoice.{normalize_tool_choice, normalize_anthropic_tool_choice}
use clean_api.Protocol.OpenAi.ToolChoice.Forms.{
  Choice, named, openai_form, anthropic_form, responses_form, relaxed, normalize_tool_choice-forms,
}
use clean_api.Protocol.Anthropic.Writer.{
  Sink, new_writer, write_events, finish, ◌>>◌, write_event, handle, message_start_if_needed,
  ensure_text_block, write, flush, close_text_block, start_tool, close_block, close_blocks,
  finish_message,
}
use clean_api.Protocol.Anthropic.Parser.{StreamPayload, new_block_parser, feed_blocks}
use clean_api.Protocol.Anthropic.Parser.Order.{IsStream, feed_blocks-IsStream}
use clean_api.Protocol.Anthropic.Reasons.{anthropic_stop_reason}
use clean_api.Protocol.Anthropic.Writer.Accepts.{accepting, write_events-feed_lines}
use clean_api.Protocol.Anthropic.Writer.Closing.{IsClosed, finish-write_events-IsClosed}

abbrev conversation : List Message
conversation = text_message "system" "be kind" ∷ text_message "user" "hi" ∷ []

abbrev written : List Slot
written = slots 0 (text_message "system" "be kind" ∷ text_message "user" "be kind\n\nhi" ∷ [])

system_texts_test : system_texts (slots 0 conversation) ≡ "be kind" ∷ []
unfolding system_texts
system_texts_test = refl

write_user_test :
    write_user
      (join ("be kind" ∷ []) "\n\n")
      (next_cell (slots 0 conversation))
      (slots 0 conversation)
    ≡ some written
unfolding write_user prefix_content join
write_user_test = refl

abbrev twice_told : List Message
twice_told =
    text_message "system" "be kind"
    ∷ text_message "assistant" "?"
    ∷ text_message "user" "hi"
    ∷ text_message "system" "be brief"
    ∷ text_message "user" "well"
    ∷ []

fold_system_into_user-IsFolding_example :
    IsFolding twice_told (messages_of (fold_system_into_user (slots 0 twice_told)).messages)
fold_system_into_user-IsFolding_example = fold_system_into_user-IsFolding twice_told

twice_told_test :
    messages_of (fold_system_into_user (slots 0 twice_told)).messages
    ≡ text_message "assistant" "?"
      ∷ text_message "user" "be kind\n\nbe brief\n\nhi"
      ∷ text_message "user" "well"
      ∷ []
unfolding fold_system_into_user system_texts write_user prefix_content join
twice_told_test = refl

-- The second folding writes the second text into both copies of the user message.
abbrev two_texts : List Message
two_texts = text_message "system" "a" ∷ text_message "system" "b" ∷ text_message "user" "hi" ∷ []

refold_test :
    messages_of (fold_system_into_user (fold_system_into_user (slots 0 two_texts)).array).messages
    ≡ text_message "user" "b\n\na\n\nb\n\nhi" ∷ text_message "user" "b\n\na\n\nb\n\nhi" ∷ []
unfolding fold_system_into_user system_texts write_user prefix_content compact join
refold_test = refl

fold_system_into_user-retry_example :
    length (fold_system_into_user (slots 0 conversation)).messages
    < length (fold_system_into_user (fold_system_into_user (slots 0 conversation)).array).messages
fold_system_into_user-retry_example =
    fold_system_into_user-retry (slots 0 conversation) "be kind" [] written system_texts_test
      write_user_test refl

abbrev events : List StreamEvent
events =
    text_delta "a"
    ∷ tool_call_start (pos 0) "t" "f"
    ∷ tool_call_delta (pos 0) "{}"
    ∷ done "tool_calls" none
    ∷ []

abbrev sure : Sink
sure = record { write_error = λ out p. none; flush_error = λ out. none }

closing_test : ((write_events sure events >> finish sure) (new_writer "id" "m")).1 ≡ none
unfolding write_events finish new_writer write_event handle message_start_if_needed
    ensure_text_block write flush close_text_block start_tool close_block close_blocks
    finish_message anthropic_stop_reason
closing_test = refl

finish-write_events-IsClosed_example :
    IsClosed ((write_events sure events >> finish sure) (new_writer "id" "m")).0
finish-write_events-IsClosed_example =
    finish-write_events-IsClosed sure events "id" "m" closing_test

abbrev full : Chat.Sink
full = record { write_error = λ out l. some "broken pipe"; flush_error = λ out. none }

finish-write_events-Ended_example :
    Ended (Chat.finish full (Chat.write_events full events (Chat.new_chat_writer "id" "m" 0)).0).0
finish-write_events-Ended_example = finish-write_events-Ended full "id" "m" 0 events

abbrev decode_chunk : String → Result String Chunk
decode_chunk line = ok (record {
  choices =
      record {
        content = "";
        tool_calls = record { index = pos 0; id = "t"; name = "f"; arguments = line } ∷ [];
        finish_reason = "";
      }
      ∷ [];
  usage = none;
})

feed_lines-IsInOrder_example :
    IsInOrder
      (feed_lines decode_chunk ("{" ∷ "}" ∷ "[DONE]" ∷ []) new_parser)
      new_parser.tool_started
feed_lines-IsInOrder_example =
    feed_lines-IsInOrder decode_chunk ("{" ∷ "}" ∷ "[DONE]" ∷ []) new_parser

abbrev decode_payload : String → Result String StreamPayload
decode_payload line = ok (record {
  type = line;
  index = pos 1;
  content_block = some (record { type = "tool_use"; id = "t"; name = "f" });
  delta = record { type = "input_json_delta"; text = ""; partial_json = "{}"; stop_reason = "" };
  input_tokens = pos 3;
  output_tokens = pos 4;
  error = none;
})

abbrev payload_lines : List String
payload_lines =
    "message_start" ∷ "content_block_start" ∷ "content_block_delta" ∷ "content_block_stop"
    ∷ "message_delta" ∷ "message_stop" ∷ "message_stop" ∷ []

feed_blocks-IsStream_example :
    IsStream new_block_parser.stopped new_block_parser.tool_blocks
      (feed_blocks decode_payload payload_lines new_block_parser)
feed_blocks-IsStream_example = feed_blocks-IsStream decode_payload payload_lines new_block_parser

abbrev choice : Choice
choice = named "f"

normalize_tool_choice-forms_example :
    (normalize_anthropic_tool_choice (openai_form choice) ≡ anthropic_form choice)
    × (normalize_anthropic_tool_choice (anthropic_form choice) ≡ anthropic_form choice)
    × (normalize_tool_choice (anthropic_form choice) ≡ openai_form (relaxed choice))
    × (normalize_tool_choice (responses_form choice) ≡ openai_form choice)
    × (normalize_tool_choice (openai_form choice) ≡ openai_form choice)
normalize_tool_choice-forms_example = normalize_tool_choice-forms choice refl

write_events-feed_lines_example :
    (write_events accepting
      (feed_lines decode_chunk ("{" ∷ "}" ∷ "[DONE]" ∷ []) new_parser)
      (new_writer "id" "m")).1
    ≡ none
write_events-feed_lines_example =
    write_events-feed_lines decode_chunk ("{" ∷ "}" ∷ "[DONE]" ∷ []) "id" "m"
