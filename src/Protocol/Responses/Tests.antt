-- ===== src/Protocol/Responses/Tests.antt =====
-- A response with a text and a call, and a stream with both.
use clean_api.Base.{String, true, none, some, List, [], ◌∷◌, map, Result, ok, ◌≡◌, refl}
use clean_api.Base.Int.{pos}
use clean_api.Base.Text.{itoa}
use clean_api.Protocol.Ir.{
  ChatResponse, text, StreamEvent, text_delta, tool_call_start, tool_call_delta, done,
}
use clean_api.Protocol.OpenAi.Parser.{Chunk, new_parser, feed_lines}
use clean_api.Protocol.Responses.Input.{listed, parse_input}
use clean_api.Protocol.Responses.Output.{item_fields, serialize_responses_response}
use clean_api.Protocol.Responses.Output.Replay.{said, parse_input-serialize_responses_response}
use clean_api.Protocol.Responses.Writer.{
  Sink, new_responses_writer, response_completed, usage_or_zero, write_event, write_events, finish,
  handle, ensure_message, write_text, start_call, write, finish_with,
}
use clean_api.Protocol.Responses.Writer.Closing.{IsFinished, finish-write_events-IsFinished}
use clean_api.Protocol.Responses.Writer.Seen.{streamed}
use clean_api.Protocol.Responses.Writer.Summary.{write_event-streamed}
use clean_api.Protocol.Responses.Writer.Delivered.{finish-feed_lines}
use clean_api.Protocol.Responses.Writer.Shown.{accepting, meant, Delivers}

abbrev response : ChatResponse
response = record {
  id = "r";
  model = "m";
  created = 7;
  choices =
      record {
        index = pos 0;
        message = record {
          role = "assistant";
          content = text "hi" ∷ [];
          name = "";
          tool_call_id = "";
          tool_calls = record { id = "c"; name = "f"; arguments = "{}" } ∷ [];
        };
        finish_reason = "tool_calls";
      }
      ∷ [];
  usage = usage_or_zero none;
}

parse_input-serialize_responses_response_example :
    parse_input (listed (map item_fields (serialize_responses_response "x" 9 response).output))
    ≡ ok (said response.choices)
parse_input-serialize_responses_response_example =
    parse_input-serialize_responses_response "x" 9 response ((refl, tt), tt)

abbrev events : List StreamEvent
events =
    tool_call_start (pos 0) "c" "f"
    ∷ tool_call_delta (pos 0) "{}"
    ∷ text_delta "a"
    ∷ tool_call_start (pos 1) "" "g"
    ∷ text_delta "b"
    ∷ []

abbrev broken : Sink
broken = record { write_error = λ out p. some "broken pipe"; flush_error = λ out. none }

finish-write_events-IsFinished_example :
    IsFinished (finish broken (write_events broken events (new_responses_writer 1 "r" "m" 7)).0)
finish-write_events-IsFinished_example = finish-write_events-IsFinished broken 1 "r" "m" 7 events

events_test : (write_events accepting events (new_responses_writer 1 "r" "m" 7)).1 ≡ none
unfolding write_events new_responses_writer write_event handle ensure_message write_text start_call
    write itoa
events_test = refl

done_test :
    (write_event accepting
      (done "stop" none)
      (write_events accepting events (new_responses_writer 1 "r" "m" 7)).0).1
    ≡ none
unfolding write_events new_responses_writer write_event handle ensure_message write_text start_call
    write finish_with itoa
done_test = refl

write_event-streamed_example :
    (write_event accepting
      (done "stop" none)
      (write_events accepting events (new_responses_writer 1 "r" "m" 7)).0).0.out
    ≡ response_completed (streamed events) (usage_or_zero none)
      ∷ (write_events accepting events (new_responses_writer 1 "r" "m" 7)).0.out
write_event-streamed_example =
    write_event-streamed accepting 1 "r" "m" 7 events "stop" none
      (refl, (refl, (refl, (refl, (refl, tt))))) events_test done_test

abbrev decode : String → Result String Chunk
decode line = ok (record {
  choices =
      record {
        content = line;
        tool_calls = record { index = pos 0; id = "c"; name = "f"; arguments = line } ∷ [];
        finish_reason = "";
      }
      ∷ [];
  usage = none;
})

finish-feed_lines_example :
    let evs = feed_lines decode ("{" ∷ "}" ∷ "[DONE]" ∷ []) new_parser in
    let r = write_events accepting evs (new_responses_writer 1 "r" "m" 7) in
    (r.1 ≡ none)
    × ((finish accepting r.0).1 ≡ none)
    × ((finish accepting r.0).0.is_done ≡ true)
    × Delivers (meant evs) (finish accepting r.0).0.out
finish-feed_lines_example = finish-feed_lines decode ("{" ∷ "}" ∷ "[DONE]" ∷ []) 1 "r" "m" 7
