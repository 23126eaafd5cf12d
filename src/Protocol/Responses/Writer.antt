-- ===== src/Protocol/Responses/Writer.antt =====
-- internal/protocol/responses.go, ResponsesStreamWriter: stream events to those of the Responses
-- protocol. `out` has what was written, the newest first; the sink may fail at any write or flush.
-- A nil writer of errors does not occur: `json.Marshal` of these payloads does not fail.
pub mod Closing
pub mod Delivered
pub mod Seen
pub mod Shown
pub mod Summary
use clean_api.Base.{
  ℕ, suc, ◌-◌, String, Bool, true, false, Option, none, some, List, [], ◌∷◌, ◌++◌, if◌then◌else◌,
  ◌==◌, string_equality, lookup, insert, eqb,
}
use clean_api.Base.Int.{ℤ, pos, int_equality}
use clean_api.Base.Text.{◌+++◌, itoa}
use clean_api.Protocol.Ir.{
  StreamEvent, text_delta, tool_call_start, tool_call_delta, tool_call_stop, done, Usage,
}
use clean_api.Protocol.Responses.Output.{OutputItem, message_item, call_item, msg_id, fc_id}

-- The payloads by their `type`: a message or a call is added, a text or arguments grow.
pub data Payload : Type 0 where
  message_added : ℕ → String → Payload
  call_added : ℕ → OutputItem → Payload
  output_text_delta : String → ℕ → String → Payload
  arguments_delta : String → String → Payload
  response_completed : List OutputItem → Usage → Payload
  error_event : String → Payload

pub record Sink : Type 0 where
  pub write_error : List Payload → Payload → Option String
  pub flush_error : List Payload → Option String

pub record ResponsesWriter : Type 0 where
  pub id : String
  pub model : String
  pub created : ℕ
  pub item_seq : ℕ
  pub msg_item_id : String
  pub call_item_ids : List (ℤ × String)
  pub text_buf : String
  pub output : List OutputItem
  pub is_done : Bool
  pub out : List Payload

-- The time is that of the clock where none is given.
unfoldable pub new_responses_writer : ℕ → String → String → ℕ → ResponsesWriter
new_responses_writer now id model created = record {
  id = id;
  model = model;
  created = if eqb created 0 then now else created;
  item_seq = 0;
  msg_item_id = "";
  call_item_ids = [];
  text_buf = "";
  output = [];
  is_done = false;
  out = [];
}

abbrev pub usage_or_zero : Option Usage → Usage
usage_or_zero none = record {
  prompt_tokens = pos 0;
  completion_tokens = pos 0;
  total_tokens = pos 0;
}
usage_or_zero (some u) = u

-- The complete message in front of the output, if there is one.
abbrev pub with_message : ResponsesWriter → ResponsesWriter
with_message s =
    if s.msg_item_id == ""
    then s
    else record s { output = message_item s.msg_item_id s.text_buf ∷ s.output }

abbrev pub or_call_id : ℕ → String → String
or_call_id n id = if id == "" then "call_" +++ itoa n else id

abbrev pub numbered_message : ResponsesWriter → ResponsesWriter
numbered_message s = record s { item_seq = suc s.item_seq; msg_item_id = msg_id (suc s.item_seq) }

abbrev pub call_of : ResponsesWriter → String → String → OutputItem
call_of s id name = call_item (fc_id (suc s.item_seq)) (or_call_id (suc s.item_seq) id) name ""

abbrev pub numbered_call : ℤ → OutputItem → ResponsesWriter → ResponsesWriter
numbered_call index item s = record s {
  item_seq = suc s.item_seq;
  call_item_ids = insert index (fc_id (suc s.item_seq)) s.call_item_ids;
  output = s.output ++ item ∷ [];
}

-- A method: the writer after it, and its error.
abbrev pub Outcome : Type 0
Outcome = ResponsesWriter × Option String

-- `if err != nil { return err }`, and then `k`.
abbrev pub next : (ResponsesWriter → Outcome) → Outcome → Outcome
next k (s, none) = k s
next k (s, some e) = (s, some e)

module _ (sink : Sink) where
  abbrev pub put : Payload → ResponsesWriter → Option String → Outcome
  put p s none = (record s { out = p ∷ s.out }, none)
  put p s (some e) = (s, some e)

  unfoldable pub write : Payload → ResponsesWriter → Outcome
  write p s = put p s (sink.write_error s.out p)

  abbrev pub flush_writer : ResponsesWriter → Outcome
  flush_writer s = (s, sink.flush_error s.out)

  abbrev pub end_flushed : ResponsesWriter → Outcome
  end_flushed s = flush_writer (record s { is_done = true })

  abbrev pub close_with : Option Usage → ResponsesWriter → Outcome
  close_with usage s =
      next end_flushed (write (response_completed s.output (usage_or_zero usage)) s)

  -- `finish` with the usage of the event.
  unfoldable pub finish_with : Option Usage → ResponsesWriter → Outcome
  finish_with usage s = close_with usage (with_message s)

  -- The first text starts the message.
  unfoldable pub ensure_message : ResponsesWriter → Outcome
  ensure_message s =
      if s.msg_item_id == ""
      then write (message_added s.item_seq (msg_id (suc s.item_seq))) (numbered_message s)
      else (s, none)

  unfoldable pub write_text : String → ResponsesWriter → Outcome
  write_text t s = next flush_writer (
      write (output_text_delta s.msg_item_id (s.item_seq - 1) t)
        (record s { text_buf = s.text_buf +++ t }))

  -- The start of a call is written, and not flushed.
  unfoldable pub start_call : ℤ → String → String → ResponsesWriter → Outcome
  start_call index id name s =
      write (call_added s.item_seq (call_of s id name)) (numbered_call index (call_of s id name) s)

  -- The error of the source, whose text ends with the index.
  abbrev pub grow_call : ℤ → String → ResponsesWriter → Option String → Outcome
  grow_call index arguments s none = (s, some "工具调用增量先于 start 到达")
  grow_call index arguments s (some item_id) =
      next flush_writer (write (arguments_delta item_id arguments) s)

  unfoldable pub handle : StreamEvent → ResponsesWriter → Outcome
  handle (text_delta t) s = next (write_text t) (ensure_message s)
  handle (tool_call_start index id name) s = start_call index id name s
  handle (tool_call_delta index arguments) s =
      grow_call index arguments s (lookup index s.call_item_ids)
  handle (tool_call_stop index) s = (s, none)
  handle (done reason usage) s = finish_with usage s

  unfoldable pub write_event : StreamEvent → ResponsesWriter → Outcome
  write_event ev s = if s.is_done then (s, none) else handle ev s

  abbrev pub end_error : Outcome → Outcome
  end_error (s, e) = end_flushed s

  unfoldable pub write_error : String → ResponsesWriter → Outcome
  write_error msg s = if s.is_done then (s, none) else end_error (write (error_event msg) s)

  unfoldable pub finish : ResponsesWriter → Outcome
  finish s = if s.is_done then (s, none) else finish_with none s

  unfoldable pub write_events : List StreamEvent → ResponsesWriter → Outcome
  write_events [] s = (s, none)
  write_events (ev ∷ evs) s = next (write_events evs) (write_event ev s)
