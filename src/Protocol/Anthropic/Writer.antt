-- ===== src/Protocol/Anthropic/Writer.antt =====
-- internal/protocol/anthropic.go, AnthropicStreamWriter: stream events to Anthropic's SSE events.
-- `out` has the payloads written, the newest first. The sink, a `bufio.Writer` over the HTTP
-- response, may fail at any write or flush; `text_block` is none where the source has -1.
pub mod Balance
pub mod Closing
pub mod Accepts
use clean_api.Base.{
  ℕ, suc, String, Bool, true, false, Option, none, some, List, [], ◌∷◌, ◌++◌, if◌then◌else◌, ◌==◌,
  nat_equality, string_equality, lookup, insert, contains,
}
use clean_api.Base.Int.{ℤ, pos, int_equality}
use clean_api.Base.Text.{◌+++◌, itoa}
use clean_api.Protocol.Ir.{
  StreamEvent, text_delta, tool_call_start, tool_call_delta, tool_call_stop, done, Usage,
}
use clean_api.Protocol.Anthropic.Reasons.{anthropic_stop_reason}

-- The JSON payloads, by their `type`.
pub data Payload : Type 0 where
  message_start : String → String → Payload
  text_block_start : ℕ → Payload
  tool_block_start : ℕ → String → String → Payload
  text_block_delta : ℕ → String → Payload
  input_json_delta : ℕ → String → Payload
  content_block_stop : ℕ → Payload
  message_delta : String → ℤ → ℤ → Payload
  message_stop : Payload
  error_event : String → Payload

pub record Sink : Type 0 where
  pub write_error : List Payload → Payload → Option String
  pub flush_error : List Payload → Option String

pub record Writer : Type 0 where
  pub id : String
  pub model : String
  pub started : Bool
  pub block_seq : ℕ
  pub text_block : Option ℕ
  pub tool_blocks : List (ℤ × ℕ)
  pub open_blocks : List ℕ
  pub finished : Bool
  pub out : List Payload

unfoldable pub new_writer : String → String → Writer
new_writer id model = record {
  id = id;
  model = model;
  started = false;
  block_seq = 0;
  text_block = none;
  tool_blocks = [];
  open_blocks = [];
  finished = false;
  out = [];
}

-- A method: the writer after it, and its error.
abbrev pub Action : Type 0
Action = Writer → Writer × Option String

abbrev pub after : Action → Writer × Option String → Writer × Option String
after k (s, none) = k s
after k (s, some e) = (s, some e)

-- `if err := m; err != nil { return err }`, and then `k`.
infixl 5 ◌>>◌
abbrev pub ◌>>◌ : Action → Action → Action
◌>>◌ m k s = after k (m s)

abbrev pub skip : Action
skip s = (s, none)

abbrev pub drop_block : ℕ → List ℕ → List ℕ
drop_block idx [] = []
drop_block idx (b ∷ bs) = if b == idx then bs else b ∷ drop_block idx bs

abbrev pub unset : ℕ → Option ℕ → Option ℕ
unset idx none = none
unset idx (some b) = if b == idx then none else some b

abbrev pub tool_id : String → ℕ → String
tool_id id idx = if id == "" then "toolu_" +++ itoa idx else id

abbrev pub usage_of : Option Usage → ℤ × ℤ
usage_of none = (pos 0, pos 0)
usage_of (some u) = (u.prompt_tokens, u.completion_tokens)

module _ (sink : Sink) where
  abbrev pub written : Payload → Writer → Option String → Writer × Option String
  written p s none = (record s { out = p ∷ s.out }, none)
  written p s (some e) = (s, some e)

  unfoldable pub write : Payload → Action
  write p s = written p s (sink.write_error s.out p)

  unfoldable pub flush : Action
  flush s = (s, sink.flush_error s.out)

  unfoldable pub message_start_if_needed : Action
  message_start_if_needed s =
      if s.started
      then (s, none)
      else write (message_start s.id s.model) (record s { started = true })

  -- Takes the next block number, and opens the block.
  abbrev pub opened : Writer → Writer
  opened s = record s {
    block_seq = suc s.block_seq;
    open_blocks = s.open_blocks ++ s.block_seq ∷ [];
  }

  abbrev pub ensured : Option ℕ → Action
  ensured (some b) s = (s, none)
  ensured none s =
      write (text_block_start s.block_seq) (record (opened s) { text_block = some s.block_seq })

  unfoldable pub ensure_text_block : Action
  ensure_text_block s = ensured s.text_block s

  unfoldable pub close_block : ℕ → Action
  close_block idx s =
      if contains s.open_blocks idx
      then write (content_block_stop idx) (record s {
        open_blocks = drop_block idx s.open_blocks;
        text_block = unset idx s.text_block;
      })
      else (s, none)

  unfoldable pub close_blocks : List ℕ → Action
  close_blocks [] = skip
  close_blocks (b ∷ bs) = close_block b >> close_blocks bs

  abbrev pub close_all_open : Action
  close_all_open s = close_blocks s.open_blocks s

  abbrev pub set_finished : Action
  set_finished s = (record s { finished = true }, none)

  unfoldable pub finish_message : String → Option Usage → Action
  finish_message reason usage =
      let (input, output) = usage_of usage in
      message_start_if_needed
      >> close_all_open
      >> write (message_delta (anthropic_stop_reason reason) input output)
      >> write message_stop
      >> set_finished
      >> flush

  abbrev pub close_text : Option ℕ → Action
  close_text none = skip
  close_text (some b) = close_block b

  unfoldable pub close_text_block : Action
  close_text_block s = close_text s.text_block s

  abbrev pub write_text : String → Option ℕ → Action
  write_text t none = skip
  write_text t (some b) = write (text_block_delta b t)

  abbrev pub text_into_block : String → Action
  text_into_block t s = write_text t s.text_block s

  unfoldable pub start_tool : ℤ → String → String → Action
  start_tool index id name s =
      write (tool_block_start s.block_seq (tool_id id s.block_seq) name)
        (record (opened s) { tool_blocks = insert index s.block_seq s.tool_blocks })

  -- The error of the source, whose text ends with the index.
  abbrev pub delta_before_start : String
  delta_before_start = "工具调用增量先于 start 到达"

  abbrev pub tool_delta : String → Option ℕ → Action
  tool_delta args none s = (s, some delta_before_start)
  tool_delta args (some b) s = write (input_json_delta b args) s

  abbrev pub stop_tool : Option ℕ → Action
  stop_tool none = skip
  stop_tool (some b) = close_block b >> flush

  -- The `switch` on the event's type.
  unfoldable pub handle : StreamEvent → Action
  handle (text_delta t) = ensure_text_block >> text_into_block t >> flush
  handle (tool_call_start index id name) = close_text_block >> start_tool index id name >> flush
  handle (tool_call_delta index args) =
      (λ s. tool_delta args (lookup index s.tool_blocks) s) >> flush
  handle (tool_call_stop index) = λ s. stop_tool (lookup index s.tool_blocks) s
  handle (done reason usage) = finish_message reason usage

  unfoldable pub write_event : StreamEvent → Action
  write_event ev s = if s.finished then (s, none) else (message_start_if_needed >> handle ev) s

  unfoldable pub finish : Action
  finish s = if s.finished then (s, none) else finish_message "" none s

  abbrev pub failed : Writer × Option String → Writer
  failed (s, e) = record s { finished = true }

  -- WriteError; an error of the write itself is dropped.
  unfoldable pub write_error : String → Action
  write_error msg s = if s.finished then (s, none) else flush (failed (write (error_event msg) s))

  -- The events of a stream, one after the other; the first error ends it.
  unfoldable pub write_events : List StreamEvent → Action
  write_events [] = skip
  write_events (ev ∷ evs) = write_event ev >> write_events evs
