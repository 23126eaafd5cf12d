-- ===== src/Protocol/OpenAi/Writer.antt =====
-- internal/protocol/openai.go, OpenAIChatStreamWriter: stream events to OpenAI's SSE chunks.
-- `out` has what was written, the newest first; the id, the model and the time that every chunk
-- carries stand in the writer. The sink, a `bufio.Writer` over the HTTP response, may fail at any
-- write or flush.
pub mod Marker
use clean_api.Base.{
  ℕ, String, Bool, true, false, Option, none, some, List, [], ◌∷◌, if◌then◌else◌, ◌==◌,
  string_equality,
}
use clean_api.Base.Int.{ℤ}
use clean_api.Protocol.Ir.{
  StreamEvent, text_delta, tool_call_start, tool_call_delta, tool_call_stop, done, Usage,
}

-- What goes out in one write: the chunks by their delta, and the marker of the end.
pub data Line : Type 0 where
  content_chunk : String → Line
  tool_chunk : ℤ → String → String → Line
  arguments_chunk : ℤ → String → Line
  last_chunk : Option String → Option Usage → Line
  error_chunk : String → Line
  done_marker : Line

pub record Sink : Type 0 where
  pub write_error : List Line → Line → Option String
  pub flush_error : List Line → Option String

pub record ChatWriter : Type 0 where
  pub id : String
  pub model : String
  pub created : ℕ
  pub is_done : Bool
  pub out : List Line

unfoldable pub new_chat_writer : String → String → ℕ → ChatWriter
new_chat_writer id model created = record {
  id = id;
  model = model;
  created = created;
  is_done = false;
  out = [];
}

abbrev pub any_nil : String → Option String
any_nil s = if s == "" then none else some s

module _ (sink : Sink) where
  abbrev pub put : Line → ChatWriter → Option String → ChatWriter × Option String
  put l s none = (record s { out = l ∷ s.out }, none)
  put l s (some e) = (s, some e)

  unfoldable pub write_chunk : Line → ChatWriter → ChatWriter × Option String
  write_chunk l s = put l s (sink.write_error s.out l)

  abbrev pub flush_writer : ChatWriter → ChatWriter × Option String
  flush_writer s = (s, sink.flush_error s.out)

  -- `if err != nil { return err }`, and then the flush.
  abbrev pub flushed : ChatWriter × Option String → ChatWriter × Option String
  flushed (s, none) = flush_writer s
  flushed (s, some e) = (s, some e)

  abbrev pub set_done : ChatWriter × Option String → ChatWriter × Option String
  set_done (s, e) = (record s { is_done = true }, e)

  -- The marker after the last chunk; the stream is done even if the marker cannot be written.
  abbrev pub mark_done : ChatWriter × Option String → ChatWriter × Option String
  mark_done (s, none) = flushed (set_done (write_chunk done_marker s))
  mark_done (s, some e) = (s, some e)

  abbrev pub end_marked : ChatWriter × Option String → ChatWriter × Option String
  end_marked (s, e) = flush_writer (record s { is_done = true })

  -- The same where the errors of the writes are dropped.
  abbrev pub end_stream : ChatWriter × Option String → ChatWriter × Option String
  end_stream (s, e) = end_marked (write_chunk done_marker s)

  unfoldable pub handle : StreamEvent → ChatWriter → ChatWriter × Option String
  handle (text_delta t) s = flushed (write_chunk (content_chunk t) s)
  handle (tool_call_start index id name) s = flushed (write_chunk (tool_chunk index id name) s)
  handle (tool_call_delta index args) s = flushed (write_chunk (arguments_chunk index args) s)
  handle (tool_call_stop index) s = (s, none)
  handle (done reason usage) s = mark_done (write_chunk (last_chunk (any_nil reason) usage) s)

  unfoldable pub write_event : StreamEvent → ChatWriter → ChatWriter × Option String
  write_event ev s = if s.is_done then (s, none) else handle ev s

  unfoldable pub write_error : String → ChatWriter → ChatWriter × Option String
  write_error msg s = if s.is_done then (s, none) else end_stream (write_chunk (error_chunk msg) s)

  unfoldable pub finish : ChatWriter → ChatWriter × Option String
  finish s = if s.is_done then (s, none) else end_stream (s, none)

  -- The events of a stream, one after the other; the first error ends it.
  abbrev pub next :
      (ChatWriter → ChatWriter × Option String)
      → ChatWriter × Option String
      → ChatWriter × Option String
  next k (s, none) = k s
  next k (s, some e) = (s, some e)

  unfoldable pub write_events : List StreamEvent → ChatWriter → ChatWriter × Option String
  write_events [] s = (s, none)
  write_events (ev ∷ evs) s = next (write_events evs) (write_event ev s)
