-- ===== src/Protocol/OpenAi/Parser.antt =====
-- internal/protocol/openai.go, OpenAIStreamParser: OpenAI's SSE chunks to stream events.
-- `json.Unmarshal` of a chunk is the parameter `decode`. The map `toolStarted` only ever gets the
-- value true, and is the list of its keys.
pub mod Order
pub mod Started
use clean_api.Base.{
  String, Bool, Option, none, some, List, [], ◌∷◌, ◌++◌, Result, ok, err, ◌>>=◌, if◌then◌else◌,
  ◌==◌, string_equality, contains,
}
use clean_api.Base.Int.{ℤ, int_equality}
use clean_api.Protocol.Ir.{
  StreamEvent, text_delta, tool_call_start, tool_call_delta, tool_call_stop, done, Usage,
}

pub record ToolDelta : Type 0 where
  pub index : ℤ
  pub id : String
  pub name : String
  pub arguments : String

pub record ChunkChoice : Type 0 where
  pub content : String
  pub tool_calls : List ToolDelta
  pub finish_reason : String

pub record Chunk : Type 0 where
  pub choices : List ChunkChoice
  pub usage : Option Usage

pub record StreamParser : Type 0 where
  pub tool_started : List ℤ
  pub finish_reason : String
  pub usage : Option Usage

unfoldable pub new_parser : StreamParser
new_parser = record { tool_started = []; finish_reason = ""; usage = none }

abbrev pub with_usage : Option Usage → StreamParser → StreamParser
with_usage none p = p
with_usage (some u) p = record p { usage = some u }

abbrev pub with_reason : String → StreamParser → StreamParser
with_reason reason p = if reason == "" then p else record p { finish_reason = reason }

abbrev pub start_event : ToolDelta → List ℤ → List StreamEvent
start_event tc started =
    if contains started tc.index then [] else tool_call_start tc.index tc.id tc.name ∷ []

abbrev pub started_by : ToolDelta → List ℤ → List ℤ
started_by tc started = if contains started tc.index then started else tc.index ∷ started

abbrev pub arguments_event : ToolDelta → List StreamEvent
arguments_event tc = if tc.arguments == "" then [] else tool_call_delta tc.index tc.arguments ∷ []

abbrev pub text_event : String → List StreamEvent
text_event t = if t == "" then [] else text_delta t ∷ []

abbrev pub emit :
    List StreamEvent → StreamParser × List StreamEvent → StreamParser × List StreamEvent
emit evs (p, rest) = (p, evs ++ rest)

unfoldable pub feed_tools : List ToolDelta → StreamParser → StreamParser × List StreamEvent
feed_tools [] p = (p, [])
feed_tools (tc ∷ tcs) p =
    emit (start_event tc p.tool_started ++ arguments_event tc)
      (feed_tools tcs (record p { tool_started = started_by tc p.tool_started }))

-- What follows the tool calls of a choice.
abbrev pub continue_with :
    (StreamParser → StreamParser × List StreamEvent)
    → StreamParser × List StreamEvent
    → StreamParser × List StreamEvent
continue_with k (p, evs) = emit evs (k p)

unfoldable pub feed_choices : List ChunkChoice → StreamParser → StreamParser × List StreamEvent
feed_choices [] p = (p, [])
feed_choices (c ∷ cs) p =
    emit (text_event c.content)
      (continue_with (feed_choices cs) (feed_tools c.tool_calls (with_reason c.finish_reason p)))

module _ (decode : String → Result String Chunk) where
  unfoldable pub feed : String → StreamParser → Result String (StreamParser × List StreamEvent)
  feed line p =
      if line == "[DONE]"
      then ok (p, done p.finish_reason p.usage ∷ [])
      else decode line >>= (λ chunk. ok (feed_choices chunk.choices (with_usage chunk.usage p)))

  -- The events of the data lines of a response, which the adapter has trimmed; a line that is no
  -- chunk ends them.
  abbrev pub fed :
      (StreamParser → List StreamEvent)
      → Result String (StreamParser × List StreamEvent)
      → List StreamEvent
  fed k (ok (p, evs)) = evs ++ k p
  fed k (err e) = []

  unfoldable pub feed_lines : List String → StreamParser → List StreamEvent
  feed_lines [] p = []
  feed_lines (line ∷ lines) p = fed (feed_lines lines) (feed line p)
