-- ===== src/Protocol/Anthropic/Parser.antt =====
-- internal/protocol/anthropic.go, AnthropicStreamParser: Anthropic's SSE events to stream events.
-- `json.Unmarshal` of an event is the parameter `decode`. The map `toolBlocks` only ever gets the
-- value true, and is the list of its keys.
pub mod Order
use clean_api.Base.{
  String, Bool, true, false, Option, none, some, List, [], ◌∷◌, ◌++◌, Result, ok, err, ◌>>=◌,
  if◌then◌else◌, ◌==◌, string_equality, contains, ◌||◌,
}
use clean_api.Base.Int.{ℤ, pos, is_pos, int_equality}
use clean_api.Protocol.Ir.{
  StreamEvent, text_delta, tool_call_start, tool_call_delta, tool_call_stop, done, Usage,
}
use clean_api.Protocol.Anthropic.Reasons.{ir_finish_reason}

pub record ContentBlock : Type 0 where
  pub type : String
  pub id : String
  pub name : String

pub record BlockDelta : Type 0 where
  pub type : String
  pub text : String
  pub partial_json : String
  pub stop_reason : String

-- The decoded event; `error` is the message of its error object.
pub record StreamPayload : Type 0 where
  pub type : String
  pub index : ℤ
  pub content_block : Option ContentBlock
  pub delta : BlockDelta
  pub input_tokens : ℤ
  pub output_tokens : ℤ
  pub error : Option String

-- The source names the last field `started`; it is set when the message has stopped.
pub record BlockParser : Type 0 where
  pub tool_blocks : List ℤ
  pub finish_reason : String
  pub usage : Option Usage
  pub stopped : Bool

unfoldable pub new_block_parser : BlockParser
new_block_parser = record { tool_blocks = []; finish_reason = ""; usage = none; stopped = false }

abbrev pub Step : Type 0
Step = Result String (BlockParser × List StreamEvent)

abbrev pub quiet : BlockParser → Step
quiet p = ok (p, [])

unfoldable pub block_start : Option ContentBlock → ℤ → BlockParser → Step
block_start none i p = quiet p
block_start (some b) i p =
    if b.type == "tool_use"
    then ok (record p { tool_blocks = i ∷ p.tool_blocks }, tool_call_start i b.id b.name ∷ [])
    else quiet p

unfoldable pub block_delta : BlockDelta → ℤ → BlockParser → Step
block_delta d i p =
    if d.type == "text_delta"
    then ok (p, text_delta d.text ∷ [])
    else if d.type == "input_json_delta"
    then (if contains p.tool_blocks i
        then ok (p, tool_call_delta i d.partial_json ∷ [])
        else quiet p)
    else quiet p

unfoldable pub block_stop : ℤ → BlockParser → Step
block_stop i p = if contains p.tool_blocks i then ok (p, tool_call_stop i ∷ []) else quiet p

abbrev pub counted : StreamPayload → Option Usage → Option Usage
counted ev u =
    if is_pos ev.input_tokens || is_pos ev.output_tokens
    then some (record {
      prompt_tokens = ev.input_tokens;
      completion_tokens = ev.output_tokens;
      total_tokens = pos 0;
    })
    else u

unfoldable pub message_change : StreamPayload → BlockParser → BlockParser
message_change ev p = record p {
  finish_reason = if ev.delta.stop_reason == "" then p.finish_reason else ev.delta.stop_reason;
  usage = counted ev p.usage;
}

unfoldable pub message_end : BlockParser → Step
message_end p =
    ok (record p { stopped = true }, done (ir_finish_reason p.finish_reason) p.usage ∷ [])

abbrev pub stream_error : Option String → String
stream_error none = "Anthropic 上游流式错误"
stream_error (some m) = if m == "" then "Anthropic 上游流式错误" else m

-- The `switch` on the event's type; the types that are left out are ignored.
unfoldable pub feed_payload : StreamPayload → BlockParser → Step
feed_payload ev p =
    if ev.type == "content_block_start"
    then block_start ev.content_block ev.index p
    else if ev.type == "content_block_delta"
    then block_delta ev.delta ev.index p
    else if ev.type == "content_block_stop"
    then block_stop ev.index p
    else if ev.type == "message_delta"
    then quiet (message_change ev p)
    else if ev.type == "message_stop"
    then message_end p
    else if ev.type == "error"
    then err (stream_error ev.error)
    else quiet p

module _ (decode : String → Result String StreamPayload) where
  unfoldable pub feed_block : String → BlockParser → Step
  feed_block line p = decode line >>= (λ ev. if p.stopped then quiet p else feed_payload ev p)

  abbrev pub fed_blocks : (BlockParser → List StreamEvent) → Step → List StreamEvent
  fed_blocks k (ok (p, evs)) = evs ++ k p
  fed_blocks k (err e) = []

  -- The events of the data lines of a response; the first error ends them.
  unfoldable pub feed_blocks : List String → BlockParser → List StreamEvent
  feed_blocks [] p = []
  feed_blocks (line ∷ lines) p = fed_blocks (feed_blocks lines) (feed_block line p)
