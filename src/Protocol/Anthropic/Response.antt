-- ===== src/Protocol/Anthropic/Response.antt =====
-- internal/protocol/anthropic.go, SerializeAnthropicMessagesResponse and
-- ParseAnthropicMessagesResponse. `object_text` is as in Upstream, `random` is `RandHex(8)`.
pub mod Merge
use clean_api.Base.{
  String, Bool, true, false, not, List, [], ◌∷◌, ◌++◌, map, if◌then◌else◌, ◌==◌, string_equality,
}
use clean_api.Base.Int.{ℤ, pos, ◌+ℤ◌}
use clean_api.Base.Text.{◌+++◌}
use clean_api.Protocol.Ir.{ContentPart, text, image, ToolCall, Message, Choice, ChatResponse, Usage}
use clean_api.Protocol.Anthropic.Reasons.{anthropic_stop_reason, ir_finish_reason}
use clean_api.Protocol.Anthropic.Blocks.{Block}
use clean_api.Protocol.Anthropic.Messages.{message_of, call_of}
use clean_api.Protocol.Anthropic.Upstream.{part_block, call_block}

pub record JsonUsage : Type 0 where
  pub input_tokens : ℤ
  pub output_tokens : ℤ

pub record JsonResponse : Type 0 where
  pub id : String
  pub model : String
  pub content : List Block
  pub stop_reason : String
  pub usage : JsonUsage

unfoldable pub text_blocks : List ContentPart → List Block
text_blocks [] = []
text_blocks (text t ∷ ps) = if t == "" then text_blocks ps else part_block (text t) ∷ text_blocks ps
text_blocks (image url ∷ ps) = text_blocks ps

abbrev pub first_finish_reason : List Choice → String
first_finish_reason [] = ""
first_finish_reason (c ∷ cs) = c.finish_reason

module _ (object_text : String → String) where
  unfoldable pub choice_blocks : List Choice → List Block
  choice_blocks [] = []
  choice_blocks (c ∷ cs) =
      text_blocks c.message.content
      ++ (map (call_block object_text) c.message.tool_calls ++ choice_blocks cs)

  unfoldable pub serialize_response : String → ChatResponse → JsonResponse
  serialize_response random resp = record {
    id = if resp.id == "" then "msg_" +++ random else resp.id;
    model = resp.model;
    content = choice_blocks resp.choices;
    stop_reason = anthropic_stop_reason (first_finish_reason resp.choices);
    usage = record {
      input_tokens = resp.usage.prompt_tokens;
      output_tokens = resp.usage.completion_tokens;
    };
  }

-- A block added to the message of the choice.
abbrev pub read_block : Message → Block → Message
read_block m b =
    if b.type == "text"
    then record m { content = m.content ++ text b.text ∷ [] }
    else if b.type == "tool_use"
    then record m { tool_calls = m.tool_calls ++ call_of b ∷ [] }
    else m

unfoldable pub read_blocks : Message → List Block → Message
read_blocks m [] = m
read_blocks m (b ∷ bs) = read_blocks (read_block m b) bs

abbrev pub usage_in : JsonUsage → Usage
usage_in u = record {
  prompt_tokens = u.input_tokens;
  completion_tokens = u.output_tokens;
  total_tokens = u.input_tokens +ℤ u.output_tokens;
}

abbrev pub choice_in : String → Message → Choice
choice_in stop m = record { index = pos 0; message = m; finish_reason = ir_finish_reason stop }

unfoldable pub parse_response : JsonResponse → ChatResponse
parse_response raw = record {
  id = raw.id;
  model = raw.model;
  created = 0;
  choices = choice_in raw.stop_reason (read_blocks (message_of "" [] []) raw.content) ∷ [];
  usage = usage_in raw.usage;
}
