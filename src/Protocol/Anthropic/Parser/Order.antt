-- ===== src/Protocol/Anthropic/Parser/Order.antt =====
-- The order of the events that Anthropic's stream parser gives.
use clean_api.Base.{
  String, Bool, true, false, List, [], ◌∷◌, ◌++◌, Result, ok, err, ◌>>=◌, if◌then◌else◌, ◌≡◌, refl,
  ◌==◌, string_equality, contains, Option, none, some,
}
use clean_api.Base.Int.{ℤ, int_equality}
use clean_api.Protocol.Ir.{
  StreamEvent, text_delta, tool_call_start, tool_call_delta, tool_call_stop, done,
}
use clean_api.Protocol.Anthropic.Parser.{
  ContentBlock, BlockDelta, StreamPayload, BlockParser, Step, quiet, block_start, block_delta,
  block_stop, message_change, message_end, feed_payload, feed_block, fed_blocks, feed_blocks,
}

-- In order, and nothing follows the end of the stream. If the parser has stopped, there is nothing.
abbrev pub IsStream : Bool → List ℤ → List StreamEvent → Type 0
IsStream true ts [] = Unit
IsStream false ts [] = Unit
IsStream true ts (ev ∷ evs) = ⊥
IsStream false ts (tool_call_start i _ _ ∷ evs) = IsStream false (i ∷ ts) evs
IsStream false ts (text_delta _ ∷ evs) = IsStream false ts evs
IsStream false ts (tool_call_delta i _ ∷ evs) = (contains ts i ≡ true) × IsStream false ts evs
IsStream false ts (tool_call_stop i ∷ evs) = (contains ts i ≡ true) × IsStream false ts evs
IsStream false ts (done _ _ ∷ evs) = IsStream true ts evs

nil-IsStream : (b : Bool) (ts : List ℤ) → IsStream b ts []
nil-IsStream true ts = tt
nil-IsStream false ts = tt

-- Whatever may follow the parser may follow the step.
abbrev Leads : BlockParser → Step → Type 0
Leads p (err e) = Unit
Leads p (ok (q, evs)) =
    (rest : List StreamEvent)
    → IsStream q.stopped q.tool_blocks rest
    → IsStream p.stopped p.tool_blocks (evs ++ rest)

if-Leads :
    (p : BlockParser) (b : Bool) (x y : Step)
    → (b ≡ true → Leads p x)
    → (b ≡ false → Leads p y)
    → Leads p (if b then x else y)
if-Leads p true x y f g = f refl
if-Leads p false x y f g = g refl

quiet-Leads : (p : BlockParser) → Leads p (quiet p)
quiet-Leads p rest h = h

block_start-Leads :
    (b : Option ContentBlock) (i : ℤ) (p : BlockParser)
    → p.stopped ≡ false
    → Leads p (block_start b i p)
unfolding block_start
block_start-Leads none i p s = quiet-Leads p
block_start-Leads (some b) i p s =
    if-Leads p (b.type == "tool_use") _ (quiet p) (λ e rest h. rw s (rw s at h))
      (λ e. quiet-Leads p)

block_delta-Leads :
    (d : BlockDelta) (i : ℤ) (p : BlockParser) → p.stopped ≡ false → Leads p (block_delta d i p)
unfolding block_delta
block_delta-Leads d i p s =
    if-Leads p (d.type == "text_delta") _ _ (λ e rest h. rw s (rw s at h))
      (λ e.
        if-Leads p (d.type == "input_json_delta") _ (quiet p)
          (λ j.
            if-Leads p (contains p.tool_blocks i) _ (quiet p) (λ c rest h. rw s (c, rw s at h))
              (λ c. quiet-Leads p))
          (λ j. quiet-Leads p))

block_stop-Leads : (i : ℤ) (p : BlockParser) → p.stopped ≡ false → Leads p (block_stop i p)
unfolding block_stop
block_stop-Leads i p s =
    if-Leads p (contains p.tool_blocks i) _ (quiet p) (λ c rest h. rw s (c, rw s at h))
      (λ c. quiet-Leads p)

message_end-Leads : (p : BlockParser) → p.stopped ≡ false → Leads p (message_end p)
unfolding message_end
message_end-Leads p s rest h = rw s h

message_change-Leads :
    (ev : StreamPayload) (p : BlockParser) → Leads p (quiet (message_change ev p))
unfolding message_change
message_change-Leads ev p rest h = h

feed_payload-Leads :
    (ev : StreamPayload) (p : BlockParser) → p.stopped ≡ false → Leads p (feed_payload ev p)
unfolding feed_payload
feed_payload-Leads ev p s =
    if-Leads p (ev.type == "content_block_start") _ _
      (λ e. block_start-Leads ev.content_block ev.index p s)
      (λ e.
        if-Leads p (ev.type == "content_block_delta") _ _
          (λ e. block_delta-Leads ev.delta ev.index p s)
          (λ e.
            if-Leads p (ev.type == "content_block_stop") _ _ (λ e. block_stop-Leads ev.index p s)
              (λ e.
                if-Leads p (ev.type == "message_delta") _ _ (λ e. message_change-Leads ev p)
                  (λ e.
                    if-Leads p (ev.type == "message_stop") _ _ (λ e. message_end-Leads p s)
                      (λ e.
                        if-Leads p (ev.type == "error") _ (quiet p) (λ e. tt)
                          (λ e. quiet-Leads p))))))

module _ (decode : String → Result String StreamPayload) where
  decoded-Leads :
      (r : Result String StreamPayload) (p : BlockParser)
      → Leads p (r >>= (λ ev. if p.stopped then quiet p else feed_payload ev p))
  decoded-Leads (err e) p = tt
  decoded-Leads (ok ev) p =
      if-Leads p p.stopped (quiet p) (feed_payload ev p) (λ s. quiet-Leads p)
        (feed_payload-Leads ev p)

  feed_block-Leads : (line : String) (p : BlockParser) → Leads p (feed_block decode line p)
  unfolding feed_block
  feed_block-Leads line p = decoded-Leads (decode line) p

  fed_blocks-IsStream :
      (p : BlockParser) (k : BlockParser → List StreamEvent) (r : Step)
      → ((q : BlockParser) → IsStream q.stopped q.tool_blocks (k q))
      → Leads p r
      → IsStream p.stopped p.tool_blocks (fed_blocks decode k r)
  fed_blocks-IsStream p k (err e) h l = nil-IsStream p.stopped p.tool_blocks
  fed_blocks-IsStream p k (ok (q, evs)) h l = l (k q) (h q)

  -- For every decoder of events and every sequence of data lines: a piece of a tool call's arguments
  -- and the stop of a tool call come after its start, the stream ends at most once, and nothing comes
  -- after the end.
  pub feed_blocks-IsStream :
      (lines : List String) (p : BlockParser)
      → IsStream p.stopped p.tool_blocks (feed_blocks decode lines p)
  unfolding feed_blocks
  feed_blocks-IsStream [] p = nil-IsStream p.stopped p.tool_blocks
  feed_blocks-IsStream (line ∷ lines) p =
      fed_blocks-IsStream p (feed_blocks decode lines) (feed_block decode line p)
        (feed_blocks-IsStream lines) (feed_block-Leads line p)
