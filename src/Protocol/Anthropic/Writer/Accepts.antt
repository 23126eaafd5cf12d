-- ===== src/Protocol/Anthropic/Writer/Accepts.antt =====
-- OpenAI's stream parser and Anthropic's stream writer together, over a sink that takes everything.
use clean_api.Base.{
  ℕ, String, Bool, true, false, Option, none, some, List, [], ◌∷◌, Result, ◌≡◌, refl, ap,
  if◌then◌else◌, ◌∙◌, contains, nat_equality, lookup, Bool-cases, inl, inr,
}
use clean_api.Base.Int.{ℤ, int_equality}
use clean_api.Protocol.Ir.{
  StreamEvent, text_delta, tool_call_start, tool_call_delta, tool_call_stop, done, Usage,
}
use clean_api.Protocol.OpenAi.Parser.{Chunk, new_parser, feed_lines}
use clean_api.Protocol.OpenAi.Parser.Order.{IsInOrder, feed_lines-IsInOrder}
use clean_api.Protocol.OpenAi.Parser.Started.{with_event, IsInOrder-tail, Ready, Ready-insert}
use clean_api.Protocol.Anthropic.Writer.{
  Payload, message_delta, message_stop, text_block_delta, Sink, Writer, new_writer, Action, after,
  ◌>>◌, write, flush, message_start_if_needed, ensured, ensure_text_block, close_block,
  close_blocks, close_all_open, set_finished, finish_message, close_text, close_text_block,
  write_text, text_into_block, start_tool, tool_delta, stop_tool, handle, write_event, write_events,
  usage_of,
}
use clean_api.Protocol.Anthropic.Reasons.{anthropic_stop_reason}

abbrev Blocks : Type 0
Blocks = List (ℤ × ℕ)

abbrev Sent : (Blocks → Type 0) → Writer × Option String → Type 0
Sent Q r = (r.1 ≡ none) × Q r.0.tool_blocks

abbrev Sends : (Blocks → Type 0) → (Blocks → Type 0) → Action → Type 0
Sends P Q m = (s : Writer) → P s.tool_blocks → Sent Q (m s)

after-Sent :
    (Q R : Blocks → Type 0) (k : Action) (r : Writer × Option String)
    → Sends Q R k
    → Sent Q r
    → Sent R (after k r)
after-Sent Q R k (s, none) f (e, q) = f s q
after-Sent Q R k (s, some x) f (e, q) = cc e

Sends->> : (P Q R : Blocks → Type 0) (m k : Action) → Sends P Q m → Sends Q R k → Sends P R (m >> k)
Sends->> P Q R m k f g s p = after-Sent Q R k (m s) g (f s p)

if-Sent :
    (Q : Blocks → Type 0) (b : Bool) (x y : Writer × Option String)
    → Sent Q x
    → Sent Q y
    → Sent Q (if b then x else y)
if-Sent Q true x y f g = f
if-Sent Q false x y f g = g

abbrev pub accepting : Sink
accepting = record { write_error = λ out p. none; flush_error = λ out. none }

module _ (P : Blocks → Type 0) where
  write-Sends : (p : Payload) → Sends P P (write accepting p)
  unfolding write
  write-Sends p s h = (refl, h)

  flush-Sends : Sends P P (flush accepting)
  unfolding flush
  flush-Sends s h = (refl, h)

  message_start-Sends : Sends P P (message_start_if_needed accepting)
  unfolding message_start_if_needed write
  message_start-Sends s h = if-Sent P s.started _ _ (refl, h) (refl, h)

  ensured-Sends : (o : Option ℕ) → Sends P P (ensured accepting o)
  unfolding write
  ensured-Sends none s h = (refl, h)
  ensured-Sends (some b) s h = (refl, h)

  ensure-Sends : Sends P P (ensure_text_block accepting)
  unfolding ensure_text_block
  ensure-Sends s h = ensured-Sends s.text_block s h

  close_block-Sends : (b : ℕ) → Sends P P (close_block accepting b)
  unfolding close_block write
  close_block-Sends b s h = if-Sent P (contains s.open_blocks b) _ _ (refl, h) (refl, h)

  close_blocks-Sends : (bs : List ℕ) → Sends P P (close_blocks accepting bs)
  unfolding close_blocks
  close_blocks-Sends [] s h = (refl, h)
  close_blocks-Sends (b ∷ bs) s h =
      Sends->> P P P (close_block accepting b) (close_blocks accepting bs) (close_block-Sends b)
        (close_blocks-Sends bs) s h

  finish_message-Sends :
      (reason : String) (u : Option Usage) → Sends P P (finish_message accepting reason u)
  unfolding finish_message
  finish_message-Sends reason u =
      let last = message_delta (anthropic_stop_reason reason) (usage_of u).0 (usage_of u).1 in
      let start = message_start_if_needed accepting in
      let closed = start >> close_all_open accepting in
      let told = closed >> write accepting last in
      let stopped = told >> write accepting message_stop in
      Sends->> P P P (stopped >> set_finished accepting) (flush accepting)
        (Sends->> P P P stopped (set_finished accepting)
          (Sends->> P P P told (write accepting message_stop)
            (Sends->> P P P closed (write accepting last)
              (Sends->> P P P start (close_all_open accepting) message_start-Sends
                (λ s h. close_blocks-Sends s.open_blocks s h))
              (write-Sends last))
            (write-Sends message_stop))
          (λ s h. (refl, h)))
        flush-Sends

  close_text-Sends : (o : Option ℕ) → Sends P P (close_text accepting o)
  close_text-Sends none s h = (refl, h)
  close_text-Sends (some b) s h = close_block-Sends b s h

  close_text_block-Sends : Sends P P (close_text_block accepting)
  unfolding close_text_block
  close_text_block-Sends s h = close_text-Sends s.text_block s h

  write_text-Sends : (t : String) (o : Option ℕ) → Sends P P (write_text accepting t o)
  write_text-Sends t none s h = (refl, h)
  write_text-Sends t (some b) s h = write-Sends (text_block_delta b t) s h

  stop_tool-Sends : (o : Option ℕ) → Sends P P (stop_tool accepting o)
  stop_tool-Sends none s h = (refl, h)
  stop_tool-Sends (some b) s h =
      Sends->> P P P (close_block accepting b) (flush accepting) (close_block-Sends b) flush-Sends s
        h

  tool_delta-Sent :
      (args : String) (b : ℕ) (o : Option ℕ) (s : Writer)
      → o ≡ some b
      → P s.tool_blocks
      → Sent P (tool_delta accepting args o s)
  unfolding write
  tool_delta-Sent args b none s e h = cc e
  tool_delta-Sent args b (some x) s e h = (refl, h)

start_tool-Sends :
    (ts : List ℤ) (i : ℤ) (id name : String)
    → Sends (Ready ts) (Ready (i ∷ ts)) (start_tool accepting i id name)
unfolding start_tool write
start_tool-Sends ts i id name s h = (refl, Ready-insert ts i s.block_seq s.tool_blocks h)

handle-Sends :
    (ev : StreamEvent) (evs : List StreamEvent) (ts : List ℤ)
    → IsInOrder (ev ∷ evs) ts
    → Sends (Ready ts) (Ready (with_event ev ts)) (handle accepting ev)
unfolding handle
handle-Sends (text_delta t) evs ts o =
    let P = Ready ts in
    Sends->> P P P (ensure_text_block accepting >> text_into_block accepting t) (flush accepting)
      (Sends->> P P P (ensure_text_block accepting) (text_into_block accepting t) (ensure-Sends P)
        (λ s h. write_text-Sends P t s.text_block s h))
      (flush-Sends P)
handle-Sends (tool_call_start i id name) evs ts o =
    Sends->> (Ready ts) (Ready (i ∷ ts)) (Ready (i ∷ ts))
      (close_text_block accepting >> start_tool accepting i id name) (flush accepting)
      (Sends->> (Ready ts) (Ready ts) (Ready (i ∷ ts)) (close_text_block accepting)
        (start_tool accepting i id name) (close_text_block-Sends (Ready ts))
        (start_tool-Sends ts i id name))
      (flush-Sends (Ready (i ∷ ts)))
handle-Sends (tool_call_delta i args) evs ts (c, o) =
    Sends->> (Ready ts) (Ready ts) (Ready ts)
      (λ s. tool_delta accepting args (lookup i s.tool_blocks) s) (flush accepting)
      (λ s h.
        let (b, e) = h i c in tool_delta-Sent (Ready ts) args b (lookup i s.tool_blocks) s e h)
      (flush-Sends (Ready ts))
handle-Sends (tool_call_stop i) evs ts o =
    λ s h. stop_tool-Sends (Ready ts) (lookup i s.tool_blocks) s h
handle-Sends (done reason u) evs ts o = finish_message-Sends (Ready ts) reason u

write_event-finished :
    (ev : StreamEvent) (s : Writer) → s.finished ≡ true → write_event accepting ev s ≡ (s, none)
unfolding write_event
write_event-finished ev s f = rw f refl

write_events-finished :
    (evs : List StreamEvent) (s : Writer)
    → s.finished ≡ true
    → (write_events accepting evs s).1 ≡ none
unfolding write_events
write_events-finished [] s f = refl
write_events-finished (ev ∷ evs) s f =
    ap (λ r. (after (write_events accepting evs) r).1) (write_event-finished ev s f)
    ∙ write_events-finished evs s f

live-Sent :
    (Q : Blocks → Type 0) (b : Bool) (x y : Writer × Option String)
    → b ≡ false
    → Sent Q y
    → Sent Q (if b then x else y)
live-Sent Q true x y e k = cc e
live-Sent Q false x y e k = k

write_event-live :
    (ev : StreamEvent) (evs : List StreamEvent) (ts : List ℤ) (s : Writer)
    → IsInOrder (ev ∷ evs) ts
    → s.finished ≡ false
    → Ready ts s.tool_blocks
    → Sent (Ready (with_event ev ts)) (write_event accepting ev s)
unfolding write_event
write_event-live ev evs ts s o f h =
    live-Sent (Ready (with_event ev ts)) s.finished (s, none)
      ((message_start_if_needed accepting >> handle accepting ev) s) f
      (Sends->> (Ready ts) (Ready ts) (Ready (with_event ev ts)) (message_start_if_needed accepting)
        (handle accepting ev) (message_start-Sends (Ready ts)) (handle-Sends ev evs ts o) s h)

after-none :
    (Q : Blocks → Type 0) (k : Action) (r : Writer × Option String)
    → Sent Q r
    → ((s : Writer) → Q s.tool_blocks → (k s).1 ≡ none)
    → (after k r).1 ≡ none
after-none Q k (s, none) (e, q) f = f s q
after-none Q k (s, some x) (e, q) f = cc e

write_events-none :
    (evs : List StreamEvent) (ts : List ℤ) (s : Writer)
    → IsInOrder evs ts
    → Ready ts s.tool_blocks
    → (write_events accepting evs s).1 ≡ none
unfolding write_events
write_events-none [] ts s o h = refl
write_events-none (ev ∷ evs) ts s o h = elim (Bool-cases s.finished) [
  | inl f ↦ write_events-finished (ev ∷ evs) s f
  | inr f ↦
      after-none (Ready (with_event ev ts)) (write_events accepting evs)
        (write_event accepting ev s) (write_event-live ev evs ts s o f h)
        (λ q k. write_events-none evs (with_event ev ts) q (IsInOrder-tail ev evs ts o) k)
]

new_writer-Ready : (id model : String) → Ready [] (new_writer id model).tool_blocks
unfolding new_writer
new_writer-Ready id model i c = cc c

-- Whatever data lines an OpenAI upstream sends, and however they are decoded: the events that the
-- stream parser makes of them are written to an Anthropic client without an error, if the sink takes
-- everything. The error of arguments before the start of their tool call does not occur.
pub write_events-feed_lines :
    (decode : String → Result String Chunk) (lines : List String) (id model : String)
    → (write_events accepting (feed_lines decode lines new_parser) (new_writer id model)).1 ≡ none
unfolding new_parser
write_events-feed_lines decode lines id model =
    write_events-none (feed_lines decode lines new_parser) [] (new_writer id model)
      (feed_lines-IsInOrder decode lines new_parser) (new_writer-Ready id model)
