-- ===== src/Protocol/Responses/Writer/Delivered.antt =====
-- OpenAI's stream parser and the writer of the Responses protocol together, over a sink that takes
-- everything.
use clean_api.Base.{
  ℕ, suc, String, true, Option, none, some, List, [], ◌∷◌, Result, ◌≡◌, refl, ◌==◌, string_equality,
  lookup, ◌⊎◌, inl, inr, if-holds,
}
use clean_api.Base.Int.{ℤ, int_equality}
use clean_api.Protocol.Ir.{
  StreamEvent, text_delta, tool_call_start, tool_call_delta, tool_call_stop, done, Usage,
}
use clean_api.Protocol.OpenAi.Parser.{Chunk, new_parser, feed_lines}
use clean_api.Protocol.OpenAi.Parser.Order.{IsInOrder, feed_lines-IsInOrder}
use clean_api.Protocol.OpenAi.Parser.Started.{with_event, IsInOrder-tail, Ready, Ready-insert}
use clean_api.Protocol.Responses.Output.{fc_id}
use clean_api.Protocol.Responses.Writer.{
  ResponsesWriter, new_responses_writer, Outcome, next, write, ensure_message, write_text,
  grow_call, start_call, finish_with, handle, write_event, finish, write_events,
}
use clean_api.Protocol.Responses.Writer.Shown.{accepting, meant, Delivers, Delivers-write_events}

-- The stream is over, or every call that has started has an item.
abbrev Knows : List ℤ → ResponsesWriter → Type 0
Knows ts s = (s.is_done ≡ true) ⊎ Ready ts s.call_item_ids

abbrev Sent : List ℤ → Outcome → Type 0
Sent ts r = (r.1 ≡ none) × Knows ts r.0

Sent-next :
    (ts us : List ℤ) (k : ResponsesWriter → Outcome) (r : Outcome)
    → ((s : ResponsesWriter) → Knows ts s → Sent us (k s))
    → Sent ts r
    → Sent us (next k r)
Sent-next ts us k (s, none) f (e, q) = f s q
Sent-next ts us k (s, some x) f (e, q) = absurd cc

Sent-ensure_message :
    (ts : List ℤ) (s : ResponsesWriter) → Knows ts s → Sent ts (ensure_message accepting s)
unfolding ensure_message write
Sent-ensure_message ts s h =
    if-holds (Sent ts) (s.msg_item_id == "") _ _ (λ e. (refl, h)) (λ e. (refl, h))

Sent-write_text :
    (ts : List ℤ) (t : String) (s : ResponsesWriter)
    → Knows ts s
    → Sent ts (write_text accepting t s)
unfolding write_text write
Sent-write_text ts t s h = (refl, h)

Sent-grow_call :
    (ts : List ℤ) (i : ℤ) (arguments : String) (s : ResponsesWriter) (o : Option String)
    (id : String)
    → o ≡ some id
    → Knows ts s
    → Sent ts (grow_call accepting i arguments s o)
unfolding write
Sent-grow_call ts i arguments s none id e h = absurd cc
Sent-grow_call ts i arguments s (some x) id e h = (refl, h)

finish_with-done :
    (usage : Option Usage) (s : ResponsesWriter)
    → ((finish_with accepting usage s).1 ≡ none)
      × ((finish_with accepting usage s).0.is_done ≡ true)
unfolding finish_with write
finish_with-done usage s = (refl, refl)

Sent-handle :
    (ev : StreamEvent) (evs : List StreamEvent) (ts : List ℤ) (s : ResponsesWriter)
    → IsInOrder (ev ∷ evs) ts
    → Ready ts s.call_item_ids
    → Sent (with_event ev ts) (handle accepting ev s)
unfolding handle start_call write
Sent-handle (text_delta t) evs ts s o h =
    Sent-next ts ts (write_text accepting t) (ensure_message accepting s) (Sent-write_text ts t)
      (Sent-ensure_message ts s (inr h))
Sent-handle (tool_call_start i id name) evs ts s o h =
    (refl, inr (Ready-insert ts i (fc_id (suc s.item_seq)) s.call_item_ids h))
Sent-handle (tool_call_delta i arguments) evs ts s (c, o) h =
    let (id, e) = h i c in Sent-grow_call ts i arguments s (lookup i s.call_item_ids) id e (inr h)
Sent-handle (tool_call_stop i) evs ts s o h = (refl, inr h)
Sent-handle (done reason usage) evs ts s o h = let (e, d) = finish_with-done usage s in (e, inl d)

Sent-write_event :
    (ev : StreamEvent) (evs : List StreamEvent) (ts : List ℤ) (s : ResponsesWriter)
    → IsInOrder (ev ∷ evs) ts
    → Knows ts s
    → Sent (with_event ev ts) (write_event accepting ev s)
unfolding write_event
Sent-write_event ev evs ts s o (inl d) =
    if-holds (Sent (with_event ev ts)) s.is_done _ _ (λ e. (refl, inl d)) (λ e. absurd cc)
Sent-write_event ev evs ts s o (inr h) =
    if-holds (Sent (with_event ev ts)) s.is_done _ _ (λ e. (refl, inl e))
      (λ e. Sent-handle ev evs ts s o h)

next-none :
    (ts : List ℤ) (k : ResponsesWriter → Outcome) (r : Outcome)
    → ((s : ResponsesWriter) → Knows ts s → (k s).1 ≡ none)
    → Sent ts r
    → (next k r).1 ≡ none
next-none ts k (s, none) f (e, q) = f s q
next-none ts k (s, some x) f (e, q) = absurd cc

write_events-none :
    (evs : List StreamEvent) (ts : List ℤ) (s : ResponsesWriter)
    → IsInOrder evs ts
    → Knows ts s
    → (write_events accepting evs s).1 ≡ none
unfolding write_events
write_events-none [] ts s o h = refl
write_events-none (ev ∷ evs) ts s o h =
    next-none (with_event ev ts) (write_events accepting evs) (write_event accepting ev s)
      (λ q k. write_events-none evs (with_event ev ts) q (IsInOrder-tail ev evs ts o) k)
      (Sent-write_event ev evs ts s o h)

abbrev Closed : Outcome → Type 0
Closed r = (r.1 ≡ none) × (r.0.is_done ≡ true)

Closed-finish : (s : ResponsesWriter) → Closed (finish accepting s)
unfolding finish
Closed-finish s =
    if-holds Closed s.is_done (s, none) (finish_with accepting none s) (λ e. (refl, e))
      (λ e. finish_with-done none s)

-- Whatever data lines an OpenAI upstream sends, and however they are decoded: if the sink takes
-- everything, the events that the stream parser makes of them are written to a client of the Responses
-- protocol without an error, and the finish closes the stream without an error. What the client has then
-- been sent shows every text, call and piece of arguments of the events up to their end, in order and
-- nothing else, and the last thing sent is the completed response.
pub finish-feed_lines :
    (decode : String → Result String Chunk) (lines : List String) (now : ℕ) (id model : String)
    (created : ℕ)
    → let evs = feed_lines decode lines new_parser in
      let r = write_events accepting evs (new_responses_writer now id model created) in
      (r.1 ≡ none)
      × ((finish accepting r.0).1 ≡ none)
      × ((finish accepting r.0).0.is_done ≡ true)
      × Delivers (meant evs) (finish accepting r.0).0.out
unfolding new_parser new_responses_writer
finish-feed_lines decode lines now id model created =
    let evs = feed_lines decode lines new_parser in
    let s = new_responses_writer now id model created in
    let sent =
      write_events-none evs [] s (feed_lines-IsInOrder decode lines new_parser)
        (inr (λ i c. absurd cc)) in
    let (e, d) = Closed-finish (write_events accepting evs s).0 in
    (sent, e, d, Delivers-write_events evs s refl sent)
