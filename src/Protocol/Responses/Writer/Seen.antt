-- ===== src/Protocol/Responses/Writer/Seen.antt =====
-- What a stream of the Responses protocol says, by its events, and what its writer knows of that.
use clean_api.Base.{
  ℕ, suc, String, Bool, true, false, Option, none, some, List, [], ◌∷◌, ◌++◌, ◌≡◌, refl, sym, ap,
  ◌∙◌, if_true, if_false, if◌then◌else◌, inl, inr, ◌==◌, string_equality, lookup, Bool-cases,
}
use clean_api.Base.Int.{ℤ, int_equality}
use clean_api.Base.Text.{◌+++◌}
use clean_api.Protocol.Ir.{
  StreamEvent, text_delta, tool_call_start, tool_call_delta, tool_call_stop, done,
}
use clean_api.Protocol.Responses.Output.{OutputItem, message_item, call_item, msg_id, fc_id}
use clean_api.Protocol.Responses.Writer.{
  Payload, arguments_delta, Sink, ResponsesWriter, or_call_id, Outcome, next, put, write,
  flush_writer, numbered_message, ensure_message, write_text, call_of, numbered_call, start_call,
  grow_call, handle,
}

-- No event is the end.
abbrev pub is_going_on : StreamEvent → Bool
is_going_on (done _ _) = false
is_going_on (text_delta _) = true
is_going_on (tool_call_start _ _ _) = true
is_going_on (tool_call_delta _ _) = true
is_going_on (tool_call_stop _) = true

-- What the stream said, told by its events: the text, the number of the message, which is that of
-- its first text among the items, and the calls, numbered in the order of the starts.
unfoldable pub streamed_text : List StreamEvent → String
streamed_text [] = ""
streamed_text (text_delta t ∷ evs) = t +++ streamed_text evs
streamed_text (tool_call_start _ _ _ ∷ evs) = streamed_text evs
streamed_text (tool_call_delta _ _ ∷ evs) = streamed_text evs
streamed_text (tool_call_stop _ ∷ evs) = streamed_text evs
streamed_text (done _ _ ∷ evs) = streamed_text evs

unfoldable pub message_number : ℕ → List StreamEvent → Option ℕ
message_number n [] = none
message_number n (text_delta t ∷ evs) = some (suc n)
message_number n (tool_call_start _ _ _ ∷ evs) = message_number (suc n) evs
message_number n (tool_call_delta _ _ ∷ evs) = message_number n evs
message_number n (tool_call_stop _ ∷ evs) = message_number n evs
message_number n (done _ _ ∷ evs) = message_number n evs

-- The flag tells that no text came yet: the first one takes a number.
unfoldable pub streamed_calls : ℕ → Bool → List StreamEvent → List OutputItem
streamed_calls n fresh [] = []
streamed_calls n true (text_delta t ∷ evs) = streamed_calls (suc n) false evs
streamed_calls n false (text_delta t ∷ evs) = streamed_calls n false evs
streamed_calls n fresh (tool_call_start _ id name ∷ evs) =
    call_item (fc_id (suc n)) (or_call_id (suc n) id) name "" ∷ streamed_calls (suc n) fresh evs
streamed_calls n fresh (tool_call_delta _ _ ∷ evs) = streamed_calls n fresh evs
streamed_calls n fresh (tool_call_stop _ ∷ evs) = streamed_calls n fresh evs
streamed_calls n fresh (done _ _ ∷ evs) = streamed_calls n fresh evs

abbrev pub message_before : Option ℕ → String → List OutputItem → List OutputItem
message_before none t items = items
message_before (some n) t items = message_item (msg_id n) t ∷ items

abbrev pub streamed : List StreamEvent → List OutputItem
streamed evs = message_before (message_number 0 evs) (streamed_text evs) (streamed_calls 0 true evs)

-- What of the writer counts for the summary.
pub record View : Type 0 where
  pub seq : ℕ
  pub msg : String
  pub buf : String
  pub items : List OutputItem
  pub closed : Bool

abbrev pub view : ResponsesWriter → View
view s = record {
  seq = s.item_seq;
  msg = s.msg_item_id;
  buf = s.text_buf;
  items = s.output;
  closed = s.is_done;
}

abbrev pub with_msg : View → View
with_msg v = if v.msg == "" then record v { seq = suc v.seq; msg = msg_id (suc v.seq) } else v

abbrev pub with_text : String → View → View
with_text t v = record v { buf = v.buf +++ t }

abbrev pub with_start : String → String → View → View
with_start id name v = record v {
  seq = suc v.seq;
  items = v.items ++ call_item (fc_id (suc v.seq)) (or_call_id (suc v.seq) id) name "" ∷ [];
}

abbrev pub seen : StreamEvent → View → View
seen (text_delta t) v = with_text t (with_msg v)
seen (tool_call_start _ id name) v = with_start id name v
seen (tool_call_delta _ _) v = v
seen (tool_call_stop _) v = v
seen (done _ _) v = v

unfoldable pub seen_all : List StreamEvent → View → View
seen_all [] v = v
seen_all (ev ∷ evs) v = seen_all evs (seen ev v)

pub next-ok :
    (k : ResponsesWriter → Outcome) (r : Outcome)
    → (next k r).1 ≡ none
    → (next k r ≡ k r.0) × (r.1 ≡ none)
next-ok k (s, none) e = (refl, refl)
next-ok k (s, some x) e = absurd cc

module _ (sink : Sink) where
  view-put :
      (p : Payload) (s : ResponsesWriter) (e : Option String) → view (put sink p s e).0 ≡ view s
  view-put p s none = refl
  view-put p s (some e) = refl

  pub view-write : (p : Payload) (s : ResponsesWriter) → view (write sink p s).0 ≡ view s
  unfolding write
  view-write p s = view-put p s (sink.write_error s.out p)

  view-flush : (r : Outcome) → view (next (flush_writer sink) r).0 ≡ view r.0
  view-flush (s, none) = refl
  view-flush (s, some e) = refl

  view-ensure_message : (s : ResponsesWriter) → view (ensure_message sink s).0 ≡ with_msg (view s)
  unfolding ensure_message
  view-ensure_message s = elim (Bool-cases (s.msg_item_id == "")) [
    | inl e ↦
        ap (λ (r : Outcome). view r.0) (if_true (s.msg_item_id == "") _ (s, none) e)
        ∙ view-write _ (numbered_message s)
        ∙ sym (if_true (s.msg_item_id == "") _ (view s) e)
    | inr e ↦
        ap (λ (r : Outcome). view r.0) (if_false (s.msg_item_id == "") _ (s, none) e)
        ∙ sym (if_false (s.msg_item_id == "") _ (view s) e)
  ]

  view-write_text :
      (t : String) (s : ResponsesWriter) → view (write_text sink t s).0 ≡ with_text t (view s)
  unfolding write_text
  view-write_text t s =
      view-flush (write sink _ (record s { text_buf = s.text_buf +++ t }))
      ∙ view-write _ (record s { text_buf = s.text_buf +++ t })

  view-grow_call :
      (i : ℤ) (arguments : String) (s : ResponsesWriter) (o : Option String)
      → view (grow_call sink i arguments s o).0 ≡ view s
  view-grow_call i arguments s none = refl
  view-grow_call i arguments s (some id) =
      view-flush (write sink (arguments_delta id arguments) s) ∙ view-write _ s

  pub view-handle :
      (ev : StreamEvent) (s : ResponsesWriter)
      → is_going_on ev ≡ true
      → (handle sink ev s).1 ≡ none
      → view (handle sink ev s).0 ≡ seen ev (view s)
  unfolding handle start_call
  view-handle (text_delta t) s g e =
      let (q, n) = next-ok (write_text sink t) (ensure_message sink s) e in
      ap (λ (r : Outcome). view r.0) q
      ∙ view-write_text t (ensure_message sink s).0
      ∙ ap (with_text t) (view-ensure_message s)
  view-handle (tool_call_start i id name) s g e =
      view-write _ (numbered_call i (call_of s id name) s)
  view-handle (tool_call_delta i arguments) s g e =
      view-grow_call i arguments s (lookup i s.call_item_ids)
  view-handle (tool_call_stop i) s g e = refl
  view-handle (done reason usage) s g e = absurd cc
