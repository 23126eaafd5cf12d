-- ===== src/Protocol/Responses/Writer/Summary.antt =====
-- The completed response at the end of a stream of the Responses protocol.
use Prim.Native.String
use text.Mathlib.TextPositions.{len-append}
use clean_api.Base.{
  ℕ, suc, String, true, false, Option, none, some, List, [], ◌∷◌, ◌++◌, append-nil, append_assoc,
  arith, ◌≡◌, refl, sym, ap, ◌∙◌, All, if_true, if_false, inl, inr, ◌==◌, string_equality,
  Bool-cases, eq_iff,
}
use text.Mathlib.TextLemmas.{append_assoc as text_assoc, append-nil as text-append_nil, nil-append}
use mathlib.Core.Path.{subst}
use clean_api.Base.Text.{◌+++◌, itoa}
use clean_api.Protocol.Ir.{
  StreamEvent, text_delta, tool_call_start, tool_call_delta, tool_call_stop, done, Usage,
}
use clean_api.Protocol.Responses.Output.{message_item, call_item, msg_id, fc_id}
use clean_api.Protocol.Responses.Writer.{
  Payload, response_completed, Sink, ResponsesWriter, new_responses_writer, usage_or_zero,
  or_call_id, with_message, Outcome, next, put, write, end_flushed, finish_with, handle,
  write_event, write_events,
}
use clean_api.Protocol.Responses.Writer.Seen.{
  is_going_on, streamed_text, message_number, streamed_calls, message_before, streamed, View, view,
  with_msg, with_text, with_start, seen, seen_all, next-ok, view-handle,
}

msg_id-length : (n : ℕ) → String.len (msg_id n) ≡ 0 → ⊥
msg_id-length n e = omega (arith, len-append "msg_" (itoa n))

msg_id-empty : (n : ℕ) → (msg_id n == "") ≡ false
msg_id-empty n = elim (Bool-cases (msg_id n == "")) [
  | inl e ↦ absurd (msg_id-length n (ap String.len ((eq_iff (msg_id n) "").0 e) ∙ refl))
  | inr e ↦ e
]

buf-text : (t u : String) (v : View) → ((with_msg v).buf +++ t) +++ u ≡ v.buf +++ t +++ u
buf-text t u v = elim (Bool-cases (v.msg == "")) [
  | inl e ↦
      ap (λ (w : View). (w.buf +++ t) +++ u) (if_true (v.msg == "") _ v e) ∙ text_assoc v.buf t u
  | inr e ↦
      ap (λ (w : View). (w.buf +++ t) +++ u) (if_false (v.msg == "") _ v e) ∙ text_assoc v.buf t u
]

buf-seen_all :
    (evs : List StreamEvent) (v : View) → (seen_all evs v).buf ≡ v.buf +++ streamed_text evs
unfolding seen_all streamed_text
buf-seen_all [] v = sym (text-append_nil v.buf)
buf-seen_all (text_delta t ∷ evs) v =
    buf-seen_all evs (with_text t (with_msg v)) ∙ buf-text t (streamed_text evs) v
buf-seen_all (tool_call_start i id name ∷ evs) v = buf-seen_all evs (with_start id name v)
buf-seen_all (tool_call_delta i a ∷ evs) v = buf-seen_all evs v
buf-seen_all (tool_call_stop i ∷ evs) v = buf-seen_all evs v
buf-seen_all (done r u ∷ evs) v = buf-seen_all evs v

items-seen_all :
    (evs : List StreamEvent) (v : View)
    → (seen_all evs v).items ≡ v.items ++ streamed_calls v.seq (v.msg == "") evs
unfolding seen_all streamed_calls
items-seen_all [] v = sym (append-nil v.items)
items-seen_all (text_delta t ∷ evs) v = elim (Bool-cases (v.msg == "")) [
  | inl e ↦
      ap (λ (w : View). (seen_all evs (with_text t w)).items) (if_true (v.msg == "") _ v e)
      ∙ items-seen_all evs (with_text t (record v { seq = suc v.seq; msg = msg_id (suc v.seq) }))
      ∙ ap (λ b. v.items ++ streamed_calls (suc v.seq) b evs) (msg_id-empty (suc v.seq))
      ∙ sym (ap (λ b. v.items ++ streamed_calls v.seq b (text_delta t ∷ evs)) e)
  | inr e ↦
      ap (λ (w : View). (seen_all evs (with_text t w)).items) (if_false (v.msg == "") _ v e)
      ∙ items-seen_all evs (with_text t v)
      ∙ ap (λ b. v.items ++ streamed_calls v.seq b evs) e
      ∙ sym (ap (λ b. v.items ++ streamed_calls v.seq b (text_delta t ∷ evs)) e)
]
items-seen_all (tool_call_start i id name ∷ evs) v =
    items-seen_all evs (with_start id name v)
    ∙ append_assoc v.items (call_item (fc_id (suc v.seq)) (or_call_id (suc v.seq) id) name "" ∷ [])
        (streamed_calls (suc v.seq) (v.msg == "") evs)
items-seen_all (tool_call_delta i a ∷ evs) v = items-seen_all evs v
items-seen_all (tool_call_stop i ∷ evs) v = items-seen_all evs v
items-seen_all (done r u ∷ evs) v = items-seen_all evs v

abbrev Named : Option ℕ → String → Type 0
Named none m = (m == "") ≡ true
Named (some n) m = m ≡ msg_id n

msg-kept :
    (evs : List StreamEvent) (v : View) → (v.msg == "") ≡ false → (seen_all evs v).msg ≡ v.msg
unfolding seen_all
msg-kept [] v e = refl
msg-kept (text_delta t ∷ evs) v e =
    ap (λ (w : View). (seen_all evs (with_text t w)).msg) (if_false (v.msg == "") _ v e)
    ∙ msg-kept evs (with_text t v) e
msg-kept (tool_call_start i id name ∷ evs) v e = msg-kept evs (with_start id name v) e
msg-kept (tool_call_delta i a ∷ evs) v e = msg-kept evs v e
msg-kept (tool_call_stop i ∷ evs) v e = msg-kept evs v e
msg-kept (done r u ∷ evs) v e = msg-kept evs v e

Named-seen_all :
    (evs : List StreamEvent) (v : View)
    → (v.msg == "") ≡ true
    → Named (message_number v.seq evs) (seen_all evs v).msg
unfolding seen_all message_number
Named-seen_all [] v e = e
Named-seen_all (text_delta t ∷ evs) v e =
    ap (λ (w : View). (seen_all evs (with_text t w)).msg) (if_true (v.msg == "") _ v e)
    ∙ msg-kept evs (with_text t (record v { seq = suc v.seq; msg = msg_id (suc v.seq) }))
        (msg_id-empty (suc v.seq))
Named-seen_all (tool_call_start i id name ∷ evs) v e = Named-seen_all evs (with_start id name v) e
Named-seen_all (tool_call_delta i a ∷ evs) v e = Named-seen_all evs v e
Named-seen_all (tool_call_stop i ∷ evs) v e = Named-seen_all evs v e
Named-seen_all (done r u ∷ evs) v e = Named-seen_all evs v e

output-with_message :
    (s : ResponsesWriter) (o : Option ℕ)
    → Named o s.msg_item_id
    → (with_message s).output ≡ message_before o s.text_buf s.output
output-with_message s none e =
    ap (λ (u : ResponsesWriter). u.output) (if_true (s.msg_item_id == "") s _ e)
output-with_message s (some n) e =
    ap (λ (u : ResponsesWriter). u.output)
      (if_false (s.msg_item_id == "") s _ (ap (λ m. m == "") e ∙ msg_id-empty n))
    ∙ ap (λ m. message_item m s.text_buf ∷ s.output) e

closed-seen : (ev : StreamEvent) (v : View) → (seen ev v).closed ≡ v.closed
closed-seen (text_delta t) v = elim (Bool-cases (v.msg == "")) [
  | inl e ↦ ap (λ (w : View). w.closed) (if_true (v.msg == "") _ v e)
  | inr e ↦ ap (λ (w : View). w.closed) (if_false (v.msg == "") _ v e)
]
closed-seen (tool_call_start i id name) v = refl
closed-seen (tool_call_delta i a) v = refl
closed-seen (tool_call_stop i) v = refl
closed-seen (done r u) v = refl

closed-seen_all : (evs : List StreamEvent) (v : View) → (seen_all evs v).closed ≡ v.closed
unfolding seen_all
closed-seen_all [] v = refl
closed-seen_all (ev ∷ evs) v = closed-seen_all evs (seen ev v) ∙ closed-seen ev v

module _ (sink : Sink) where
  view-write_events :
      (evs : List StreamEvent) (s : ResponsesWriter)
      → All (λ ev. is_going_on ev ≡ true) evs
      → s.is_done ≡ false
      → (write_events sink evs s).1 ≡ none
      → view (write_events sink evs s).0 ≡ seen_all evs (view s)
  unfolding write_events seen_all write_event
  view-write_events [] s g d e = refl
  view-write_events (ev ∷ evs) s (g, gs) d e =
      let w = if_false s.is_done (s, none) (handle sink ev s) d in
      let (q, n) = next-ok (write_events sink evs) (write_event sink ev s) e in
      let k =
        ap (λ (r : Outcome). view r.0) w
        ∙ view-handle sink ev s g (sym (ap (λ (r : Outcome). r.1) w) ∙ n) in
      ap (λ (r : Outcome). view r.0) q
      ∙ view-write_events evs (write_event sink ev s).0 gs
          (ap (λ (v : View). v.closed) k ∙ closed-seen ev (view s) ∙ d)
          (sym (ap (λ (r : Outcome). r.1) q) ∙ e)
      ∙ ap (seen_all evs) k

  put-ok :
      (k : ResponsesWriter → Outcome) (p : Payload) (s : ResponsesWriter) (o : Option String)
      → (next k (put sink p s o)).1 ≡ none
      → next k (put sink p s o) ≡ k (record s { out = p ∷ s.out })
  put-ok k p s none e = refl
  put-ok k p s (some x) e = absurd cc

  out-with_message : (s : ResponsesWriter) → (with_message s).out ≡ s.out
  out-with_message s = elim (Bool-cases (s.msg_item_id == "")) [
    | inl e ↦ ap (λ (u : ResponsesWriter). u.out) (if_true (s.msg_item_id == "") s _ e)
    | inr e ↦ ap (λ (u : ResponsesWriter). u.out) (if_false (s.msg_item_id == "") s _ e)
  ]

  pub finish_with-out :
      (usage : Option Usage) (s : ResponsesWriter)
      → (finish_with sink usage s).1 ≡ none
      → (finish_with sink usage s).0.out
        ≡ response_completed (with_message s).output (usage_or_zero usage) ∷ s.out
  unfolding finish_with write
  finish_with-out usage s f =
      let p = response_completed (with_message s).output (usage_or_zero usage) in
      ap (λ (r : Outcome). r.0.out)
        (put-ok (end_flushed sink) p (with_message s) (sink.write_error (with_message s).out p) f)
      ∙ ap (λ ps. p ∷ ps) (out-with_message s)

  done-out :
      (reason : String) (usage : Option Usage) (s : ResponsesWriter)
      → s.is_done ≡ false
      → (write_event sink (done reason usage) s).1 ≡ none
      → (write_event sink (done reason usage) s).0.out
        ≡ response_completed (with_message s).output (usage_or_zero usage) ∷ s.out
  unfolding write_event handle
  done-out reason usage s d f =
      let w = if_false s.is_done (s, none) (finish_with sink usage s) d in
      ap (λ (r : Outcome). r.0.out) w
      ∙ finish_with-out usage s (sym (ap (λ (r : Outcome). r.1) w) ∙ f)

  -- The writer's fields as the abstract view has them, and so its output.
  output-streamed :
      (evs : List StreamEvent) (s : ResponsesWriter) (v : View)
      → (v.msg == "") ≡ true
      → view s ≡ seen_all evs v
      → (with_message s).output
        ≡ message_before
            (message_number v.seq evs)
            (v.buf +++ streamed_text evs)
            (v.items ++ streamed_calls v.seq true evs)
  output-streamed evs s v m q =
      output-with_message s (message_number v.seq evs) (
        subst (λ (w : View). Named (message_number v.seq evs) w.msg) (sym q)
          (Named-seen_all evs v m))
      ∙ ap (λ t. message_before (message_number v.seq evs) t s.output)
          (ap (λ (w : View). w.buf) q ∙ buf-seen_all evs v)
      ∙ ap (message_before (message_number v.seq evs) (v.buf +++ streamed_text evs)) (
          ap (λ (w : View). w.items) q
          ∙ items-seen_all evs v
          ∙ ap (λ b. v.items ++ streamed_calls v.seq b evs) m)

  -- For every sink: when the events of a stream and then its end are written without an error, the
  -- last thing written is the completed response, with the usage of the end. Its output has the
  -- message with all the texts of the stream in order, if there was a text, and then the tool calls in
  -- the order of their starts, each with its number among the items and, whatever arguments the stream
  -- had for it, with empty arguments.
  pub write_event-streamed :
      (now : ℕ) (id model : String) (created : ℕ) (evs : List StreamEvent) (reason : String)
      (usage : Option Usage)
      → All (λ ev. is_going_on ev ≡ true) evs
      → (write_events sink evs (new_responses_writer now id model created)).1 ≡ none
      → (write_event sink
          (done reason usage)
          (write_events sink evs (new_responses_writer now id model created)).0).1
        ≡ none
      → (write_event sink
          (done reason usage)
          (write_events sink evs (new_responses_writer now id model created)).0).0.out
        ≡ response_completed (streamed evs) (usage_or_zero usage)
          ∷ (write_events sink evs (new_responses_writer now id model created)).0.out
  unfolding new_responses_writer
  write_event-streamed now id model created evs reason usage g e f =
      let s = (write_events sink evs (new_responses_writer now id model created)).0 in
      let q = view-write_events evs (new_responses_writer now id model created) g refl e in
      done-out reason usage s
        (ap (λ (v : View). v.closed) q
          ∙ closed-seen_all evs (view (new_responses_writer now id model created)))
        f
      ∙ ap (λ items. response_completed items (usage_or_zero usage) ∷ s.out)
          (output-streamed evs s (view (new_responses_writer now id model created)) refl q
            ∙ ap (λ t. message_before (message_number 0 evs) t (streamed_calls 0 true evs))
                (nil-append (streamed_text evs)))
