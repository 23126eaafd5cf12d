-- ===== src/Protocol/Responses/Writer/Shown.antt =====
-- What a client of the Responses protocol reads on its stream, over a sink that takes everything.
use clean_api.Base.{
  String, true, false, Option, none, some, List, [], ◌∷◌, ◌++◌, append-nil, append_assoc, ◌≡◌, refl,
  sym, ap, ◌∙◌, if_true, if_false, ◌==◌, string_equality, lookup, inl, inr, Bool-cases,
}
use mathlib.Core.Path.{subst}
use clean_api.Base.Int.{ℤ, int_equality}
use clean_api.Protocol.Ir.{
  StreamEvent, text_delta, tool_call_start, tool_call_delta, tool_call_stop, done, Usage,
}
use clean_api.Protocol.Responses.Output.{OutputItem, message_item, call_item}
use clean_api.Protocol.Responses.Writer.{
  Payload, message_added, call_added, output_text_delta, arguments_delta, response_completed,
  error_event, Sink, ResponsesWriter, Outcome, next, write, usage_or_zero, with_message,
  ensure_message, write_text, grow_call, start_call, finish_with, handle, write_event, finish,
  write_events,
}
use clean_api.Protocol.Responses.Writer.Seen.{next-ok}
use clean_api.Protocol.Responses.Writer.Summary.{finish_with-out}

-- What a client makes of the stream: a piece of text, a tool call by its name, a piece of arguments.
pub data Shown : Type 0 where
  shown_text shown_call shown_arguments : String → Shown

abbrev pub accepting : Sink
accepting = record { write_error = λ out p. none; flush_error = λ out. none }

abbrev item_shown : OutputItem → List Shown
item_shown (message_item id t) = []
item_shown (call_item id call_id name arguments) = shown_call name ∷ []

abbrev shown : Payload → List Shown
shown (message_added n id) = []
shown (call_added n item) = item_shown item
shown (output_text_delta id n t) = shown_text t ∷ []
shown (arguments_delta id arguments) = shown_arguments arguments ∷ []
shown (response_completed items usage) = []
shown (error_event message) = []

-- In the order in which it was written.
abbrev pub shown_by : List Payload → List Shown
shown_by [] = []
shown_by (p ∷ ps) = shown_by ps ++ shown p

-- What the events of an upstream mean, up to its end.
abbrev pub meant : List StreamEvent → List Shown
meant [] = []
meant (text_delta t ∷ evs) = shown_text t ∷ meant evs
meant (tool_call_start i id name ∷ evs) = shown_call name ∷ meant evs
meant (tool_call_delta i arguments ∷ evs) = shown_arguments arguments ∷ meant evs
meant (tool_call_stop i ∷ evs) = meant evs
meant (done reason usage ∷ evs) = []

-- The stream shows the pieces, and the last thing on it is the completed response.
pub record Delivers (pieces : List Shown) (out : List Payload) : Type 0 where
  pub items : List OutputItem
  pub usage : Usage
  pub earlier : List Payload
  pub completed : out ≡ response_completed items usage ∷ earlier
  pub pieces_shown : shown_by out ≡ pieces

-- A step goes on with the stream and adds the pieces to it.
abbrev Adds : List Shown → ResponsesWriter → Outcome → Type 0
Adds ps s r = (r.0.is_done ≡ s.is_done) × (shown_by r.0.out ≡ shown_by s.out ++ ps)

Adds-text :
    (t : String) (s : ResponsesWriter)
    → Adds (shown_text t ∷ []) s (next (write_text accepting t) (ensure_message accepting s))
unfolding ensure_message write_text write
Adds-text t s = elim (Bool-cases (s.msg_item_id == "")) [
  | inl e ↦ rw e (refl, ap (λ ps. ps ++ shown_text t ∷ []) (append-nil (shown_by s.out)))
  | inr e ↦ rw e (refl, refl)
]

Adds-grow_call :
    (i : ℤ) (arguments : String) (s : ResponsesWriter) (o : Option String)
    → (grow_call accepting i arguments s o).1 ≡ none
    → Adds (shown_arguments arguments ∷ []) s (grow_call accepting i arguments s o)
unfolding write
Adds-grow_call i arguments s none e = absurd cc
Adds-grow_call i arguments s (some x) e = (refl, refl)

Delivers-finish_with :
    (usage : Option Usage) (s : ResponsesWriter)
    → (finish_with accepting usage s).1 ≡ none
    → Delivers (shown_by s.out) (finish_with accepting usage s).0.out
Delivers-finish_with usage s e =
    let c = finish_with-out accepting usage s e in
    record {
      items = (with_message s).output;
      usage = usage_or_zero usage;
      earlier = s.out;
      completed = c;
      pieces_shown = ap shown_by c ∙ append-nil (shown_by s.out);
    }

finish_with-accepted :
    (usage : Option Usage) (s : ResponsesWriter)
    → ((finish_with accepting usage s).1 ≡ none)
      × ((finish_with accepting usage s).0.is_done ≡ true)
unfolding finish_with write
finish_with-accepted usage s = (refl, refl)

Delivers-finish :
    (s : ResponsesWriter) → s.is_done ≡ false → Delivers (shown_by s.out) (finish accepting s).0.out
unfolding finish
Delivers-finish s d =
    subst (λ (r : Outcome). Delivers (shown_by s.out) r.0.out)
      (sym (if_false s.is_done (s, none) (finish_with accepting none s) d))
      (Delivers-finish_with none s (finish_with-accepted none s).0)

write_events-done :
    (evs : List StreamEvent) (s : ResponsesWriter)
    → s.is_done ≡ true
    → (write_events accepting evs s).0 ≡ s
unfolding write_events write_event
write_events-done [] s d = refl
write_events-done (ev ∷ evs) s d =
    ap (λ (r : Outcome). (next (write_events accepting evs) r).0)
      (if_true s.is_done (s, none) (handle accepting ev s) d)
    ∙ write_events-done evs s d

finish-done : (s : ResponsesWriter) → s.is_done ≡ true → (finish accepting s).0 ≡ s
unfolding finish
finish-done s d =
    ap (λ (r : Outcome). r.0) (if_true s.is_done (s, none) (finish_with accepting none s) d)

abbrev run : List StreamEvent → ResponsesWriter → Outcome
run evs s = write_events accepting evs s

abbrev Ends : List Shown → Outcome → Type 0
Ends ps r = Delivers ps (finish accepting r.0).0.out

-- A step that goes on, and then the rest.
Ends-step :
    (ev : StreamEvent) (evs : List StreamEvent) (ps qs : List Shown) (s : ResponsesWriter)
    → ((u : ResponsesWriter)
        → u.is_done ≡ false
        → (run evs u).1 ≡ none
        → Ends (shown_by u.out ++ qs) (run evs u))
    → s.is_done ≡ false
    → (next (write_events accepting evs) (handle accepting ev s)).1 ≡ none
    → ((handle accepting ev s).1 ≡ none → Adds ps s (handle accepting ev s))
    → Ends
        (shown_by s.out ++ (ps ++ qs))
        (next (write_events accepting evs) (handle accepting ev s))
Ends-step ev evs ps qs s rest d e adds =
    let (q, n) = next-ok (write_events accepting evs) (handle accepting ev s) e in
    let (same, grown) = adds n in
    let u = (handle accepting ev s).0 in
    subst (Ends (shown_by s.out ++ (ps ++ qs))) (sym q) (
      subst (λ xs. Ends xs (run evs u))
        (ap (λ xs. xs ++ qs) grown ∙ append_assoc (shown_by s.out) ps qs)
        (rest u (same ∙ d) (sym (ap (λ (r : Outcome). r.1) q) ∙ e)))

abbrev Rest : List StreamEvent → Type 0
Rest evs =
    (u : ResponsesWriter)
    → u.is_done ≡ false
    → (run evs u).1 ≡ none
    → Ends (shown_by u.out ++ meant evs) (run evs u)

Ends-done :
    (evs : List StreamEvent) (usage : Option Usage) (s : ResponsesWriter)
    → Ends
        (shown_by s.out ++ [])
        (next (write_events accepting evs) (finish_with accepting usage s))
Ends-done evs usage s =
    let (e, d) = finish_with-accepted usage s in
    let u = (finish_with accepting usage s).0 in
    let q : next (write_events accepting evs) (finish_with accepting usage s) ≡ run evs u =
      ap (λ o. next (write_events accepting evs) (u, o)) e in
    subst (λ (r : Outcome). Ends (shown_by s.out ++ []) r) (sym q)
      (subst (λ (x : ResponsesWriter). Delivers (shown_by s.out ++ []) x.out)
        (sym (
          ap (λ (x : ResponsesWriter). (finish accepting x).0) (write_events-done evs u d)
          ∙ finish-done u d))
        (subst (λ ps. Delivers ps u.out) (sym (append-nil (shown_by s.out)))
          (Delivers-finish_with usage s e)))

Ends-handle :
    (ev : StreamEvent) (evs : List StreamEvent) (s : ResponsesWriter)
    → Rest evs
    → s.is_done ≡ false
    → (next (write_events accepting evs) (handle accepting ev s)).1 ≡ none
    → Ends
        (shown_by s.out ++ meant (ev ∷ evs))
        (next (write_events accepting evs) (handle accepting ev s))
unfolding handle start_call write
Ends-handle (text_delta t) evs s rest d e =
    Ends-step (text_delta t) evs (shown_text t ∷ []) (meant evs) s rest d e (λ n. Adds-text t s)
Ends-handle (tool_call_start i id name) evs s rest d e =
    Ends-step (tool_call_start i id name) evs (shown_call name ∷ []) (meant evs) s rest d e
      (λ n. (refl, refl))
Ends-handle (tool_call_delta i arguments) evs s rest d e =
    Ends-step (tool_call_delta i arguments) evs (shown_arguments arguments ∷ []) (meant evs) s rest
      d e (Adds-grow_call i arguments s (lookup i s.call_item_ids))
Ends-handle (tool_call_stop i) evs s rest d e = rest s d e
Ends-handle (done reason usage) evs s rest d e = Ends-done evs usage s

-- The events that are written without an error, and the finish after them, deliver what they mean.
pub Delivers-write_events :
    (evs : List StreamEvent) (s : ResponsesWriter)
    → s.is_done ≡ false
    → (write_events accepting evs s).1 ≡ none
    → Delivers
        (shown_by s.out ++ meant evs)
        (finish accepting (write_events accepting evs s).0).0.out
unfolding write_events write_event
Delivers-write_events [] s d e =
    subst (λ ps. Delivers ps (finish accepting s).0.out) (sym (append-nil (shown_by s.out)))
      (Delivers-finish s d)
Delivers-write_events (ev ∷ evs) s d e =
    let w = if_false s.is_done (s, none) (handle accepting ev s) d in
    subst
      (λ (r : Outcome).
        Ends (shown_by s.out ++ meant (ev ∷ evs)) (next (write_events accepting evs) r))
      (sym w)
      (Ends-handle ev evs s (Delivers-write_events evs) d
        (sym (ap (λ (r : Outcome). (next (write_events accepting evs) r).1) w) ∙ e))
