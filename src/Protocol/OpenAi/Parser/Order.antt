-- ===== src/Protocol/OpenAi/Parser/Order.antt =====
-- The order of the events that the stream parser gives.
use clean_api.Base.{
  String, true, List, [], ◌∷◌, ◌++◌, Result, ok, err, ◌>>=◌, ◌≡◌, refl, ◌==◌, string_equality,
  contains, Bool-cases, ==_refl, Option, none, some, ◌∙◌, inl, inr,
}
use clean_api.Base.Int.{ℤ, int_equality}
use clean_api.Protocol.Ir.{
  StreamEvent, text_delta, tool_call_start, tool_call_delta, tool_call_stop, done, Usage,
}
use clean_api.Protocol.OpenAi.Parser.{
  ToolDelta, ChunkChoice, Chunk, StreamParser, with_usage, with_reason, start_event, started_by,
  arguments_event, text_event, emit, feed_tools, continue_with, feed_choices, feed, fed, feed_lines,
}

-- The tool calls that have started after the events.
abbrev pub started : List StreamEvent → List ℤ → List ℤ
started [] ts = ts
started (tool_call_start i _ _ ∷ evs) ts = started evs (i ∷ ts)
started (text_delta _ ∷ evs) ts = started evs ts
started (tool_call_delta _ _ ∷ evs) ts = started evs ts
started (tool_call_stop _ ∷ evs) ts = started evs ts
started (done _ _ ∷ evs) ts = started evs ts

-- Every event on a tool call comes after the call's start.
abbrev pub IsInOrder : List StreamEvent → List ℤ → Type 0
IsInOrder [] ts = Unit
IsInOrder (tool_call_start i _ _ ∷ evs) ts = IsInOrder evs (i ∷ ts)
IsInOrder (text_delta _ ∷ evs) ts = IsInOrder evs ts
IsInOrder (tool_call_delta i _ ∷ evs) ts = (contains ts i ≡ true) × IsInOrder evs ts
IsInOrder (tool_call_stop i ∷ evs) ts = (contains ts i ≡ true) × IsInOrder evs ts
IsInOrder (done _ _ ∷ evs) ts = IsInOrder evs ts

-- The events are in order, and the parser knows the calls they have started.
abbrev Tracks : List ℤ → StreamParser × List StreamEvent → Type 0
Tracks ts (p, evs) = IsInOrder evs ts × (started evs ts ≡ p.tool_started)

IsInOrder-append :
    (xs ys : List StreamEvent) (ts : List ℤ)
    → IsInOrder xs ts
    → IsInOrder ys (started xs ts)
    → IsInOrder (xs ++ ys) ts
IsInOrder-append [] ys ts h k = k
IsInOrder-append (tool_call_start i _ _ ∷ xs) ys ts h k = IsInOrder-append xs ys (i ∷ ts) h k
IsInOrder-append (text_delta _ ∷ xs) ys ts h k = IsInOrder-append xs ys ts h k
IsInOrder-append (tool_call_delta i _ ∷ xs) ys ts (c, h) k = (c, IsInOrder-append xs ys ts h k)
IsInOrder-append (tool_call_stop i ∷ xs) ys ts (c, h) k = (c, IsInOrder-append xs ys ts h k)
IsInOrder-append (done _ _ ∷ xs) ys ts h k = IsInOrder-append xs ys ts h k

started-append :
    (xs ys : List StreamEvent) (ts : List ℤ) → started (xs ++ ys) ts ≡ started ys (started xs ts)
started-append [] ys ts = refl
started-append (tool_call_start i _ _ ∷ xs) ys ts = started-append xs ys (i ∷ ts)
started-append (text_delta _ ∷ xs) ys ts = started-append xs ys ts
started-append (tool_call_delta i _ ∷ xs) ys ts = started-append xs ys ts
started-append (tool_call_stop i ∷ xs) ys ts = started-append xs ys ts
started-append (done _ _ ∷ xs) ys ts = started-append xs ys ts

Tracks-emit :
    (xs : List StreamEvent) (ts us : List ℤ) (r : StreamParser × List StreamEvent)
    → IsInOrder xs ts
    → started xs ts ≡ us
    → Tracks us r
    → Tracks ts (emit xs r)
Tracks-emit xs ts us (p, evs) h e (k, f) =
    (IsInOrder-append xs evs ts h (rw e k), started-append xs evs ts ∙ rw e f)

tool-IsInOrder :
    (tc : ToolDelta) (ts : List ℤ) → IsInOrder (start_event tc ts ++ arguments_event tc) ts
tool-IsInOrder tc ts = elim (Bool-cases (contains ts tc.index)) [
  | inl c ↦ elim (Bool-cases (tc.arguments == "")) [
    | inl a ↦ rw (c, a) tt
    | inr a ↦ rw (c, a) (rw c (refl, tt))
  ]
  | inr c ↦ elim (Bool-cases (tc.arguments == "")) [
    | inl a ↦ rw (c, a) tt
    | inr a ↦ rw (c, a) (rw (==_refl tc.index) (refl, tt))
  ]
]

tool-started :
    (tc : ToolDelta) (ts : List ℤ)
    → started (start_event tc ts ++ arguments_event tc) ts ≡ started_by tc ts
tool-started tc ts = elim (Bool-cases (contains ts tc.index)) [
  | inl c ↦ elim (Bool-cases (tc.arguments == "")) [
    | inl a ↦ rw (c, a) refl
    | inr a ↦ rw (c, a) refl
  ]
  | inr c ↦ elim (Bool-cases (tc.arguments == "")) [
    | inl a ↦ rw (c, a) refl
    | inr a ↦ rw (c, a) refl
  ]
]

feed_tools-Tracks :
    (tcs : List ToolDelta) (p : StreamParser) → Tracks p.tool_started (feed_tools tcs p)
unfolding feed_tools
feed_tools-Tracks [] p = (tt, refl)
feed_tools-Tracks (tc ∷ tcs) p =
    Tracks-emit (start_event tc p.tool_started ++ arguments_event tc) p.tool_started
      (started_by tc p.tool_started)
      (feed_tools tcs (record p { tool_started = started_by tc p.tool_started }))
      (tool-IsInOrder tc p.tool_started) (tool-started tc p.tool_started)
      (feed_tools-Tracks tcs (record p { tool_started = started_by tc p.tool_started }))

Tracks-continue :
    (ts : List ℤ) (k : StreamParser → StreamParser × List StreamEvent)
    (r : StreamParser × List StreamEvent)
    → ((p : StreamParser) → Tracks p.tool_started (k p))
    → Tracks ts r
    → Tracks ts (continue_with k r)
Tracks-continue ts k (p, evs) h (i, e) = Tracks-emit evs ts p.tool_started (k p) i e (h p)

Tracks-reason :
    (reason : String) (p : StreamParser) (tcs : List ToolDelta)
    → Tracks p.tool_started (feed_tools tcs (with_reason reason p))
Tracks-reason reason p tcs = elim (Bool-cases (reason == "")) [
  | inl e ↦ rw e (feed_tools-Tracks tcs p)
  | inr e ↦ rw e (feed_tools-Tracks tcs (record p { finish_reason = reason }))
]

Tracks-text :
    (t : String) (ts : List ℤ) (r : StreamParser × List StreamEvent)
    → Tracks ts r
    → Tracks ts (emit (text_event t) r)
Tracks-text t ts r h = elim (Bool-cases (t == "")) [
  | inl e ↦ rw e (Tracks-emit [] ts ts r tt refl h)
  | inr e ↦ rw e (Tracks-emit (text_delta t ∷ []) ts ts r tt refl h)
]

feed_choices-Tracks :
    (cs : List ChunkChoice) (p : StreamParser) → Tracks p.tool_started (feed_choices cs p)
unfolding feed_choices
feed_choices-Tracks [] p = (tt, refl)
feed_choices-Tracks (c ∷ cs) p =
    let r = feed_tools c.tool_calls (with_reason c.finish_reason p) in
    Tracks-text c.content p.tool_started (continue_with (feed_choices cs) r) (
      Tracks-continue p.tool_started (feed_choices cs) r (feed_choices-Tracks cs)
        (Tracks-reason c.finish_reason p c.tool_calls))

feed_chunk-Tracks :
    (u : Option Usage) (cs : List ChunkChoice) (p : StreamParser)
    → Tracks p.tool_started (feed_choices cs (with_usage u p))
feed_chunk-Tracks none cs p = feed_choices-Tracks cs p
feed_chunk-Tracks (some u) cs p = feed_choices-Tracks cs (record p { usage = some u })

module _ (decode : String → Result String Chunk) where
  abbrev Fed : List ℤ → Result String (StreamParser × List StreamEvent) → Type 0
  Fed ts (ok r) = Tracks ts r
  Fed ts (err e) = Unit

  Fed-decoded :
      (r : Result String Chunk) (p : StreamParser)
      → Fed p.tool_started
          (r >>= (λ chunk. ok (feed_choices chunk.choices (with_usage chunk.usage p))))
  Fed-decoded (ok chunk) p = feed_chunk-Tracks chunk.usage chunk.choices p
  Fed-decoded (err e) p = tt

  Fed-feed : (line : String) (p : StreamParser) → Fed p.tool_started (feed decode line p)
  unfolding feed
  Fed-feed line p = elim (Bool-cases (line == "[DONE]")) [
    | inl e ↦ rw e (tt, refl)
    | inr e ↦ rw e (Fed-decoded (decode line) p)
  ]

  fed-IsInOrder :
      (ts : List ℤ) (k : StreamParser → List StreamEvent)
      (r : Result String (StreamParser × List StreamEvent))
      → ((p : StreamParser) → IsInOrder (k p) p.tool_started)
      → Fed ts r
      → IsInOrder (fed decode k r) ts
  fed-IsInOrder ts k (ok (p, evs)) h (i, e) = IsInOrder-append evs (k p) ts i (rw e (h p))
  fed-IsInOrder ts k (err e) h f = tt

  -- For every decoder of chunks and every sequence of data lines: each piece of a tool call's
  -- arguments comes after the start of the call, the calls that the parser has started before
  -- included.
  pub feed_lines-IsInOrder :
      (lines : List String) (p : StreamParser)
      → IsInOrder (feed_lines decode lines p) p.tool_started
  unfolding feed_lines
  feed_lines-IsInOrder [] p = tt
  feed_lines-IsInOrder (line ∷ lines) p =
      fed-IsInOrder p.tool_started (feed_lines decode lines) (feed decode line p)
        (feed_lines-IsInOrder lines) (Fed-feed line p)
