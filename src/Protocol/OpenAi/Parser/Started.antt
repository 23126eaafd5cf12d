-- ===== src/Protocol/OpenAi/Parser/Started.antt =====
-- The tool calls that a stream has started, and a writer's map that knows them all.
use clean_api.Base.{
  true, some, List, ◌∷◌, ◌≡◌, refl, ◌∙◌, ◌==◌, contains, lookup, insert, lookup-insert, Bool-cases,
  inl, inr,
}
use clean_api.Base.Int.{ℤ, int_equality}
use clean_api.Protocol.Ir.{
  StreamEvent, text_delta, tool_call_start, tool_call_delta, tool_call_stop, done,
}
use clean_api.Protocol.OpenAi.Parser.Order.{IsInOrder}

-- The started calls after one event.
abbrev pub with_event : StreamEvent → List ℤ → List ℤ
with_event (tool_call_start i _ _) ts = i ∷ ts
with_event (text_delta _) ts = ts
with_event (tool_call_delta _ _) ts = ts
with_event (tool_call_stop _) ts = ts
with_event (done _ _) ts = ts

pub IsInOrder-tail :
    (ev : StreamEvent) (evs : List StreamEvent) (ts : List ℤ)
    → IsInOrder (ev ∷ evs) ts
    → IsInOrder evs (with_event ev ts)
IsInOrder-tail (text_delta t) evs ts o = o
IsInOrder-tail (tool_call_start i id name) evs ts o = o
IsInOrder-tail (tool_call_delta i args) evs ts (c, o) = o
IsInOrder-tail (tool_call_stop i) evs ts (c, o) = o
IsInOrder-tail (done reason u) evs ts o = o

module _ {A : Type 0} where
  -- Every tool call that has started is in the map.
  abbrev pub Ready : List ℤ → List (ℤ × A) → Type 0
  Ready ts m = (i : ℤ) → contains ts i ≡ true → (b : A) × (lookup i m ≡ some b)

  pub Ready-insert :
      (ts : List ℤ) (i : ℤ) (b : A) (m : List (ℤ × A)) → Ready ts m → Ready (i ∷ ts) (insert i b m)
  Ready-insert ts i b m h j c = elim (Bool-cases (i == j)) [
    | inl e ↦ (b, lookup-insert i j b m ∙ rw e refl)
    | inr e ↦ let (k, q) = h j (rw e at c) in (k, lookup-insert i j b m ∙ rw e q)
  ]
