-- ===== src/Protocol/Anthropic/Writer/Closing.antt =====
-- A stream that was finished without an error has no open content block.
use clean_api.Base.{
  ℕ, String, Bool, true, false, Option, none, some, List, [], ◌∷◌, ◌≡◌, refl, ap, ◌∙◌, arith, ltb,
  if◌then◌else◌, nat_equality, ==_refl, contains, ◌⊎◌, inl, inr,
}
use clean_api.Protocol.Ir.{
  StreamEvent, text_delta, tool_call_start, tool_call_delta, tool_call_stop, done, Usage,
}
use clean_api.Protocol.Anthropic.Writer.{
  Payload, message_delta, message_stop, content_block_stop, Sink, Writer, new_writer, ◌>>◌,
  drop_block, written, write, flush, message_start_if_needed, close_block, close_blocks,
  close_all_open, set_finished, finish_message, handle, write_event, finish, write_events,
}
use clean_api.Protocol.Anthropic.Writer.Balance.{
  one_if, starts, stops, occurrences, IsBalanced, Ends, Takes, Takes->>, handle_open,
  message_start_if_needed-Keeps, starts_of, stops_of, stopped-IsBalanced,
}

-- Every block below the next number was started once and stopped once, and no other block was.
pub record IsClosed (s : Writer) : Type 0 where
  pub numbered : (k : ℕ) → starts k s.out ≡ one_if (ltb k s.block_seq)
  pub matched : (k : ℕ) → starts k s.out ≡ stops k s.out
  pub over : s.finished ≡ true

-- Balanced, with the open blocks known.
record Opens (bs : List ℕ) (s : Writer) : Type 0 where
  balanced : IsBalanced s
  blocks : s.open_blocks ≡ bs

module _ (P : Writer → Type 0) where
  if-Ends :
      (b : Bool) (x y : Writer × Option String) → b ≡ true → Ends P x → Ends P (if b then x else y)
  if-Ends true x y e h = h
  if-Ends false x y e h = cc

  unless-Ends :
      (b : Bool) (x y : Writer × Option String) → b ≡ false → Ends P y → Ends P (if b then x else y)
  unless-Ends true x y e h = cc
  unless-Ends false x y e h = h

module _ (sink : Sink) where
  written-Ends :
      (P : Writer → Type 0) (p : Payload) (s : Writer) (e : Option String)
      → P (record s { out = p ∷ s.out })
      → Ends P (written sink p s e)
  written-Ends P p s none h = h
  written-Ends P p s (some e) h = tt

  flush-Ends : (P : Writer → Type 0) → Takes P P (flush sink)
  unfolding flush
  flush-Ends P s h = go (sink.flush_error s.out)
    where
      go : (e : Option String) → Ends P (s, e)
      go none = h
      go (some e) = tt

  -- Closing the first open block.
  close_first : (b : ℕ) (bs : List ℕ) → Takes (Opens (b ∷ bs)) (Opens bs) (close_block sink b)
  unfolding close_block write
  close_first b bs s h =
      let here : contains s.open_blocks b ≡ true =
        ap (λ l. contains l b) h.blocks ∙ rw (==_refl b) refl in
      let rest : drop_block b s.open_blocks ≡ bs =
        ap (drop_block b) h.blocks ∙ rw (==_refl b) refl in
      if-Ends (Opens bs) (contains s.open_blocks b) _ _ here (
        written-Ends (Opens bs) (content_block_stop b) _ _
          (record { balanced = stopped-IsBalanced b s here h.balanced; blocks = rest }))

  close_blocks-Opens : (bs : List ℕ) → Takes (Opens bs) (Opens []) (close_blocks sink bs)
  unfolding close_blocks
  close_blocks-Opens [] s h = h
  close_blocks-Opens (b ∷ bs) s h =
      Takes->> (Opens (b ∷ bs)) (Opens bs) (Opens []) (close_block sink b) (close_blocks sink bs)
        (close_first b bs) (close_blocks-Opens bs) s h

  -- A payload that neither starts nor stops a block leaves the writer as it is.
  write-Opens :
      (p : Payload)
      → ((k : ℕ) → (starts_of k p ≡ 0) × (stops_of k p ≡ 0))
      → Takes (Opens []) (Opens []) (write sink p)
  unfolding write
  write-Opens p z s h = written-Ends (Opens []) p s _ (record {
    balanced = record {
      numbered = λ k. omega (arith, z k, h.balanced.numbered k);
      closed = λ k. omega (arith, z k, h.balanced.closed k);
      live = h.balanced.live;
    };
    blocks = h.blocks;
  })

  Opens-IsClosed : Takes (Opens []) IsClosed (set_finished sink)
  Opens-IsClosed s h = record {
    numbered = h.balanced.numbered;
    matched = λ k. omega (arith, h.balanced.closed k, ap (occurrences k) h.blocks);
    over = refl;
  }

  finish_message-IsClosed :
      (r : String) (u : Option Usage) → Takes IsBalanced IsClosed (finish_message sink r u)
  unfolding finish_message
  finish_message-IsClosed r u =
      Takes->> IsBalanced IsClosed IsClosed _ (flush sink)
        (Takes->> IsBalanced (Opens []) IsClosed _ (set_finished sink)
          (Takes->> IsBalanced (Opens []) (Opens []) _ (write sink message_stop)
            (Takes->> IsBalanced (Opens []) (Opens []) _ (write sink (message_delta _ _ _))
              (Takes->> IsBalanced IsBalanced (Opens []) _ (close_all_open sink)
                (message_start_if_needed-Keeps sink)
                (λ s h.
                  close_blocks-Opens s.open_blocks s (record { balanced = h; blocks = refl })))
              (write-Opens (message_delta _ _ _) (λ k. (refl, refl))))
            (write-Opens message_stop (λ k. (refl, refl))))
          Opens-IsClosed)
        (flush-Ends IsClosed)

  -- Between two events the stream is open and balanced, or over and closed.
  abbrev IsOrderly : Writer → Type 0
  IsOrderly s = IsBalanced s ⊎ IsClosed s

  weaken-left : (r : Writer × Option String) → Ends IsBalanced r → Ends IsOrderly r
  weaken-left (s, none) h = inl h
  weaken-left (s, some e) h = tt

  weaken-right : (r : Writer × Option String) → Ends IsClosed r → Ends IsOrderly r
  weaken-right (s, none) h = inr h
  weaken-right (s, some e) h = tt

  handle-IsOrderly : (ev : StreamEvent) → Takes IsBalanced IsOrderly (handle sink ev)
  unfolding handle
  handle-IsOrderly (done r u) s h = weaken-right _ (finish_message-IsClosed r u s h)
  handle-IsOrderly (text_delta t) s h = weaken-left _ (handle_open sink (text_delta t) refl s h)
  handle-IsOrderly (tool_call_start i id name) s h =
      weaken-left _ (handle_open sink (tool_call_start i id name) refl s h)
  handle-IsOrderly (tool_call_delta i args) s h =
      weaken-left _ (handle_open sink (tool_call_delta i args) refl s h)
  handle-IsOrderly (tool_call_stop i) s h =
      weaken-left _ (handle_open sink (tool_call_stop i) refl s h)

  write_event-IsOrderly : (ev : StreamEvent) → Takes IsOrderly IsOrderly (write_event sink ev)
  unfolding write_event
  write_event-IsOrderly ev s (inl h) = unless-Ends IsOrderly s.finished _ _ h.live (
      Takes->> IsBalanced IsBalanced IsOrderly (message_start_if_needed sink) (handle sink ev)
        (message_start_if_needed-Keeps sink) (handle-IsOrderly ev) s h)
  write_event-IsOrderly ev s (inr h) = if-Ends IsOrderly s.finished _ _ h.over (inr h)

  write_events-IsOrderly :
      (evs : List StreamEvent) → Takes IsOrderly IsOrderly (write_events sink evs)
  unfolding write_events
  write_events-IsOrderly [] s h = h
  write_events-IsOrderly (ev ∷ evs) s h =
      Takes->> IsOrderly IsOrderly IsOrderly (write_event sink ev) (write_events sink evs)
        (write_event-IsOrderly ev) (write_events-IsOrderly evs) s h

  finish-IsClosed : Takes IsOrderly IsClosed (finish sink)
  unfolding finish
  finish-IsClosed s (inl h) =
      unless-Ends IsClosed s.finished _ _ h.live (finish_message-IsClosed "" none s h)
  finish-IsClosed s (inr h) = if-Ends IsClosed s.finished _ _ h.over h

new_writer-IsBalanced : (id model : String) → IsBalanced (new_writer id model)
unfolding new_writer
new_writer-IsBalanced id model = record {
  numbered = λ k. ground arith;
  closed = λ k. omega arith;
  live = refl;
}

Ends-of_ok : (P : Writer → Type 0) (r : Writer × Option String) → Ends P r → r.1 ≡ none → P r.0
Ends-of_ok P (s, none) h e = h
Ends-of_ok P (s, some x) h e = cc

-- A stream that is written and finished without an error, whatever its events, is closed: the
-- blocks are numbered from 0 without a gap, each is started once and stopped once.
pub finish-write_events-IsClosed :
    (sink : Sink) (evs : List StreamEvent) (id model : String)
    → ((write_events sink evs >> finish sink) (new_writer id model)).1 ≡ none
    → IsClosed ((write_events sink evs >> finish sink) (new_writer id model)).0
finish-write_events-IsClosed sink evs id model e =
    Ends-of_ok IsClosed _
      (Takes->> (IsOrderly sink) (IsOrderly sink) IsClosed (write_events sink evs) (finish sink)
        (write_events-IsOrderly sink evs) (finish-IsClosed sink) (new_writer id model)
        (inl (new_writer-IsBalanced id model)))
      e
