-- ===== src/Protocol/Anthropic/Writer/Balance.antt =====
-- The content blocks of an Anthropic stream are numbered in order, and each is closed once.
use clean_api.Base.{
  ℕ, suc, ◌+◌, String, Bool, true, false, Option, none, some, List, [], ◌∷◌, ◌++◌, ◌≡◌, refl, ◌∙◌,
  arith, if◌then◌else◌, ◌==◌, nat_equality, ltb, contains, lookup,
}
use clean_api.Base.Int.{ℤ, int_equality}
use clean_api.Protocol.Ir.{
  StreamEvent, text_delta, tool_call_start, tool_call_delta, tool_call_stop, done,
}
use clean_api.Protocol.Anthropic.Writer.{
  Payload, message_start, text_block_start, tool_block_start, text_block_delta, input_json_delta,
  content_block_stop, Sink, Writer, Action, after, ◌>>◌, drop_block, unset, written, write, flush,
  message_start_if_needed, ensured, ensure_text_block, close_block, close_blocks, close_text,
  close_text_block, write_text, start_tool, tool_delta, stop_tool, handle,
}

abbrev is_done : StreamEvent → Bool
is_done (done r u) = true
is_done _ = false

abbrev pub one_if : Bool → ℕ
one_if true = 1
one_if false = 0

abbrev pub starts_of : ℕ → Payload → ℕ
starts_of k (text_block_start b) = one_if (b == k)
starts_of k (tool_block_start b id name) = one_if (b == k)
starts_of k _ = 0

abbrev pub stops_of : ℕ → Payload → ℕ
stops_of k (content_block_stop b) = one_if (b == k)
stops_of k _ = 0

-- How often the block `k` was started, and stopped.
abbrev pub starts : ℕ → List Payload → ℕ
starts k [] = 0
starts k (p ∷ ps) = starts_of k p + starts k ps

abbrev pub stops : ℕ → List Payload → ℕ
stops k [] = 0
stops k (p ∷ ps) = stops_of k p + stops k ps

abbrev pub occurrences : ℕ → List ℕ → ℕ
occurrences k [] = 0
occurrences k (b ∷ bs) = one_if (b == k) + occurrences k bs

-- Each block below the next number was started once; the open ones were not stopped.
pub record IsBalanced (s : Writer) : Type 0 where
  pub numbered : (k : ℕ) → starts k s.out ≡ one_if (ltb k s.block_seq)
  pub closed : (k : ℕ) → starts k s.out ≡ stops k s.out + occurrences k s.open_blocks
  pub live : s.finished ≡ false

-- What holds after an action that reports no error.
abbrev pub Ends : (Writer → Type 0) → Writer × Option String → Type 0
Ends P (s, none) = P s
Ends P (s, some e) = Unit

abbrev Post : Writer × Option String → Type 0
Post = Ends IsBalanced

abbrev pub Keeps : Action → Type 0
Keeps m = (s : Writer) → IsBalanced s → Post (m s)

if-Post :
    (b : Bool) (x y : Writer × Option String)
    → (b ≡ true → Post x)
    → Post y
    → Post (if b then x else y)
if-Post true x y f h = f refl
if-Post false x y f h = h

abbrev pub Takes : (Writer → Type 0) → (Writer → Type 0) → Action → Type 0
Takes P Q m = (s : Writer) → P s → Ends Q (m s)

pub after-Ends :
    (P Q : Writer → Type 0) (k : Action) (r : Writer × Option String)
    → Takes P Q k
    → Ends P r
    → Ends Q (after k r)
after-Ends P Q k (s, none) h p = h s p
after-Ends P Q k (s, some e) h p = tt

pub Takes->> :
    (P Q R : Writer → Type 0) (m k : Action) → Takes P Q m → Takes Q R k → Takes P R (m >> k)
Takes->> P Q R m k h j s p = after-Ends Q R k (m s) j (h s p)

Keeps->> : (m k : Action) → Keeps m → Keeps k → Keeps (m >> k)
Keeps->> m k h j = Takes->> IsBalanced IsBalanced IsBalanced m k h j

occurrences-append :
    (k b : ℕ) (bs : List ℕ) → occurrences k (bs ++ b ∷ []) ≡ one_if (b == k) + occurrences k bs
occurrences-append k b [] = refl
occurrences-append k b (c ∷ bs) = omega (arith, occurrences-append k b bs)

occurrences-drop_block :
    (k b : ℕ) (bs : List ℕ)
    → contains bs b ≡ true
    → occurrences k bs ≡ one_if (b == k) + occurrences k (drop_block b bs)
occurrences-drop_block k b [] h = cc
occurrences-drop_block k b (c ∷ bs) h = ground (arith, occurrences-drop_block k b bs)

abbrev stopped : ℕ → Writer → Writer
stopped b s = record s {
  open_blocks = drop_block b s.open_blocks;
  text_block = unset b s.text_block;
  out = content_block_stop b ∷ s.out;
}

pub stopped-IsBalanced :
    (b : ℕ) (s : Writer) → contains s.open_blocks b ≡ true → IsBalanced s → IsBalanced (stopped b s)
stopped-IsBalanced b s e h = record {
  numbered = λ k. omega (arith, h.numbered k);
  closed = λ k. omega (arith, h.closed k, occurrences-drop_block k b s.open_blocks e);
  live = h.live;
}

module _ (sink : Sink) where
  written-Post :
      (p : Payload) (s : Writer) (e : Option String)
      → IsBalanced (record s { out = p ∷ s.out })
      → Post (written sink p s e)
  written-Post p s none h = h
  written-Post p s (some e) h = tt

  -- A payload that neither starts nor stops a block.
  pub write-Keeps :
      (p : Payload) → ((k : ℕ) → (starts_of k p ≡ 0) × (stops_of k p ≡ 0)) → Keeps (write sink p)
  unfolding write
  write-Keeps p z s h = written-Post p s _ (record {
    numbered = λ k. omega (arith, z k, h.numbered k);
    closed = λ k. omega (arith, z k, h.closed k);
    live = h.live;
  })

  flush-Keeps : Keeps (flush sink)
  unfolding flush
  flush-Keeps s h = go (sink.flush_error s.out)
    where
      go : (e : Option String) → Post (s, e)
      go none = h
      go (some e) = tt

  -- A new block is started.
  start-Post :
      (p : Payload) (s t : Writer) (e : Option String)
      → IsBalanced s
      → ((k : ℕ) → (starts_of k p ≡ one_if (s.block_seq == k)) × (stops_of k p ≡ 0))
      → t.block_seq ≡ suc s.block_seq
      → t.open_blocks ≡ s.open_blocks ++ s.block_seq ∷ []
      → t.out ≡ s.out
      → t.finished ≡ s.finished
      → Post (written sink p t e)
  start-Post p s t e h z seq opens out fin = written-Post p t e (record {
    numbered = λ k. rw (seq, out) (ground (arith, z k, h.numbered k));
    closed = λ k.
        rw (opens, out)
          (omega (arith, z k, h.closed k, occurrences-append k s.block_seq s.open_blocks));
    live = fin ∙ h.live;
  })

  pub message_start_if_needed-Keeps : Keeps (message_start_if_needed sink)
  unfolding message_start_if_needed
  message_start_if_needed-Keeps s h =
      if-Post s.started _ _ (λ e. h)
        (write-Keeps (message_start s.id s.model) (λ k. (refl, refl)) _
          (record { numbered = h.numbered; closed = h.closed; live = h.live }))

  pub close_block-Keeps : (b : ℕ) → Keeps (close_block sink b)
  unfolding close_block write
  close_block-Keeps b s h =
      if-Post (contains s.open_blocks b) _ _
        (λ e. written-Post (content_block_stop b) _ _ (stopped-IsBalanced b s e h)) h

  ensured-Keeps : (b : Option ℕ) → Keeps (ensured sink b)
  unfolding write
  ensured-Keeps (some b) s h = h
  ensured-Keeps none s h =
      start-Post (text_block_start s.block_seq) s _ _ h (λ k. (refl, refl)) refl refl refl refl

  ensure_text_block-Keeps : Keeps (ensure_text_block sink)
  unfolding ensure_text_block
  ensure_text_block-Keeps s h = ensured-Keeps s.text_block s h

  close_text-Keeps : (b : Option ℕ) → Keeps (close_text sink b)
  close_text-Keeps none s h = h
  close_text-Keeps (some b) s h = close_block-Keeps b s h

  close_text_block-Keeps : Keeps (close_text_block sink)
  unfolding close_text_block
  close_text_block-Keeps s h = close_text-Keeps s.text_block s h

  start_tool-Keeps : (i : ℤ) (id name : String) → Keeps (start_tool sink i id name)
  unfolding start_tool write
  start_tool-Keeps i id name s h =
      start-Post (tool_block_start s.block_seq _ name) s _ _ h (λ k. (refl, refl)) refl refl refl
        refl

  write_text-Keeps : (t : String) (b : Option ℕ) → Keeps (write_text sink t b)
  write_text-Keeps t none s h = h
  write_text-Keeps t (some b) s h = write-Keeps (text_block_delta b t) (λ k. (refl, refl)) s h

  tool_delta-Keeps : (args : String) (b : Option ℕ) → Keeps (tool_delta sink args b)
  tool_delta-Keeps args none s h = tt
  tool_delta-Keeps args (some b) s h = write-Keeps (input_json_delta b args) (λ k. (refl, refl)) s h

  stop_tool-Keeps : (b : Option ℕ) → Keeps (stop_tool sink b)
  stop_tool-Keeps none s h = h
  stop_tool-Keeps (some b) s h =
      Keeps->> (close_block sink b) (flush sink) (close_block-Keeps b) flush-Keeps s h

  close_blocks-Keeps : (bs : List ℕ) → Keeps (close_blocks sink bs)
  unfolding close_blocks
  close_blocks-Keeps [] s h = h
  close_blocks-Keeps (b ∷ bs) s h =
      Keeps->> (close_block sink b) (close_blocks sink bs) (close_block-Keeps b)
        (close_blocks-Keeps bs) s h

  pub handle_open : (ev : StreamEvent) → is_done ev ≡ false → Keeps (handle sink ev)
  unfolding handle
  handle_open (text_delta t) d s h =
      Keeps->> _ (flush sink)
        (Keeps->> (ensure_text_block sink) _ ensure_text_block-Keeps
          (λ s h. write_text-Keeps t s.text_block s h))
        flush-Keeps s h
  handle_open (tool_call_start i id name) d s h =
      Keeps->> _ (flush sink)
        (Keeps->> (close_text_block sink) (start_tool sink i id name) close_text_block-Keeps
          (start_tool-Keeps i id name))
        flush-Keeps s h
  handle_open (tool_call_delta i args) d s h =
      Keeps->> _ (flush sink) (λ s h. tool_delta-Keeps args (lookup i s.tool_blocks) s h)
        flush-Keeps s h
  handle_open (tool_call_stop i) d s h = stop_tool-Keeps (lookup i s.tool_blocks) s h
  handle_open (done r u) d s h = cc
