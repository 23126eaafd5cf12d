-- ===== src/Protocol/Anthropic/Upstream/RoundTrip.antt =====
-- Messages that are sent to an Anthropic upstream, read as its API reads them.
use clean_api.Base.{
  String, false, some, List, [], ◌∷◌, ◌++◌, map, append-nil, append_assoc, ok, ◌>>=◌, ◌≡◌, ◌≢◌,
  refl, ap, sym, ◌∙◌, if_true, if_false, ◌==◌, string_equality, ==_refl, Bool-cases, inl, inr, ◌⊎◌,
  All,
}
use clean_api.Protocol.Ir.{ContentPart, text, image, ToolCall, Message}
use clean_api.Protocol.Fold.{without_system}
use clean_api.Protocol.Anthropic.Blocks.{
  listed, Block, image_source_from_data_url, image_to_data_url,
}
use clean_api.Protocol.Anthropic.Messages.{
  Gathered, add_part, message_of, add_block, add_blocks, attach, messages_of, nothing_yet,
  parse_message,
}
use clean_api.Protocol.Anthropic.Upstream.{
  part_block, collapse, input_text, call_block, content_out, messages_out,
}

-- An image that is read back as the URL it was.
abbrev pub IsKept : ContentPart → Type 0
IsKept (text t) = Unit
IsKept (image url) = image_to_data_url (some (image_source_from_data_url url)) ≡ ok url

part-add_block :
    (role : String) (p : ContentPart) (g : Gathered)
    → IsKept p
    → add_block role (part_block p) g ≡ ok (add_part g p)
unfolding add_block
part-add_block role (text t) g k = refl
part-add_block role (image url) g k = ap (λ r. r >>= (λ u. ok (add_part g (image u)))) k

parts-add_blocks :
    (role : String) (ps : List ContentPart) (bs : List Block) (g : Gathered)
    → All IsKept ps
    → add_blocks role (map part_block ps ++ bs) g
      ≡ add_blocks role bs (record g { parts = g.parts ++ ps })
unfolding add_blocks
parts-add_blocks role [] bs g k =
    ap (λ x. add_blocks role bs (record g { parts = x })) (sym (append-nil g.parts))
parts-add_blocks role (p ∷ ps) bs g (k, ks) =
    ap (λ r. r >>= add_blocks role (map part_block ps ++ bs)) (part-add_block role p g k)
    ∙ parts-add_blocks role ps bs (add_part g p) ks
    ∙ ap (λ x. add_blocks role bs (record g { parts = x })) (append_assoc g.parts (p ∷ []) ps)

module _ (object_text : String → String) where
  -- A tool call whose arguments are an object in the form that the JSON library writes.
  abbrev pub sent_call : ToolCall → ToolCall
  sent_call tc = record tc { arguments = input_text object_text tc.arguments }

  calls-add_blocks :
      (cs : List ToolCall) (g : Gathered)
      → add_blocks "assistant" (map (call_block object_text) cs) g
        ≡ ok (record g { calls = g.calls ++ map sent_call cs })
  unfolding add_blocks add_block
  calls-add_blocks [] g = ap (λ x. ok (record g { calls = x })) (sym (append-nil g.calls))
  calls-add_blocks (c ∷ cs) g =
      calls-add_blocks cs (record g { calls = g.calls ++ sent_call c ∷ [] })
      ∙ ap (λ x. ok (record g { calls = x }))
          (append_assoc g.calls (sent_call c ∷ []) (map sent_call cs))

  -- Only an assistant calls tools.
  abbrev pub MayCall : String → List ToolCall → Type 0
  MayCall role [] = Unit
  MayCall role (c ∷ cs) = role ≡ "assistant"

  sent-add_blocks :
      (role : String) (cs : List ToolCall) (g : Gathered)
      → MayCall role cs
      → add_blocks role (map (call_block object_text) cs) g
        ≡ ok (record g { calls = g.calls ++ map sent_call cs })
  unfolding add_blocks
  sent-add_blocks role [] g m = ap (λ x. ok (record g { calls = x })) (sym (append-nil g.calls))
  sent-add_blocks role (c ∷ cs) g m =
      ap (λ r. add_blocks r (map (call_block object_text) (c ∷ cs)) g) m
      ∙ calls-add_blocks (c ∷ cs) g

  collapse-parse_message :
      (role : String) (b : Block) (bs : List Block)
      → parse_message role (collapse (b ∷ bs)) ≡ parse_message role (listed (b ∷ bs))
  unfolding parse_message add_blocks add_block messages_of
  collapse-parse_message role b [] = elim (Bool-cases (b.type == "text")) [
    | inl e ↦ rw e refl
    | inr e ↦ ap (parse_message role) (if_false (b.type == "text") _ _ e)
  ]
  collapse-parse_message role b (c ∷ bs) = refl

  -- One message holds the parts and the calls, if there is one of either.
  messages_of-one :
      (role : String) (ps : List ContentPart) (cs : List ToolCall)
      → ((ps ≢ []) ⊎ (cs ≢ []))
      → messages_of role (record { out = []; parts = ps; calls = cs }) ≡ message_of role ps cs ∷ []
  unfolding messages_of attach
  messages_of-one role [] [] (inl h) = absurd (h refl)
  messages_of-one role [] [] (inr h) = absurd (h refl)
  messages_of-one role [] (c ∷ cs) h = refl
  messages_of-one role (p ∷ ps) [] h = refl
  messages_of-one role (p ∷ ps) (c ∷ cs) h = if_true (role == role) _ _ (==_refl role)

  listed-parse_message :
      (role : String) (ps : List ContentPart) (cs : List ToolCall)
      → All IsKept ps
      → MayCall role cs
      → parse_message role (listed (map part_block ps ++ map (call_block object_text) cs))
        ≡ ok (messages_of role (record { out = []; parts = ps; calls = map sent_call cs }))
  unfolding parse_message
  listed-parse_message role ps cs ks mc =
      ap (λ r. r >>= (λ g. ok (messages_of role g)))
        (parts-add_blocks role ps (map (call_block object_text) cs) nothing_yet ks
          ∙ sent-add_blocks role cs (record nothing_yet { parts = ps }) mc)

  sent-parse_message :
      (role : String) (ps : List ContentPart) (cs : List ToolCall)
      → ((ps ≢ []) ⊎ (cs ≢ []))
      → All IsKept ps
      → MayCall role cs
      → parse_message role (collapse (map part_block ps ++ map (call_block object_text) cs))
        ≡ ok (message_of role ps (map sent_call cs) ∷ [])
  sent-parse_message role [] [] (inl h) ks mc = absurd (h refl)
  sent-parse_message role [] [] (inr h) ks mc = absurd (h refl)
  sent-parse_message role [] (c ∷ cs) h ks mc =
      collapse-parse_message role (call_block object_text c) (map (call_block object_text) cs)
      ∙ listed-parse_message role [] (c ∷ cs) ks mc
      ∙ ap ok (messages_of-one role [] (map sent_call (c ∷ cs)) (inr (λ e. cc)))
  sent-parse_message role (p ∷ ps) cs h ks mc =
      collapse-parse_message role (part_block p)
        (map part_block ps ++ map (call_block object_text) cs)
      ∙ listed-parse_message role (p ∷ ps) cs ks mc
      ∙ ap ok (messages_of-one role (p ∷ ps) (map sent_call cs) (inl (λ e. cc)))

  -- A message that has content or tool calls, is not a tool's answer, calls tools only as an
  -- assistant and has image URLs that are read back as they were, is one message again after it was
  -- sent, with the same role, parts and calls, and the arguments of the calls as objects.
  pub parse_message-content_out :
      (m : Message)
      → (m.role == "tool") ≡ false
      → ((m.content ≢ []) ⊎ (m.tool_calls ≢ []))
      → All IsKept m.content
      → MayCall m.role m.tool_calls
      → parse_message m.role (content_out object_text m)
        ≡ ok (message_of m.role m.content (map sent_call m.tool_calls) ∷ [])
  unfolding content_out
  parse_message-content_out m t h ks mc =
      ap (parse_message m.role) (if_false (m.role == "tool") _ _ t)
      ∙ sent-parse_message m.role m.content m.tool_calls h ks mc

  -- The messages go out with their own roles, only the system messages are taken out: the answer
  -- of a tool is sent as a message of the role "tool".
  pub messages_out-without_system :
      (ms : List Message)
      → map (λ p. p.0) (messages_out object_text ms) ≡ map (λ m. m.role) (without_system ms)
  unfolding messages_out
  messages_out-without_system [] = refl
  messages_out-without_system (m ∷ ms) = elim (Bool-cases (m.role == "system")) [
    | inl e ↦ rw e (messages_out-without_system ms)
    | inr e ↦ rw e (ap (λ rs. m.role ∷ rs) (messages_out-without_system ms))
  ]
