-- ===== src/Protocol/Anthropic/Messages/Passes.antt =====
-- The loop over the blocks of a message, against three separate passes over them.
use clean_api.Base.{
  String, true, List, [], ◌∷◌, ◌++◌, append-nil, append_assoc, Result, ok, err, ◌>>=◌, >>=-eq-ok,
  ok_injective, ◌≡◌, refl, ap, sym, ◌∙◌, if◌then◌else◌, if-holds, if_true, if_false, ◌==◌,
  string_equality, Bool-cases, inl, inr, ◌⊎◌, All, ==_refl, eq_iff, false,
}
use clean_api.Protocol.Ir.{ContentPart, text, image, ToolCall, Message}
use clean_api.Protocol.Anthropic.Blocks.{listed, Block, image_to_data_url}
use clean_api.Protocol.Anthropic.Messages.{
  Gathered, add_part, call_of, result_of, add_block, add_blocks, messages_of, nothing_yet,
  parse_message, attach, message_of,
}

abbrev url_or_empty : Result String String → String
url_or_empty (ok url) = url
url_or_empty (err e) = ""

-- What a block of the type `t` adds.
abbrev part_at : String → Block → List ContentPart
part_at t b =
    if t == "text"
    then text b.text ∷ []
    else if t == "image"
    then image (url_or_empty (image_to_data_url b.source)) ∷ []
    else []

abbrev call_at : String → String → Block → List ToolCall
call_at t role b =
    if t == "tool_use" then (if role == "assistant" then call_of b ∷ [] else []) else []

abbrev result_at : String → Block → List Message
result_at t b = if t == "tool_result" then result_of b ∷ [] else []

-- The texts and images, the tool calls of an assistant, and the tool results, each in their order.
abbrev pub parts_of : List Block → List ContentPart
parts_of [] = []
parts_of (b ∷ bs) = part_at b.type b ++ parts_of bs

abbrev pub calls_of : String → List Block → List ToolCall
calls_of role [] = []
calls_of role (b ∷ bs) = call_at b.type role b ++ calls_of role bs

abbrev pub results_of : List Block → List Message
results_of [] = []
results_of (b ∷ bs) = result_at b.type b ++ results_of bs

abbrev gathered : List Message → List ContentPart → List ToolCall → Gathered
gathered o p c = record { out = o; parts = p; calls = c }

gathered-eq :
    {o o' : List Message} {p p' : List ContentPart} {c c' : List ToolCall}
    → o ≡ o'
    → p ≡ p'
    → c ≡ c'
    → gathered o p c ≡ gathered o' p' c'
gathered-eq {o} {o'} {p} {p'} {c} {c'} e f g =
    ap (λ x. gathered x p c) e ∙ ap (λ x. gathered o' x c) f ∙ ap (λ x. gathered o' p' x) g

abbrev added : String → String → Block → Gathered → Gathered
added t role b g =
    gathered (g.out ++ result_at t b) (g.parts ++ part_at t b) (g.calls ++ call_at t role b)

-- If the step succeeds, it adds what the passes find at the block.
abbrev Adds : Gathered → Result String Gathered → Type 0
Adds want r = (g : Gathered) → r ≡ ok g → g ≡ want

ok-Adds : (want got : Gathered) → got ≡ want → Adds want (ok got)
ok-Adds want got e g h = sym (ok_injective got g h) ∙ e

image-Adds :
    (b : Block) (g : Gathered) (role : String) (r : Result String String)
    → image_to_data_url b.source ≡ r
    → Adds (added "image" role b g) (r >>= (λ url. ok (add_part g (image url))))
image-Adds b g role (err x) e h k = cc
image-Adds b g role (ok url) e x k =
    ok-Adds (added "image" role b g) (add_part g (image url))
      (gathered-eq (sym (append-nil g.out))
        (ap (λ r. g.parts ++ image (url_or_empty r) ∷ []) (sym e)) (sym (append-nil g.calls)))
      x k

tool_use-Adds :
    (role : String) (b : Block) (g : Gathered)
    → (if role == "assistant" then record g { calls = g.calls ++ call_of b ∷ [] } else g)
      ≡ added "tool_use" role b g
tool_use-Adds role b g = elim (Bool-cases (role == "assistant")) [
  | inl a ↦
      if_true (role == "assistant") _ g a
      ∙ gathered-eq (sym (append-nil g.out)) (sym (append-nil g.parts))
          (ap (λ x. g.calls ++ x) (sym (if_true (role == "assistant") (call_of b ∷ []) [] a)))
  | inr a ↦
      if_false (role == "assistant") _ g a
      ∙ gathered-eq (sym (append-nil g.out)) (sym (append-nil g.parts)) (
          sym (append-nil g.calls)
          ∙ ap (λ x. g.calls ++ x) (sym (if_false (role == "assistant") (call_of b ∷ []) [] a)))
]

-- The block's type, once a test has told it.
abbrev Typed : String → Block → Gathered → Result String Gathered → Type 0
Typed role b g r = Adds (added b.type role b g) r

Typed-Adds :
    (role : String) (b : Block) (g : Gathered) (t : String) (r : Result String Gathered)
    → (b.type == t) ≡ true
    → Adds (added t role b g) r
    → Typed role b g r
Typed-Adds role b g t r e h x k =
    h x k ∙ ap (λ t. added t role b g) (sym ((string_equality.equal_iff b.type t).0 e))

add_block-Adds : (role : String) (b : Block) (g : Gathered) → Typed role b g (add_block role b g)
unfolding add_block
add_block-Adds role b g =
    let P = Typed role b g in
    if-holds P (b.type == "text") _ _
      (λ e. Typed-Adds role b g "text" _ e (
        ok-Adds (added "text" role b g) (add_part g (text b.text))
          (gathered-eq (sym (append-nil g.out)) refl (sym (append-nil g.calls)))))
      (λ e.
        if-holds P (b.type == "image") _ _
          (λ e.
            Typed-Adds role b g "image" _ e (image-Adds b g role (image_to_data_url b.source) refl))
          (λ e.
            if-holds P (b.type == "tool_use") _ _
              (λ e.
                Typed-Adds role b g "tool_use" _ e
                  (ok-Adds (added "tool_use" role b g) _ (tool_use-Adds role b g)))
              (λ e.
                if-holds P (b.type == "tool_result") _ _
                  (λ e. Typed-Adds role b g "tool_result" _ e (
                    ok-Adds (added "tool_result" role b g) _
                      (gathered-eq refl (sym (append-nil g.parts)) (sym (append-nil g.calls)))))
                  (λ e x k. cc k))))

abbrev all_added : String → List Block → Gathered → Gathered
all_added role bs g =
    gathered (g.out ++ results_of bs) (g.parts ++ parts_of bs) (g.calls ++ calls_of role bs)

all_added-cons :
    (role : String) (b : Block) (bs : List Block) (g : Gathered)
    → all_added role bs (added b.type role b g) ≡ all_added role (b ∷ bs) g
all_added-cons role b bs g =
    gathered-eq (append_assoc g.out (result_at b.type b) (results_of bs))
      (append_assoc g.parts (part_at b.type b) (parts_of bs))
      (append_assoc g.calls (call_at b.type role b) (calls_of role bs))

add_blocks-Adds :
    (role : String) (bs : List Block) (g : Gathered)
    → Adds (all_added role bs g) (add_blocks role bs g)
unfolding add_blocks
add_blocks-Adds role [] g x k =
    ok-Adds (all_added role [] g) g
      (gathered-eq (sym (append-nil g.out)) (sym (append-nil g.parts)) (sym (append-nil g.calls))) x
      k
add_blocks-Adds role (b ∷ bs) g x k =
    let (mid, first, rest) = >>=-eq-ok (add_block role b g) (add_blocks role bs) k in
    add_blocks-Adds role bs mid x rest
    ∙ ap (all_added role bs) (add_block-Adds role b g mid first)
    ∙ all_added-cons role b bs g

-- The message of the texts, the images and the calls; there is none if there is nothing in it.
abbrev pub own_message : String → List ContentPart → List ToolCall → List Message
own_message role [] [] = []
own_message role (p ∷ ps) calls = message_of role (p ∷ ps) calls ∷ []
own_message role [] (c ∷ cs) = message_of role [] (c ∷ cs) ∷ []

attach-last :
    (role : String) (calls : List ToolCall) (ps : List ContentPart) (out : List Message)
    → attach role calls (out ++ message_of role ps [] ∷ []) ≡ out ++ message_of role ps calls ∷ []
unfolding attach
attach-last role calls ps [] = if_true (role == role) _ _ (==_refl role)
attach-last role calls ps (m ∷ []) = ap (λ ms. m ∷ ms) (if_true (role == role) _ _ (==_refl role))
attach-last role calls ps (m ∷ n ∷ out) = ap (λ ms. m ∷ ms) (attach-last role calls ps (n ∷ out))

attach-end :
    (role : String) (calls : List ToolCall) (out : List Message)
    → All (λ m. (m.role == role) ≡ false) out
    → attach role calls out ≡ out ++ message_of role [] calls ∷ []
unfolding attach
attach-end role calls [] h = refl
attach-end role calls (m ∷ []) (e, h) = if_false (m.role == role) _ _ e
attach-end role calls (m ∷ n ∷ out) (e, h) = ap (λ ms. m ∷ ms) (attach-end role calls (n ∷ out) h)

-- Where a message of calls alone cannot be taken for one of the results.
messages_of-own_message :
    (role : String) (out : List Message) (parts : List ContentPart) (calls : List ToolCall)
    → (calls ≡ []) ⊎ All (λ m. (m.role == role) ≡ false) out
    → messages_of role (gathered out parts calls) ≡ out ++ own_message role parts calls
unfolding messages_of
messages_of-own_message role out [] [] h = sym (append-nil out)
messages_of-own_message role out (p ∷ ps) [] h = refl
messages_of-own_message role out [] (c ∷ cs) (inl e) = absurd cc
messages_of-own_message role out [] (c ∷ cs) (inr h) = attach-end role (c ∷ cs) out h
messages_of-own_message role out (p ∷ ps) (c ∷ cs) h = attach-last role (c ∷ cs) (p ∷ ps) out

calls_of-user :
    (role : String) (bs : List Block) → (role == "assistant") ≡ false → calls_of role bs ≡ []
calls_of-user role [] e = refl
calls_of-user role (b ∷ bs) e =
    ap (λ cs. (if b.type == "tool_use" then cs else []) ++ calls_of role bs)
      (if_false (role == "assistant") (call_of b ∷ []) [] e)
    ∙ if-holds (λ (cs : List ToolCall). cs ++ calls_of role bs ≡ []) (b.type == "tool_use") [] []
        (λ x. calls_of-user role bs e) (λ x. calls_of-user role bs e)

results_of-assistant :
    (role : String) (bs : List Block)
    → (role == "assistant") ≡ true
    → All (λ m. (m.role == role) ≡ false) (results_of bs)
results_of-assistant role [] e = tt
results_of-assistant role (b ∷ bs) e =
    if-holds (λ (ms : List Message). All (λ m. (m.role == role) ≡ false) (ms ++ results_of bs))
      (b.type == "tool_result") (result_of b ∷ []) []
      (λ x. (ap (λ r. "tool" == r) ((eq_iff role "assistant").0 e), results_of-assistant role bs e))
      (λ x. results_of-assistant role bs e)

calls_or_results :
    (role : String) (bs : List Block)
    → (calls_of role bs ≡ []) ⊎ All (λ m. (m.role == role) ≡ false) (results_of bs)
calls_or_results role bs = elim (Bool-cases (role == "assistant")) [
  | inl e ↦ inr (results_of-assistant role bs e)
  | inr e ↦ inl (calls_of-user role bs e)
]

-- A content of blocks that parseAnthropicMessage accepts gives: the results of tools, in their order,
-- each as a message of its own; then, if there are any, one message of the given role with all texts and
-- images in their order and all tool calls in theirs. Only an assistant has tool calls.
pub parse_message-passes :
    (role : String) (bs : List Block) (ms : List Message)
    → parse_message role (listed bs) ≡ ok ms
    → ms ≡ results_of bs ++ own_message role (parts_of bs) (calls_of role bs)
unfolding parse_message
parse_message-passes role bs ms k =
    let (g, run, made) =
      >>=-eq-ok (add_blocks role bs nothing_yet) (λ g. ok (messages_of role g)) k in
    sym (ok_injective (messages_of role g) ms made)
    ∙ ap (messages_of role) (add_blocks-Adds role bs nothing_yet g run)
    ∙ messages_of-own_message role (results_of bs) (parts_of bs) (calls_of role bs)
        (calls_or_results role bs)
