-- ===== src/Protocol/Fold/Laws.antt =====
-- What FoldSystemIntoUser does to the messages of one request.
use clean_api.Base.{
  String, false, List, [], ◌∷◌, ◌++◌, Option, none, some, map, filter, not, ◌≡◌, refl, ap, sym, ◌∙◌,
  ◌==◌, string_equality, All, Bool-cases, if_true, if_false, if-holds, inl, ℕ, suc, ◌<◌, arith, eqb,
  ◌&&◌, some_injective, inr, eq_iff, filter-append,
}
use mathlib.Core.Option
use mathlib.Core.Path.{subst, ap₂}
use clean_api.Base.Text.{◌+++◌, join}
use clean_api.Protocol.Ir.{Message, ContentPart, text, image}
use clean_api.Protocol.Fold.{
  Slot, slots, messages_of, next_cell, after_write, is_one_text, kept_slots, is_role, texts,
  system_texts, prefix_content, write_user, fold_texts, folded_to, fold_system_into_user,
}

-- All parts of a conversation, in order.
abbrev pub parts_of : List Message → List ContentPart
parts_of [] = []
parts_of (m ∷ ms) = m.content ++ parts_of ms

abbrev pub text_of : ContentPart → String
text_of (text t) = t
text_of (image url) = ""

-- The texts of all system messages that are not empty, in order.
abbrev pub instructions : List Message → List String
instructions ms =
    filter (λ t. not (t == "")) (map text_of (parts_of (filter (λ m. m.role == "system") ms)))

-- The conversation without its system messages.
abbrev pub others : List Message → List Message
others ms = filter (λ m. not (m.role == "system")) ms

-- A content and what it is with a text in front of it: in the same part, after an empty line, if it is
-- one text, and in a part of its own otherwise, with all of its parts behind.
pub data IsPrefixed (p : String) : List ContentPart → List ContentPart → Type 0 where
  empty : IsPrefixed p [] (text p ∷ [])
  one_text : (t : String) → IsPrefixed p (text t ∷ []) (text (p +++ "\n\n" +++ t) ∷ [])
  one_image : (url : String) → IsPrefixed p (image url ∷ []) (text p ∷ image url ∷ [])
  several :
      (c d : ContentPart) (cs : List ContentPart) → IsPrefixed p (c ∷ d ∷ cs) (text p ∷ c ∷ d ∷ cs)

-- A conversation and what it is folded to: itself if there is no instruction or no user, and otherwise
-- the messages that are no system messages, the first user's with all instructions in front of it.
pub data IsFolding (ms : List Message) : List Message → Type 0 where
  uninstructed : instructions ms ≡ [] → IsFolding ms ms
  without_user : All (λ m. (m.role == "user") ≡ false) ms → IsFolding ms ms
  told :
      (first : String) (rest : List String) (before : List Message) (user : Message)
      (after : List Message) (content : List ContentPart)
      → instructions ms ≡ first ∷ rest
      → ms ≡ before ++ user ∷ after
      → All (λ m. (m.role == "user") ≡ false) before
      → user.role ≡ "user"
      → IsPrefixed (join (first ∷ rest) "\n\n") user.content content
      → IsFolding ms (others before ++ record user { content = content } ∷ others after)

abbrev written_texts : List ContentPart → List String
written_texts ps = filter (λ t. not (t == "")) (map text_of ps)

texts-append : (ps qs : List ContentPart) → texts ps ++ written_texts qs ≡ written_texts (ps ++ qs)
texts-append [] qs = refl
texts-append (image url ∷ ps) qs = texts-append ps qs
texts-append (text t ∷ ps) qs = elim (Bool-cases (t == "")) [
  | inl e ↦ rw e (texts-append ps qs)
  | inr e ↦ rw e (ap (λ ts. t ∷ ts) (texts-append ps qs))
]

system_texts-instructions :
    (n : ℕ) (ms : List Message) → system_texts (slots n ms) ≡ instructions ms
unfolding system_texts
system_texts-instructions n [] = refl
system_texts-instructions n (m ∷ ms) = elim (Bool-cases (m.role == "system")) [
  | inl e ↦ rw e (
      ap (λ ts. texts m.content ++ ts) (system_texts-instructions (suc n) ms)
      ∙ texts-append m.content (parts_of (filter (λ m. m.role == "system") ms)))
  | inr e ↦ rw e (system_texts-instructions (suc n) ms)
]

prefix_content-IsPrefixed :
    (p : String) (cs : List ContentPart) → IsPrefixed p cs (prefix_content p cs)
unfolding prefix_content
prefix_content-IsPrefixed p [] = empty
prefix_content-IsPrefixed p (text t ∷ []) = one_text t
prefix_content-IsPrefixed p (image url ∷ []) = one_image url
prefix_content-IsPrefixed p (text t ∷ d ∷ cs) = several (text t) d cs
prefix_content-IsPrefixed p (image url ∷ d ∷ cs) = several (image url) d cs

-- The array before and after the write to its first user message.
data IsWritten (p : String) : List Message → Option (List Message) → Type 0 where
  absent : {ms : List Message} → All (λ m. (m.role == "user") ≡ false) ms → IsWritten p ms none
  present :
      (before : List Message) (user : Message) (after : List Message) (content : List ContentPart)
      → All (λ m. (m.role == "user") ≡ false) before
      → user.role ≡ "user"
      → IsPrefixed p user.content content
      → IsWritten p
          (before ++ user ∷ after)
          (some (before ++ record user { content = content } ∷ after))

IsWritten-cons :
    (p : String) (m : Message) {ms : List Message} {o : Option (List Message)}
    → (m.role == "user") ≡ false
    → IsWritten p ms o
    → IsWritten p (m ∷ ms) (Option.map (λ rest. m ∷ rest) o)
IsWritten-cons p m e (absent h) = absent (e, h)
IsWritten-cons p m e (present before user after content h r c) =
    present (m ∷ before) user after content (e, h) r c

messages_of-slots : (n : ℕ) (ms : List Message) → messages_of (slots n ms) ≡ ms
messages_of-slots n [] = refl
messages_of-slots n (m ∷ ms) = ap (λ xs. m ∷ xs) (messages_of-slots (suc n) ms)

-- The write does not show at the places behind, since no content is shared.
messages_of-after_write :
    (p : String) (user : Slot) (n : ℕ) (ms : List Message)
    → user.cell < n
    → messages_of (map (after_write p user) (slots n ms)) ≡ ms
messages_of-after_write p user n [] h = refl
messages_of-after_write p user n (m ∷ ms) h =
    ap₂ (λ (x : Slot) xs. x.message ∷ xs)
      (if_false (is_one_text user.message.content && eqb n user.cell) _
        (record { message = m; cell = n }) (ground arith))
      (messages_of-after_write p user (suc n) ms (omega (arith, h)))

map-messages_of :
    (m : Slot) (o : Option (List Slot))
    → Option.map (λ rest. m.message ∷ rest) (Option.map messages_of o)
      ≡ Option.map messages_of (Option.map (λ rest. m ∷ rest) o)
map-messages_of m none = refl
map-messages_of m (some r) = refl

write_user-IsWritten :
    (p : String) (fresh n : ℕ) (ms : List Message)
    → IsWritten p ms (Option.map messages_of (write_user p fresh (slots n ms)))
unfolding write_user
write_user-IsWritten p fresh n [] = absent tt
write_user-IsWritten p fresh n (m ∷ ms) =
    if-holds (λ o. IsWritten p (m ∷ ms) (Option.map messages_of o)) (m.role == "user") _ _
      (λ e.
        subst
          (λ rest.
            IsWritten p (m ∷ ms) (some (record m { content = prefix_content p m.content } ∷ rest)))
          (sym
            (messages_of-after_write p (record { message = m; cell = n }) (suc n) ms (omega arith)))
          (present [] m ms (prefix_content p m.content) tt ((eq_iff m.role "user").0 e)
            (prefix_content-IsPrefixed p m.content)))
      (λ e.
        subst (IsWritten p (m ∷ ms))
          (map-messages_of (record { message = m; cell = n })
            (write_user p fresh (slots (suc n) ms)))
          (IsWritten-cons p m e (write_user-IsWritten p fresh (suc n) ms)))

messages_of-kept_slots : (ms : List Slot) → messages_of (kept_slots ms) ≡ others (messages_of ms)
messages_of-kept_slots [] = refl
messages_of-kept_slots (m ∷ ms) = elim (Bool-cases (is_role "system" m)) [
  | inl e ↦ rw e (messages_of-kept_slots ms)
  | inr e ↦ rw e (ap (λ xs. m.message ∷ xs) (messages_of-kept_slots ms))
]

others-user :
    (before : List Message) (user : Message) (after : List Message)
    → user.role ≡ "user"
    → others (before ++ user ∷ after) ≡ others before ++ user ∷ others after
others-user before user after e =
    filter-append (λ m. not (m.role == "system")) before (user ∷ after)
    ∙ ap (λ ms. others before ++ ms)
        (if_true (not (user.role == "system")) (user ∷ others after) (others after)
          (ap (λ r. not (r == "system")) e))

told-IsFolding :
    (first : String) (rest : List String) {ms : List Message} {o : Option (List Message)}
    → instructions ms ≡ first ∷ rest
    → IsWritten (join (first ∷ rest) "\n\n") ms o
    → (ws : List Message) → o ≡ some ws
    → IsFolding ms (others ws)
told-IsFolding first rest e (absent h) ws q = absurd cc
told-IsFolding first rest {ms} e (present before user after content h r c) ws q =
    subst (λ xs. IsFolding ms (others xs)) (some_injective _ ws q)
      (subst (IsFolding ms) (sym (others-user before (record user { content = content }) after r))
        (told first rest before user after content e refl h r c))

untold-IsFolding :
    (p : String) {ms : List Message} {o : Option (List Message)}
    → IsWritten p ms o
    → o ≡ none
    → IsFolding ms ms
untold-IsFolding p (absent h) q = without_user h
untold-IsFolding p (present before user after content h r c) q = absurd cc

folded_to-IsFolding :
    (first : String) (rest : List String) (n : ℕ) (ms : List Message) (o : Option (List Slot))
    → instructions ms ≡ first ∷ rest
    → IsWritten (join (first ∷ rest) "\n\n") ms (Option.map messages_of o)
    → IsFolding ms (messages_of (folded_to (slots n ms) o).messages)
folded_to-IsFolding first rest n ms none e w =
    subst (IsFolding ms) (sym (messages_of-slots n ms))
      (untold-IsFolding (join (first ∷ rest) "\n\n") w refl)
folded_to-IsFolding first rest n ms (some ws) e w =
    subst (IsFolding ms) (sym (messages_of-kept_slots ws))
      (told-IsFolding first rest e w (messages_of ws) refl)

fold_texts-IsFolding :
    (n : ℕ) (ms : List Message) (ts : List String)
    → instructions ms ≡ ts
    → IsFolding ms (messages_of (fold_texts (slots n ms) ts).messages)
fold_texts-IsFolding n ms [] e =
    subst (IsFolding ms) (sym (messages_of-slots n ms)) (uninstructed e)
fold_texts-IsFolding n ms (t ∷ ts) e =
    folded_to-IsFolding t ts n ms _ e
      (write_user-IsWritten (join (t ∷ ts) "\n\n") (next_cell (slots n ms)) n ms)

-- For every conversation as it was parsed, in which no two messages share a content:
-- FoldSystemIntoUser leaves it as it is if no system message has a text or if there is no user message.
-- Otherwise it gives all messages that are no system messages, in their order and unchanged but for the
-- first user message, which has the non-empty texts of all system messages, joined by empty lines, in
-- front of everything that it had.
pub fold_system_into_user-IsFolding :
    (ms : List Message) → IsFolding ms (messages_of (fold_system_into_user (slots 0 ms)).messages)
unfolding fold_system_into_user
fold_system_into_user-IsFolding ms =
    fold_texts-IsFolding 0 ms (system_texts (slots 0 ms)) (sym (system_texts-instructions 0 ms))
