-- ===== src/Protocol/Fold.antt =====
-- internal/protocol/ir.go, FoldSystemIntoUser: the system texts go into the first user message.
-- The Go code works in place on the array behind `req.Messages`: the folded request is a shorter
-- slice of it, and every other holder of the array sees the writes. After the compaction two places of
-- the array may hold copies of one message, whose contents are one slice: a write into it shows in both.
pub mod Laws
pub mod Retry
use clean_api.Base.{
  ℕ, zero, suc, ◌+◌, eqb, ◌&&◌, map, true, false, String, Bool, List, [], ◌∷◌, ◌++◌, Option, none,
  some, length, filter, if◌then◌else◌, ◌==◌, string_equality, not,
}
use mathlib.Core.Option
use clean_api.Base.Text.{◌+++◌, join}
use clean_api.Protocol.Ir.{Message, ContentPart, text, image}

-- A place of the array: a message, and the number of the array behind its content. Places with one
-- number hold copies of one message.
pub record Slot : Type 0 where
  pub message : Message
  pub cell : ℕ

-- The array behind the messages of a request that was just parsed, numbered from `n` on.
abbrev pub slots : ℕ → List Message → List Slot
slots n [] = []
slots n (m ∷ ms) = record { message = m; cell = n } ∷ slots (suc n) ms

abbrev pub messages_of : List Slot → List Message
messages_of = map (λ (m : Slot). m.message)

abbrev pub is_role : String → Slot → Bool
is_role r m = m.message.role == r

abbrev pub texts : List ContentPart → List String
texts [] = []
texts (text t ∷ ps) = if t == "" then texts ps else t ∷ texts ps
texts (image u ∷ ps) = texts ps

-- The non-empty texts of the system messages, in order.
unfoldable pub system_texts : List Slot → List String
system_texts [] = []
system_texts (m ∷ ms) =
    (if is_role "system" m then texts m.message.content else []) ++ system_texts ms

unfoldable pub prefix_content : String → List ContentPart → List ContentPart
prefix_content prefix [] = text prefix ∷ []
prefix_content prefix (text t ∷ []) = text (prefix +++ "\n\n" +++ t) ∷ []
prefix_content prefix ps = text prefix ∷ ps

-- Whether the content is written to in place.
abbrev pub is_one_text : List ContentPart → Bool
is_one_text (text t ∷ []) = true
is_one_text [] = false
is_one_text (image url ∷ ps) = false
is_one_text (text t ∷ p ∷ ps) = false

-- A number that no place has.
abbrev pub next_cell : List Slot → ℕ
next_cell [] = 0
next_cell (m ∷ ms) = suc (m.cell + next_cell ms)

abbrev pub with_content : List ContentPart → Slot → Slot
with_content ps m = record m { message = record m.message { content = ps } }

-- The first user message, whose content is a new slice unless it is written to in place.
abbrev pub prefixed : String → ℕ → Slot → Slot
prefixed prefix fresh m = record (with_content (prefix_content prefix m.message.content) m) {
  cell = if is_one_text m.message.content then m.cell else fresh;
}

-- Another place, after the write to the message of `user`.
abbrev pub after_write : String → Slot → Slot → Slot
after_write prefix user m =
    if is_one_text user.message.content && eqb m.cell user.cell
    then with_content (prefix_content prefix user.message.content) m
    else m

-- The array after the write to the first user message; `none` if there is no such message. Copies of
-- that message are users too, and so stand behind it.
unfoldable pub write_user : String → ℕ → List Slot → Option (List Slot)
write_user prefix fresh [] = none
write_user prefix fresh (m ∷ ms) =
    if is_role "user" m
    then some (prefixed prefix fresh m ∷ map (after_write prefix m) ms)
    else Option.map (λ rest. m ∷ rest) (write_user prefix fresh ms)

abbrev pub drop : ℕ → List Slot → List Slot
drop zero ms = ms
drop (suc n) [] = []
drop (suc n) (m ∷ ms) = drop n ms

-- A conversation without its system messages.
abbrev pub without_system : List Message → List Message
without_system = filter (λ m. not (m.role == "system"))

abbrev pub kept_slots : List Slot → List Slot
kept_slots = filter (λ m. not (is_role "system" m))

-- `out = req.Messages[:0]` and the appends: the kept messages overwrite the front of the array.
unfoldable pub compact : List Slot → List Slot
compact ms = kept_slots ms ++ drop (length (kept_slots ms)) ms

-- The messages of the folded request, and the array behind them after the call.
pub record Folded : Type 0 where
  pub messages : List Slot
  pub array : List Slot

abbrev pub unchanged : List Slot → Folded
unchanged ms = record { messages = ms; array = ms }

abbrev pub folded_to : List Slot → Option (List Slot) → Folded
folded_to ms none = unchanged ms
folded_to ms (some written) = record { messages = kept_slots written; array = compact written }

abbrev pub fold_texts : List Slot → List String → Folded
fold_texts ms [] = unchanged ms
fold_texts ms (t ∷ ts) = folded_to ms (write_user (join (t ∷ ts) "\n\n") (next_cell ms) ms)

unfoldable pub fold_system_into_user : List Slot → Folded
fold_system_into_user ms = fold_texts ms (system_texts ms)
