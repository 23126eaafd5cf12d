-- ===== src/Protocol/OpenAi/ToolChoice/Forms.antt =====
-- The choices of a tool in the words of the two protocols.
use clean_api.Base.{String, false, ◌≡◌, refl, ◌==◌, string_equality, if_false}
use clean_api.Protocol.Ir.{Value, string, object, field, end}
use clean_api.Protocol.OpenAi.ToolChoice.{
  function_choice, tool_choice, normalize_tool_choice, normalize_anthropic_tool_choice,
}

-- What a client may ask for: that the model decides, calls nothing, calls something, or calls the
-- function of a name.
pub data Choice : Type 0 where
  auto none required : Choice
  named : String → Choice

abbrev word : String → Value
word t = object (field "type" (string t) end)

-- OpenAI's form.
abbrev pub openai_form : Choice → Value
openai_form auto = string "auto"
openai_form none = string "none"
openai_form required = string "required"
openai_form (named name) = object (
    field "type" (string "function")
      (field "function" (object (field "name" (string name) end)) end))

-- Anthropic's form.
abbrev pub anthropic_form : Choice → Value
anthropic_form auto = word "auto"
anthropic_form none = word "none"
anthropic_form required = word "any"
anthropic_form (named name) = object (field "type" (string "tool") (field "name" (string name) end))

-- The newer form, of the Responses protocol: an object for the words too, and the name at its top.
abbrev pub responses_form : Choice → Value
responses_form auto = word "auto"
responses_form none = word "none"
responses_form required = word "required"
responses_form (named name) =
    object (field "type" (string "function") (field "name" (string name) end))

-- What is left of a choice on the way from Anthropic to OpenAI: `any` becomes `auto`.
abbrev pub relaxed : Choice → Choice
relaxed auto = auto
relaxed none = none
relaxed required = auto
relaxed (named name) = named name

-- A name, if there is one, is not empty.
abbrev pub IsNamed : Choice → Type 0
IsNamed auto = Unit
IsNamed none = Unit
IsNamed required = Unit
IsNamed (named name) = (name == "") ≡ false

-- A choice of a tool, which has a name if it asks for one. normalizeAnthropicToolChoice makes OpenAI's
-- form of it Anthropic's, and leaves Anthropic's as it is. normalizeToolChoice makes Anthropic's form
-- OpenAI's, where a choice that some tool be called becomes one that the model decide; it makes the
-- newer objects of the Responses protocol OpenAI's form, and leaves OpenAI's form as it is.
pub normalize_tool_choice-forms :
    (c : Choice)
    → IsNamed c
    → (normalize_anthropic_tool_choice (openai_form c) ≡ anthropic_form c)
      × (normalize_anthropic_tool_choice (anthropic_form c) ≡ anthropic_form c)
      × (normalize_tool_choice (anthropic_form c) ≡ openai_form (relaxed c))
      × (normalize_tool_choice (responses_form c) ≡ openai_form c)
      × (normalize_tool_choice (openai_form c) ≡ openai_form c)
unfolding normalize_tool_choice normalize_anthropic_tool_choice
normalize_tool_choice-forms auto h = (refl, refl, refl, refl, refl)
normalize_tool_choice-forms none h = (refl, refl, refl, refl, refl)
normalize_tool_choice-forms required h = (refl, refl, refl, refl, refl)
normalize_tool_choice-forms (named name) h = (
  if_false (name == "") _ (tool_choice name) h,
  refl,
  if_false (name == "") _ (function_choice name) h,
  if_false (name == "") _ (function_choice name) h,
  refl,
)
