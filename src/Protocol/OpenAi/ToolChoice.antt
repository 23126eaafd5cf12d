-- ===== src/Protocol/OpenAi/ToolChoice.antt =====
-- The tool choice of a request in the form that an upstream takes: normalizeToolChoice of
-- internal/protocol/openai.go and normalizeAnthropicToolChoice of internal/protocol/anthropic.go.
pub mod Forms
use clean_api.Base.{String, Bool, Option, none, some, if◌then◌else◌, ◌==◌, string_equality, ◌||◌}
use clean_api.Protocol.Ir.{
  Value, null, bool, number, string, array, object, Items, Fields, end, field,
}

-- `v[key]`.
abbrev pub get_field : String → Fields → Option Value
get_field key end = none
get_field key (field k v fs) = if k == key then some v else get_field key fs

-- `v, _ := x.(string)`: the text, or the empty text.
abbrev pub string_or_empty : Option Value → String
string_or_empty (some (string s)) = s
string_or_empty (some null) = ""
string_or_empty (some (bool b)) = ""
string_or_empty (some (number n)) = ""
string_or_empty (some (array vs)) = ""
string_or_empty (some (object fs)) = ""
string_or_empty none = ""

abbrev pub text_field : String → Fields → String
text_field key fs = string_or_empty (get_field key fs)

abbrev pub typed : String → Fields → Value
typed t fs = object (field "type" (string t) fs)

abbrev pub function_choice : String → Value
function_choice name =
    typed "function" (field "function" (object (field "name" (string name) end)) end)

abbrev pub tool_choice : String → Value
tool_choice name = typed "tool" (field "name" (string name) end)

abbrev pub named_or_null : String → Value
named_or_null name = if name == "" then null else function_choice name

abbrev pub function_or_named : Fields → Option Value → Value
function_or_named fs (some f) = object fs
function_or_named fs none = named_or_null (text_field "name" fs)

abbrev pub by_type : String → Fields → Value
by_type t fs =
    if t == "auto" || t == "any"
    then string "auto"
    else if t == "none"
    then string "none"
    else if t == "required"
    then string "required"
    else if t == "tool"
    then named_or_null (text_field "name" fs)
    else if t == "function"
    then function_or_named fs (get_field "function" fs)
    else object fs

unfoldable pub normalize_tool_choice : Value → Value
normalize_tool_choice (object fs) = by_type (text_field "type" fs) fs
normalize_tool_choice (string s) = string s
normalize_tool_choice null = null
normalize_tool_choice (bool b) = bool b
normalize_tool_choice (number n) = number n
normalize_tool_choice (array vs) = array vs

-- The name in the object under `function`.
abbrev pub function_name : Option Value → String
function_name (some (object fs)) = text_field "name" fs
function_name (some (string s)) = ""
function_name (some null) = ""
function_name (some (bool b)) = ""
function_name (some (number n)) = ""
function_name (some (array vs)) = ""
function_name none = ""

abbrev pub tool_or_auto : String → Value
tool_or_auto name = if name == "" then typed "auto" end else tool_choice name

abbrev pub anthropic_by_type : String → Fields → Value
anthropic_by_type t fs =
    if t == "function"
    then (if function_name (get_field "function" fs) == ""
        then tool_or_auto (text_field "name" fs)
        else tool_choice (function_name (get_field "function" fs)))
    else object fs

unfoldable pub normalize_anthropic_tool_choice : Value → Value
normalize_anthropic_tool_choice (string s) =
    if s == "auto"
    then typed "auto" end
    else if s == "none"
    then typed "none" end
    else if s == "required"
    then typed "any" end
    else typed "auto" end
normalize_anthropic_tool_choice (object fs) = anthropic_by_type (text_field "type" fs) fs
normalize_anthropic_tool_choice null = null
normalize_anthropic_tool_choice (bool b) = bool b
normalize_anthropic_tool_choice (number n) = number n
normalize_anthropic_tool_choice (array vs) = array vs
