-- ===== src/Protocol/Ir.antt =====
-- internal/protocol/ir.go: the unified request, response and stream events.
-- A `*float64` temperature is passed through and is a text here; a `json.RawMessage` is its text.
use clean_api.Base.{ℕ, String, Bool, Option, List, ◌∷◌, []}
use clean_api.Base.Int.{ℤ}

-- What `json.Unmarshal` puts into an `any`; a number is its literal.
mutual
  pub data Value : Type 0 where
    null : Value
    bool : Bool → Value
    number : String → Value
    string : String → Value
    array : Items → Value
    object : Fields → Value

  pub data Items : Type 0 where
    nil : Items
    cons : Value → Items → Items

  pub data Fields : Type 0 where
    end : Fields
    field : String → Value → Fields → Fields

pub data ContentPart : Type 0 where
  text : String → ContentPart
  image : String → ContentPart

pub record ToolCall : Type 0 where
  pub id : String
  pub name : String
  pub arguments : String

pub record Message : Type 0 where
  pub role : String
  pub content : List ContentPart
  pub name : String
  pub tool_call_id : String
  pub tool_calls : List ToolCall

pub record ToolFunction : Type 0 where
  pub name : String
  pub description : String
  pub parameters : String

pub record Tool : Type 0 where
  pub type : String
  pub function : ToolFunction

pub record ChatRequest : Type 0 where
  pub model : String
  pub messages : List Message
  pub tools : List Tool
  pub tool_choice : Value
  pub stream : Bool
  pub temperature : Option String
  pub max_tokens : Option ℤ
  pub response_format : Value

pub record Usage : Type 0 where
  pub prompt_tokens : ℤ
  pub completion_tokens : ℤ
  pub total_tokens : ℤ

pub record Choice : Type 0 where
  pub index : ℤ
  pub message : Message
  pub finish_reason : String

pub record ChatResponse : Type 0 where
  pub id : String
  pub model : String
  pub created : ℕ
  pub choices : List Choice
  pub usage : Usage

-- `StreamEvent` with its type constants: each constructor has the fields that its event carries.
pub data StreamEvent : Type 0 where
  text_delta : String → StreamEvent
  tool_call_start : ℤ → String → String → StreamEvent
  tool_call_delta : ℤ → String → StreamEvent
  tool_call_stop : ℤ → StreamEvent
  done : String → Option Usage → StreamEvent

-- A message of a role with one text part.
abbrev pub text_message : String → String → Message
text_message role t = record {
  role = role;
  content = text t ∷ [];
  name = "";
  tool_call_id = "";
  tool_calls = [];
}
