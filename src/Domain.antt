-- ===== src/Domain.antt =====
-- src/domain.rs: the request and reply types that are neutral between the two protocols.
use calude_proxy.Base.{ℕ, String, Bool, true, false, Option, List}
use calude_proxy.Json.{Value, F64}

pub record InputMessage : Type 0 where
  pub role : String
  pub content : Value

pub record ToolDefinition : Type 0 where
  pub name : String
  pub description : Option String
  pub input_schema : Value
  pub extensions : List (String × Value)

-- A field that the JSON body leaves out has serde's default: `none`, `[]` or `false`.
pub record AnthropicRequest : Type 0 where
  pub model : String
  pub max_tokens : ℕ
  pub messages : List InputMessage
  pub stream : Bool
  pub system : Option Value
  pub temperature : Option F64
  pub top_p : Option F64
  pub top_k : Option ℕ
  pub stop_sequences : Option (List String)
  pub metadata : Option Value
  pub tools : List ToolDefinition
  pub tool_choice : Option Value
  pub thinking : Option Value
  pub extensions : List (String × Value)

pub data MessageRole : Type 0 where
  system user assistant : MessageRole

pub data ImageData : Type 0 where
  base64 url : String → ImageData

pub data InputBlock : Type 0 where
  text : String → InputBlock
  image : (media_type : String) (image_data : ImageData) → InputBlock
  tool_use : (id name : String) (input : Value) → InputBlock
  tool_result : (tool_use_id : String) (content : Value) (is_error : Bool) → InputBlock

pub record NormalizedMessage : Type 0 where
  pub role : MessageRole
  pub blocks : List InputBlock

-- The Boolean is `disable_parallel`.
pub data ToolChoice : Type 0 where
  auto any : (disable_parallel : Bool) → ToolChoice
  never : ToolChoice
  tool : (name : String) (disable_parallel : Bool) → ToolChoice

pub record NormalizedRequest : Type 0 where
  pub original_model : String
  pub max_tokens : ℕ
  pub messages : List NormalizedMessage
  pub temperature : Option F64
  pub top_p : Option F64
  pub stop_sequences : List String
  pub tools : List ToolDefinition
  pub tool_choice : Option ToolChoice
  pub stream : Bool

pub record Usage : Type 0 where
  pub input_tokens : ℕ
  pub output_tokens : ℕ

pub data OutputBlock : Type 0 where
  text : String → OutputBlock
  tool_use : (id name : String) (input : Value) → OutputBlock

pub record AnthropicResponse : Type 0 where
  pub id : String
  pub kind : String
  pub role : String
  pub model : String
  pub content : List OutputBlock
  pub stop_reason : Option String
  pub stop_sequence : Option String
  pub usage : Usage

pub data StopReason : Type 0 where
  end_turn max_tokens tool_use refusal : StopReason

-- `StopReason::as_str`.
unfoldable pub as_str : StopReason → String
as_str StopReason.end_turn = "end_turn"
as_str StopReason.max_tokens = "max_tokens"
as_str StopReason.tool_use = "tool_use"
as_str StopReason.refusal = "refusal"

pub data ProviderEvent : Type 0 where
  text : String → ProviderEvent
  tool_start : (index : ℕ) (id name : String) → ProviderEvent
  tool_delta : (index : ℕ) (arguments : String) → ProviderEvent
  finished : (reason : StopReason) (usage : Option Usage) → ProviderEvent
  usage : Usage → ProviderEvent

-- The event that ends a message.
unfoldable pub is_finished : ProviderEvent → Bool
is_finished (ProviderEvent.finished reason last) = true
is_finished _ = false
