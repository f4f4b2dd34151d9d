-- ===== src/Provider/Body.antt =====
-- `Provider::build_request` and `chat_completions_url` of src/provider.rs: the body and the address
-- of a Chat Completions call. Each `body.insert` has a key of its own, so it adds an entry.
pub mod Examples
pub mod Fields
pub mod Refusals
use calude_proxy.Base.{
  ℕ, String, Bool, true, false, not, Option, none, some, List, [], ◌∷◌, ◌++◌, map, is_empty,
  if◌then◌else◌, ◌⧺◌,
}
use calude_proxy.Error.{Result, ok, ◌>>=◌}
use calude_proxy.Json.{Value, Number, F64, null, bool, number, string, obj, arr, float, json_number}
use calude_proxy.Domain.{NormalizedRequest, ToolDefinition, ToolChoice, auto, any, never, tool}
use calude_proxy.Config.{CapabilityProfile}
use calude_proxy.Provider.Messages.{convert_messages}

abbrev pub Entries : Type 0
Entries = List (String × Value)

abbrev pub json_text : Option String → Value
json_text none = null
json_text (some s) = string s

pub float_field : String → Option F64 → Entries
float_field key none = []
float_field key (some value) = (key, number (float value)) ∷ []

pub stop_field : List String → Entries
stop_field [] = []
stop_field (s ∷ rest) = ("stop", arr (map string (s ∷ rest))) ∷ []

abbrev tool_value : ToolDefinition → Value
tool_value t = obj (
    ("type", string "function")
    ∷ (
      "function",
      obj (
          ("name", string t.name)
          ∷ ("description", json_text t.description)
          ∷ ("parameters", t.input_schema)
          ∷ []),
    )
    ∷ [])

pub tools_field : List ToolDefinition → Entries
tools_field [] = []
tools_field (t ∷ rest) = ("tools", arr (map tool_value (t ∷ rest))) ∷ []

abbrev choice_entries : Value → Bool → Entries
choice_entries value parallel = ("tool_choice", value) ∷ ("parallel_tool_calls", bool parallel) ∷ []

pub choice_field : Option ToolChoice → Entries
choice_field none = []
choice_field (some (auto disable)) = choice_entries (string "auto") (not disable)
choice_field (some (any disable)) = choice_entries (string "required") (not disable)
choice_field (some never) = ("tool_choice", string "none") ∷ []
choice_field (some (tool name disable)) =
    choice_entries
      (obj (("type", string "function") ∷ ("function", obj (("name", string name) ∷ [])) ∷ []))
      (not disable)

pub stream_fields : Bool → Entries
stream_fields stream =
    ("stream", bool stream)
    ∷ (if stream then ("stream_options", obj (("include_usage", bool true) ∷ [])) ∷ [] else [])

pub token_field : CapabilityProfile → String
token_field caps = if caps.use_max_completion_tokens then "max_completion_tokens" else "max_tokens"

-- The optional entries, which stand between the token limit and the streaming flags.
pub optional_fields : NormalizedRequest → Entries
optional_fields r =
    float_field "temperature" r.temperature
    ++ (float_field "top_p" r.top_p
        ++ (stop_field r.stop_sequences ++ (tools_field r.tools ++ choice_field r.tool_choice)))

module _ (to_string : Value → Option String) (print_error : Value → String) where
  pub build_request :
      CapabilityProfile → NormalizedRequest → (model : String) (stream : Bool) → Result Value
  build_request caps request model stream = do
    messages ← convert_messages to_string print_error request
    ok (
        obj (
          ("model", string model)
          ∷ ("messages", arr messages)
          ∷ (token_field caps, json_number request.max_tokens)
          ∷ (optional_fields request ++ stream_fields stream)))

-- `split_once('?')`: what stands before and after the first question mark, if there is one.
unfoldable pub chat_completions_url :
    (split_once : String → Option (String × String)) → String → String
chat_completions_url split_once endpoint = elim (split_once endpoint) [
  | none ↦ endpoint ⧺ "/chat/completions"
  | some (base, query) ↦ base ⧺ "/chat/completions?" ⧺ query
]
