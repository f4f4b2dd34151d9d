-- ===== src/Provider/Body/Examples.antt =====
-- The body for a request of one text.
use calude_proxy.Base.{◌≡◌, refl, String, false, Option, none, [], ◌∷◌, inl, arith}
use calude_proxy.Error.{ok}
use calude_proxy.Json.{Value, obj, arr, string, bool, json_number}
use calude_proxy.Domain.{NormalizedRequest, InputBlock, MessageRole}
use calude_proxy.Config.{default_profile}
use calude_proxy.Provider.Adapt.Conforms.{Conforms}
use calude_proxy.Provider.Messages.{
  convert_messages, convert_all, convert_message, convert_user, add_blocks, add_block,
  joined_content,
}
use calude_proxy.Provider.Body.{
  build_request, token_field, optional_fields, float_field, stop_field, tools_field, choice_field,
  stream_fields,
}
use calude_proxy.Provider.Body.Fields.{BodyConforms, build_request-Conforms}

abbrev pub no_printer : Value → Option String
no_printer value = none

abbrev pub no_error : Value → String
no_error value = ""

abbrev pub request : NormalizedRequest
request = record {
  original_model = "haiku";
  max_tokens = 10;
  messages = record { role = MessageRole.user; blocks = InputBlock.text "hello" ∷ [] } ∷ [];
  temperature = none;
  top_p = none;
  stop_sequences = [];
  tools = [];
  tool_choice = none;
  stream = false;
}

abbrev pub body : Value
body = obj (
    ("model", string "gpt")
    ∷ ("messages", arr (obj (("role", string "user") ∷ ("content", string "hello") ∷ []) ∷ []))
    ∷ ("max_tokens", json_number 10)
    ∷ ("stream", bool false)
    ∷ [])

pub request-Conforms : Conforms default_profile request
request-Conforms = record {
  max_tokens = omega arith;
  temperature = inl refl;
  top_p = inl refl;
  stop = inl refl;
  tools = inl refl;
  parallel = inl refl;
  messages = ((tt, tt), tt);
}

pub body_built : build_request no_printer no_error default_profile request "gpt" false ≡ ok body
unfolding build_request token_field optional_fields float_field stop_field tools_field choice_field
    stream_fields convert_messages convert_all convert_message convert_user add_blocks add_block
    joined_content
body_built = refl

build_request-Conforms_example : BodyConforms default_profile request "gpt" false body
build_request-Conforms_example =
    build_request-Conforms no_printer no_error default_profile request "gpt" false body
      request-Conforms body_built
