-- ===== src/Provider/Adapt/Examples.antt =====
-- A target without temperature, which the configuration allows to drop.
use Prim.Native.Nat.{min}
use calude_proxy.Base.{◌^◌, ◌≡◌, ◌↔◌, refl, String, true, false, Option, none, some, [], ◌∷◌}
use calude_proxy.Error.{ok}
use calude_proxy.Json.{Value, F64}
use calude_proxy.Domain.{NormalizedRequest, InputBlock, MessageRole}
use calude_proxy.Config.{CapabilityProfile, default_profile}
use calude_proxy.Provider.Adapt.{
  adapt_max_tokens, adapt_temperature, adapt_top_p, adapt_stop, check_tools, wants_parallel,
  adapt_parallel, adapt_block, adapt_blocks, adapt_messages, adapt_content, adapt_request,
}
use calude_proxy.Provider.Adapt.Conforms.{Conforms, adapt_request-Conforms}
use calude_proxy.Provider.Adapt.Identity.{adapt_request_id_iff}
use calude_proxy.Provider.Adapt.Preserves.{Messages, adapt_request_keeps}

abbrev no_printer : Value → Option String
no_printer value = none

abbrev lenient : CapabilityProfile
lenient = record default_profile { supports_temperature = false; allow_temperature_fallback = true }

abbrev half : F64
half = record { negative = false; units = 2 ^ 1073 }

abbrev warm : NormalizedRequest
warm = record {
  original_model = "haiku";
  max_tokens = 10;
  messages = record { role = MessageRole.user; blocks = InputBlock.text "hello" ∷ [] } ∷ [];
  temperature = some half;
  top_p = none;
  stop_sequences = [];
  tools = [];
  tool_choice = none;
  stream = false;
}

abbrev cold : NormalizedRequest
cold = record warm { temperature = none }

warm_adapted : adapt_request no_printer lenient warm ≡ ok cold
unfolding adapt_request adapt_content adapt_messages adapt_blocks adapt_block adapt_max_tokens
    adapt_temperature adapt_top_p adapt_stop check_tools adapt_parallel wants_parallel
warm_adapted = refl

adapt_request-Conforms_example : Conforms lenient cold
adapt_request-Conforms_example = adapt_request-Conforms no_printer lenient warm cold warm_adapted

adapt_request_id_iff_example :
    (adapt_request no_printer lenient cold ≡ ok cold) ↔ Conforms lenient cold
adapt_request_id_iff_example = adapt_request_id_iff no_printer lenient cold

adapt_request_keeps_example :
    (cold.original_model ≡ warm.original_model)
    × (cold.stream ≡ warm.stream)
    × (cold.tools ≡ warm.tools)
    × (cold.max_tokens ≡ min warm.max_tokens lenient.max_output_tokens)
    × Messages no_printer warm.messages cold.messages
adapt_request_keeps_example = adapt_request_keeps no_printer lenient warm cold warm_adapted
