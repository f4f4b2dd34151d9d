-- ===== src/Provider/Adapt/Refusals.antt =====
-- How `adapt_request` refuses a request.
use calude_proxy.Base.{◌≡◌, Bool, Option, List, [], ◌∷◌, String}
use calude_proxy.Error.{ProxyError, err, invalid}
use calude_proxy.Error.Invalid.{FailsInvalid, FailsInvalid-bind, FailsInvalid-ok, fails_invalid}
use calude_proxy.Json.{Value}
use calude_proxy.Domain.{
  NormalizedRequest, NormalizedMessage, InputBlock, image, tool_result, tool_use,
}
use calude_proxy.Domain
use calude_proxy.Config.{CapabilityProfile}
use calude_proxy.Provider.Adapt.{
  adapt_max_tokens, adapt_temperature, adapt_top_p, adapt_stop, check_tools, adapt_parallel,
  adapt_result, adapt_block, adapt_blocks, adapt_messages, adapt_content, adapt_request,
}

module _ (to_string : Value → Option String) (caps : CapabilityProfile) where
  adapt_result-FailsInvalid :
      (id : String) (content : Value) (is_error : Bool)
      → FailsInvalid (adapt_result to_string caps id content is_error)
  unfolding adapt_result
  adapt_result-FailsInvalid id content is_error = search fails_invalid

  adapt_block-FailsInvalid : (b : InputBlock) → FailsInvalid (adapt_block to_string caps b)
  unfolding adapt_block
  adapt_block-FailsInvalid (image m d) = search fails_invalid
  adapt_block-FailsInvalid (tool_result i v e) = adapt_result-FailsInvalid i v e
  adapt_block-FailsInvalid (Domain.InputBlock.text t) = search fails_invalid
  adapt_block-FailsInvalid (tool_use i n v) = search fails_invalid

  adapt_blocks-FailsInvalid : (bs : List InputBlock) → FailsInvalid (adapt_blocks to_string caps bs)
  unfolding adapt_blocks
  adapt_blocks-FailsInvalid [] = search fails_invalid
  adapt_blocks-FailsInvalid (b ∷ bs) =
      FailsInvalid-bind _ _ (adapt_block-FailsInvalid b)
        (λ c. FailsInvalid-bind _ _ (adapt_blocks-FailsInvalid bs) (λ cs. FailsInvalid-ok _))

  adapt_messages-FailsInvalid :
      (ms : List NormalizedMessage) → FailsInvalid (adapt_messages to_string caps ms)
  unfolding adapt_messages
  adapt_messages-FailsInvalid [] = search fails_invalid
  adapt_messages-FailsInvalid (m ∷ ms) =
      FailsInvalid-bind _ _ (adapt_blocks-FailsInvalid m.blocks)
        (λ c. FailsInvalid-bind _ _ (adapt_messages-FailsInvalid ms) (λ cs. FailsInvalid-ok _))

  pub adapt_request-FailsInvalid :
      (r : NormalizedRequest) → FailsInvalid (adapt_request to_string caps r)
  unfolding adapt_request adapt_max_tokens adapt_temperature adapt_top_p adapt_stop check_tools
      adapt_parallel adapt_content
  adapt_request-FailsInvalid r = search (fails_invalid, adapt_messages-FailsInvalid) depth 20

  -- A request that `adapt_request` refuses gets an invalid-request error, which is never retried.
  pub adapt_request_refuses :
      (request : NormalizedRequest) (e : ProxyError)
      → adapt_request to_string caps request ≡ err e
      → e ≡ invalid e.message
  adapt_request_refuses r e h = (adapt_request-FailsInvalid r).at e h
