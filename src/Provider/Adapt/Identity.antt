-- ===== src/Provider/Adapt/Identity.antt =====
-- Requests that `adapt_request` leaves alone.
use calude_proxy.Base.{◌≡◌, refl, ◌↔◌, Option, List, [], ◌∷◌, All, arith, String}
use calude_proxy.Error.{ok}
use calude_proxy.Json.{Value}
use calude_proxy.Domain.{
  NormalizedRequest, NormalizedMessage, InputBlock, image, tool_result, tool_use,
}
use calude_proxy.Domain
use calude_proxy.Config.{CapabilityProfile}
use calude_proxy.Provider.Adapt.{
  adapt_max_tokens, adapt_temperature, adapt_top_p, adapt_stop, check_tools, adapt_parallel,
  adapt_result, adapt_block, adapt_blocks, adapt_messages, adapt_content, adapt_request,
}
use calude_proxy.Provider.Adapt.Conforms.{
  BlockConforms, MessageConforms, Conforms, adapt_request-Conforms,
}

module _ (to_string : Value → Option String) (caps : CapabilityProfile) where
  adapt_block_id : (b : InputBlock) → BlockConforms caps b → adapt_block to_string caps b ≡ ok b
  unfolding adapt_block adapt_result
  adapt_block_id (image m d) h = ground arith
  adapt_block_id (tool_result i v e) h = ground arith
  adapt_block_id (Domain.InputBlock.text t) h = refl
  adapt_block_id (tool_use i n v) h = refl

  adapt_blocks_id :
      (bs : List InputBlock) → All (BlockConforms caps) bs → adapt_blocks to_string caps bs ≡ ok bs
  unfolding adapt_blocks
  adapt_blocks_id [] h = refl
  adapt_blocks_id (b ∷ bs) h = rw (adapt_block_id b h.0, adapt_blocks_id bs h.1)

  adapt_messages_id :
      (ms : List NormalizedMessage)
      → All (MessageConforms caps) ms
      → adapt_messages to_string caps ms ≡ ok ms
  unfolding adapt_messages
  adapt_messages_id [] h = refl
  adapt_messages_id (m ∷ ms) h = rw (adapt_blocks_id m.blocks h.0, adapt_messages_id ms h.1)

  module _ (r : NormalizedRequest) (c : Conforms caps r) where
    adapt_max_tokens_id : adapt_max_tokens caps r ≡ ok r
    unfolding adapt_max_tokens
    adapt_max_tokens_id = ground arith

    adapt_temperature_id : adapt_temperature caps r ≡ ok r
    unfolding adapt_temperature
    adapt_temperature_id = ground arith

    adapt_top_p_id : adapt_top_p caps r ≡ ok r
    unfolding adapt_top_p
    adapt_top_p_id = ground arith

    adapt_stop_id : adapt_stop caps r ≡ ok r
    unfolding adapt_stop
    adapt_stop_id = ground arith

    check_tools_id : check_tools caps r ≡ ok r
    unfolding check_tools
    check_tools_id = ground arith

    adapt_parallel_id : adapt_parallel caps r ≡ ok r
    unfolding adapt_parallel
    adapt_parallel_id = ground arith

    adapt_request_id : adapt_request to_string caps r ≡ ok r
    unfolding adapt_request adapt_content
    adapt_request_id = rw (
      adapt_max_tokens_id,
      adapt_temperature_id,
      adapt_top_p_id,
      adapt_stop_id,
      check_tools_id,
      adapt_parallel_id,
      adapt_messages_id r.messages c.messages,
    )

  -- `adapt_request` returns a request unchanged exactly if the request stays within the profile.
  pub adapt_request_id_iff :
      (r : NormalizedRequest) → (adapt_request to_string caps r ≡ ok r) ↔ Conforms caps r
  adapt_request_id_iff r = (adapt_request-Conforms to_string caps r r, adapt_request_id r)

  -- Adapting twice is adapting once: the pass that `Provider::execute` makes over a candidate which
  -- the router has adapted already changes nothing and cannot fail.
  pub adapt_request_idem :
      (request adapted : NormalizedRequest)
      → adapt_request to_string caps request ≡ ok adapted
      → adapt_request to_string caps adapted ≡ ok adapted
  adapt_request_idem r a h = adapt_request_id a (adapt_request-Conforms to_string caps r a h)
