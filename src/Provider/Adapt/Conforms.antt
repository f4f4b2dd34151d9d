-- ===== src/Provider/Adapt/Conforms.antt =====
-- An adapted request asks for nothing that its target lacks, and a request that already does so is
-- left alone.
use calude_proxy.Base.{
  ◌≤◌, ◌≡◌, refl, ◌⊎◌, true, false, Option, none, List, [], ◌∷◌, All, arith, String,
}
use calude_proxy.Error.{ok, >>=-eq-ok}
use calude_proxy.Json.{Value, is_string}
use calude_proxy.Domain.{
  NormalizedRequest, NormalizedMessage, InputBlock, image, tool_result, tool_use,
}
use calude_proxy.Domain
use calude_proxy.Config.{CapabilityProfile}
use calude_proxy.Provider.Adapt.{
  adapt_max_tokens, adapt_temperature, adapt_top_p, adapt_stop, check_tools, wants_parallel,
  without_parallel, adapt_parallel, adapt_result, adapt_block, adapt_blocks, adapt_messages,
  adapt_content, adapt_request,
}

module _ (caps : CapabilityProfile) where
  abbrev pub BlockConforms : InputBlock → Type 0
  BlockConforms (image media_type image_data) = caps.vision ≡ true
  BlockConforms (tool_result id content is_error) = is_string content ≡ true
  BlockConforms _ = Unit {0}

  abbrev pub MessageConforms : NormalizedMessage → Type 0
  MessageConforms m = All BlockConforms m.blocks

  -- The request stays within what the target declares.
  pub record Conforms (r : NormalizedRequest) : Type 0 where
    pub max_tokens : r.max_tokens ≤ caps.max_output_tokens
    pub temperature : (caps.supports_temperature ≡ true) ⊎ (r.temperature ≡ none)
    pub top_p : (caps.supports_top_p ≡ true) ⊎ (r.top_p ≡ none)
    pub stop : (caps.supports_stop ≡ true) ⊎ (r.stop_sequences ≡ [])
    pub tools : (caps.tools ≡ true) ⊎ (r.tools ≡ [])
    pub parallel : (caps.parallel_tools ≡ true) ⊎ (wants_parallel r.tool_choice ≡ false)
    pub messages : All MessageConforms r.messages

module _ (to_string : Value → Option String) (caps : CapabilityProfile) where
  adapt_block-Conforms :
      (b c : InputBlock) → adapt_block to_string caps b ≡ ok c → BlockConforms caps c
  unfolding adapt_block adapt_result
  adapt_block-Conforms (image m d) c h = ground arith
  adapt_block-Conforms (tool_result i v e) c h = ground arith
  adapt_block-Conforms (Domain.InputBlock.text t) c h = ground arith
  adapt_block-Conforms (tool_use i n v) c h = ground arith

  adapt_blocks-Conforms :
      (bs cs : List InputBlock)
      → adapt_blocks to_string caps bs ≡ ok cs
      → All (BlockConforms caps) cs
  unfolding adapt_blocks
  adapt_blocks-Conforms [] cs h = ground arith
  adapt_blocks-Conforms (b ∷ bs) cs h =
      let (c, eb, h1) = >>=-eq-ok (adapt_block to_string caps b) _ h in
      let (ds, ebs, h2) = >>=-eq-ok (adapt_blocks to_string caps bs) _ h1 in
      let e : c ∷ ds ≡ cs = cc h2 in
      rw (← e) (adapt_block-Conforms b c eb, adapt_blocks-Conforms bs ds ebs)

  adapt_messages-Conforms :
      (ms ns : List NormalizedMessage)
      → adapt_messages to_string caps ms ≡ ok ns
      → All (MessageConforms caps) ns
  unfolding adapt_messages
  adapt_messages-Conforms [] cs h = ground arith
  adapt_messages-Conforms (m ∷ ms) ns h =
      let (bs, eb, h1) = >>=-eq-ok (adapt_blocks to_string caps m.blocks) _ h in
      let (ds, ebs, h2) = >>=-eq-ok (adapt_messages to_string caps ms) _ h1 in
      let n : NormalizedMessage = record m { blocks = bs } in
      let e : n ∷ ds ≡ ns = cc h2 in
      rw (← e) (adapt_blocks-Conforms m.blocks bs eb, adapt_messages-Conforms ms ds ebs)

module _ (caps : CapabilityProfile) (r s : NormalizedRequest) where
  adapt_max_tokens_lem :
      adapt_max_tokens caps r ≡ ok s
      → (s.max_tokens ≤ caps.max_output_tokens) × (s ≡ record r { max_tokens = s.max_tokens })
  unfolding adapt_max_tokens
  adapt_max_tokens_lem h = ground arith

  pub adapt_temperature_lem :
      adapt_temperature caps r ≡ ok s
      → ((caps.supports_temperature ≡ true) ⊎ (s.temperature ≡ none))
        × (s ≡ record r { temperature = s.temperature })
  unfolding adapt_temperature
  adapt_temperature_lem h = ground arith

  pub adapt_top_p_lem :
      adapt_top_p caps r ≡ ok s
      → ((caps.supports_top_p ≡ true) ⊎ (s.top_p ≡ none)) × (s ≡ record r { top_p = s.top_p })
  unfolding adapt_top_p
  adapt_top_p_lem h = ground arith

  pub adapt_stop_lem :
      adapt_stop caps r ≡ ok s
      → ((caps.supports_stop ≡ true) ⊎ (s.stop_sequences ≡ []))
        × (s ≡ record r { stop_sequences = s.stop_sequences })
  unfolding adapt_stop
  adapt_stop_lem h = ground arith

  pub check_tools_lem : check_tools caps r ≡ ok s → ((caps.tools ≡ true) ⊎ (s.tools ≡ [])) × (s ≡ r)
  unfolding check_tools
  check_tools_lem h = ground arith

  pub adapt_parallel_lem :
      adapt_parallel caps r ≡ ok s
      → ((caps.parallel_tools ≡ true) ⊎ (wants_parallel s.tool_choice ≡ false))
        × (s ≡ record r { tool_choice = s.tool_choice })
  unfolding adapt_parallel wants_parallel without_parallel
  adapt_parallel_lem h = ground arith

module _ (to_string : Value → Option String) (caps : CapabilityProfile) where
  adapt_content_lem :
      (r s : NormalizedRequest)
      → adapt_content to_string caps r ≡ ok s
      → All (MessageConforms caps) s.messages × (s ≡ record r { messages = s.messages })
  unfolding adapt_content
  adapt_content_lem r s h =
      let (ms, e, h1) = >>=-eq-ok (adapt_messages to_string caps r.messages) _ h in
      let eq : record r { messages = ms } ≡ s = cc h1 in
      rw (← eq) (adapt_messages-Conforms to_string caps r.messages ms e, refl)

  -- A request that `adapt_request` lets through stays within the profile of the target: the token
  -- limit, the sampling and stop parameters, tools, parallel calls, and in every block of every
  -- message no image without vision and no tool result that is not a string.
  pub adapt_request-Conforms :
      (request adapted : NormalizedRequest)
      → adapt_request to_string caps request ≡ ok adapted
      → Conforms caps adapted
  unfolding adapt_request
  adapt_request-Conforms r a h =
      let (r1, e1, h1) = >>=-eq-ok (adapt_max_tokens caps r) _ h in
      let (r2, e2, h2) = >>=-eq-ok (adapt_temperature caps r1) _ h1 in
      let (r3, e3, h3) = >>=-eq-ok (adapt_top_p caps r2) _ h2 in
      let (r4, e4, h4) = >>=-eq-ok (adapt_stop caps r3) _ h3 in
      let (r5, e5, h5) = >>=-eq-ok (check_tools caps r4) _ h4 in
      let (r6, e6, h6) = >>=-eq-ok (adapt_parallel caps r5) _ h5 in
      let (q1, s1) = adapt_max_tokens_lem caps r r1 e1 in
      let (q2, s2) = adapt_temperature_lem caps r1 r2 e2 in
      let (q3, s3) = adapt_top_p_lem caps r2 r3 e3 in
      let (q4, s4) = adapt_stop_lem caps r3 r4 e4 in
      let (q5, s5) = check_tools_lem caps r4 r5 e5 in
      let (q6, s6) = adapt_parallel_lem caps r5 r6 e6 in
      let (q7, s7) = adapt_content_lem r6 a h6 in
      record {
        max_tokens = ground arith;
        temperature = ground arith;
        top_p = ground arith;
        stop = ground arith;
        tools = ground arith;
        parallel = ground arith;
        messages = q7;
      }
