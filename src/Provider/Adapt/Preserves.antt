-- ===== src/Provider/Adapt/Preserves.antt =====
-- What `adapt_request` keeps of a request, and how it refuses one.
use Prim.Native.Nat.{min}
use calude_proxy.Base.{
  ◌≡◌, refl, inl, inr, Bool, Option, some, List, [], ◌∷◌, arith, String, Bool-cases, Option-cases,
}
use calude_proxy.Error.{ok, >>=-eq-ok}
use calude_proxy.Json.{Value, string, is_string}
use calude_proxy.Domain.{
  NormalizedRequest, NormalizedMessage, InputBlock, image, tool_result, tool_use,
}
use calude_proxy.Domain
use calude_proxy.Config.{CapabilityProfile}
use calude_proxy.Provider.Adapt.{
  adapt_max_tokens, adapt_temperature, adapt_top_p, adapt_stop, check_tools, adapt_parallel,
  adapt_result, adapt_block, adapt_blocks, adapt_messages, adapt_content, adapt_request,
}
use calude_proxy.Provider.Adapt.Conforms.{
  adapt_temperature_lem, adapt_top_p_lem, adapt_stop_lem, check_tools_lem, adapt_parallel_lem,
}

adapt_max_tokens-min :
    (caps : CapabilityProfile) (r s : NormalizedRequest)
    → adapt_max_tokens caps r ≡ ok s
    → (s.max_tokens ≡ min r.max_tokens caps.max_output_tokens)
      × (s ≡ record r { max_tokens = s.max_tokens })
unfolding adapt_max_tokens
adapt_max_tokens-min caps r s h = ground arith

module _ (to_string : Value → Option String) where
  -- A block is kept, but for the content of a tool result, which may become its JSON text.
  pub data Carries : InputBlock → InputBlock → Type 0 where
    same : (b : InputBlock) → Carries b b
    serialized :
        (id : String) (content : Value) (is_error : Bool) (s : String)
        → to_string content ≡ some s
        → Carries (tool_result id content is_error) (tool_result id (string s) is_error)

  pub data CarriesAll : List InputBlock → List InputBlock → Type 0 where
    nil : CarriesAll [] []
    cons :
        {b c : InputBlock} {bs cs : List InputBlock}
        → Carries b c
        → CarriesAll bs cs
        → CarriesAll (b ∷ bs) (c ∷ cs)

  -- Message by message: the same role, and blocks that are carried over.
  pub data Messages : List NormalizedMessage → List NormalizedMessage → Type 0 where
    nil : Messages [] []
    cons :
        {m n : NormalizedMessage} {ms ns : List NormalizedMessage}
        → n.role ≡ m.role
        → CarriesAll m.blocks n.blocks
        → Messages ms ns
        → Messages (m ∷ ms) (n ∷ ns)

  module _ (caps : CapabilityProfile) where
    adapt_result-Carries :
        (id : String) (content : Value) (is_error : Bool) (c : InputBlock)
        → adapt_result to_string caps id content is_error ≡ ok c
        → Carries (tool_result id content is_error) c
    unfolding adapt_result
    adapt_result-Carries id content is_error c h = elim (Bool-cases (is_string content)) [
      | inl plain ↦ let e : tool_result id content is_error ≡ c = ground arith in rw (← e) (same _)
      | inr structured ↦ elim (Option-cases (to_string content)) [
        | inl failed ↦ absurd (ground arith)
        | inr (s, printed) ↦
            let e : tool_result id (string s) is_error ≡ c = ground arith in
            rw (← e) (serialized id content is_error s printed)
      ]
    ]

    adapt_block-Carries : (b c : InputBlock) → adapt_block to_string caps b ≡ ok c → Carries b c
    unfolding adapt_block
    adapt_block-Carries (image m d) c h = let e : image m d ≡ c = ground arith in rw (← e) (same _)
    adapt_block-Carries (tool_result i v e) c h = adapt_result-Carries i v e c h
    adapt_block-Carries (Domain.InputBlock.text t) c h =
        let e : Domain.InputBlock.text t ≡ c = cc in rw (← e) (same _)
    adapt_block-Carries (tool_use i n v) c h = let e : tool_use i n v ≡ c = cc in rw (← e) (same _)

    adapt_blocks-Carries :
        (bs cs : List InputBlock) → adapt_blocks to_string caps bs ≡ ok cs → CarriesAll bs cs
    unfolding adapt_blocks
    adapt_blocks-Carries [] cs h = let e : [] ≡ cs = cc in rw (← e) CarriesAll.nil
    adapt_blocks-Carries (b ∷ bs) cs h =
        let (c, eb, h1) = >>=-eq-ok (adapt_block to_string caps b) _ h in
        let (ds, ebs, h2) = >>=-eq-ok (adapt_blocks to_string caps bs) _ h1 in
        let e : c ∷ ds ≡ cs = cc h2 in
        rw (← e) (CarriesAll.cons (adapt_block-Carries b c eb) (adapt_blocks-Carries bs ds ebs))

    adapt_messages-Messages :
        (ms ns : List NormalizedMessage) → adapt_messages to_string caps ms ≡ ok ns → Messages ms ns
    unfolding adapt_messages
    adapt_messages-Messages [] ns h = let e : [] ≡ ns = cc in rw (← e) Messages.nil
    adapt_messages-Messages (m ∷ ms) ns h =
        let (bs, eb, h1) = >>=-eq-ok (adapt_blocks to_string caps m.blocks) _ h in
        let (ds, ebs, h2) = >>=-eq-ok (adapt_messages to_string caps ms) _ h1 in
        let n : NormalizedMessage = record m { blocks = bs } in
        let e : n ∷ ds ≡ ns = cc h2 in
        rw (← e) (
          Messages.cons {m = m} {n = n} refl (adapt_blocks-Carries m.blocks bs eb)
            (adapt_messages-Messages ms ds ebs))

    -- Everything but the messages.
    record KeepsHead (r s : NormalizedRequest) : Type 0 where
      model : s.original_model ≡ r.original_model
      stream : s.stream ≡ r.stream
      tools : s.tools ≡ r.tools
      messages : s.messages ≡ r.messages

    head_of_steps :
        (r a : NormalizedRequest)
        → adapt_request to_string caps r ≡ ok a
        → (m : NormalizedRequest) × KeepsHead r m
          × (m.max_tokens ≡ min r.max_tokens caps.max_output_tokens)
          × (adapt_content to_string caps m ≡ ok a)
    unfolding adapt_request
    head_of_steps r a h =
        let (r1, e1, h1) = >>=-eq-ok (adapt_max_tokens caps r) _ h in
        let (r2, e2, h2) = >>=-eq-ok (adapt_temperature caps r1) _ h1 in
        let (r3, e3, h3) = >>=-eq-ok (adapt_top_p caps r2) _ h2 in
        let (r4, e4, h4) = >>=-eq-ok (adapt_stop caps r3) _ h3 in
        let (r5, e5, h5) = >>=-eq-ok (check_tools caps r4) _ h4 in
        let (r6, e6, h6) = >>=-eq-ok (adapt_parallel caps r5) _ h5 in
        let (q1, s1) = adapt_max_tokens-min caps r r1 e1 in
        let (q2, s2) = adapt_temperature_lem caps r1 r2 e2 in
        let (q3, s3) = adapt_top_p_lem caps r2 r3 e3 in
        let (q4, s4) = adapt_stop_lem caps r3 r4 e4 in
        let (q5, s5) = check_tools_lem caps r4 r5 e5 in
        let (q6, s6) = adapt_parallel_lem caps r5 r6 e6 in
        (
          r6,
          record {
            model = cc (s1, s2, s3, s4, s5, s6);
            stream = cc (s1, s2, s3, s4, s5, s6);
            tools = cc (s1, s2, s3, s4, s5, s6);
            messages = cc (s1, s2, s3, s4, s5, s6);
          },
          cc (q1, s1, s2, s3, s4, s5, s6),
          h6,
        )

    -- An adapted request keeps the model, the streaming flag and the tools, asks for the smaller of
    -- the requested tokens and the limit of the target, and has the same messages with the same
    -- roles and blocks, but that the content of a tool result may have become its JSON text.
    pub adapt_request_keeps :
        (request adapted : NormalizedRequest)
        → adapt_request to_string caps request ≡ ok adapted
        → (adapted.original_model ≡ request.original_model)
          × (adapted.stream ≡ request.stream)
          × (adapted.tools ≡ request.tools)
          × (adapted.max_tokens ≡ min request.max_tokens caps.max_output_tokens)
          × Messages request.messages adapted.messages
    unfolding adapt_content
    adapt_request_keeps r a h =
        let (m, k, q, h6) = head_of_steps r a h in
        let (ms, e, h7) = >>=-eq-ok (adapt_messages to_string caps m.messages) _ h6 in
        let eq : record m { messages = ms } ≡ a = cc h7 in
        rw (← eq) (
          k.model,
          k.stream,
          k.tools,
          q,
          rw (← k.messages) (adapt_messages-Messages m.messages ms e),
        )
