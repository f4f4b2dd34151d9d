-- ===== src/Provider/Response/Failures.antt =====
-- A reply that cannot be converted is not asked for again from another target.
use calude_proxy.Base.{String, Option, none, some, List, [], ◌∷◌, arith}
use calude_proxy.Error.Final.{
  FailsFinal, FailsFinal-ok, FailsFinal-err, FailsFinal-ok_or, FailsFinal-bind,
}
use calude_proxy.Json.{Value}
use calude_proxy.Provider.Response.{
  OpenAiResponse, OpenAiToolCall, OpenAiChoice, first_choice, parse_calls, map_reason,
  map_stop_reason, convert_response,
}

first_choice-FailsFinal : (choices : List OpenAiChoice) → FailsFinal (first_choice choices)
first_choice-FailsFinal [] = FailsFinal-err _ _
first_choice-FailsFinal (c ∷ rest) = FailsFinal-ok c

map_stop_reason-FailsFinal : (reason : Option String) → FailsFinal (map_stop_reason reason)
unfolding map_stop_reason map_reason
map_stop_reason-FailsFinal none = record { at = λ e h. ground arith }
map_stop_reason-FailsFinal (some reason) = record { at = λ e h. ground arith }

module _ (from_str : String → Option Value) where
  parse_calls-FailsFinal : (calls : List OpenAiToolCall) → FailsFinal (parse_calls from_str calls)
  unfolding parse_calls
  parse_calls-FailsFinal [] = FailsFinal-ok _
  parse_calls-FailsFinal (call ∷ rest) =
      FailsFinal-bind _ _ (FailsFinal-ok_or _ _ _)
        (λ input. FailsFinal-bind _ _ (parse_calls-FailsFinal rest) (λ others. FailsFinal-ok _))

  pub convert_response-FailsFinal :
      (response : OpenAiResponse) (model : String)
      → FailsFinal (convert_response from_str response model)
  unfolding convert_response
  convert_response-FailsFinal response model =
      FailsFinal-bind _ _ (first_choice-FailsFinal response.choices) (λ choice.
        FailsFinal-bind _ _ (parse_calls-FailsFinal choice.message.tool_calls) (λ tools.
          FailsFinal-bind _ _ (map_stop_reason-FailsFinal choice.finish_reason)
            (λ reason. FailsFinal-ok _)))
