-- ===== src/Server/Count/Examples.antt =====
-- A request for a count with a configured key, and what is left of the permits.
use calude_proxy.Base.{ℕ, String, Option, some, []}
use calude_proxy.Error.{Result, ok}
use calude_proxy.Json.{Value, obj}
use calude_proxy.Domain.{AnthropicRequest}
use calude_proxy.Auth.Keys.Examples.{plain, same_text, bearer}
use calude_proxy.Anthropic.Normalize.Examples.{any_base64, https_only, request}
use calude_proxy.Server.{Accepted}
use calude_proxy.Server.Holds.Examples.{is_listed, runtime, unused}
use calude_proxy.Server.Count.{CountPayload, value, count_tokens}
use calude_proxy.Server.Count.Released.{SameInUse, CountedAs, count_tokens_releases}

abbrev always_request : Value → Option AnthropicRequest
always_request v = some request

abbrev no_message : Value → String
no_message v = ""

abbrev ten : Accepted String → Result ℕ
ten accepted = ok 10

abbrev payload : CountPayload
payload = value (obj [])

count_tokens_releases_example :
    let done =
      count_tokens plain same_text is_listed any_base64 https_only always_request no_message ten
        runtime 100 bearer payload unused in
    SameInUse unused done.0
    × CountedAs plain same_text is_listed any_base64 https_only always_request no_message ten
        runtime bearer payload done.1
count_tokens_releases_example =
    count_tokens_releases plain same_text is_listed any_base64 https_only always_request no_message
      ten runtime 100 bearer payload unused
