-- ===== src/Routing/Tokens/Examples.antt =====
-- The count of a short request on a route of one target.
use Prim.Native.String.{count}
use calude_proxy.Base.{◌≡◌, refl, String, some, List, arith}
use calude_proxy.Error.{Result, ok}
use calude_proxy.Json.{Value}
use calude_proxy.Domain.{NormalizedRequest}
use calude_proxy.Config.{default_profile}
use calude_proxy.Anthropic.Tokens.{
  Tokenizer, loaded, broken, block_tokens, blocks_tokens, messages_tokens, tools_tokens,
  tokenizer_for, count_tokens,
}
use calude_proxy.Provider.{Provider}
use calude_proxy.Provider.Adapt.{adapt_request}
use calude_proxy.Provider.Adapt.Identity.{adapt_request_id_iff}
use calude_proxy.Provider.Body.Examples.{no_printer, request, request-Conforms}
use calude_proxy.Provider.Circuit.{closed, available}
use calude_proxy.Routing.Circuits.{Circuits, update}
use calude_proxy.Routing.Order.{Candidate}
use calude_proxy.Routing.Order.Examples.{zero_draw}
use calude_proxy.Routing.Candidates.{Ready, candidates}
use calude_proxy.Routing.Candidates.Examples.{
  provider, providers, ticking, all_closed, one_target, one_found,
}
use calude_proxy.Routing.Tokens.{provider_count, first_count, route_count}
use calude_proxy.Routing.Tokens.Agree.{Counts, route_count-Counts}

-- One token for each character.
abbrev letters : Tokenizer
letters = loaded count

abbrev missing : Tokenizer
missing = broken "no such file"

abbrev no_text : Value → String
no_text value = ""

abbrev adapt : Provider → Result NormalizedRequest
adapt p = adapt_request no_printer p.capabilities request

abbrev after : Circuits
after = update all_closed "p" (available 0 closed).0

request_unchanged : adapt_request no_printer default_profile request ≡ ok request
request_unchanged = (adapt_request_id_iff no_printer default_profile request).1 request-Conforms

request_counted : count_tokens letters missing no_text request "o200k_base" ≡ ok 12
unfolding count_tokens tokenizer_for messages_tokens blocks_tokens block_tokens tools_tokens
request_counted = refl

route_counted :
    route_count no_printer
      (count_tokens letters missing no_text)
      providers
      ticking
      zero_draw
      one_target
      request
      all_closed
    ≡ some (after, ok 12)
unfolding route_count first_count provider_count
route_counted =
    rw (one_found adapt request request_unchanged, route_count, request_unchanged, request_counted)
      refl

route_count-Counts_example :
    (cs : List (Candidate Ready)) × (candidates providers adapt ticking zero_draw one_target
        all_closed
      ≡ some (after, ok cs))
    × Counts no_printer letters missing no_text cs 12
route_count-Counts_example =
    route_count-Counts no_printer letters missing no_text providers ticking (λ i. omega arith)
      zero_draw (λ round total h. h) one_target request all_closed after 12 ((provider, refl), tt)
      (omega arith, tt) route_counted
