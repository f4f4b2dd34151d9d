-- ===== src/Routing/Tokens.antt =====
-- `Provider::count_tokens` of src/provider.rs, and what `Router::count_tokens` and the head of
-- `Router::stream` of src/routing.rs make of the candidates. `count` stands for `count_tokens` of
-- src/anthropic.rs with its tokenizers.
pub mod Agree
pub mod Examples
use calude_proxy.Base.{ℕ, String, Option, none, some, List, [], ◌∷◌}
use calude_proxy.Error.{ErrorKind, Result, ok, err, new, ◌>>=◌}
use calude_proxy.Json.{Value}
use calude_proxy.Domain.{NormalizedRequest}
use calude_proxy.Config.{TargetConfig}
use calude_proxy.Provider.{Provider}
use calude_proxy.Provider.Adapt.{adapt_request}
use calude_proxy.Routing.Circuits.{Circuits}
use calude_proxy.Routing.Order.{Candidate}
use calude_proxy.Routing.Candidates.{Ready, candidates}

module _ (to_string : Value → Option String)
    (count : NormalizedRequest → (tokenizer : String) → Result ℕ) where
  pub provider_count : Provider → NormalizedRequest → Result ℕ
  provider_count p request = do
    adapted ← adapt_request to_string p.capabilities request
    count adapted p.capabilities.tokenizer

  -- `candidates.first()` with its count, or the error for none.
  pub first_count : List (Candidate Ready) → Result ℕ
  first_count [] = err (new ErrorKind.overloaded "no healthy target is available")
  first_count (c ∷ rest) = provider_count c.payload.provider c.payload.request

  -- The estimate of the input tokens that a stream starts with.
  pub estimate : List (Candidate Ready) → Result ℕ
  estimate [] = ok 0
  estimate (c ∷ rest) = provider_count c.payload.provider c.payload.request

  module _ (providers : List (String × Provider)) (clock : ℕ → ℕ) (random : ℕ → ℕ → ℕ) where
    pub route_count :
        List TargetConfig → NormalizedRequest → Circuits → Option (Circuits × Result ℕ)
    route_count targets request circuits =
        elim (candidates providers (λ p. adapt_request to_string p.capabilities request) clock
          random targets circuits) [
            | none ↦ none
            | some (after, found) ↦ some (after, found >>= first_count)
          ]
