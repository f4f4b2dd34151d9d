-- ===== src/Routing/Candidates/Examples.antt =====
-- Two targets of one provider, whose circuit is closed.
use calude_proxy.Base.{ℕ, ◌≡◌, refl, true, false, String, none, some, List, [], ◌∷◌, arith}
use calude_proxy.Error.{Result, ok}
use calude_proxy.Domain.{NormalizedRequest}
use calude_proxy.Config.{TargetConfig, default_profile, CredentialConfig, ProviderKind, SecretRef}
use calude_proxy.Provider.{Provider}
use calude_proxy.Provider.Circuit.{closed, available}
use calude_proxy.Routing.Circuits.{Circuits, update, available-is_open}
use calude_proxy.Routing.Order.Examples.{one_ordered}
use calude_proxy.Routing.Order.{Candidate}
use calude_proxy.Routing.Candidates.{Ready, candidates, gather, consider, finish}
use calude_proxy.Routing.Candidates.Eligible.{Answers, candidates_lem}

abbrev pub provider : Provider
provider = record {
  id = "p";
  kind = ProviderKind.openai_chat;
  endpoint = "https://api.example.com/v1";
  credential = CredentialConfig.bearer (SecretRef.env "KEY");
  capabilities = default_profile;
  failure_threshold = 5;
  cooldown = 30;
}

abbrev request : NormalizedRequest
request = record {
  original_model = "haiku";
  max_tokens = 10;
  messages = [];
  temperature = none;
  top_p = none;
  stop_sequences = [];
  tools = [];
  tool_choice = none;
  stream = false;
}

abbrev targets : List TargetConfig
targets =
    record { provider = "p"; model = "m"; priority = 2; weight = 1 }
    ∷ record { provider = "p"; model = "n"; priority = 1; weight = 4 }
    ∷ []

abbrev pub providers : List (String × Provider)
providers = ("p", provider) ∷ []

abbrev unchanged : Provider → Result NormalizedRequest
unchanged p = ok request

abbrev pub ticking : ℕ → ℕ
ticking i = i

abbrev pub all_closed : Circuits
all_closed id = closed

abbrev pub zero_draw : ℕ → ℕ → ℕ
zero_draw round total = 0

candidates_lem_example :
    (after : Circuits) × (result : Result (List (Candidate Ready))) × (candidates providers
        unchanged ticking zero_draw targets all_closed
      ≡ some (after, result))
    × Answers providers unchanged ticking all_closed targets result
candidates_lem_example =
    candidates_lem providers unchanged ticking (λ i. omega arith) zero_draw (λ round total h. h)
      targets all_closed ((provider, refl), ((provider, refl), tt)) (omega arith, (omega arith, tt))

abbrev pub one_target : List TargetConfig
one_target = record { provider = "p"; model = "m"; priority = 1; weight = 1 } ∷ []

abbrev pub one_candidate : NormalizedRequest → Candidate Ready
one_candidate adapted = record {
  target = record { provider = "p"; model = "m"; priority = 1; weight = 1 };
  payload = record { provider = provider; request = adapted };
}

free : (available 0 closed).1 ≡ true
unfolding closed
free = available-is_open 0 closed

-- The one target is the one candidate, with what the request is adapted to.
pub one_found :
    (adapt : Provider → Result NormalizedRequest) (adapted : NormalizedRequest)
    → adapt provider ≡ ok adapted
    → candidates providers adapt ticking zero_draw one_target all_closed
      ≡ some (update all_closed "p" (available 0 closed).0, ok (one_candidate adapted ∷ []))
unfolding candidates gather consider finish
one_found adapt adapted h =
    let ready : Ready = record { provider = provider; request = adapted } in
    rw (h, free, finish, one_ordered ready) (rw (h, consider, free) refl)
