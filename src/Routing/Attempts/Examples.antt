-- ===== src/Routing/Attempts/Examples.antt =====
-- Two targets: the first is overloaded, the second answers.
use calude_proxy.Base.{ℕ, zero, suc, ◌≡◌, ◌≤◌, none, false, List, [], ◌∷◌, length, take}
use calude_proxy.Error.{ProxyError, ErrorKind, new, with_retryable}
use calude_proxy.Domain.{NormalizedRequest}
use calude_proxy.Config.{default_profile, CredentialConfig, ProviderKind, SecretRef}
use calude_proxy.Provider.{Provider}
use calude_proxy.Provider.Circuit.{closed}
use calude_proxy.Routing.Circuits.{Circuits}
use calude_proxy.Routing.Order.{Candidate}
use calude_proxy.Routing.Candidates.{Ready}
use calude_proxy.Routing.Attempts.{Outcome, answered, failed, execute}
use calude_proxy.Routing.Attempts.Verdict.{tried, last_reply, AllRetried, execute_verdict}

abbrev provider : Provider
provider = record {
  id = "p";
  kind = ProviderKind.openai_chat;
  endpoint = "https://api.example.com/v1";
  credential = CredentialConfig.bearer (SecretRef.env "KEY");
  capabilities = default_profile;
  failure_threshold = 5;
  cooldown = 30;
}

abbrev request : NormalizedRequest
request = record {
  original_model = "haiku";
  max_tokens = 10;
  messages = [];
  temperature = none;
  top_p = none;
  stop_sequences = [];
  tools = [];
  tool_choice = none;
  stream = false;
}

abbrev candidate : Candidate Ready
candidate = record {
  target = record { provider = "p"; model = "m"; priority = 1; weight = 1 };
  payload = record { provider = provider; request = request };
}

abbrev both : List (Candidate Ready)
both = candidate ∷ candidate ∷ []

abbrev busy : ProxyError
busy = with_retryable (new ErrorKind.overloaded "busy")

abbrev second_answers : ℕ → Candidate Ready → Outcome ℕ
second_answers zero c = failed busy
second_answers (suc i) c = answered 7

abbrev all_closed : Circuits
all_closed id = closed

abbrev stopped_clock : ℕ → ℕ
stopped_clock i = 100

execute_verdict_example :
    ((execute second_answers stopped_clock 2 both all_closed).1
      ≡ last_reply "upstream request timed out" [] (tried second_answers 0 (take 2 both)))
    × AllRetried (tried second_answers 0 (take 2 both))
    × (length (tried second_answers 0 (take 2 both)) ≤ 2)
execute_verdict_example = execute_verdict second_answers stopped_clock 2 both all_closed
