-- ===== src/Server/Stream/Recorded/Examples.antt =====
-- A stream that breaks after its first piece of text.
use calude_proxy.Base.{◌≡◌, List, [], ◌∷◌}
use calude_proxy.Error.{ErrorKind, new}
use calude_proxy.Domain.{ProviderEvent}
use calude_proxy.Config.{default_profile, CredentialConfig, ProviderKind, SecretRef}
use calude_proxy.Provider.{Provider}
use calude_proxy.Provider.Circuit.{closed}
use calude_proxy.Routing.Circuits.{Circuits}
use calude_proxy.Server.Stream.{Upstream, arrived, failed, body}
use calude_proxy.Server.Stream.Recorded.{relay, outcome, Agrees, body-Agrees}

abbrev provider : Provider
provider = record {
  id = "p";
  kind = ProviderKind.openai_chat;
  endpoint = "https://api.example.com/v1";
  credential = CredentialConfig.bearer (SecretRef.env "KEY");
  capabilities = default_profile;
  failure_threshold = 5;
  cooldown = 30;
}

abbrev all_closed : Circuits
all_closed id = closed

abbrev broken_stream : List Upstream
broken_stream = arrived (ProviderEvent.text "He") ∷ failed (new ErrorKind.upstream "reset") ∷ []

body-Agrees_example :
    (body "msg_1" "claude" "req_1" 5 (relay provider 100 broken_stream all_closed).0
      ≡ body "msg_1" "claude" "req_1" 5 broken_stream)
    × Agrees provider 100 all_closed "req_1"
        (outcome broken_stream)
        (body "msg_1" "claude" "req_1" 5 broken_stream)
        (relay provider 100 broken_stream all_closed).1
body-Agrees_example = body-Agrees provider 100 all_closed "req_1" "msg_1" "claude" 5 broken_stream
