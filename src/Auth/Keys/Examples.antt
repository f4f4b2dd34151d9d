-- ===== src/Auth/Keys/Examples.antt =====
-- A client with one key, which stands for its own hash here.
use calude_proxy.Base.{
  ◌≤◌, ◌≡◌, refl, String, Bool, true, none, some, [], ◌∷◌, byte_len, strip_prefix, ◌=?◌,
  if◌then◌else◌,
}
use calude_proxy.Error.{Result, ok}
use mathlib.Core.List.{Mem}
use calude_proxy.Config.{ClientConfig, SecretRef}
use calude_proxy.Auth.{
  ClientIdentity, Headers, extract_key, registry, register, identity, authenticate,
}
use calude_proxy.Auth.Keys.{registry-authenticate}

abbrev pub key : String
key = "0123456789abcdef01234567"

abbrev pub client : ClientConfig
client = record {
  id = "ci";
  key = SecretRef.env "CI_KEY";
  allowed_routes = [];
  requests_per_minute = 60;
  concurrent_requests = 2;
}

abbrev resolved : SecretRef → Result String
resolved secret = ok key

abbrev pub plain : String → String
plain text = text

abbrev pub same_text : String → String → Bool
same_text s t = s =? t

abbrev pub bearer : Headers
bearer name = if name =? "authorization" then some "Bearer 0123456789abcdef01234567" else none

abbrev pub entered : ClientIdentity String
entered = identity plain client key

registry_built : registry plain resolved (client ∷ []) ≡ ok (entered ∷ [])
unfolding registry register
registry_built = refl

let_in : authenticate plain same_text (entered ∷ []) bearer ≡ ok entered
unfolding authenticate extract_key strip_prefix identity
let_in = refl

registry-authenticate_example :
    (presented : String) × (config : ClientConfig) × (found : String) × (extract_key bearer
      ≡ some presented)
    × Mem config (client ∷ [])
    × (resolved config.key ≡ ok found)
    × (24 ≤ byte_len found)
    × (entered ≡ identity plain config found)
    × (same_text (plain found) (plain presented) ≡ true)
registry-authenticate_example =
    registry-authenticate plain resolved same_text (client ∷ []) bearer entered registry_built
      let_in
