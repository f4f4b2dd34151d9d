-- ===== src/Server/Holds/Examples.antt =====
-- A request with a configured key, for the model of the one route.
use calude_proxy.Base.{String, Bool, false, List, [], ◌∷◌, one_of}
use calude_proxy.Auth.Keys.Examples.{plain, same_text, bearer, entered}
use calude_proxy.Anthropic.Normalize.Examples.{any_base64, https_only, request}
use calude_proxy.Server.{Runtime, json, Permits, accept}
use calude_proxy.Server.Holds.{HoldsOf, accept_holds}

abbrev pub is_listed : List String → String → Bool
is_listed models model = one_of model models

abbrev pub runtime : Runtime String
runtime = record {
  require_anthropic_version = false;
  loose_input_validation = false;
  global_concurrency = 4;
  clients = entered ∷ [];
  routes = record { id = "main"; models = "claude-sonnet-4" ∷ []; targets = [] } ∷ [];
}

abbrev pub unused : Permits
unused = record { clients = λ id. record { limiter = []; in_use = 0 }; global = 0 }

accept_holds_example :
    let done =
      accept plain same_text is_listed any_base64 https_only runtime 100 bearer
        (json request)
        unused in
    HoldsOf 4 unused done.0 done.1
accept_holds_example =
    accept_holds plain same_text is_listed any_base64 https_only runtime 100 bearer (json request)
      unused
