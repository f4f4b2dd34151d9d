-- ===== src/Process/Construction/Filled.antt =====
-- What `Router::new` fills its tables with.
use calude_proxy.Base.{◌≡◌, String, Bool, Option, List, [], ◌∷◌, map}
use calude_proxy.Error.{Result, ok, >>=-eq-ok}
use calude_proxy.Config.{LimitsConfig, ProviderConfig, RouteConfig, SecretRef}
use calude_proxy.Config.Validate.{each_valid}
use calude_proxy.Provider.{Provider}
use calude_proxy.Routing.Resolve.{Route}
use calude_proxy.Routing.Candidates.Configured.{provider_table}
use calude_proxy.Process.Construction.{
  provider_of, route_of, reject_with, check_header, new_provider, new_providers, compile,
  compile_all,
}

module _ (header_name_valid header_value_valid : String → Bool)
    (client_error : LimitsConfig → Option String) (resolve : SecretRef → Result String) where
  new_provider-ok :
      (limits : LimitsConfig) (config : ProviderConfig) {p : Provider}
      → new_provider header_name_valid header_value_valid client_error resolve limits config ≡ ok p
      → p ≡ provider_of limits config
  unfolding new_provider
  new_provider-ok limits config h =
      let (u, e1, h1) =
        >>=-eq-ok
          (each_valid (check_header header_name_valid header_value_valid client_error resolve)
            config.headers)
          _ h in
      let (v, e2, h2) = >>=-eq-ok (reject_with (client_error limits) _) _ h1 in cc h2

  pub new_providers-ok :
      (limits : LimitsConfig) (configs : List ProviderConfig) {table : List (String × Provider)}
      → new_providers header_name_valid header_value_valid client_error resolve limits configs
        ≡ ok table
      → table ≡ provider_table (provider_of limits) configs
  unfolding new_providers provider_table
  new_providers-ok limits [] h = cc h
  new_providers-ok limits (config ∷ rest) h =
      let (p, e1, h1) =
        >>=-eq-ok
          (new_provider header_name_valid header_value_valid client_error resolve limits config) _
          h in
      let (others, e2, h2) =
        >>=-eq-ok
          (new_providers header_name_valid header_value_valid client_error resolve limits rest) _
          h1 in
      let same = new_provider-ok limits config e1 in
      let later = new_providers-ok limits rest e2 in cc

module _ (glob_error : String → Option String) (set_error : List String → Option String) where
  compile-ok :
      (config : RouteConfig) {route : Route}
      → compile glob_error set_error config ≡ ok route
      → route ≡ route_of config
  unfolding compile
  compile-ok config h =
      let (u, e1, h1) = >>=-eq-ok (each_valid _ config.models) _ h in
      let (v, e2, h2) = >>=-eq-ok (reject_with (set_error config.models) _) _ h1 in cc h2

  pub compile_all-ok :
      (configs : List RouteConfig) {routes : List Route}
      → compile_all glob_error set_error configs ≡ ok routes
      → routes ≡ map route_of configs
  unfolding compile_all
  compile_all-ok [] h = cc h
  compile_all-ok (config ∷ rest) h =
      let (route, e1, h1) = >>=-eq-ok (compile glob_error set_error config) _ h in
      let (others, e2, h2) = >>=-eq-ok (compile_all glob_error set_error rest) _ h1 in
      let same = compile-ok config e1 in let later = compile_all-ok rest e2 in cc
