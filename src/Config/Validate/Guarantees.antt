-- ===== src/Config/Validate/Guarantees.antt =====
-- What a configuration that `AppConfig::validate` accepts is known to satisfy.
use calude_proxy.Base.{
  ◌<◌, ◌≡◌, refl, String, Bool, true, false, ◌&&◌, ◌||◌, Option, some, [], map, any, is_empty,
  is_blank, All, turned,
}
use calude_proxy.Error.{Result, ok, ok_or, >>=-eq-ok}
use calude_proxy.Config.{AppConfig, ProviderConfig, SecretRef, SecretOrLiteral, credential_secret}
use calude_proxy.Config.Validate.{
  Url, is_given, starts_with, unique_id, eq_ignore_ascii_case, forbidden, provider_ids, route_ids,
  each_unique, each_valid, check_route, check_client, validate_header_name, check_provider,
  validate,
}
use calude_proxy.Anthropic.Normalize.Bounds.{distinct, passed, passed_last, not-not}
use calude_proxy.Config.Validate.Entries.{
  positive, given, unique_id_lem, each_valid-All, each_unique-All, Takes, RouteIsValid,
  ClientIsValid, check_route-RouteIsValid, check_client-ClientIsValid,
}
use calude_proxy.Anthropic.Normalize.Limits.{or_false}

module _ (parse_url : String → Option Url) (url_error : String → String)
    (header_name_valid : String → Bool) (resolve : SecretRef → Result String) where
  -- A header that may be sent: one that does not replace a header of the proxy's own.
  abbrev pub HeaderIsValid : String × SecretOrLiteral → Type 0
  HeaderIsValid header =
      (eq_ignore_ascii_case header.0 "authorization" ≡ false)
      × (eq_ignore_ascii_case header.0 "api-key" ≡ false)
      × (eq_ignore_ascii_case header.0 "host" ≡ false)
      × (eq_ignore_ascii_case header.0 "content-length" ≡ false)
      × (eq_ignore_ascii_case header.0 "connection" ≡ false)
      × (eq_ignore_ascii_case header.0 "transfer-encoding" ≡ false)
      × (header_name_valid header.0 ≡ true)

  pub record ProviderIsValid (provider : ProviderConfig) : Type 0 where
    pub named : is_blank provider.id ≡ false
    pub endpoint_is_bare :
        (url : Url) × (parse_url provider.endpoint ≡ some url)
        × (is_blank url.username ≡ true)
        × (is_given url.password ≡ false)
    pub endpoint_is_secure :
        (starts_with "https://" provider.endpoint
          || provider.allow_insecure_http && starts_with "http://" provider.endpoint)
        ≡ true
    pub has_secret :
        (secret : String) × (resolve (credential_secret provider.credential) ≡ ok secret)
    pub headers_are_valid : All HeaderIsValid provider.headers

  validate_header_name-HeaderIsValid :
      (header : String × SecretOrLiteral)
      → validate_header_name header_name_valid header.0 ≡ ok tt
      → HeaderIsValid header
  unfolding validate_header_name
  validate_header_name-HeaderIsValid header h =
      let (a, k) = passed (any (eq_ignore_ascii_case header.0) forbidden) _ _ h in
      let (authorization, a1) = or_false _ _ a in
      let (api_key, a2) = or_false _ _ a1 in
      let (host, a3) = or_false _ _ a2 in
      let (content_length, a4) = or_false _ _ a3 in
      let (connection, a5) = or_false _ _ a4 in
      let (transfer_encoding, a6) = or_false _ _ a5 in
      (
        authorization,
        api_key,
        host,
        content_length,
        connection,
        transfer_encoding,
        not-not _ (passed_last _ _ k),
      )

  check_provider-ProviderIsValid :
      Takes ProviderIsValid
        (λ p. p.id)
        (check_provider parse_url url_error header_name_valid resolve)
  unfolding check_provider
  check_provider-ProviderIsValid ids provider every h =
      let (more, e, h1) = >>=-eq-ok (unique_id ids "provider" provider.id) _ h in
      let (named, new_id, same) = unique_id_lem ids "provider" provider.id e in
      let (url, e2, h2) = >>=-eq-ok (ok_or (parse_url provider.endpoint) _) _ h1 in
      let (g, h3) = passed _ _ _ h2 in
      let (username, password) = or_false _ _ g in
      let (secure, h4) = passed _ _ _ h3 in
      let (secret, found, h5) = >>=-eq-ok (resolve (credential_secret provider.credential)) _ h4 in
      let (u, e6, h6) =
        >>=-eq-ok
          (each_valid (λ header. validate_header_name header_name_valid header.0) provider.headers)
          _ h5 in
      let last : more ≡ every = cc h6 in
      (
        record {
          named = named;
          endpoint_is_bare = (url, given _ _ e2, not-not _ username, password);
          endpoint_is_secure = not-not _ secure;
          has_secret = (secret, found);
          headers_are_valid =
              each_valid-All _ _ validate_header_name-HeaderIsValid provider.headers e6;
        },
        new_id,
        rw (← last) same,
      )

  pub record IsValid (config : AppConfig) : Type 0 where
    pub some_clients : is_empty config.clients ≡ false
    pub some_providers : is_empty config.providers ≡ false
    pub some_routes : is_empty config.routes ≡ false
    pub some_concurrency : 0 < config.limits.global_concurrency
    pub some_attempts : 0 < config.limits.max_attempts
    pub providers_are_valid : All ProviderIsValid config.providers
    pub providers_differ : distinct (turned (provider_ids config) []) ≡ true
    pub routes_are_valid : All (RouteIsValid (provider_ids config)) config.routes
    pub routes_differ : distinct (turned (route_ids config) []) ≡ true
    pub clients_are_valid : All (ClientIsValid resolve (route_ids config)) config.clients
    pub clients_differ : distinct (turned (map (λ c. c.id) config.clients) []) ≡ true

  -- A configuration that `validate` accepts has clients, providers and routes, each kind with ids
  -- that are not empty and differ; the `global_concurrency` and `max_attempts` of the limits above
  -- zero; providers with a parsed endpoint without credentials, over HTTPS unless plain HTTP is
  -- allowed, with a secret that resolves and with valid header names, none of which is
  -- `authorization`, `api-key`, `host`, `content-length`, `connection` or `transfer-encoding` in any
  -- case; routes with models and targets, each target of a configured provider and with a positive
  -- weight; and clients with a key of at least 24 bytes, their own limits above zero and allowed
  -- routes that all exist.
  pub validate-IsValid :
      (config : AppConfig)
      → validate parse_url url_error header_name_valid resolve config ≡ ok tt
      → IsValid config
  unfolding validate
  validate-IsValid config h =
      let (g1, h1) = passed _ _ _ h in
      let (g2, routes) = or_false _ (is_empty config.routes) g1 in
      let (clients, providers) = or_false (is_empty config.clients) _ g2 in
      let (g3, h2) = passed _ _ _ h1 in
      let (concurrency, attempts) = or_false _ _ g3 in
      let (ps, e3, h3) =
        >>=-eq-ok
          (each_unique (check_provider parse_url url_error header_name_valid resolve) []
            config.providers)
          _ h2 in
      let (rs, e4, h4) =
        >>=-eq-ok (each_unique (check_route (provider_ids config)) [] config.routes) _ h3 in
      let (cs, e5, h5) =
        >>=-eq-ok (each_unique (check_client resolve (route_ids config)) [] config.clients) _ h4 in
      let (all_providers, provider_names) =
        each_unique-All _ (λ p. p.id) _ check_provider-ProviderIsValid [] config.providers e3
          refl in
      let (all_routes, route_names) =
        each_unique-All _ (λ r. r.id) _ (check_route-RouteIsValid (provider_ids config)) []
          config.routes e4 refl in
      let (all_clients, client_names) =
        each_unique-All _ (λ c. c.id) _ (check_client-ClientIsValid resolve (route_ids config)) []
          config.clients e5 refl in
      record {
        some_clients = clients;
        some_providers = providers;
        some_routes = routes;
        some_concurrency = positive _ concurrency;
        some_attempts = positive _ attempts;
        providers_are_valid = all_providers;
        providers_differ = provider_names;
        routes_are_valid = all_routes;
        routes_differ = route_names;
        clients_are_valid = all_clients;
        clients_differ = client_names;
      }
