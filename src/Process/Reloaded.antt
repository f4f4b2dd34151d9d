-- ===== src/Process/Reloaded.antt =====
-- What is in service after any number of reloads.
use mathlib.Core.List.{Mem, mem-cons_self, mem-cons_of_mem}
use calude_proxy.Base.{
  ℕ, ◌+◌, ◌≤◌, ◌<◌, ◌≡◌, refl, ◌∙◌, String, Bool, Option, some, List, [], ◌∷◌, map, All, ◌++◌,
  subst, Bool-cases, inl, inr,
}
use calude_proxy.Error.{Result, ok, err, >>=-eq-ok}
use calude_proxy.Domain.{NormalizedRequest}
use calude_proxy.Config.{AppConfig, LimitsConfig, RouteConfig}
use calude_proxy.Config.Validate.{Url, validate}
use calude_proxy.Config.Validate.Guarantees.{IsValid, validate-IsValid}
use calude_proxy.Auth.{registry}
use calude_proxy.Provider.{Provider}
use calude_proxy.Routing.Resolve.{Route}
use calude_proxy.Routing.Circuits.{Circuits}
use calude_proxy.Routing.Order.{Candidate}
use calude_proxy.Routing.Candidates.{Ready, candidates}
use calude_proxy.Routing.Candidates.Configured.{provider_table, IsServed, validate-IsServed}
use calude_proxy.Process.Settings.{same_server_eq}
use calude_proxy.Process.Construction.Filled.{new_providers-ok, compile_all-ok}
use calude_proxy.Process.{Surroundings, same_server, load, load_runtime, after_load, reloaded}
use calude_proxy.Process.Construction.{
  Runtime, provider_of, route_of, new_providers, compile_all, new_runtime,
}

module _ {ℓ} {Digest : Type ℓ} (parse_url : String → Option Url) (url_error : String → String)
    (header_name_valid : String → Bool) (sha256 : String → Digest)
    (header_value_valid : String → Bool) (client_error : LimitsConfig → Option String)
    (glob_error : String → Option String) (set_error : List String → Option String)
    (from_yaml : String → Option AppConfig) (yaml_error : String → String) (path : String)
    (adapt : Provider → Result NormalizedRequest) (clock : ℕ → ℕ) (random : ℕ → ℕ → ℕ) where
  -- The candidates of a route are computed from the runtime's own table of providers.
  abbrev pub Works : List (String × Provider) → Route → Type 0
  Works providers route =
      (circuits : Circuits)
      → (after : Circuits) × (result : Result (List (Candidate Ready))) × (candidates providers
            adapt clock random route.targets circuits
          ≡ some (after, result))

  -- A runtime that serves what a configuration says that was valid in its surroundings.
  pub record Serves (now : Surroundings) (runtime : Runtime Digest) : Type ℓ where
    pub valid : IsValid parse_url url_error header_name_valid now.resolve runtime.config
    pub registered : registry sha256 now.resolve runtime.config.clients ≡ ok runtime.clients
    pub routed : runtime.routes ≡ map route_of runtime.config.routes
    pub provided :
        runtime.providers
        ≡ provider_table (provider_of runtime.config.limits) runtime.config.providers
    pub works : All (Works runtime.providers) runtime.routes

  -- In service: built from a configuration of some time, and with the first server settings.
  pub record InService (first : Runtime Digest) (times : List Surroundings)
      (runtime : Runtime Digest) : Type ℓ where
    pub then' : Surroundings
    pub present : Mem then' times
    pub serves : Serves then' runtime
    pub same_listener : runtime.config.server ≡ first.config.server

  InService-later :
      (first current : Runtime Digest) (now : Surroundings) (times : List Surroundings)
      → InService first times current
      → InService first (now ∷ times) current
  InService-later first current now times before = record {
    then' = before.then';
    present = mem-cons_of_mem now before.present;
    serves = before.serves;
    same_listener = before.same_listener;
  }

  after_load-InService :
      (first current : Runtime Digest) (now : Surroundings) (times : List Surroundings)
      (answer : Result (Runtime Digest))
      → ((runtime : Runtime Digest) → answer ≡ ok runtime → Serves now runtime)
      → InService first times current
      → InService first (now ∷ times) (
          after_load parse_url url_error header_name_valid sha256 header_value_valid client_error
            glob_error set_error from_yaml yaml_error path current answer)
  unfolding after_load
  after_load-InService first current now times (err e) built before =
      InService-later first current now times before
  after_load-InService first current now times (ok runtime) built before =
      elim (Bool-cases (same_server runtime.config.server current.config.server)) [
        | inl same ↦ rw same (record {
          then' = now;
          present = mem-cons_self;
          serves = built runtime refl;
          same_listener = same_server_eq _ _ same ∙ before.same_listener;
        })
        | inr differs ↦ rw differs (InService-later first current now times before)
      ]

  Works-routes :
      (config : AppConfig) (routes : List RouteConfig)
      → All (IsServed (provider_of config.limits) adapt clock random config) routes
      → All
          (Works (provider_table (provider_of config.limits) config.providers))
          (map route_of routes)
  Works-routes config [] h = tt
  Works-routes config (route ∷ rest) h = (
    λ circuits. let (after, result, e, answers) = h.0 circuits in (after, result, e),
    Works-routes config rest h.1,
  )

  module _ (forward : (i : ℕ) → clock i ≤ clock (i + 1))
      (in_range : (round total : ℕ) → 0 < total → random round total < total) where
    new_runtime-Serves :
        (now : Surroundings) (config : AppConfig) (runtime : Runtime Digest)
        → new_runtime parse_url url_error header_name_valid sha256 header_value_valid client_error
            glob_error set_error now.resolve config
          ≡ ok runtime
        → Serves now runtime
    unfolding new_runtime
    new_runtime-Serves now config runtime h =
        let (u, accepted, h1) =
          >>=-eq-ok (validate parse_url url_error header_name_valid now.resolve config) _ h in
        let (clients, entered, h2) = >>=-eq-ok (registry sha256 now.resolve config.clients) _ h1 in
        let (table, made, h3) =
          >>=-eq-ok
            (new_providers header_name_valid header_value_valid client_error now.resolve
              config.limits config.providers)
            _ h2 in
        let (routes, compiled, h4) =
          >>=-eq-ok (compile_all glob_error set_error config.routes) _ h3 in
        let provided =
          new_providers-ok header_name_valid header_value_valid client_error now.resolve
            config.limits config.providers made in
        let routed = compile_all-ok glob_error set_error config.routes compiled in
        let works = Works-routes config config.routes (
          validate-IsServed (provider_of config.limits) adapt clock random config parse_url
            url_error header_name_valid now.resolve accepted forward in_range) in
        let built : Runtime Digest = record {
          config = config;
          clients = clients;
          routes = routes;
          providers = table;
          max_attempts = config.limits.max_attempts;
          global_concurrency = config.limits.global_concurrency;
        } in
        let same : built ≡ runtime = cc h4 in
        subst (Serves now) same (record {
          valid =
              validate-IsValid parse_url url_error header_name_valid now.resolve config accepted;
          registered = entered;
          routed = routed;
          provided = provided;
          works = rw (provided, routed) works;
        })

    load_runtime-Serves :
        (now : Surroundings) (runtime : Runtime Digest)
        → load_runtime parse_url url_error header_name_valid sha256 header_value_valid client_error
            glob_error set_error from_yaml yaml_error path now
          ≡ ok runtime
        → Serves now runtime
    unfolding load_runtime
    load_runtime-Serves now runtime h =
        let (config, loaded, h1) =
          >>=-eq-ok (load parse_url url_error header_name_valid from_yaml yaml_error path now) _
            h in
        new_runtime-Serves now config runtime h1

    -- After a start that succeeds and any number of SIGHUPs, whatever the file and the secrets are at
    -- each: the runtime in service has the server settings of the start, and was built from a
    -- configuration that was valid at the start or at one of the signals, with the secrets of
    -- then; every client of it is registered, its routes and providers are those of the
    -- configuration, and the candidates of every route are computed without a panic, if the clock
    -- does not go back and the random source stays in its range.
    pub reloaded-InService :
        (start : Surroundings) (first : Runtime Digest) (signals : List Surroundings)
        → load_runtime parse_url url_error header_name_valid sha256 header_value_valid client_error
            glob_error set_error from_yaml yaml_error path start
          ≡ ok first
        → InService first (signals ++ start ∷ []) (
            reloaded parse_url url_error header_name_valid sha256 header_value_valid client_error
              glob_error set_error from_yaml yaml_error path first signals)
    unfolding reloaded
    reloaded-InService start first [] started = record {
      then' = start;
      present = mem-cons_self;
      serves = load_runtime-Serves start first started;
      same_listener = refl;
    }
    reloaded-InService start first (now ∷ earlier) started =
        after_load-InService first _ now (earlier ++ start ∷ []) _
          (λ runtime h. load_runtime-Serves now runtime h)
          (reloaded-InService start first earlier started)
