-- ===== src/Routing/Candidates/Configured.antt =====
-- The routes of a configuration that `AppConfig::validate` has accepted. `make` stands for
-- `Provider::new`, and the table of the providers is the one that `Router::new` collects.
use calude_proxy.Base.{
  ℕ, ◌≤◌, ◌<◌, ◌≡◌, refl, sym, String, Bool, true, Option, some, List, [], ◌∷◌, map, All, All-map,
  one_of, Bool-cases, inl, inr, eq_iff, ◌=?◌, ◌+◌,
}
use calude_proxy.Error.{Result, ok}
use calude_proxy.Json.{lookup}
use calude_proxy.Domain.{NormalizedRequest}
use calude_proxy.Config.{AppConfig, ProviderConfig, RouteConfig, SecretRef}
use calude_proxy.Config.Validate.{Url, provider_ids, validate}
use calude_proxy.Config.Validate.Entries.{RouteIsValid, TargetIsValid}
use calude_proxy.Config.Validate.Guarantees.{validate-IsValid}
use calude_proxy.Provider.{Provider}
use calude_proxy.Routing.Circuits.{Circuits}
use calude_proxy.Routing.Order.{Candidate}
use calude_proxy.Routing.Candidates.{Ready, candidates}
use calude_proxy.Routing.Candidates.Eligible.{Answers, IsKnown, candidates_lem}

-- `Router::new`: the providers by their ids.
unfoldable pub provider_table :
    (ProviderConfig → Provider) → List ProviderConfig → List (String × Provider)
provider_table make [] = []
provider_table make (config ∷ rest) = (config.id, make config) ∷ provider_table make rest

lookup-provider_table :
    (make : ProviderConfig → Provider) (configs : List ProviderConfig) (id : String)
    → one_of id (map (λ p. p.id) configs) ≡ true
    → (p : Provider) × (lookup id (provider_table make configs) ≡ some p)
unfolding provider_table
lookup-provider_table make [] id h = cc
lookup-provider_table make (config ∷ rest) id h = elim (Bool-cases (config.id =? id)) [
  | inl hit ↦ (make config, rw hit refl)
  | inr miss ↦ elim (Bool-cases (id =? config.id)) [
    | inl same ↦ let back = (eq_iff config.id id).1 (sym ((eq_iff id config.id).0 same)) in cc
    | inr other ↦ let (p, e) = lookup-provider_table make rest id (rw other at h) in (p, rw miss e)
  ]
]

module _ (make : ProviderConfig → Provider) (adapt : Provider → Result NormalizedRequest)
    (clock : ℕ → ℕ) (random : ℕ → ℕ → ℕ) (config : AppConfig) where
  abbrev table : List (String × Provider)
  table = provider_table make config.providers

  -- Whatever the circuits are, the candidates of a route are computed, and are what they are to be.
  abbrev pub IsServed : RouteConfig → Type 0
  IsServed route =
      (circuits : Circuits)
      → (after : Circuits) × (result : Result (List (Candidate Ready))) × (candidates table adapt
            clock random route.targets circuits
          ≡ some (after, result))
        × Answers table adapt clock circuits route.targets result

  module _ (parse_url : String → Option Url) (url_error : String → String)
      (header_name_valid : String → Bool) (resolve : SecretRef → Result String) where
    -- On a configuration that `validate` accepts, with a clock that does not go back and a random
    -- source that stays below the total that it is given, the candidates of every route are computed
    -- without a panic, whatever the circuits and the answers of `adapt`: no target lacks its
    -- provider, and no draw is made from an empty range. The result is the eligible targets in the
    -- order of their priorities, or the error that stands for there being none.
    pub validate-IsServed :
        validate parse_url url_error header_name_valid resolve config ≡ ok tt
        → ((i : ℕ) → clock i ≤ clock (i + 1))
        → ((round total : ℕ) → 0 < total → random round total < total)
        → All IsServed config.routes
    validate-IsServed accepted forward in_range =
        let valid =
          validate-IsValid parse_url url_error header_name_valid resolve config accepted in
        All-map (RouteIsValid (provider_ids config)) IsServed
          (λ route v circuits.
            candidates_lem table adapt clock forward random in_range route.targets circuits
              (All-map (TargetIsValid (provider_ids config)) (IsKnown table adapt clock)
                (λ target t. lookup-provider_table make config.providers target.provider t.known)
                route.targets v.targets_are_valid)
              (All-map (TargetIsValid (provider_ids config)) (λ target. 0 < target.weight)
                (λ target t. t.weighted) route.targets v.targets_are_valid))
          config.routes valid.routes_are_valid
