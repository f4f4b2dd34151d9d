-- ===== src/Routing/Candidates.antt =====
-- `Router::candidates` of src/routing.rs. `adapt` stands for `Provider::adapt_request` applied to
-- the request; `clock i` is the instant at which the `i`-th target's circuit is asked; `none` is a
-- panic.
pub mod Configured
pub mod Eligible
pub mod Examples
use calude_proxy.Base.{
  ℕ, suc, ◌+◌, String, Bool, true, false, Option, none, some, List, [], ◌∷◌, ◌++◌, ◌=?◌,
  if◌then◌else◌,
}
use calude_proxy.Error.{ProxyError, ErrorKind, Result, ok, err, new}
use calude_proxy.Json.{unwrap_or, lookup}
use calude_proxy.Domain.{NormalizedRequest}
use calude_proxy.Config.{TargetConfig}
use calude_proxy.Provider.{Provider}
use calude_proxy.Provider.Circuit.{available}
use calude_proxy.Routing.Circuits.{Circuits, update}
use calude_proxy.Routing.Order.{Candidate, weighted_priority_order}

-- What a target is queued with.
pub record Ready : Type 0 where
  pub provider : Provider
  pub request : NormalizedRequest

-- The variables of the loop over the targets.
pub record Gathered : Type 0 where
  pub circuits : Circuits
  pub compatible : List (Candidate Ready)
  pub capability_error : Option ProxyError

-- `capability_error.get_or_insert(error)`.
abbrev pub first_error : Option ProxyError → ProxyError → Option ProxyError
first_error none e = some e
first_error (some old) e = some old

-- The body of the loop, once the provider is found.
pub consider :
    (now : ℕ) (provider : Provider) (target : TargetConfig) (adapted : Result NormalizedRequest)
    → Gathered
    → Gathered
consider now provider target (err e) g = record g {
  capability_error = first_error g.capability_error e;
}
consider now provider target (ok request) g =
    let (state, free) = available now (g.circuits provider.id) in
    let asked = update g.circuits provider.id state in
    let entry : Candidate Ready = record {
      target = target;
      payload = record { provider = provider; request = request };
    } in
    if free
    then record g { circuits = asked; compatible = g.compatible ++ entry ∷ [] }
    else record g { circuits = asked }

-- The end of the function: an error if no target is left, and the order otherwise.
pub finish : (ℕ → ℕ → ℕ) → Gathered → Option (Circuits × Result (List (Candidate Ready)))
finish random g = elim g.compatible [
  | [] ↦ some (
    g.circuits,
    err (
        unwrap_or g.capability_error
          (new ErrorKind.overloaded "all route targets have open circuits")),
  )
  | c ∷ rest ↦ elim (weighted_priority_order random (c ∷ rest)) [
    | none ↦ none
    | some ordered ↦ some (g.circuits, ok ordered)
  ]
]

module _ (providers : List (String × Provider)) (adapt : Provider → Result NormalizedRequest)
    (clock : ℕ → ℕ) where
  pub gather : ℕ → List TargetConfig → Gathered → Option Gathered
  gather i [] g = some g
  gather i (target ∷ rest) g = elim (lookup target.provider providers) [
    | none ↦ none
    | some provider ↦ gather (i + 1) rest (consider (clock i) provider target (adapt provider) g)
  ]

  pub candidates :
      (random : ℕ → ℕ → ℕ)
      → List TargetConfig
      → Circuits
      → Option (Circuits × Result (List (Candidate Ready)))
  candidates random targets circuits =
      elim (gather 0 targets
        (record { circuits = circuits; compatible = []; capability_error = none })) [
          | none ↦ none
          | some g ↦ finish random g
        ]
