-- ===== src/Provider.antt =====
-- src/provider.rs: one upstream provider. The children hold its parts.
pub mod Circuit
pub mod Adapt
pub mod Messages
pub mod Body
pub mod Response
pub mod Status
pub mod Emits
pub mod Sse
pub mod Calls
use calude_proxy.Base.{ℕ, String}
use calude_proxy.Config.{CapabilityProfile, CredentialConfig, ProviderKind}

-- The fields of `Provider` that do not change. The HTTP client is not modelled, and the circuit
-- state is kept by the router's store, under the provider's id.
pub record Provider : Type 0 where
  pub id : String
  pub kind : ProviderKind
  pub endpoint : String
  pub credential : CredentialConfig
  pub capabilities : CapabilityProfile
  pub failure_threshold : ℕ
  pub cooldown : ℕ
