-- ===== src/Auth/Permit.antt =====
-- What a request, and its end, do to the permits of a client.
use calude_proxy.Base.{ℕ, ◌+◌, ◌-◌, ◌≤◌, ◌≡◌, arith, refl}
use calude_proxy.Error.{ProxyError, ok, err}
use calude_proxy.Auth.{ClientState, acquire, release}

module _ (rpm limit now : ℕ) (s : ClientState) where
  pub acquire-err :
      (e : ProxyError)
      → (acquire rpm limit now s).1 ≡ err e
      → (acquire rpm limit now s).0.in_use ≡ s.in_use
  unfolding acquire
  acquire-err e h = ground arith

  pub acquire-ok :
      (u : Unit {0})
      → (acquire rpm limit now s).1 ≡ ok u
      → ((acquire rpm limit now s).0.in_use ≡ s.in_use + 1) × (s.in_use + 1 ≤ limit)
  unfolding acquire
  acquire-ok u h = ground arith

pub release-in_use : (s : ClientState) → (release s).in_use ≡ s.in_use - 1
unfolding release
release-in_use s = refl
