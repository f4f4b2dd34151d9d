-- ===== src/Process/Settings.antt =====
-- The comparison of the server settings in `spawn_reload`.
use calude_proxy.Base.{
  ℕ, ◌≡◌, refl, ap, String, Bool, true, false, ◌&&◌, Option, none, some, ◌==◌, eq_iff, arith,
}
use calude_proxy.Config.{ServerConfig}
use calude_proxy.Process.{same_flag, same_bind, same_server}

-- The derived `==` is equality.
both : (a b : Bool) → (a && b) ≡ true → (a ≡ true) × (b ≡ true)
both true b h = (refl, h)
both false b h = cc

same_flag_eq : (a b : Bool) → same_flag a b ≡ true → a ≡ b
same_flag_eq true true h = refl
same_flag_eq true false h = cc
same_flag_eq false true h = cc
same_flag_eq false false h = refl

same_bind_eq : (a b : Option String) → same_bind a b ≡ true → a ≡ b
same_bind_eq none none h = refl
same_bind_eq none (some b) h = cc
same_bind_eq (some a) none h = cc
same_bind_eq (some a) (some b) h = ap some ((eq_iff a b).0 h)

same_number : (a b : ℕ) → (a == b) ≡ true → a ≡ b
same_number a b h = ground arith

pub same_server_eq : (a b : ServerConfig) → same_server a b ≡ true → a ≡ b
unfolding same_server
same_server_eq a b h =
    let (h1, loose) = both _ _ h in
    let (h2, version) = both _ _ h1 in
    let (h3, grace) = both _ _ h2 in
    let (h4, body) = both _ _ h3 in
    let (bound, metrics) = both _ _ h4 in
    let e1 = (eq_iff a.bind b.bind).0 bound in
    let e2 = same_bind_eq _ _ metrics in
    let e3 = same_number _ _ body in
    let e4 = same_number _ _ grace in
    let e5 = same_flag_eq _ _ version in
    let e6 = same_flag_eq _ _ loose in
    λ i. record {
      bind = e1 i;
      metrics_bind = e2 i;
      max_body_bytes = e3 i;
      shutdown_grace_seconds = e4 i;
      require_anthropic_version = e5 i;
      loose_input_validation = e6 i;
    }
