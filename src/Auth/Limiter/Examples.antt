-- ===== src/Auth/Limiter/Examples.antt =====
-- A client that may send two requests a minute, and have one open.
use calude_proxy.Base.{◌≡◌, ◌↔◌, ◌≤◌, ◌<◌, List, [], ◌∷◌, arith}
use calude_proxy.Error.{ok}
use calude_proxy.Auth.{acquire}
use calude_proxy.Auth.Limiter.{
  Event, requested, released, run, grants, recent, in_minute, rate_bound, acquire_iff,
}

abbrev burst : List Event
burst = requested 30 ∷ requested 20 ∷ released ∷ requested 10 ∷ []

rate_bound_example : in_minute 5 (grants 2 1 burst) ≤ 2
rate_bound_example = rate_bound 2 1 burst 40 5 (omega arith, (omega arith, (omega arith, tt)))

acquire_iff_example :
    ((acquire 2 1 75 (run 2 1 burst)).1 ≡ ok tt)
    ↔ ((recent 75 (grants 2 1 burst) < 2) × ((run 2 1 burst).in_use < 1))
acquire_iff_example = acquire_iff 2 1 burst 75 (omega arith, (omega arith, (omega arith, tt)))
