-- ===== src/Config/Validate/Entries.antt =====
-- What the loops of `AppConfig::validate` establish for each route and each client.
use calude_proxy.Base.{
  ℕ, ◌≤◌, ◌<◌, ◌≡◌, String, true, false, Option, none, some, List, [], ◌∷◌, map, is_empty, is_blank,
  one_of, byte_len, All, turned, ◌==◌, arith,
}
use calude_proxy.Error.{ProxyError, Result, ok, ok_or, >>=-eq-ok}
use calude_proxy.Config.{ClientConfig, RouteConfig, TargetConfig, SecretRef}
use calude_proxy.Config.Validate.{
  unique_id, each_unique, each_valid, check_target, check_route, check_allowed, check_client,
}
use calude_proxy.Anthropic.Normalize.Bounds.{distinct, passed, passed_last, not-not}
use calude_proxy.Anthropic.Normalize.Limits.{or_false, not_less}

pub positive : (n : ℕ) → (n == 0) ≡ false → 0 < n
positive n h = ground arith

pub given {ℓ} : {A : Type ℓ} (x : Option A) (e : ProxyError) {a : A} → ok_or x e ≡ ok a → x ≡ some a
given none e h = cc
given (some b) e h = cc

pub unique_id_lem :
    (ids : List String) (kind id : String) {more : List String}
    → unique_id ids kind id ≡ ok more
    → (is_blank id ≡ false) × (one_of id ids ≡ false) × (more ≡ id ∷ ids)
unfolding unique_id
unique_id_lem ids kind id {more} h =
    let (g, k) = passed _ _ _ h in
    let (a, b) = or_false _ _ g in let same : more ≡ id ∷ ids = cc k in (a, b, same)

pub each_valid-All {ℓ κ} :
    {A : Type ℓ} (P : A → Type κ) (body : A → Result (Unit {0}))
    → ((x : A) → body x ≡ ok tt → P x)
    → (xs : List A) → each_valid body xs ≡ ok tt
    → All P xs
unfolding each_valid
each_valid-All P body p [] h = tt
each_valid-All P body p (x ∷ rest) h =
    let (u, e, k) = >>=-eq-ok (body x) _ h in (p x e, each_valid-All P body p rest k)

-- What a body says of its element, when it takes the element's name into the set.
abbrev pub Takes {ℓ κ} :
    {A : Type ℓ}
    → (A → Type κ)
    → (A → String)
    → (List String → A → Result (List String))
    → Type (ℓ ⊔ κ)
Takes {A = A} P name body =
    (ids : List String) (x : A) (more : List String)
    → body ids x ≡ ok more
    → P x × (one_of (name x) ids ≡ false) × (more ≡ name x ∷ ids)

pub each_unique-All {ℓ κ} :
    {A : Type ℓ} (P : A → Type κ) (name : A → String)
    (body : List String → A → Result (List String))
    → Takes P name body
    → (ids : List String) (xs : List A) {every : List String} → each_unique body ids xs ≡ ok every
    → distinct ids ≡ true
    → All P xs × (distinct (turned (map name xs) ids) ≡ true)
unfolding each_unique
each_unique-All P name body p ids [] h d = (tt, d)
each_unique-All P name body p ids (x ∷ rest) h d =
    let (more, e, k) = >>=-eq-ok (body ids x) _ h in
    let (valid, new_name, same) = p ids x more e in
    let (others, all_differ) =
      each_unique-All P name body p (name x ∷ ids) rest (rw same at k) (rw (new_name, d)) in
    ((valid, others), all_differ)

-- A target of a known provider that can be drawn.
pub record TargetIsValid (providers : List String) (target : TargetConfig) : Type 0 where
  pub known : one_of target.provider providers ≡ true
  pub weighted : 0 < target.weight

pub record RouteIsValid (providers : List String) (route : RouteConfig) : Type 0 where
  pub named : is_blank route.id ≡ false
  pub some_models : is_empty route.models ≡ false
  pub some_targets : is_empty route.targets ≡ false
  pub targets_are_valid : All (TargetIsValid providers) route.targets

check_target-TargetIsValid :
    (providers : List String) (route : RouteConfig) (target : TargetConfig)
    → check_target providers route target ≡ ok tt
    → TargetIsValid providers target
unfolding check_target
check_target-TargetIsValid providers route target h =
    let (a, b) = or_false _ _ (passed_last _ _ h) in
    record { known = not-not _ a; weighted = positive _ b }

pub check_route-RouteIsValid :
    (providers : List String) → Takes (RouteIsValid providers) (λ r. r.id) (check_route providers)
unfolding check_route
check_route-RouteIsValid providers ids route every h =
    let (more, e, h1) = >>=-eq-ok (unique_id ids "route" route.id) _ h in
    let (named, new_id, same) = unique_id_lem ids "route" route.id e in
    let (g, h2) = passed _ _ _ h1 in
    let (models, targets) = or_false _ _ g in
    let (u, e3, h3) = >>=-eq-ok (each_valid (check_target providers route) route.targets) _ h2 in
    let last : more ≡ every = cc h3 in
    (
      record {
        named = named;
        some_models = models;
        some_targets = targets;
        targets_are_valid =
            each_valid-All _ _ (check_target-TargetIsValid providers route) route.targets e3;
      },
      new_id,
      rw (← last) same,
    )

pub record ClientIsValid (resolve : SecretRef → Result String) (routes : List String)
    (client : ClientConfig) : Type 0 where
  pub named : is_blank client.id ≡ false
  pub key_is_long : (key : String) × (resolve client.key ≡ ok key) × (24 ≤ byte_len key)
  pub some_permits : 0 < client.concurrent_requests
  pub some_requests : 0 < client.requests_per_minute
  pub routes_are_known : All (λ route. one_of route routes ≡ true) client.allowed_routes

check_allowed-known :
    (routes : List String) (client : ClientConfig) (route : String)
    → check_allowed routes client route ≡ ok tt
    → one_of route routes ≡ true
unfolding check_allowed
check_allowed-known routes client route h = not-not _ (passed_last _ _ h)

pub check_client-ClientIsValid :
    (resolve : SecretRef → Result String) (routes : List String)
    → Takes (ClientIsValid resolve routes) (λ c. c.id) (check_client resolve routes)
unfolding check_client
check_client-ClientIsValid resolve routes ids client every h =
    let (more, e, h1) = >>=-eq-ok (unique_id ids "client" client.id) _ h in
    let (named, new_id, same) = unique_id_lem ids "client" client.id e in
    let (key, found, h2) = >>=-eq-ok (resolve client.key) _ h1 in
    let (long, h3) = passed _ _ _ h2 in
    let (g, h4) = passed _ _ _ h3 in
    let (permits, requests) = or_false _ _ g in
    let (u, e5, h5) =
      >>=-eq-ok (each_valid (check_allowed routes client) client.allowed_routes) _ h4 in
    let last : more ≡ every = cc h5 in
    (
      record {
        named = named;
        key_is_long = (key, found, not_less _ _ long);
        some_permits = positive _ permits;
        some_requests = positive _ requests;
        routes_are_known =
            each_valid-All _ _ (check_allowed-known routes client) client.allowed_routes e5;
      },
      new_id,
      rw (← last) same,
    )
