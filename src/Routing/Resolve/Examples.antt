-- ===== src/Routing/Resolve/Examples.antt =====
-- Two routes, of which one matches.
use calude_proxy.Base.{◌≡◌, ◌↔◌, String, Bool, List, [], ◌∷◌, one_of}
use calude_proxy.Error.{ok}
use calude_proxy.Routing.Resolve.{Route, resolve, Only, resolve_iff}

abbrev is_listed : List String → String → Bool
is_listed models model = one_of model models

abbrev large : Route
large = record { id = "large"; models = "opus" ∷ []; targets = [] }

abbrev small : Route
small = record { id = "small"; models = "haiku" ∷ []; targets = [] }

resolve_iff_example :
    (resolve is_listed (large ∷ small ∷ []) "haiku" ≡ ok small)
    ↔ Only is_listed "haiku" (large ∷ small ∷ []) small
resolve_iff_example = resolve_iff is_listed (large ∷ small ∷ []) "haiku" small
