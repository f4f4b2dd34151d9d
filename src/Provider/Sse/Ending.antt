-- ===== src/Provider/Sse/Ending.antt =====
-- How `parse_sse` ends.
use calude_proxy.Base.{
  ℕ, ◌≡◌, refl, sym, ap, ◌∙◌, String, Bool, true, false, Option, none, some, List, [], ◌∷◌, ◌++◌,
  any, strip_prefix, trim, from_utf8, if◌then◌else◌,
}
use calude_proxy.Error.{Result, ok, err, ok_or}
use calude_proxy.Json.{Value}
use calude_proxy.Domain.{ProviderEvent, StopReason, Usage, is_finished}
use calude_proxy.Provider.Emits.{Emits, pure, emit, lift, follow, ◌>>=◌, ◌>>◌}
use calude_proxy.Provider.Sse.{
  Progress, Line, next, returned, per_line, split_lines, strip_cr, Delivery, bytes, broken, finish,
  on_data, on_line, on_lines, parse_from, parse_sse,
}
use calude_proxy.Provider.Sse.Shape.{any-append, IsQuiet, IsQuiet-lift, on_chunk-IsQuiet}
use mathlib.Core.List.{append_assoc, append-nil}

-- The events end with `Finished`, and have no other.
unfoldable pub Ends : List ProviderEvent → Type 0
Ends events =
    (before : List ProviderEvent) × (reason : StopReason) × (usage : Option Usage) × (events
      ≡ before ++ ProviderEvent.finished reason usage ∷ [])
    × (any is_finished before ≡ false)

-- What a stream yields, by how it ends: without an error, it ends with `Finished`; before an error,
-- there is no `Finished`.
unfoldable pub Yields : List ProviderEvent → Result (Unit {0}) → Type 0
Yields events (ok u) = Ends events
Yields events (err e) = any is_finished events ≡ false

-- The same for a part that handles lines.
LineYields : List ProviderEvent → Result Line → Type 0
LineYields events (ok (next p)) = any is_finished events ≡ false
LineYields events (ok returned) = Ends events
LineYields events (err e) = any is_finished events ≡ false

record IsStream (m : Emits (Unit {0})) : Type 0 where
  yields : Yields m.events m.result

record IsLine (m : Emits Line) : Type 0 where
  yields : LineYields m.events m.result

Ends-after : (xs ys : List ProviderEvent) → any is_finished xs ≡ false → Ends ys → Ends (xs ++ ys)
unfolding Ends
Ends-after xs ys h (before, reason, usage, split, none_before) = (
  xs ++ before,
  reason,
  usage,
  ap (λ zs. xs ++ zs) split
      ∙ sym (append_assoc xs before (ProviderEvent.finished reason usage ∷ [])),
  any-append xs before h none_before,
)

Yields-after :
    (xs ys : List ProviderEvent) (r : Result (Unit {0}))
    → any is_finished xs ≡ false
    → Yields ys r
    → Yields (xs ++ ys) r
unfolding Yields
Yields-after xs ys (ok u) h k = Ends-after xs ys h k
Yields-after xs ys (err e) h k = any-append xs ys h k

LineYields-after :
    (xs ys : List ProviderEvent) (r : Result Line)
    → any is_finished xs ≡ false
    → LineYields ys r
    → LineYields (xs ++ ys) r
unfolding LineYields
LineYields-after xs ys (ok (next p)) h k = any-append xs ys h k
LineYields-after xs ys (ok returned) h k = Ends-after xs ys h k
LineYields-after xs ys (err e) h k = any-append xs ys h k

IsStream-follow {ℓ} :
    {A : Type ℓ} (xs : List ProviderEvent) (r : Result A) (f : A → Emits (Unit {0}))
    → any is_finished xs ≡ false
    → ((a : A) → IsStream (f a))
    → IsStream (follow xs r f)
IsStream-follow xs (ok a) f h k = record {
  yields = Yields-after xs (f a).events (f a).result h (k a).yields;
}
IsStream-follow xs (err e) f h k = record { yields = unfold Yields in h }

IsStream-bind {ℓ} :
    {A : Type ℓ} (m : Emits A) (f : A → Emits (Unit {0}))
    → IsQuiet m
    → ((a : A) → IsStream (f a))
    → IsStream (m >>= f)
unfolding ◌>>=◌
IsStream-bind m f h k = IsStream-follow m.events m.result f h.none_finished k

IsLine-follow {ℓ} :
    {A : Type ℓ} (xs : List ProviderEvent) (r : Result A) (f : A → Emits Line)
    → any is_finished xs ≡ false
    → ((a : A) → IsLine (f a))
    → IsLine (follow xs r f)
IsLine-follow xs (ok a) f h k = record {
  yields = LineYields-after xs (f a).events (f a).result h (k a).yields;
}
IsLine-follow xs (err e) f h k = record { yields = unfold LineYields in h }

IsLine-bind {ℓ} :
    {A : Type ℓ} (m : Emits A) (f : A → Emits Line)
    → IsQuiet m
    → ((a : A) → IsLine (f a))
    → IsLine (m >>= f)
unfolding ◌>>=◌
IsLine-bind m f h k = IsLine-follow m.events m.result f h.none_finished k

IsLine-next : (p : Progress) → IsLine (pure (next p))
unfolding LineYields
IsLine-next p = record { yields = refl }

-- A stream that ends in a line, and then returns.
returns :
    (xs : List ProviderEvent) (r : Result (Unit {0}))
    → Yields xs r
    → IsLine (follow xs r (λ u. pure returned))
unfolding Yields LineYields
returns xs (ok u) k = record { yields = rw append-nil k }
returns xs (err e) k = record { yields = k }

returns-IsLine : (m : Emits (Unit {0})) → IsStream m → IsLine (m >> pure returned)
unfolding ◌>>=◌
returns-IsLine m h = returns m.events m.result h.yields

per_line-follow :
    (xs : List ProviderEvent) (r : Result Line) (go : Progress → Emits (Unit {0}))
    → LineYields xs r
    → ((q : Progress) → IsStream (go q))
    → IsStream (follow xs r (per_line go (pure tt)))
unfolding LineYields
per_line-follow xs (ok (next p)) go h k =
    IsStream-follow {A = Unit {0}} xs (ok tt) (λ u. go p) h (λ u. k p)
per_line-follow xs (ok returned) go h k = record { yields = unfold Yields in rw append-nil h }
per_line-follow xs (err e) go h k = record { yields = unfold Yields in h }

per_line-IsStream :
    (m : Emits Line) (go : Progress → Emits (Unit {0}))
    → IsLine m
    → ((q : Progress) → IsStream (go q))
    → IsStream (m >>= per_line go (pure tt))
unfolding ◌>>=◌
per_line-IsStream m go h k = per_line-follow m.events m.result go h.yields k

per_line-again :
    (xs : List ProviderEvent) (r : Result Line) (go : Progress → Emits Line)
    → LineYields xs r
    → ((q : Progress) → IsLine (go q))
    → IsLine (follow xs r (per_line go (pure returned)))
unfolding LineYields
per_line-again xs (ok (next p)) go h k =
    IsLine-follow {A = Unit {0}} xs (ok tt) (λ u. go p) h (λ u. k p)
per_line-again xs (ok returned) go h k = record { yields = unfold LineYields in rw append-nil h }
per_line-again xs (err e) go h k = record { yields = unfold LineYields in h }

per_line-IsLine :
    (m : Emits Line) (go : Progress → Emits Line)
    → IsLine m
    → ((q : Progress) → IsLine (go q))
    → IsLine (m >>= per_line go (pure returned))
unfolding ◌>>=◌
per_line-IsLine m go h k = per_line-again m.events m.result go h.yields k

emit_finished-IsStream :
    (reason : StopReason) (usage : Option Usage)
    → IsStream (emit (ProviderEvent.finished reason usage))
unfolding Yields Ends
emit_finished-IsStream reason usage = record { yields = ([], reason, usage, refl, refl) }

IsLine-if : (b : Bool) (m n : Emits Line) → IsLine m → IsLine n → IsLine (if b then m else n)
IsLine-if true m n h k = h
IsLine-if false m n h k = k

module _ (from_str : String → Option Value) (json_error : String → String) where
  finish-IsStream :
      (p : Progress) (message : String) → IsStream (finish from_str json_error p message)
  unfolding finish
  finish-IsStream p message = search (IsStream-bind, IsQuiet-lift, emit_finished-IsStream)

  on_data-IsLine : (p : Progress) (text : String) → IsLine (on_data from_str json_error p text)
  unfolding on_data
  on_data-IsLine p text =
      search
        (
          IsLine-if, IsLine-next, returns-IsLine, finish-IsStream, IsLine-bind, IsQuiet-lift,
          on_chunk-IsQuiet,
        )
        depth 20

  on_text-IsLine :
      (p : Progress) (data' : Option String)
      → IsLine (elim data' [
        | none ↦ pure (next p)
        | some text ↦ on_data from_str json_error p (trim text)
      ])
  on_text-IsLine p none = IsLine-next p
  on_text-IsLine p (some text) = on_data-IsLine p (trim text)

  on_line-IsLine : (p : Progress) (raw : List ℕ) → IsLine (on_line from_str json_error p raw)
  unfolding on_line
  on_line-IsLine p raw =
      IsLine-bind (lift (ok_or (from_utf8 (strip_cr raw)) _)) _ (IsQuiet-lift _)
        (λ line. on_text-IsLine p (strip_prefix "data:" line))

  on_lines-IsLine :
      (p : Progress) (lines : List (List ℕ)) → IsLine (on_lines from_str json_error p lines)
  unfolding on_lines
  on_lines-IsLine p [] = IsLine-next p
  on_lines-IsLine p (raw ∷ rest) =
      per_line-IsLine (on_line from_str json_error p raw) (λ q. on_lines from_str json_error q rest)
        (on_line-IsLine p raw) (λ q. on_lines-IsLine q rest)

  parse_from-IsStream :
      (p : Progress) (buffer : List ℕ) (input : List Delivery)
      → IsStream (parse_from from_str json_error p buffer input)
  unfolding parse_from
  parse_from-IsStream p buffer [] = finish-IsStream p _
  parse_from-IsStream p buffer (broken error ∷ rest) = record { yields = unfold Yields in refl }
  parse_from-IsStream p buffer (bytes chunk ∷ rest) =
      let cut = split_lines (buffer ++ chunk) in
      per_line-IsStream (on_lines from_str json_error p cut.0)
        (λ q. parse_from from_str json_error q cut.1 rest) (on_lines-IsLine p cut.0)
        (λ q. parse_from-IsStream q cut.1 rest)

  -- Whatever the provider delivers, a stream that ends without an error ends with `Finished` and has
  -- no other; and one that ends with an error has no `Finished` at all.
  pub parse_sse-Yields :
      (input : List Delivery)
      → Yields
          (parse_sse from_str json_error input).events
          (parse_sse from_str json_error input).result
  unfolding parse_sse
  parse_sse-Yields input = (parse_from-IsStream _ [] input).yields
