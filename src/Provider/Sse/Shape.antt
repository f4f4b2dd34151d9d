-- ===== src/Provider/Sse/Shape.antt =====
-- The shape of what `parse_sse` yields.
use calude_proxy.Base.{
  ℕ, ◌≡◌, refl, String, Bool, true, false, Option, none, some, List, [], ◌∷◌, ◌++◌, any,
  if◌then◌else◌, Bool-cases, inl, inr,
}
use calude_proxy.Error.{Result, ok, err}
use calude_proxy.Json.{Value}
use calude_proxy.Domain.{ProviderEvent, Usage, is_finished}
use calude_proxy.Provider.Emits.{Emits, pure, emit, lift, follow, ◌>>=◌, ◌>>◌}
use calude_proxy.Provider.Sse.{
  Progress, StreamedTool, chunk_usage, on_usage, start_tool, push_call_arguments, on_call, on_calls,
  on_content, on_reason, on_choice, on_choices, on_chunk,
}

pub any-append :
    (xs ys : List ProviderEvent)
    → any is_finished xs ≡ false
    → any is_finished ys ≡ false
    → any is_finished (xs ++ ys) ≡ false
any-append [] ys h k = k
any-append (x ∷ xs) ys h k = elim (Bool-cases (is_finished x)) [
  | inl ends ↦ let never = rw ends at h in cc
  | inr goes_on ↦ rw goes_on (any-append xs ys (rw goes_on at h) k)
]

-- A part that does not end the message.
pub record IsQuiet {ℓ} {A : Type ℓ} (m : Emits A) : Type 0 where
  pub none_finished : any is_finished m.events ≡ false

module _ {ℓ} {A : Type ℓ} where
  pub IsQuiet-pure : (a : A) → IsQuiet (pure a)
  IsQuiet-pure a = record { none_finished = refl }

  pub IsQuiet-lift : (r : Result A) → IsQuiet (lift r)
  IsQuiet-lift r = record { none_finished = refl }

  pub IsQuiet-if : (b : Bool) (m n : Emits A) → IsQuiet m → IsQuiet n → IsQuiet (if b then m else n)
  IsQuiet-if true m n h k = h
  IsQuiet-if false m n h k = k

IsQuiet-emit : (e : ProviderEvent) → is_finished e ≡ false → IsQuiet (emit e)
IsQuiet-emit e h = record { none_finished = rw h }

IsQuiet-follow {ℓ κ} :
    {A : Type ℓ} {B : Type κ} (events : List ProviderEvent) (r : Result A) (f : A → Emits B)
    → any is_finished events ≡ false
    → ((a : A) → IsQuiet (f a))
    → IsQuiet (follow events r f)
IsQuiet-follow events (ok a) f h k = record {
  none_finished = any-append events (f a).events h (k a).none_finished;
}
IsQuiet-follow events (err e) f h k = record { none_finished = h }

pub IsQuiet-bind {ℓ κ} :
    {A : Type ℓ} {B : Type κ} (m : Emits A) (f : A → Emits B)
    → IsQuiet m
    → ((a : A) → IsQuiet (f a))
    → IsQuiet (m >>= f)
unfolding ◌>>=◌
IsQuiet-bind m f h k = IsQuiet-follow m.events m.result f h.none_finished k

pub IsQuiet-text : (t : String) → IsQuiet (emit (ProviderEvent.text t))
unfolding is_finished
IsQuiet-text t = IsQuiet-emit _ refl

pub IsQuiet-usage : (u : Usage) → IsQuiet (emit (ProviderEvent.usage u))
unfolding is_finished
IsQuiet-usage u = IsQuiet-emit _ refl

pub IsQuiet-tool_start :
    (i : ℕ) (id name : String) → IsQuiet (emit (ProviderEvent.tool_start i id name))
unfolding is_finished
IsQuiet-tool_start i id name = IsQuiet-emit _ refl

pub IsQuiet-tool_delta : (i : ℕ) (t : String) → IsQuiet (emit (ProviderEvent.tool_delta i t))
unfolding is_finished
IsQuiet-tool_delta i t = IsQuiet-emit _ refl

pub ruleset quiet = (
  IsQuiet-text, IsQuiet-usage, IsQuiet-tool_start, IsQuiet-tool_delta, IsQuiet-bind, IsQuiet-if,
  IsQuiet-lift, IsQuiet-pure,
)

on_usage-IsQuiet : (p : Progress) (chunk : Value) → IsQuiet (on_usage p chunk)
unfolding on_usage
on_usage-IsQuiet p chunk = go (chunk_usage chunk)
  where
    go :
        (o : Option Usage)
        → IsQuiet {A = Progress} (elim o [
          | none ↦ pure p
          | some usage ↦
              emit (ProviderEvent.usage usage) >> pure (record p { final_usage = some usage })
        ])
    go none = search (quiet)
    go (some u) = search (quiet)

start_tool-IsQuiet : (i : ℕ) (t : StreamedTool) → IsQuiet (start_tool i t)
unfolding start_tool
start_tool-IsQuiet i t = search (quiet) depth 20

push_call_arguments-IsQuiet :
    (i : ℕ) (o : Option String) (t : StreamedTool) → IsQuiet (push_call_arguments i o t)
unfolding push_call_arguments
push_call_arguments-IsQuiet i none t = search (quiet)
push_call_arguments-IsQuiet i (some a) t = search (quiet)

on_call-IsQuiet : (p : Progress) (call : Value) → IsQuiet (on_call p call)
unfolding on_call
on_call-IsQuiet p call = search (quiet, start_tool-IsQuiet, push_call_arguments-IsQuiet) depth 20

on_calls-IsQuiet : (p : Progress) (calls : List Value) → IsQuiet (on_calls p calls)
unfolding on_calls
on_calls-IsQuiet p [] = search (quiet)
on_calls-IsQuiet p (call ∷ rest) =
    IsQuiet-bind (on_call p call) (λ q. on_calls q rest) (on_call-IsQuiet p call)
      (λ q. on_calls-IsQuiet q rest)

on_content-IsQuiet : (o : Option String) → IsQuiet (on_content o)
unfolding on_content
on_content-IsQuiet none = search (quiet)
on_content-IsQuiet (some t) = search (quiet)

on_reason-IsQuiet : (p : Progress) (o : Option String) → IsQuiet (on_reason p o)
unfolding on_reason
on_reason-IsQuiet p none = search (quiet)
on_reason-IsQuiet p (some r) = search (quiet)

on_choice-IsQuiet : (p : Progress) (choice : Value) → IsQuiet (on_choice p choice)
unfolding on_choice
on_choice-IsQuiet p choice =
    search (quiet, on_content-IsQuiet, on_calls-IsQuiet, on_reason-IsQuiet) depth 20

on_choices-IsQuiet : (p : Progress) (choices : List Value) → IsQuiet (on_choices p choices)
unfolding on_choices
on_choices-IsQuiet p [] = search (quiet)
on_choices-IsQuiet p (choice ∷ rest) =
    IsQuiet-bind (on_choice p choice) (λ q. on_choices q rest) (on_choice-IsQuiet p choice)
      (λ q. on_choices-IsQuiet q rest)

pub on_chunk-IsQuiet : (p : Progress) (chunk : Value) → IsQuiet (on_chunk p chunk)
unfolding on_chunk
on_chunk-IsQuiet p chunk = search (quiet, on_usage-IsQuiet, on_choices-IsQuiet) depth 20
