-- ===== src/Provider/Emits.antt =====
-- The streams of src/provider.rs, `try_stream!`: what a part of the body yields, and how it ends.
use calude_proxy.Base.{◌≡◌, refl, ap, List, [], ◌∷◌, ◌++◌}
use calude_proxy.Error.{Result, ok, err}
use calude_proxy.Domain.{ProviderEvent}
use mathlib.Core.List.{append_assoc}

-- The events that are yielded, then a value or the error that ends the stream.
pub record Emits {ℓ} (A : Type ℓ) : Type ℓ where
  pub events : List ProviderEvent
  pub result : Result A

abbrev pub pure {ℓ} : {A : Type ℓ} → A → Emits A
pure a = record { events = []; result = ok a }

-- `yield event`.
abbrev pub emit : ProviderEvent → Emits (Unit {0})
emit event = record { events = event ∷ []; result = ok tt }

-- `result?`.
abbrev pub lift {ℓ} : {A : Type ℓ} → Result A → Emits A
lift r = record { events = []; result = r }

-- What is yielded before a value is kept.
abbrev pub after {ℓ} : {A : Type ℓ} → List ProviderEvent → Emits A → Emits A
after events m = record { events = events ++ m.events; result = m.result }

abbrev pub follow {ℓ κ} :
    {A : Type ℓ} {B : Type κ} → List ProviderEvent → Result A → (A → Emits B) → Emits B
follow events (ok a) f = after events (f a)
follow events (err e) f = record { events = events; result = err e }

infixl 5 ◌>>=◌ ◌>>◌
unfoldable pub ◌>>=◌ {ℓ κ} : {A : Type ℓ} {B : Type κ} → Emits A → (A → Emits B) → Emits B
m >>= f = follow m.events m.result f

abbrev pub ◌>>◌ {ℓ κ} : {A : Type ℓ} {B : Type κ} → Emits A → Emits B → Emits B
m >> k = m >>= λ _. k

-- The laws that the lemmas about streams use.
follow-after {ℓ κ} :
    {A : Type ℓ} {B : Type κ} (xs ys : List ProviderEvent) (r : Result A) (f : A → Emits B)
    → follow (xs ++ ys) r f ≡ after xs (follow ys r f)
follow-after xs ys (ok a) f = rw append_assoc
follow-after xs ys (err e) f = refl

follow_assoc {ℓ κ μ} :
    {A : Type ℓ} {B : Type κ} {C : Type μ} (events : List ProviderEvent) (r : Result A)
    (f : A → Emits B) (g : B → Emits C)
    → (follow events r f >>= g) ≡ follow events r (λ a. f a >>= g)
unfolding ◌>>=◌
follow_assoc events (ok a) f g = follow-after events (f a).events (f a).result g
follow_assoc events (err e) f g = refl

pub >>=-assoc {ℓ κ μ} :
    {A : Type ℓ} {B : Type κ} {C : Type μ} (m : Emits A) (f : A → Emits B) (g : B → Emits C)
    → ((m >>= f) >>= g) ≡ (m >>= λ a. f a >>= g)
unfolding ◌>>=◌
>>=-assoc m f g = follow_assoc m.events m.result f g

follow-ext {ℓ κ} :
    {A : Type ℓ} {B : Type κ} (events : List ProviderEvent) (r : Result A) (f g : A → Emits B)
    → ((a : A) → f a ≡ g a)
    → follow events r f ≡ follow events r g
follow-ext events (ok a) f g h = ap (after events) (h a)
follow-ext events (err e) f g h = refl

pub >>=-ext {ℓ κ} :
    {A : Type ℓ} {B : Type κ} (m : Emits A) (f g : A → Emits B)
    → ((a : A) → f a ≡ g a)
    → (m >>= f) ≡ (m >>= g)
unfolding ◌>>=◌
>>=-ext m f g h = follow-ext m.events m.result f g h

pub pure_bind {ℓ κ} : {A : Type ℓ} {B : Type κ} (a : A) (f : A → Emits B) → (pure a >>= f) ≡ f a
unfolding ◌>>=◌
pure_bind a f = refl
