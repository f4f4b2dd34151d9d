-- ===== src/Provider/Circuit/History.antt =====
-- The circuit breaker against its history: what a provider has been through decides alone whether
-- it is available.
pub mod Examples
use calude_proxy.Base.{
  ℕ, ◌+◌, ◌^◌, ◌≤◌, ◌<◌, ◌≡◌, refl, Bool, false, not, ◌&&◌, Option, none, some, List, [], ◌∷◌,
  arith, ltb, leb, if◌then◌else◌,
}
use calude_proxy.Error.{ErrorKind}
use calude_proxy.Provider.Circuit.{
  CircuitState, closed, available, record_success, counts, record_failure,
}

-- What happens to a provider.
pub data Event : Type 0 where
  asked : (now : ℕ) → Event
  succeeded : Event
  failed : (now : ℕ) (kind : ErrorKind) → Event

module _ (threshold cooldown : ℕ) where
  pub step : CircuitState → Event → CircuitState
  step state (asked now) = (available now state).0
  step state succeeded = record_success state
  step state (failed now kind) = record_failure threshold cooldown now kind state

  -- The newest event stands first.
  pub run : List Event → CircuitState
  run [] = closed
  run (event ∷ earlier) = step (run earlier) event

-- How many failures have counted since the last success.
pub streak : List Event → ℕ
streak [] = 0
streak (asked now ∷ earlier) = streak earlier
streak (succeeded ∷ earlier) = 0
streak (failed now kind ∷ earlier) = if counts kind then streak earlier + 1 else streak earlier

-- When the last of them was.
pub last_failure : List Event → Option ℕ
last_failure [] = none
last_failure (asked now ∷ earlier) = last_failure earlier
last_failure (succeeded ∷ earlier) = none
last_failure (failed now kind ∷ earlier) = if counts kind then some now else last_failure earlier

-- The clock does not go back, and has not passed `now`.
abbrev pub IsBefore : ℕ → List Event → Type 0
IsBefore now [] = Unit {0}
IsBefore now (asked t ∷ earlier) = (t ≤ now) × IsBefore t earlier
IsBefore now (succeeded ∷ earlier) = IsBefore now earlier
IsBefore now (failed t kind ∷ earlier) = (t ≤ now) × IsBefore t earlier

-- The promise of the breaker: it is open exactly after `threshold` failures in a row, until the
-- cooldown after the last of them is over.
pub tripped : (threshold cooldown now : ℕ) → List Event → Bool
tripped threshold cooldown now events = elim (last_failure events) [
  | none ↦ false
  | some t ↦ leb threshold (streak events) && ltb now (t + cooldown)
]

abbrev is_open : ℕ → CircuitState → Bool
is_open now state = elim state.open_until [ none ↦ false | some until ↦ ltb now until ]

IsBefore-mono : (events : List Event) (s t : ℕ) → s ≤ t → IsBefore s events → IsBefore t events
IsBefore-mono [] s t h b = b
IsBefore-mono (asked x ∷ es) s t h b = (omega arith, b.1)
IsBefore-mono (succeeded ∷ es) s t h b = IsBefore-mono es s t h b
IsBefore-mono (failed x k ∷ es) s t h b = (omega arith, b.1)

module _ (threshold cooldown : ℕ) where
  failures-run :
      (events : List Event)
      → streak events < 2 ^ 32
      → (run threshold cooldown events).failures ≡ streak events
  unfolding run step streak closed available record_success record_failure
  failures-run [] h = refl
  failures-run (asked now ∷ es) h = ground (arith, failures-run es h)
  failures-run (succeeded ∷ es) h = refl
  failures-run (failed now k ∷ es) h = ground (arith, failures-run es)

  is_open-run :
      (events : List Event) (now : ℕ)
      → streak events < 2 ^ 32
      → IsBefore now events
      → is_open now (run threshold cooldown events) ≡ tripped threshold cooldown now events
  unfolding run step streak closed available record_success record_failure tripped last_failure
  is_open-run [] now h b = refl
  is_open-run (asked t ∷ es) now h b =
      ground (arith, is_open-run es now h (IsBefore-mono es t now b.0 b.1), is_open-run es t h b.1)
  is_open-run (succeeded ∷ es) now h b = refl
  is_open-run (failed t k ∷ es) now h b = ground (
    arith,
    is_open-run es now,
    IsBefore-mono es t now,
    failures-run es,
    failures-run (failed t k ∷ es) h,
  )

  -- After any history whose clock does not go back and that has fewer than 2^32 failures in a row,
  -- `available` answers false exactly while the breaker is tripped: `threshold` or more counting
  -- failures since the last success, and the last of them less than the cooldown ago.
  pub available-run :
      (events : List Event) (now : ℕ)
      → streak events < 2 ^ 32
      → IsBefore now events
      → (available now (run threshold cooldown events)).1
        ≡ not (tripped threshold cooldown now events)
  unfolding available
  available-run events now h b = ground (arith, is_open-run events now h b)
