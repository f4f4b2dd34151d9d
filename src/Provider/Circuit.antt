-- ===== src/Provider/Circuit.antt =====
-- The circuit breaker of src/provider.rs. Instants and durations are numbers of one unit; the
-- instant at which a call reads the clock is its argument.
pub mod History
use calude_proxy.Base.{
  ℕ, ◌+◌, ◌%◌, ◌^◌, Bool, true, false, Option, none, some, ltb, leb, if◌then◌else◌,
}
use calude_proxy.Error.{ErrorKind}

pub record CircuitState : Type 0 where
  pub failures : ℕ
  pub open_until : Option ℕ

-- The state in which `Provider::new` starts.
unfoldable pub closed : CircuitState
closed = record { failures = 0; open_until = none }

-- `Provider::available`: answers, and closes a circuit whose cooldown is over.
unfoldable pub available : ℕ → CircuitState → CircuitState × Bool
available now state = elim state.open_until [
  | none ↦ (state, true)
  | some until ↦
      if ltb now until then (state, false) else (record state { open_until = none }, true)
]

-- `Provider::record_success`.
unfoldable pub record_success : CircuitState → CircuitState
record_success state = record { failures = 0; open_until = none }

-- The kinds of error that count against a provider.
unfoldable pub counts : ErrorKind → Bool
counts ErrorKind.upstream = true
counts ErrorKind.timeout = true
counts ErrorKind.overloaded = true
counts _ = false

-- `Provider::record_failure`; the counter is a `u32` that wraps.
unfoldable pub record_failure :
    (threshold cooldown now : ℕ) → ErrorKind → CircuitState → CircuitState
unfolding counts
record_failure threshold cooldown now kind state =
    let failures = (state.failures + 1) % 2 ^ 32 in
    if counts kind
    then (if leb threshold failures
        then record { failures = failures; open_until = some (now + cooldown) }
        else record state { failures = failures })
    else state
