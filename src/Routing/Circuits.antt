-- ===== src/Routing/Circuits.antt =====
-- The circuit states of all providers. A provider is shared by every target that names it, so the
-- store has one state for each provider id.
use calude_proxy.Base.{
  ℕ, String, Bool, false, ◌≡◌, refl, if◌then◌else◌, ◌=?◌, arith, none, some, ltb, ◌≤◌, not,
}
use calude_proxy.Provider.Circuit.{CircuitState, available}

abbrev pub Circuits : Type 0
Circuits = String → CircuitState

pub update : Circuits → String → CircuitState → Circuits
update circuits id state j = if id =? j then state else circuits j

pub update_lem :
    (circuits : Circuits) (id j : String) (state : CircuitState)
    → update circuits id state j ≡ (if id =? j then state else circuits j)
unfolding update
update_lem circuits id j state = refl

-- Whether a circuit is open at an instant, without asking it.
abbrev pub is_open : ℕ → CircuitState → Bool
is_open now state = elim state.open_until [ none ↦ false | some until ↦ ltb now until ]

pub available-is_open :
    (now : ℕ) (state : CircuitState) → (available now state).1 ≡ not (is_open now state)
unfolding available
available-is_open now state = ground arith

-- Asking changes no later answer.
pub is_open-available :
    (now later : ℕ) (state : CircuitState)
    → now ≤ later
    → is_open later (available now state).0 ≡ is_open later state
unfolding available
is_open-available now later state h = ground arith
