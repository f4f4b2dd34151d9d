-- ===== src/Provider/Circuit/History/Examples.antt =====
-- An outage of one provider: two failures in a row, at the instants 10 and 20.
use calude_proxy.Base.{◌≡◌, not, List, [], ◌∷◌, arith}
use calude_proxy.Error.{ErrorKind}
use calude_proxy.Provider.Circuit.{available, counts}
use calude_proxy.Provider.Circuit.History.{
  Event, asked, failed, run, streak, tripped, available-run,
}

abbrev outage : List Event
outage = failed 20 ErrorKind.upstream ∷ asked 19 ∷ failed 10 ErrorKind.timeout ∷ []

available-run_example : (available 45 (run 2 30 outage)).1 ≡ not (tripped 2 30 45 outage)
unfolding streak counts
available-run_example =
    available-run 2 30 outage 45 (omega arith) (omega arith, (omega arith, (omega arith, tt)))
