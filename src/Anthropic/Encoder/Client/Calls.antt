-- ===== src/Anthropic/Encoder/Client/Calls.antt =====
-- The encoder's ordered map of tools holds the calls of the events.
use calude_proxy.Base.{
  ℕ, zero, suc, ◌+◌, ◌≤◌, ◌<◌, ◌≡◌, refl, ◌∙◌, ap, inl, inr, String, Option, none, some, List, [],
  ◌∷◌, ◌==◌, ◌⧺◌, if◌then◌else◌, Bool-cases, ltb, subst, arith,
}
use calude_proxy.Domain.{ProviderEvent}
use calude_proxy.Anthropic.Encoder.{BufferedTool, Tools, insert, push_arguments}
use calude_proxy.Anthropic.Encoder.Client.{Block}
use calude_proxy.Anthropic.Encoder.Client.Draft.{Draft, note, note_all, tool_blocks}
use calude_proxy.Anthropic.Encoder.Client.Message.{Call, call_after, call_at, bound, calls_from}

unfoldable pub find : ℕ → Tools → Option Call
find k [] = none
find k ((j, tool) ∷ rest) =
    if k == j then some (tool.id, tool.name, tool.arguments) else find k rest

-- Sorted by index, each index from `lo` on and below `hi`.
unfoldable pub Within : (lo hi : ℕ) → Tools → Type 0
Within lo hi [] = Unit {0}
Within lo hi ((j, tool) ∷ rest) = (lo ≤ j) × (j < hi) × Within (suc j) hi rest

find-insert :
    (k i : ℕ) (tool : BufferedTool) (tools : Tools)
    → find k (insert i tool tools)
      ≡ (if k == i then some (tool.id, tool.name, tool.arguments) else find k tools)
unfolding find insert
find-insert k i tool [] = refl
find-insert k i tool ((j, other) ∷ rest) = ground (arith, find-insert k i tool rest)

longer : String → Option Call → Option Call
longer more none = none
longer more (some (id, name, arguments)) = some (id, name, arguments ⧺ more)

find-push :
    (k i : ℕ) (more : String) (tools : Tools)
    → find k (push_arguments i more tools)
      ≡ (if k == i then longer more (find k tools) else find k tools)
unfolding find push_arguments longer
find-push k i more [] = ground arith
find-push k i more ((j, tool) ∷ rest) = ground (arith, find-push k i more rest)

Within-lower : (lo lo' hi : ℕ) (tools : Tools) → Within lo hi tools → lo' ≤ lo → Within lo' hi tools
unfolding Within
Within-lower lo lo' hi [] w h = tt
Within-lower lo lo' hi ((j, tool) ∷ rest) (a, b, w) h = (omega arith, b, w)

Within-higher :
    (lo hi hi' : ℕ) (tools : Tools) → Within lo hi tools → hi ≤ hi' → Within lo hi' tools
unfolding Within
Within-higher lo hi hi' [] w h = tt
Within-higher lo hi hi' ((j, tool) ∷ rest) (a, b, w) h =
    (a, omega arith, Within-higher (suc j) hi hi' rest w h)

Within-insert :
    (lo hi i : ℕ) (tool : BufferedTool) (tools : Tools)
    → Within lo hi tools
    → lo ≤ i
    → i < hi
    → Within lo hi (insert i tool tools)
unfolding Within insert
Within-insert lo hi i tool [] w a b = (a, b, tt)
Within-insert lo hi i tool ((j, other) ∷ rest) (c, d, w) a b = elim (Bool-cases (ltb i j)) [
  | inl before ↦ rw before (a, b, (ground arith, d, w))
  | inr not_before ↦ elim (Bool-cases (i == j)) [
    | inl equal ↦
        rw (not_before, equal) (a, b, Within-lower (suc j) (suc i) hi rest w (ground arith))
    | inr differ ↦
        rw (not_before, differ) (c, d, Within-insert (suc j) hi i tool rest w (ground arith) b)
  ]
]

Within-push :
    (lo hi i : ℕ) (more : String) (tools : Tools)
    → Within lo hi tools
    → Within lo hi (push_arguments i more tools)
unfolding Within push_arguments
Within-push lo hi i more [] w = tt
Within-push lo hi i more ((j, tool) ∷ rest) (a, b, w) = elim (Bool-cases (i == j)) [
  | inl equal ↦ rw equal (a, b, w)
  | inr differ ↦ rw differ (a, b, Within-push (suc j) hi i more rest w)
]

find-below : (k lo hi : ℕ) (tools : Tools) → Within lo hi tools → k < lo → find k tools ≡ none
unfolding find Within
find-below k lo hi [] w h = refl
find-below k lo hi ((j, tool) ∷ rest) (a, b, w) h =
    ground (arith, find-below k (suc j) hi rest w (omega arith))

pub calls_from-ext :
    (f g : ℕ → Option Call) (k n : ℕ)
    → ((i : ℕ) → k ≤ i → f i ≡ g i)
    → calls_from f k n ≡ calls_from g k n
unfolding calls_from
calls_from-ext f g k zero h = refl
calls_from-ext f g k (suc n) h =
    rw (h k (omega arith), calls_from-ext f g (suc k) n (λ i a. h i (omega arith))) refl

past :
    (lo j n : ℕ) (tool : BufferedTool) (rest : Tools)
    → lo ≡ j
    → calls_from (λ k. find k ((j, tool) ∷ rest)) (suc lo) n
      ≡ calls_from (λ k. find k rest) (suc lo) n
unfolding find
past lo j n tool rest e = calls_from-ext _ _ (suc lo) n (λ i a. ground arith)

-- Read by index, the map gives its tools in its order.
pub calls_from-tools :
    (lo n hi : ℕ) (tools : Tools)
    → Within lo hi tools
    → hi ≡ lo + n
    → calls_from (λ k. find k tools) lo n ≡ tool_blocks tools
unfolding calls_from tool_blocks Within find
calls_from-tools lo zero hi [] w e = refl
calls_from-tools lo zero hi ((j, tool) ∷ rest) (a, b, w) e = absurd (omega arith)
calls_from-tools lo (suc n) hi [] w e = calls_from-tools (suc lo) n hi [] tt (omega arith)
calls_from-tools lo (suc n) hi ((j, tool) ∷ rest) (a, b, w) e = elim (Bool-cases (lo == j)) [
  | inl here ↦ rw here (
      ap (λ calls. Block.tool_use tool.id tool.name tool.arguments ∷ calls)
        (past lo j n tool rest (ground arith)
          ∙ calls_from-tools (suc lo) n hi rest
              (Within-lower (suc j) (suc lo) hi rest w (ground arith)) (omega arith)))
  | inr later ↦
      rw (later, find-below lo (suc j) hi rest w (omega arith))
        (calls_from-tools (suc lo) n hi ((j, tool) ∷ rest) (ground arith, b, w) (omega arith))
]

-- What the events so far say of a call, and all of them.
find-note :
    (k : ℕ) (d : Draft) (event : ProviderEvent)
    → find k (note d event).tools ≡ call_after k (find k d.tools) event
unfolding note call_after longer
find-note k d (ProviderEvent.text more) = refl
find-note k d (ProviderEvent.tool_start index id name) = find-insert k index _ d.tools
find-note k d (ProviderEvent.tool_delta index more) = find-push k index more d.tools ∙ ground arith
find-note k d (ProviderEvent.finished reason none) = refl
find-note k d (ProviderEvent.finished reason (some usage)) = refl
find-note k d (ProviderEvent.usage usage) = refl

pub find-note_all :
    (k : ℕ) (d : Draft) (events : List ProviderEvent)
    → find k (note_all d events).tools ≡ call_at k (find k d.tools) events
unfolding note_all call_at
find-note_all k d [] = refl
find-note_all k d (event ∷ rest) =
    find-note_all k (note d event) rest ∙ ap (λ c. call_at k c rest) (find-note k d event)

Within-note :
    (hi : ℕ) (d : Draft) (event : ProviderEvent) (rest : List ProviderEvent)
    → Within 0 hi d.tools
    → (next : ℕ) × Within 0 next (note d event).tools
      × (next + bound rest ≡ hi + bound (event ∷ rest))
unfolding note bound
Within-note hi d (ProviderEvent.text more) rest w = (hi, w, refl)
Within-note hi d (ProviderEvent.tool_start index id name) rest w = (
  hi + suc index,
  Within-insert 0 (hi + suc index) index _ d.tools
      (Within-higher 0 hi (hi + suc index) d.tools w (omega arith)) (omega arith) (omega arith),
  omega arith,
)
Within-note hi d (ProviderEvent.tool_delta index more) rest w =
    (hi, Within-push 0 hi index more d.tools w, refl)
Within-note hi d (ProviderEvent.finished reason none) rest w = (hi, w, refl)
Within-note hi d (ProviderEvent.finished reason (some usage)) rest w = (hi, w, refl)
Within-note hi d (ProviderEvent.usage usage) rest w = (hi, w, refl)

pub Within-note_all :
    (hi : ℕ) (d : Draft) (events : List ProviderEvent)
    → Within 0 hi d.tools
    → Within 0 (hi + bound events) (note_all d events).tools
unfolding note_all bound
Within-note_all hi d [] w = Within-higher 0 hi (hi + 0) d.tools w (omega arith)
Within-note_all hi d (event ∷ rest) w =
    let (next, inside, e) = Within-note hi d event rest w in
    subst (λ n. Within 0 n (note_all (note d event) rest).tools) e
      (Within-note_all next (note d event) rest inside)
