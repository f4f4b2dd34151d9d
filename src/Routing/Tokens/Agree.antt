-- ===== src/Routing/Tokens/Agree.antt =====
-- The count of a request on its route, and the estimate that its stream would start with.
use mathlib.Core.HLevel.{hedberg}
use mathlib.Core.Logic.{∥∥₁_elim}
use mathlib.Core.List.{Memᴰ, mem-cons_self}
use mathlib.Core.List.{Perm}
use mathlib.Core.List.Perm.{mem_iff}
use calude_proxy.Base.{
  ℕ, ◌+◌, ◌*◌, ◌≤◌, ◌<◌, ◌≡◌, refl, ◌∙◌, String, Option, some, List, [], ◌∷◌, length, All,
  All-append, sym, subst, Bool-cases, Option-cases, eq_iff, ◌=?◌, Bool, true, false, inl, inr,
}
use calude_proxy.Error.{Result, ok, err, ◌>>=◌}
use calude_proxy.Json.{Value, lookup}
use calude_proxy.Domain.{NormalizedRequest}
use calude_proxy.Config.{TargetConfig}
use calude_proxy.Anthropic.Tokens.{Tokenizer, count_tokens}
use calude_proxy.Anthropic.Tokens.Bounds.{count_tokens_lem}
use calude_proxy.Provider.{Provider}
use calude_proxy.Provider.Adapt.{adapt_request}
use calude_proxy.Provider.Adapt.Identity.{adapt_request_idem}
use calude_proxy.Routing.Circuits.{Circuits}
use calude_proxy.Routing.Order.{Candidate}
use calude_proxy.Routing.Candidates.{Ready, candidates}
use calude_proxy.Routing.Candidates.Eligible.{as_candidate, eligible, IsKnown, candidates_lem}
use calude_proxy.Routing.Tokens.{provider_count, first_count, estimate, route_count}

string_discrete : Discrete String
string_discrete s t = elim (Bool-cases (s =? t)) [
  | inl same ↦ yes ((eq_iff s t).0 same)
  | inr differs ↦ no (λ e. let same = (eq_iff s t).1 e in cc)
]

string_set : IsSet String
string_set = hedberg string_discrete

result_set : IsSet (Result ℕ)
result_set = hlevel (string_set)

abbrev found {ℓ} : {A : Type ℓ} → Circuits → Result A → Option (Circuits × Result A)
found circuits result = some (circuits, result)

module _ (to_string : Value → Option String) (o200k_base cl100k_base : Tokenizer)
    (value_text : Value → String) where
  abbrev count : NormalizedRequest → (tokenizer : String) → Result ℕ
  count = count_tokens o200k_base cl100k_base value_text

  -- The provider's own pass over the request of a candidate changes nothing.
  abbrev IsFitted : Candidate Ready → Type 0
  IsFitted c =
      provider_count to_string count c.payload.provider c.payload.request
      ≡ count c.payload.request c.payload.provider.capabilities.tokenizer

  as_candidate-IsFitted :
      (open_circuit : Bool) (p : Provider) (target : TargetConfig) (request : NormalizedRequest)
      (adapted : Result NormalizedRequest)
      → adapt_request to_string p.capabilities request ≡ adapted
      → All IsFitted (as_candidate open_circuit p target adapted)
  unfolding as_candidate provider_count
  as_candidate-IsFitted open_circuit p target request (err e) h = tt
  as_candidate-IsFitted true p target request (ok adapted) h = tt
  as_candidate-IsFitted false p target request (ok adapted) h =
      (rw (adapt_request_idem to_string p.capabilities request adapted h) refl, tt)

  IsFitted-IsProp : (c : Candidate Ready) → IsProp (IsFitted c)
  IsFitted-IsProp c = result_set _ _

  -- The candidates start with one for which the request that it is sent is counted so.
  pub record Counts (cs : List (Candidate Ready)) (n : ℕ) : Type 0 where
    pub first : Candidate Ready
    pub others : List (Candidate Ready)
    pub stand : cs ≡ first ∷ others
    pub counted : count first.payload.request first.payload.provider.capabilities.tokenizer ≡ ok n
    pub estimated : estimate to_string count cs ≡ ok n
    pub floor :
        3 + 4 * length first.payload.request.messages + 8 * length first.payload.request.tools ≤ n

  member :
      (cs : List (Candidate Ready)) (c : Candidate Ready) → All IsFitted cs → Memᴰ c cs → IsFitted c
  member [] c h m = elim m [ ]
  member (d ∷ rest) c h (Memᴰ.head e) = subst IsFitted (sym e) h.0
  member (d ∷ rest) c h (Memᴰ.tail m) = member rest c h.1 m

  eligible-IsFitted :
      (providers : List (String × Provider)) (clock : ℕ → ℕ) (request : NormalizedRequest) (i : ℕ)
      (circuits : Circuits) (targets : List TargetConfig)
      → All IsFitted (
          eligible providers
            (λ p. adapt_request to_string p.capabilities request)
            clock
            i
            circuits
            targets)
  unfolding eligible
  eligible-IsFitted providers clock request i circuits [] = tt
  eligible-IsFitted providers clock request i circuits (target ∷ rest) =
      let later = eligible-IsFitted providers clock request (i + 1) circuits rest in
      elim (Option-cases (lookup target.provider providers)) [
        | inl missing ↦ rw (missing, eligible) later
        | inr (p, known) ↦
            rw (known, eligible)
              (All-append IsFitted _ _
                (as_candidate-IsFitted _ p target request
                  (adapt_request to_string p.capabilities request) refl)
                later)
      ]

  first_count-Counts :
      (c : Candidate Ready) (rest : List (Candidate Ready)) (n : ℕ)
      → IsFitted c
      → first_count to_string count (c ∷ rest) ≡ ok n
      → Counts (c ∷ rest) n
  unfolding first_count estimate
  first_count-Counts c rest n fitted h =
      let counted = sym fitted ∙ h in
      record {
        first = c;
        others = rest;
        stand = refl;
        counted = counted;
        estimated = h;
        floor =
            (count_tokens_lem o200k_base cl100k_base value_text c.payload.request []
              c.payload.provider.capabilities.tokenizer counted).0;
      }

  -- What the answer of the candidates leaves of a count.
  answered-Counts :
      (all result_list : List (Candidate Ready)) (n : ℕ)
      → All IsFitted all
      → Perm result_list all
      → first_count to_string count result_list ≡ ok n
      → Counts result_list n
  unfolding first_count
  answered-Counts all [] n f p h = cc
  answered-Counts all (c ∷ rest) n f p h =
      first_count-Counts c rest n
        (∥∥₁_elim ((mem_iff p).0 mem-cons_self) (IsFitted-IsProp c) (λ m. member all c f m)) h

  module _ (providers : List (String × Provider)) (clock : ℕ → ℕ)
      (forward : (i : ℕ) → clock i ≤ clock (i + 1)) (random : ℕ → ℕ → ℕ)
      (in_range : (round total : ℕ) → 0 < total → random round total < total) where
    -- Where the candidates of a route can be computed, a number that `count_tokens` answers is the
    -- count of the very request that the first candidate would be sent, with the tokenizer of its
    -- profile, since the provider's second adaptation changes nothing; a stream over the same
    -- candidates starts with the same number; and it is at least three, four more for each message and
    -- eight for each tool.
    pub route_count-Counts :
        (targets : List TargetConfig) (request : NormalizedRequest) (circuits after : Circuits)
        (n : ℕ)
        → All
            (IsKnown providers (λ p. adapt_request to_string p.capabilities request) clock)
            targets
        → All (λ t. 0 < t.weight) targets
        → route_count to_string count providers clock random targets request circuits
          ≡ some (after, ok n)
        → (cs : List (Candidate Ready)) × (candidates providers
              (λ p. adapt_request to_string p.capabilities request)
              clock
              random
              targets
              circuits
            ≡ some (after, ok cs))
          × Counts cs n
    unfolding route_count
    route_count-Counts targets request circuits after n known weighted h =
        let adapt = λ (p : Provider). adapt_request to_string p.capabilities request in
        let (next, result, e, answers) =
          candidates_lem providers adapt clock forward random in_range targets circuits known
            weighted in
        let answer : found next (result >>= first_count to_string count) ≡ found after (ok n) =
          rw (e, route_count) at h in
        elim answers [
          | inl (ordered, filled, same, perm, sorted) ↦
              let counted : found next (first_count to_string count ordered) ≡ found after (ok n) =
                rw same at answer in
              (
                ordered,
                e ∙ cc (same, counted),
                answered-Counts (eligible providers adapt clock 0 circuits targets) ordered n
                    (eligible-IsFitted providers clock request 0 circuits targets) perm
                    (cc counted),
              )
          | inr (nothing, same) ↦ absurd (cc)
        ]
