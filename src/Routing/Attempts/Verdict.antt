-- ===== src/Routing/Attempts/Verdict.antt =====
-- The outcome of the attempts, without the loop: the targets that are tried, and the last of them.
use calude_proxy.Base.{
  ℕ, zero, suc, ◌+◌, ◌≤◌, String, Bool, true, false, List, [], ◌∷◌, take, length, All,
  if◌then◌else◌, ◌≡◌, ◌≢◌, inl, inr, refl, sym, ◌∙◌, arith, Bool-cases, eq_iff,
}
use calude_proxy.Error.{ProxyError, ErrorKind, Result, ok, err, new}
use calude_proxy.Provider.{Provider}
use calude_proxy.Provider.Circuit.{CircuitState}
use calude_proxy.Routing.Circuits.{Circuits, update, update_lem}
use calude_proxy.Routing.Order.{Candidate}
use calude_proxy.Routing.Candidates.{Ready}
use calude_proxy.Routing.Attempts.{
  Outcome, answered, failed, elapsed, succeed, fail, last_error, attempts, execute, stream,
}

-- The next target is tried after a retryable error alone.
abbrev pub moves_on {ℓ} : {A : Type ℓ} → Outcome A → Bool
moves_on (answered a) = false
moves_on (failed e) = e.is_retryable
moves_on elapsed = false

-- What the client gets if this is the last attempt.
abbrev pub reply {ℓ} : {A : Type ℓ} → String → Outcome A → Result A
reply timeout_message (answered a) = ok a
reply timeout_message (failed e) = err e
reply timeout_message elapsed = err (new ErrorKind.timeout timeout_message)

update_spares :
    (circuits : Circuits) (id j : String) (state : CircuitState)
    → id ≢ j
    → update circuits id state j ≡ circuits j
update_spares circuits id j state h = ground (arith, update_lem circuits id j state, eq_iff id j)

fail_spares :
    (p : Provider) (now : ℕ) (kind : ErrorKind) (circuits : Circuits) (j : String)
    → p.id ≢ j
    → fail p now kind circuits j ≡ circuits j
unfolding fail
fail_spares p now kind circuits j h = update_spares circuits p.id j _ h

succeed_spares :
    (p : Provider) (circuits : Circuits) (j : String) → p.id ≢ j → succeed p circuits j ≡ circuits j
unfolding succeed
succeed_spares p circuits j h = update_spares circuits p.id j _ h

module _ {ℓ} {A : Type ℓ} where
  -- The reply to the last outcome of a list.
  pub last_reply : String → List ProxyError → List (Outcome A) → Result A
  last_reply timeout_message errors [] = err (last_error errors)
  last_reply timeout_message errors (o ∷ []) = reply timeout_message o
  last_reply timeout_message errors (o ∷ p ∷ rest) = last_reply timeout_message errors (p ∷ rest)

  -- All but the last have failed with a retryable error.
  abbrev pub AllRetried : List (Outcome A) → Type 0
  AllRetried [] = Unit
  AllRetried (o ∷ []) = Unit
  AllRetried (o ∷ p ∷ rest) = (moves_on o ≡ true) × AllRetried (p ∷ rest)

  last_reply_errors :
      (m : String) (es fs : List ProxyError) (o : Outcome A) (rest : List (Outcome A))
      → last_reply m es (o ∷ rest) ≡ last_reply m fs (o ∷ rest)
  unfolding last_reply
  last_reply_errors m es fs o [] = refl
  last_reply_errors m es fs o (p ∷ rest) = last_reply_errors m es fs p rest

  last_reply-failed :
      (m : String) (es : List ProxyError) (e : ProxyError) (more : List (Outcome A))
      → last_reply m es (failed e ∷ more) ≡ last_reply m (e ∷ es) more
  unfolding last_reply
  last_reply-failed m es e [] = refl
  last_reply-failed m es e (p ∷ rest) = last_reply_errors m es (e ∷ es) p rest

module _ {ℓ} {A : Type ℓ} (outcome : ℕ → Candidate Ready → Outcome A) where
  -- The outcomes of the targets that are tried, in order, from attempt `i` on.
  unfoldable pub tried : ℕ → List (Candidate Ready) → List (Outcome A)
  tried i [] = []
  tried i (c ∷ rest) =
      let more = tried (i + 1) rest in outcome i c ∷ (if moves_on (outcome i c) then more else [])

  tried-AllRetried : (i : ℕ) (cs : List (Candidate Ready)) → AllRetried (tried i cs)
  unfolding tried
  tried-AllRetried i [] = tt
  tried-AllRetried i (c ∷ rest) = elim (Bool-cases (moves_on (outcome i c))) [
    | inl on ↦ rw on (retried (outcome i c) on (tried (i + 1) rest) (tried-AllRetried (i + 1) rest))
    | inr stop ↦ rw stop tt
  ]
    where
      retried :
          (o : Outcome A)
          → moves_on o ≡ true
          → (more : List (Outcome A)) → AllRetried more
          → AllRetried (o ∷ more)
      retried o on [] h = tt
      retried o on (p ∷ more) h = (on, h)

  length-tried : (i : ℕ) (cs : List (Candidate Ready)) → length (tried i cs) ≤ length cs
  unfolding tried
  length-tried i [] = omega arith
  length-tried i (c ∷ rest) = ground (arith, length-tried (i + 1) rest)

  module _ (clock : ℕ → ℕ) (on_success : Provider → Circuits → Circuits)
      (timeout_message : String) where
    attempts-last_reply :
        (i : ℕ) (cs : List (Candidate Ready)) (errors : List ProxyError) (circuits : Circuits)
        → (attempts outcome clock on_success timeout_message i cs errors circuits).1
          ≡ last_reply timeout_message errors (tried i cs)
    unfolding attempts tried last_reply
    attempts-last_reply i [] errors circuits = refl
    attempts-last_reply i (c ∷ rest) errors circuits =
        go (outcome i c) refl (attempts-last_reply (i + 1) rest)
      where
        go :
            (o : Outcome A)
            → outcome i c ≡ o
            → ((es : List ProxyError) (cs : Circuits)
                → (attempts outcome clock on_success timeout_message (i + 1) rest es cs).1
                  ≡ last_reply timeout_message es (tried (i + 1) rest))
            → (attempts outcome clock on_success timeout_message i (c ∷ rest) errors circuits).1
              ≡ last_reply timeout_message errors (tried i (c ∷ rest))
        go (answered a) e ih = rw (e, attempts, tried) refl
        go elapsed e ih = rw (e, attempts, tried) refl
        go (failed x) e ih =
            rw (e, attempts, tried)
              (elim (Bool-cases x.is_retryable) [
                | inl again ↦ simp again (
                    ih (x ∷ errors) (fail c.payload.provider (clock i) x.kind circuits)
                    ∙ sym (last_reply-failed timeout_message errors x (tried (i + 1) rest)))
                | inr stop ↦ simp stop
              ])

    -- The targets that are tried.
    abbrev pub reached : ℕ → List (Candidate Ready) → List (Candidate Ready)
    reached i cs = take (length (tried i cs)) cs

    attempts_spares :
        ((p : Provider) (cs : Circuits) (id : String) → p.id ≢ id → on_success p cs id ≡ cs id)
        → (id : String) (i : ℕ) (cs : List (Candidate Ready)) (errors : List ProxyError)
          (circuits : Circuits)
        → All (λ c. c.payload.provider.id ≢ id) (reached i cs)
        → (attempts outcome clock on_success timeout_message i cs errors circuits).0 id
          ≡ circuits id
    unfolding attempts tried
    attempts_spares spares id i [] errors circuits h = refl
    attempts_spares spares id i (c ∷ rest) errors circuits h =
        go (outcome i c) refl (attempts_spares spares id (i + 1) rest)
      where
        go :
            (o : Outcome A)
            → outcome i c ≡ o
            → ((es : List ProxyError) (cs : Circuits)
                → All (λ c. c.payload.provider.id ≢ id) (reached (i + 1) rest)
                → (attempts outcome clock on_success timeout_message (i + 1) rest es cs).0 id
                  ≡ cs id)
            → (attempts outcome clock on_success timeout_message i (c ∷ rest) errors circuits).0 id
              ≡ circuits id
        go (answered a) e ih = rw (e, attempts) (spares c.payload.provider circuits id h.0)
        go elapsed e ih =
            rw (e, attempts) (fail_spares c.payload.provider (clock i) _ circuits id h.0)
        go (failed x) e ih =
            rw (e, attempts)
              (elim (Bool-cases x.is_retryable) [
                | inl again ↦ simp again (
                    ih (x ∷ errors) (fail c.payload.provider (clock i) x.kind circuits)
                      (simp (e, again) at h.1)
                    ∙ fail_spares c.payload.provider (clock i) x.kind circuits id h.0)
                | inr stop ↦
                    simp stop (fail_spares c.payload.provider (clock i) x.kind circuits id h.0)
              ])

length-take-le {ℓ} : {A : Type ℓ} (n : ℕ) (xs : List A) → length (take n xs) ≤ n
length-take-le zero xs = omega arith
length-take-le (suc n) [] = omega arith
length-take-le (suc n) (x ∷ xs) = omega (arith, length-take-le n xs)

module _ {ℓ} {A : Type ℓ} (outcome : ℕ → Candidate Ready → Outcome A) (clock : ℕ → ℕ)
    (max_attempts : ℕ) where
  -- `execute` tries at most `max_attempts` candidates, in order, and goes on to the next one only
  -- after a retryable error; the reply is that of the last one tried: its response, its error,
  -- retryable or not, or a timeout error, and `overloaded` if none is tried.
  pub execute_verdict :
      (candidates : List (Candidate Ready)) (circuits : Circuits)
      → ((execute outcome clock max_attempts candidates circuits).1
          ≡ last_reply "upstream request timed out" []
              (tried outcome 0 (take max_attempts candidates)))
        × AllRetried (tried outcome 0 (take max_attempts candidates))
        × (length (tried outcome 0 (take max_attempts candidates)) ≤ max_attempts)
  unfolding execute
  execute_verdict candidates circuits =
      let cs = take max_attempts candidates in
      (
        attempts-last_reply outcome clock succeed "upstream request timed out" 0 cs [] circuits,
        tried-AllRetried outcome 0 cs,
        omega (arith, length-tried outcome 0 cs, length-take-le max_attempts candidates),
      )

  -- A provider that no tried target names keeps its circuit state through `execute`.
  pub execute_spares :
      (candidates : List (Candidate Ready)) (circuits : Circuits) (id : String)
      → All
          (λ c. c.payload.provider.id ≢ id)
          (take
            (length (tried outcome 0 (take max_attempts candidates)))
            (take max_attempts candidates))
      → (execute outcome clock max_attempts candidates circuits).0 id ≡ circuits id
  unfolding execute
  execute_spares candidates circuits id h =
      attempts_spares outcome clock succeed "upstream request timed out"
        (λ p cs j n. succeed_spares p cs j n) id 0 (take max_attempts candidates) [] circuits h

  -- `stream` tries at most `max_attempts` candidates, in order, and goes on to the next one only after
  -- a retryable error; the reply is that of the last one tried: its stream, its error, retryable or
  -- not, or a timeout error, and `overloaded` if none is tried.
  pub stream_verdict :
      (candidates : List (Candidate Ready)) (circuits : Circuits)
      → ((stream outcome clock max_attempts candidates circuits).1
          ≡ last_reply "upstream stream establishment timed out" []
              (tried outcome 0 (take max_attempts candidates)))
        × AllRetried (tried outcome 0 (take max_attempts candidates))
        × (length (tried outcome 0 (take max_attempts candidates)) ≤ max_attempts)
  unfolding stream
  stream_verdict candidates circuits =
      let cs = take max_attempts candidates in
      (
        attempts-last_reply outcome clock (λ p c. c) "upstream stream establishment timed out" 0 cs
            [] circuits,
        tried-AllRetried outcome 0 cs,
        omega (arith, length-tried outcome 0 cs, length-take-le max_attempts candidates),
      )
