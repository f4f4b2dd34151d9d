-- ===== src/Auth/Limiter.antt =====
-- The limits of a client over any sequence of requests.
pub mod Examples
use calude_proxy.Base.{
  ℕ, ◌+◌, ◌≤◌, ◌<◌, Bool, true, false, ◌&&◌, List, [], ◌∷◌, ◌++◌, All, length, length-append, ltb,
  leb, ltb→lt, not, ◌=?◌, String, if◌then◌else◌, ◌≡◌, ◌↔◌, refl, sym, ◌∙◌, ap, arith, Bool-cases,
  inl, inr,
}
use calude_proxy.Error.{Result, ok, err}
use calude_proxy.Auth.{ClientState, purge, acquire, release}

pub data Event : Type 0 where
  requested : (now : ℕ) → Event
  released : Event

-- How many instants of a list are younger than a minute.
pub recent : ℕ → List ℕ → ℕ
recent now [] = 0
recent now (t ∷ rest) = (if leb (t + 60) now then 0 else 1) + recent now rest

-- How many lie in the minute after `start`.
pub in_minute : ℕ → List ℕ → ℕ
in_minute start [] = 0
in_minute start (t ∷ rest) =
    (if ltb start t && leb t (start + 60) then 1 else 0) + in_minute start rest

-- The clock does not go back, and has not passed `now`.
abbrev pub IsBefore : ℕ → List Event → Type 0
IsBefore now [] = Unit {0}
IsBefore now (requested t ∷ earlier) = (t ≤ now) × IsBefore t earlier
IsBefore now (released ∷ earlier) = IsBefore now earlier

IsBefore-mono : (events : List Event) (s t : ℕ) → s ≤ t → IsBefore s events → IsBefore t events
IsBefore-mono [] s t h b = b
IsBefore-mono (requested x ∷ es) s t h b = (omega arith, b.1)
IsBefore-mono (released ∷ es) s t h b = IsBefore-mono es s t h b

-- An answer that does not refuse the request for its rate: a permit, or a refusal for want of one.
abbrev pub within_rate : Result (Unit {0}) → Bool
within_rate (ok u) = true
within_rate (err e) = not (e.message =? "client request rate exceeded")

module _ (rpm limit : ℕ) where
  pub step : Event → ClientState → ClientState
  step (requested now) s = (acquire rpm limit now s).0
  step released s = release s

  -- The newest event stands first.
  pub run : List Event → ClientState
  run [] = record { limiter = []; in_use = 0 }
  run (event ∷ earlier) = step event (run earlier)

  -- Whether a request at `now` passes the rate limit, by what `acquire` answers.
  pub counted : ℕ → ClientState → Bool
  counted now s = within_rate (acquire rpm limit now s).1

  -- The instants of the requests that passed the rate limit, newest first.
  pub grants : List Event → List ℕ
  grants [] = []
  grants (released ∷ earlier) = grants earlier
  grants (requested now ∷ earlier) =
      let g = grants earlier in if counted now (run earlier) then now ∷ g else g

abbrev Ascending : List ℕ → Type 0
Ascending [] = Unit {0}
Ascending (t ∷ rest) = All (λ s. t ≤ s) rest × Ascending rest

All-recent :
    (now t : ℕ) (rest : List ℕ)
    → leb (t + 60) now ≡ false
    → All (λ s. t ≤ s) rest
    → recent now rest ≡ length rest
unfolding recent
All-recent now t [] new a = refl
All-recent now t (s ∷ rest) new a = ground (arith, All-recent now t rest new a.1)

-- On ascending instants the loop from the front drops all that is a minute old.
length-purge : (now : ℕ) (ts : List ℕ) → Ascending ts → length (purge now ts) ≡ recent now ts
unfolding purge recent
length-purge now [] a = refl
length-purge now (t ∷ rest) a = elim (Bool-cases (leb (t + 60) now)) [
  | inl old ↦ ground (arith, length-purge now rest a.1)
  | inr new ↦ ground (arith, All-recent now t rest new a.0)
]

length-purge-le : (now : ℕ) (ts : List ℕ) → length (purge now ts) ≤ length ts
unfolding purge
length-purge-le now [] = omega arith
length-purge-le now (t ∷ rest) = ground (arith, length-purge-le now rest)

recent-purge :
    (now later : ℕ) (ts : List ℕ) → now ≤ later → recent later (purge now ts) ≡ recent later ts
unfolding purge recent
recent-purge now later [] h = refl
recent-purge now later (t ∷ rest) h = ground (arith, recent-purge now later rest h)

recent-cons :
    (now t : ℕ) (xs ys : List ℕ)
    → recent now xs ≡ recent now ys
    → recent now (t ∷ xs) ≡ recent now (t ∷ ys)
unfolding recent
recent-cons now t xs ys e = omega arith

recent-append : (now t : ℕ) (ts : List ℕ) → recent now (ts ++ t ∷ []) ≡ recent now (t ∷ ts)
unfolding recent
recent-append now t [] = refl
recent-append now t (s ∷ rest) = omega (arith, recent-append now t rest)

module _ {ℓ} (P : ℕ → Type ℓ) where
  purge-All : (now : ℕ) (ts : List ℕ) → All P ts → All P (purge now ts)
  unfolding purge
  purge-All now [] a = tt
  purge-All now (t ∷ rest) a = elim (Bool-cases (leb (t + 60) now)) [
    | inl old ↦ rw old (purge-All now rest a.1)
    | inr new ↦ rw new a
  ]

  append-All : (t : ℕ) (ts : List ℕ) → P t → All P ts → All P (ts ++ t ∷ [])
  append-All t [] p a = (p, tt)
  append-All t (s ∷ rest) p a = (a.0, append-All t rest p a.1)

All-le : (m n : ℕ) (ts : List ℕ) → m ≤ n → All (λ t. t ≤ m) ts → All (λ t. t ≤ n) ts
All-le m n [] h a = tt
All-le m n (t ∷ rest) h a = (omega arith, All-le m n rest h a.1)

purge-Ascending : (now : ℕ) (ts : List ℕ) → Ascending ts → Ascending (purge now ts)
unfolding purge
purge-Ascending now [] a = tt
purge-Ascending now (t ∷ rest) a = elim (Bool-cases (leb (t + 60) now)) [
  | inl old ↦ rw old (purge-Ascending now rest a.1)
  | inr new ↦ rw new a
]

append-Ascending :
    (t : ℕ) (ts : List ℕ) → All (λ s. s ≤ t) ts → Ascending ts → Ascending (ts ++ t ∷ [])
append-Ascending t [] below a = (tt, tt)
append-Ascending t (s ∷ rest) below a =
    (append-All (λ x. s ≤ x) t rest below.0 a.0, append-Ascending t rest below.1 a.1)

module _ (rpm limit : ℕ) where
  -- What is known of the state after a history that ended by `now`.
  record Tracks (now : ℕ) (events : List Event) : Type 0 where
    ascending : Ascending (run rpm limit events).limiter
    past : All (λ t. t ≤ now) (run rpm limit events).limiter
    same :
        (later : ℕ)
        → now ≤ later
        → recent later (run rpm limit events).limiter ≡ recent later (grants rpm limit events)

  -- A request passes exactly if fewer than `rpm` instants are left after the purge.
  counted_lem :
      (now : ℕ) (s : ClientState) → counted rpm limit now s ≡ ltb (length (purge now s.limiter)) rpm
  unfolding acquire counted
  counted_lem now s = ground arith

  -- The limiter after a request.
  limiter-acquire :
      (now : ℕ) (s : ClientState)
      → (acquire rpm limit now s).0.limiter
        ≡ (if counted rpm limit now s then purge now s.limiter ++ now ∷ [] else purge now s.limiter)
  unfolding acquire
  limiter-acquire now s = rw (counted_lem now s) (ground arith)

  run-Tracks : (events : List Event) (now : ℕ) → IsBefore now events → Tracks now events
  unfolding run step grants release
  run-Tracks [] now b = record { ascending = tt; past = tt; same = λ later h. refl }
  run-Tracks (released ∷ es) now b =
      let k = run-Tracks es now b in
      record { ascending = k.ascending; past = k.past; same = k.same }
  run-Tracks (requested t ∷ es) now b =
      let k = run-Tracks es t b.1 in
      let s = run rpm limit es in
      let asc = purge-Ascending t s.limiter k.ascending in
      let old = purge-All (λ x. x ≤ t) t s.limiter k.past in
      elim (Bool-cases (counted rpm limit t s)) [
        | inl pass ↦ record {
          ascending =
              rw (limiter-acquire t s, pass) (append-Ascending t (purge t s.limiter) old asc);
          past =
              rw (limiter-acquire t s, pass)
                (append-All (λ x. x ≤ now) t (purge t s.limiter) b.0
                  (All-le t now (purge t s.limiter) b.0 old));
          same = λ later h.
              rw (limiter-acquire t s, pass)
                (recent-append later t (purge t s.limiter)
                  ∙ recent-cons later t _ _ (
                      recent-purge t later s.limiter (omega (arith, b.0, h))
                      ∙ k.same later (omega (arith, b.0, h))));
        }
        | inr stop ↦ record {
          ascending = rw (limiter-acquire t s, stop) asc;
          past = rw (limiter-acquire t s, stop) (All-le t now (purge t s.limiter) b.0 old);
          same = λ later h.
              rw (limiter-acquire t s, stop)
                (recent-purge t later s.limiter (omega (arith, b.0, h))
                  ∙ k.same later (omega (arith, b.0, h)));
        }
      ]

  -- Each granted instant saw fewer than `rpm` in the minute before it.
  abbrev Spaced : List ℕ → Type 0
  Spaced [] = Unit {0}
  Spaced (t ∷ earlier) = (recent t earlier < rpm) × Spaced earlier

  counted-grants :
      (now : ℕ) (events : List Event)
      → IsBefore now events
      → counted rpm limit now (run rpm limit events)
        ≡ ltb (recent now (grants rpm limit events)) rpm
  counted-grants now events b =
      let k = run-Tracks events now b in
      let s = run rpm limit events in
      counted_lem now s
      ∙ ap (λ n. ltb n rpm) (length-purge now s.limiter k.ascending ∙ k.same now (omega arith))

  grants-Spaced :
      (events : List Event) (now : ℕ) → IsBefore now events → Spaced (grants rpm limit events)
  unfolding grants
  grants-Spaced [] now b = tt
  grants-Spaced (released ∷ es) now b = grants-Spaced es now b
  grants-Spaced (requested t ∷ es) now b =
      elim (Bool-cases (counted rpm limit t (run rpm limit es))) [
        | inl pass ↦
            rw pass (ltb→lt _ _ (sym (counted-grants t es b.1) ∙ pass), grants-Spaced es t b.1)
        | inr stop ↦ rw stop (grants-Spaced es t b.1)
      ]

  in_minute-le-recent :
      (start t : ℕ) (ts : List ℕ) → t ≤ start + 60 → in_minute start ts ≤ recent t ts
  unfolding in_minute recent
  in_minute-le-recent start t [] h = omega arith
  in_minute-le-recent start t (s ∷ rest) h = ground (arith, in_minute-le-recent start t rest h)

  in_minute-Spaced : (start : ℕ) (ts : List ℕ) → Spaced ts → in_minute start ts ≤ rpm
  unfolding in_minute
  in_minute-Spaced start [] h = omega arith
  in_minute-Spaced start (t ∷ rest) h =
      ground (arith, in_minute-Spaced start rest h.1, in_minute-le-recent start t rest)

  acquire_state_iff :
      (now : ℕ) (s : ClientState)
      → ((acquire rpm limit now s).1 ≡ ok tt)
        ↔ ((counted rpm limit now s ≡ true) × (s.in_use < limit))
  unfolding acquire
  acquire_state_iff now s = rw (counted_lem now s) (ground arith)

  -- In any history whose clock does not go back, at most `rpm` requests of a client get an answer of
  -- `acquire` other than that their rate is exceeded, within any 60 seconds.
  pub rate_bound :
      (events : List Event) (now start : ℕ)
      → IsBefore now events
      → in_minute start (grants rpm limit events) ≤ rpm
  rate_bound events now start b =
      in_minute-Spaced start (grants rpm limit events) (grants-Spaced events now b)

  -- After any history whose clock does not go back, a request gets a permit exactly if fewer than `rpm` requests have passed
  -- the rate limit in the last 60 seconds and fewer than `limit` permits are in use.
  pub acquire_iff :
      (events : List Event) (now : ℕ)
      → IsBefore now events
      → ((acquire rpm limit now (run rpm limit events)).1 ≡ ok tt)
        ↔ ((recent now (grants rpm limit events) < rpm) × ((run rpm limit events).in_use < limit))
  acquire_iff events now b = (
    (λ h.
        ground (arith, counted-grants now events b, acquire_state_iff now (run rpm limit events))),
    λ h. ground (arith, counted-grants now events b, acquire_state_iff now (run rpm limit events)),
  )

  -- At no time are more permits in use than the client may have, nor more instants kept than `rpm`.
  pub run_bounded :
      (events : List Event)
      → ((run rpm limit events).in_use ≤ limit) × (length (run rpm limit events).limiter ≤ rpm)
  unfolding run step acquire release
  run_bounded [] = omega arith
  run_bounded (released ∷ es) = omega (arith, run_bounded es)
  run_bounded (requested t ∷ es) = ground (
    arith,
    run_bounded es,
    length-purge-le t (run rpm limit es).limiter,
    length-append (purge t (run rpm limit es).limiter) (t ∷ []),
  )
