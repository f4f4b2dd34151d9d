-- ===== src/Provider/Sse/Chunks.antt =====
-- How the bytes are cut into deliveries makes no difference to `parse_sse`.
use mathlib.Core.List.{append-nil, append_assoc}
use calude_proxy.Base.{
  ℕ, ◌≡◌, refl, sym, ap, ◌∙◌, String, false, Option, List, [], ◌∷◌, ◌++◌, map, ◌==◌, Bool-cases,
  inl, inr,
}
use calude_proxy.Json.{Value}
use calude_proxy.Provider.Emits.{Emits, pure, ◌>>=◌, >>=-assoc, >>=-ext, pure_bind}
use calude_proxy.Provider.Sse.{
  Progress, Line, next, returned, per_line, split_lines, join_byte, Delivery, bytes, on_line,
  on_lines, parse_from, parse_sse,
}

abbrev pub concat : List (List ℕ) → List ℕ
concat [] = []
concat (xs ∷ rest) = xs ++ concat rest

-- The lines of a longer buffer: first those of its beginning, then those of what that leaves with the
-- rest.
resumed : List (List ℕ) × List ℕ → List ℕ → List (List ℕ) × List ℕ
resumed cut ys = let more = split_lines (cut.1 ++ ys) in (cut.0 ++ more.0, more.1)

join_byte-resumed :
    (byte : ℕ) (lines : List (List ℕ)) (left ys : List ℕ)
    → (byte == 10) ≡ false
    → (let r = resumed (lines, left) ys in join_byte byte r.0 r.1)
      ≡ resumed (join_byte byte lines left) ys
unfolding resumed
join_byte-resumed byte [] left ys h = unfold split_lines in rw h
join_byte-resumed byte (line ∷ lines) left ys h = refl

split_lines-append : (xs ys : List ℕ) → split_lines (xs ++ ys) ≡ resumed (split_lines xs) ys
unfolding split_lines resumed
split_lines-append [] ys = refl
split_lines-append (byte ∷ xs) ys =
    let ih = split_lines-append xs ys in
    elim (Bool-cases (byte == 10)) [
      | inl newline ↦ rw (ih, newline)
      | inr other ↦
          rw (other, ih) (join_byte-resumed byte (split_lines xs).0 (split_lines xs).1 ys other)
    ]

per_line-bind {ℓ κ} :
    {A : Type ℓ} {B : Type κ} (go : Progress → Emits A) (stop : Emits A) (f : A → Emits B)
    (line : Line)
    → (per_line go stop line >>= f) ≡ per_line (λ q. go q >>= f) (stop >>= f) line
per_line-bind go stop f (next p) = refl
per_line-bind go stop f returned = refl

per_line-ext {ℓ} :
    {A : Type ℓ} (go go' : Progress → Emits A) (stop stop' : Emits A)
    → ((q : Progress) → go q ≡ go' q)
    → stop ≡ stop'
    → (line : Line) → per_line go stop line ≡ per_line go' stop' line
per_line-ext go go' stop stop' h k (next p) = h p
per_line-ext go go' stop stop' h k returned = k

module _ (from_str : String → Option Value) (json_error : String → String) where
  -- The loop over the lines, cut in two.
  on_lines-append {ℓ} :
      {A : Type ℓ} (go : Progress → Emits A) (stop : Emits A) (xs ys : List (List ℕ)) (p : Progress)
      → (on_lines from_str json_error p (xs ++ ys) >>= per_line go stop) ≡ (
          on_lines from_str json_error p xs
          >>= per_line (λ q. on_lines from_str json_error q ys >>= per_line go stop) stop)
  unfolding on_lines
  on_lines-append go stop [] ys p = sym (pure_bind (next p) _)
  on_lines-append go stop (raw ∷ xs) ys p =
      let on = on_line from_str json_error p raw in
      let inner = per_line (λ q. on_lines from_str json_error q ys >>= per_line go stop) stop in
      >>=-assoc on (per_line (λ q. on_lines from_str json_error q (xs ++ ys)) (pure returned))
        (per_line go stop)
      ∙ >>=-ext on _ _ (λ line.
        per_line-bind (λ q. on_lines from_str json_error q (xs ++ ys)) (pure returned)
          (per_line go stop) line
        ∙ per_line-ext _ _ _ _ (λ q. on_lines-append go stop xs ys q)
            (pure_bind returned (per_line go stop) ∙ sym (pure_bind returned inner)) line
        ∙ sym (per_line-bind (λ q. on_lines from_str json_error q xs) (pure returned) inner line))
      ∙ sym (>>=-assoc on (per_line (λ q. on_lines from_str json_error q xs) (pure returned)) inner)

  -- Two deliveries of bytes are as good as one.
  parse_from-join :
      (p : Progress) (buffer xs ys : List ℕ) (rest : List Delivery)
      → parse_from from_str json_error p buffer (bytes xs ∷ bytes ys ∷ rest)
        ≡ parse_from from_str json_error p buffer (bytes (xs ++ ys) ∷ rest)
  unfolding parse_from resumed
  parse_from-join p buffer xs ys rest =
      let cut = split_lines (buffer ++ xs) in
      let whole : split_lines (buffer ++ (xs ++ ys)) ≡ resumed cut ys =
        ap split_lines (sym (append_assoc buffer xs ys)) ∙ split_lines-append (buffer ++ xs) ys in
      rw whole (
        sym (
          on_lines-append (λ q. parse_from from_str json_error q (resumed cut ys).1 rest) (pure tt)
            cut.0 (split_lines (cut.1 ++ ys)).0 p))

  joined :
      (p : Progress) (buffer xs : List ℕ) (chunks : List (List ℕ)) (rest : List Delivery)
      → parse_from from_str json_error p buffer (bytes xs ∷ map bytes chunks ++ rest)
        ≡ parse_from from_str json_error p buffer (bytes (xs ++ concat chunks) ∷ rest)
  joined p buffer xs [] rest = rw append-nil
  joined p buffer xs (ys ∷ chunks) rest =
      parse_from-join p buffer xs ys (map bytes chunks ++ rest)
      ∙ joined p buffer (xs ++ ys) chunks rest
      ∙ ap (λ zs. parse_from from_str json_error p buffer (bytes zs ∷ rest))
          (append_assoc xs ys (concat chunks))

  -- A reply gives the same events and the same end however its bytes are cut into deliveries, within
  -- a line or within a character: as if they all came at once. What is delivered after them, such as
  -- an error of the connection, is the same.
  pub parse_sse-chunks :
      (xs : List ℕ) (chunks : List (List ℕ)) (rest : List Delivery)
      → parse_sse from_str json_error (map bytes (xs ∷ chunks) ++ rest)
        ≡ parse_sse from_str json_error (bytes (concat (xs ∷ chunks)) ∷ rest)
  unfolding parse_sse
  parse_sse-chunks xs chunks rest = joined _ [] xs chunks rest
