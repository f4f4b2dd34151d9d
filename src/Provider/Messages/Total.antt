-- ===== src/Provider/Messages/Total.antt =====
-- Which messages can be converted.
use calude_proxy.Base.{
  String, Bool, true, false, ◌&&◌, ◌≡◌, refl, ◌∙◌, Option, some, List, [], ◌∷◌, all, arith,
}
use calude_proxy.Error.{Result, ok, err, ◌>>=◌}
use calude_proxy.Json.{Value, is_string}
use calude_proxy.Domain.{
  NormalizedRequest, NormalizedMessage, MessageRole, InputBlock, image, tool_result, tool_use,
}
use calude_proxy.Domain
use calude_proxy.Provider.Messages.{
  Parts, Turn, add_block, add_blocks, convert_user, add_turn, add_turns, convert_assistant,
  convert_message, convert_all, convert_messages,
}

-- `Result::is_ok`.
abbrev pub is_ok {ℓ} : {A : Type ℓ} → Result A → Bool
is_ok (ok a) = true
is_ok (err e) = false

-- What may stand in a user or system message, and in an assistant message.
abbrev pub fits_user : InputBlock → Bool
fits_user (tool_result id content is_error) = is_string content
fits_user (tool_use id name input) = false
fits_user _ = true

abbrev pub fits_assistant : InputBlock → Bool
fits_assistant (image media_type image_data) = false
fits_assistant (tool_result id content is_error) = false
fits_assistant _ = true

abbrev fits_role : MessageRole → List InputBlock → Bool
fits_role MessageRole.assistant blocks = all fits_assistant blocks
fits_role _ blocks = all fits_user blocks

abbrev pub fits : NormalizedMessage → Bool
fits m = fits_role m.role m.blocks

-- A chain succeeds if its two parts do.
is_ok-bind {ℓ κ} :
    {A : Type ℓ} {B : Type κ} (m : Result A) (f : A → Result B) (b c : Bool)
    → is_ok m ≡ b
    → ((a : A) → is_ok (f a) ≡ c)
    → is_ok (m >>= f) ≡ (b && c)
is_ok-bind (ok a) f b c e h = rw (← e) (h a)
is_ok-bind (err x) f b c e h = rw (← e) refl

is_ok-map {ℓ κ} :
    {A : Type ℓ} {B : Type κ} (m : Result A) (f : A → B) → is_ok (m >>= λ a. ok (f a)) ≡ is_ok m
is_ok-map (ok a) f = refl
is_ok-map (err e) f = refl

is_ok-add_block : (p : Parts) (b : InputBlock) → is_ok (add_block p b) ≡ fits_user b
unfolding add_block
is_ok-add_block p (Domain.InputBlock.text t) = refl
is_ok-add_block p (image m d) = refl
is_ok-add_block p (tool_result i v e) = ground arith
is_ok-add_block p (tool_use i n v) = refl

is_ok-add_blocks : (p : Parts) (bs : List InputBlock) → is_ok (add_blocks p bs) ≡ all fits_user bs
unfolding add_blocks
is_ok-add_blocks p [] = refl
is_ok-add_blocks p (b ∷ bs) =
    is_ok-bind (add_block p b) _ (fits_user b) (all fits_user bs) (is_ok-add_block p b)
      (λ q. is_ok-add_blocks q bs)

is_ok-convert_user :
    (role : String) (bs : List InputBlock) → is_ok (convert_user role bs) ≡ all fits_user bs
unfolding convert_user
is_ok-convert_user role bs = is_ok-map (add_blocks _ bs) _ ∙ is_ok-add_blocks _ bs

module _ (to_string : Value → Option String) (print_error : Value → String)
    (prints : (v : Value) → (s : String) × (to_string v ≡ some s)) where
  is_ok-add_turn :
      (t : Turn) (b : InputBlock) → is_ok (add_turn to_string print_error t b) ≡ fits_assistant b
  unfolding add_turn
  is_ok-add_turn t (Domain.InputBlock.text s) = refl
  is_ok-add_turn t (image m d) = refl
  is_ok-add_turn t (tool_result i v e) = refl
  is_ok-add_turn t (tool_use i n v) = rw (prints v).1

  is_ok-add_turns :
      (t : Turn) (bs : List InputBlock)
      → is_ok (add_turns to_string print_error t bs) ≡ all fits_assistant bs
  unfolding add_turns
  is_ok-add_turns t [] = refl
  is_ok-add_turns t (b ∷ bs) =
      is_ok-bind (add_turn to_string print_error t b) _ (fits_assistant b) (all fits_assistant bs)
        (is_ok-add_turn t b) (λ u. is_ok-add_turns u bs)

  is_ok-convert_message :
      (role : MessageRole) (bs : List InputBlock)
      → is_ok (convert_message to_string print_error role bs) ≡ fits_role role bs
  unfolding convert_message convert_assistant
  is_ok-convert_message MessageRole.system bs = is_ok-convert_user "system" bs
  is_ok-convert_message MessageRole.user bs = is_ok-convert_user "user" bs
  is_ok-convert_message MessageRole.assistant bs =
      is_ok-map (add_turns to_string print_error _ bs) _ ∙ is_ok-add_turns _ bs

  is_ok-convert_all :
      (ms : List NormalizedMessage) → is_ok (convert_all to_string print_error ms) ≡ all fits ms
  unfolding convert_all
  is_ok-convert_all [] = refl
  is_ok-convert_all (m ∷ ms) =
      is_ok-bind (convert_message to_string print_error m.role m.blocks) _ (fits m) (all fits ms)
        (is_ok-convert_message m.role m.blocks)
        (λ converted. is_ok-map (convert_all to_string print_error ms) _ ∙ is_ok-convert_all ms)

  -- If every JSON value can be printed, the messages of a request can be converted exactly if user
  -- and system messages have no tool call and only tool results that are strings, and assistant
  -- messages have text and tool calls alone.
  pub is_ok-convert_messages :
      (request : NormalizedRequest)
      → is_ok (convert_messages to_string print_error request) ≡ all fits request.messages
  unfolding convert_messages
  is_ok-convert_messages request = is_ok-convert_all request.messages
