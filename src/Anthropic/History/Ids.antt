-- ===== src/Anthropic/History/Ids.antt =====
-- What `validate_tool_history` accepts: a specification over the sequence of all blocks.
use calude_proxy.Base.{
  turned, ◌≡◌, refl, sym, ap, ◌∙◌, String, Bool, true, false, not, List, [], ◌∷◌, ◌++◌, is_blank,
  one_of, ◌&&◌, inl, inr, Bool-cases, arith,
}
use calude_proxy.Error.{ProxyError, Result, ok, err, ◌>>=◌, >>=-eq-ok}
use calude_proxy.Domain.{InputBlock, MessageRole, NormalizedMessage}
use calude_proxy.Anthropic.History.{
  Seen, is_assistant, is_user, check_block, check_blocks, check_messages, validate_tool_history,
  bad_call, bad_result,
}

-- The blocks of a history in order, each with the role of its message.
pub data Entry : Type 0 where
  entry : MessageRole → InputBlock → Entry

abbrev with_role : MessageRole → List InputBlock → List Entry
with_role role [] = []
with_role role (block ∷ rest) = entry role block ∷ with_role role rest

abbrev pub flatten : List NormalizedMessage → List Entry
flatten [] = []
flatten (message ∷ rest) = with_role message.role message.blocks ++ flatten rest

-- The ids called, and those answered, in a history.
abbrev pub called : List Entry → List String
called [] = []
called (entry role (InputBlock.tool_use id name input) ∷ rest) = id ∷ called rest
called (entry role _ ∷ rest) = called rest

abbrev pub answered : List Entry → List String
answered [] = []
answered (entry role (InputBlock.tool_result id content is_error) ∷ rest) = id ∷ answered rest
answered (entry role _ ∷ rest) = answered rest

-- What the protocol demands of a block; the blocks before it are listed with the latest first.
pub allowed : List Entry → Entry → Bool
allowed past (entry role (InputBlock.tool_use id name input)) =
    is_assistant role && not (is_blank id) && not (one_of id (called past))
allowed past (entry role (InputBlock.tool_result id content is_error)) =
    is_user role && one_of id (called past) && not (one_of id (answered past))
allowed past (entry role _) = true

-- The two sets of the loop after the blocks so far.
abbrev state : List Entry → Seen
state past = record { calls = called past; results = answered past }

check_block-allowed :
    (past : List Entry) (role : MessageRole) (block : InputBlock)
    → allowed past (entry role block) ≡ true
    → check_block role (state past) block ≡ ok (state (entry role block ∷ past))
unfolding allowed check_block
check_block-allowed past role block h = ground arith

check_block-refused :
    (past : List Entry) (role : MessageRole) (block : InputBlock)
    → allowed past (entry role block) ≡ false
    → (x : ProxyError) × (check_block role (state past) block ≡ err x)
unfolding allowed check_block
check_block-refused past role (InputBlock.tool_use id name input) h = (bad_call, ground arith)
check_block-refused past role (InputBlock.tool_result id content is_error) h =
    (bad_result, ground arith)
check_block-refused past role (InputBlock.text t) h = cc
check_block-refused past role (InputBlock.image m d) h = cc

walk : Seen → List Entry → Result Seen
walk seen [] = ok seen
walk seen (entry role block ∷ rest) = check_block role seen block >>= λ after. walk after rest

>>=-assoc {ℓ κ μ} :
    {A : Type ℓ} {B : Type κ} {C : Type μ} (m : Result A) (f : A → Result B) (g : B → Result C)
    → ((m >>= f) >>= g) ≡ (m >>= λ a. f a >>= g)
>>=-assoc (ok a) f g = refl
>>=-assoc (err e) f g = refl

>>=-ext {ℓ κ} :
    {A : Type ℓ} {B : Type κ} (m : Result A) (f g : A → Result B)
    → ((a : A) → f a ≡ g a)
    → (m >>= f) ≡ (m >>= g)
>>=-ext (ok a) f g h = h a
>>=-ext (err e) f g h = refl

check_blocks-walk :
    (role : MessageRole) (seen : Seen) (blocks : List InputBlock) (rest : List Entry)
    → walk seen (with_role role blocks ++ rest)
      ≡ (check_blocks role seen blocks >>= λ after. walk after rest)
unfolding walk check_blocks
check_blocks-walk role seen [] rest = refl
check_blocks-walk role seen (block ∷ blocks) rest =
    >>=-ext (check_block role seen block) _ _ (λ after. check_blocks-walk role after blocks rest)
    ∙ sym (
        >>=-assoc (check_block role seen block) (λ after. check_blocks role after blocks)
          (λ after. walk after rest))

check_messages-walk :
    (seen : Seen) (messages : List NormalizedMessage)
    → walk seen (flatten messages) ≡ check_messages seen messages
unfolding walk check_messages
check_messages-walk seen [] = refl
check_messages-walk seen (message ∷ rest) =
    check_blocks-walk message.role seen message.blocks (flatten rest)
    ∙ >>=-ext (check_blocks message.role seen message.blocks) _ _
        (λ after. check_messages-walk after rest)

walk-allowed :
    (past before after : List Entry) (e : Entry) {s : Seen}
    → walk (state past) (before ++ e ∷ after) ≡ ok s
    → allowed (turned before past) e ≡ true
unfolding walk
walk-allowed past [] after (entry role block) h =
    elim (Bool-cases (allowed past (entry role block))) [
      | inl fits ↦ fits
      | inr unfit ↦
          let (x, refused) = check_block-refused past role block unfit in
          let stopped = rw refused at h in cc
    ]
walk-allowed past (entry role block ∷ before) after e h =
    elim (Bool-cases (allowed past (entry role block))) [
      | inl fits ↦
          walk-allowed (entry role block ∷ past) before after e
            (rw (check_block-allowed past role block fits) at h)
      | inr unfit ↦
          let (x, refused) = check_block-refused past role block unfit in
          let stopped = rw refused at h in cc
    ]

-- A block that the protocol does not allow, with what is before and after it.
pub Violation : List Entry → List Entry → Type 0
Violation past entries =
    (before : List Entry) × (e : Entry) × (after : List Entry) × (entries ≡ before ++ e ∷ after)
    × (allowed (turned before past) e ≡ false)

walk-Violation :
    (past entries : List Entry) {x : ProxyError}
    → walk (state past) entries ≡ err x
    → Violation past entries
unfolding walk Violation
walk-Violation past [] h = cc
walk-Violation past (entry role block ∷ rest) h =
    elim (Bool-cases (allowed past (entry role block))) [
      | inl fits ↦
          let (before, e, after, split, unfit) =
            walk-Violation (entry role block ∷ past) rest
              (rw (check_block-allowed past role block fits) at h) in
          (entry role block ∷ before, e, after, ap (◌∷◌ (entry role block)) split, unfit)
      | inr unfit ↦ ([], entry role block, rest, refl, unfit)
    ]

abbrev forget {ℓ} : {A : Type ℓ} → Result A → Result (Unit {0})
forget m = m >>= λ a. ok tt

forget-err {ℓ} : {A : Type ℓ} (m : Result A) {x : ProxyError} → forget m ≡ err x → m ≡ err x
forget-err (ok a) h = cc
forget-err (err e) h = cc

validate-walk :
    (messages : List NormalizedMessage)
    → validate_tool_history messages ≡ forget (walk (state []) (flatten messages))
unfolding validate_tool_history
validate-walk messages = ap forget (sym (check_messages-walk (state []) messages))

-- In a history that is accepted, every block is allowed after the blocks before it: a call stands in
-- an assistant message and has a non-empty id that no call before it has; a result stands in a user
-- message and names a call before it that no result before it names.
pub validate_tool_history_sound :
    (messages : List NormalizedMessage) (before after : List Entry) (e : Entry)
    → validate_tool_history messages ≡ ok tt
    → flatten messages ≡ before ++ e ∷ after
    → allowed (turned before []) e ≡ true
validate_tool_history_sound messages before after e h split =
    let (seen, done, same) =
      >>=-eq-ok (walk (state []) (flatten messages)) _ (sym (validate-walk messages) ∙ h) in
    walk-allowed [] before after e (rw split at done)

-- And only such a history is refused: one that has a block which is not allowed after the blocks
-- before it.
pub validate_tool_history_refuses :
    (messages : List NormalizedMessage) (x : ProxyError)
    → validate_tool_history messages ≡ err x
    → Violation [] (flatten messages)
validate_tool_history_refuses messages x h =
    walk-Violation [] (flatten messages)
      (forget-err (walk (state []) (flatten messages)) (sym (validate-walk messages) ∙ h))
