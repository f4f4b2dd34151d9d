-- ===== src/Anthropic/Blocks/Loose.antt =====
-- The parsers of blocks under the two validation modes, and their errors.
use calude_proxy.Base.{ℕ, String, Bool, true, false, Option}
use calude_proxy.Error.Invalid.{FailsInvalid}
use calude_proxy.Json.{Value, string, array, items}
use calude_proxy.Anthropic.Fields.Loosens.{
  Loosens, Loosens-refl, Loosens-each, FailsInvalid-each, loosens, parser_fails,
}
use calude_proxy.Anthropic.Blocks.{system_block, parse_system, parse_block, parse_content}

system_block-Loosens :
    (index : ℕ) (v : Value) → Loosens (system_block true index v) (system_block false index v)
unfolding system_block
system_block-Loosens index v = search (loosens) depth 20

pub parse_system-Loosens : (v : Value) → Loosens (parse_system v true) (parse_system v false)
unfolding parse_system
parse_system-Loosens (array blocks) = Loosens-each _ _ system_block-Loosens 0 (items blocks)
parse_system-Loosens _ = Loosens-refl _

system_block_fails :
    (strict : Bool) (index : ℕ) (v : Value) → FailsInvalid (system_block strict index v)
unfolding system_block
system_block_fails strict index v = search (parser_fails) depth 20

pub parse_system_fails : (v : Value) (strict : Bool) → FailsInvalid (parse_system v strict)
unfolding parse_system
parse_system_fails (array blocks) strict =
    FailsInvalid-each _ (system_block_fails strict) 0 (items blocks)
parse_system_fails _ strict = search (parser_fails)

module _ (base64_valid : String → Bool) (url_scheme : String → Option String) where
  parse_block-Loosens :
      (path : String) (v : Value)
      → Loosens
          (parse_block base64_valid url_scheme true path v)
          (parse_block base64_valid url_scheme false path v)
  unfolding parse_block
  parse_block-Loosens path v = search (loosens) depth 30

  pub parse_content-Loosens :
      (v : Value) (index : ℕ)
      → Loosens
          (parse_content base64_valid url_scheme v index true)
          (parse_content base64_valid url_scheme v index false)
  unfolding parse_content
  parse_content-Loosens (string text) index = Loosens-refl _
  parse_content-Loosens _ index = search (loosens, parse_block-Loosens) depth 30

  parse_block_fails :
      (strict : Bool) (path : String) (v : Value)
      → FailsInvalid (parse_block base64_valid url_scheme strict path v)
  unfolding parse_block
  parse_block_fails strict path v = search (parser_fails) depth 40

  pub parse_content_fails :
      (v : Value) (index : ℕ) (strict : Bool)
      → FailsInvalid (parse_content base64_valid url_scheme v index strict)
  unfolding parse_content
  parse_content_fails (string text) index strict = search (parser_fails)
  parse_content_fails _ index strict = search (parser_fails, parse_block_fails) depth 30
