-- ===== src/Anthropic/Encoder/Client/Draft.antt =====
-- The encoder's own account of a stream: the state that it has after some events, as a record of what
-- the events have said so far.
use calude_proxy.Base.{ℕ, String, Option, none, some, List, [], ◌∷◌, ◌⧺◌}
use calude_proxy.Json.{unwrap_or}
use calude_proxy.Domain.{ProviderEvent}
use calude_proxy.Anthropic.Encoder.{Tools, insert, push_arguments}
use calude_proxy.Anthropic.Encoder.Client.{Block}

pub record Draft : Type 0 where
  pub text : Option String
  pub tools : Tools
  pub input_tokens : ℕ
  pub output_tokens : ℕ

unfoldable pub empty_draft : ℕ → Draft
empty_draft input_tokens = record {
  text = none;
  tools = [];
  input_tokens = input_tokens;
  output_tokens = 0;
}

unfoldable pub note : Draft → ProviderEvent → Draft
note d (ProviderEvent.text more) = record d { text = some (unwrap_or d.text "" ⧺ more) }
note d (ProviderEvent.tool_start index id name) = record d {
  tools = insert index (record { id = id; name = name; arguments = "" }) d.tools;
}
note d (ProviderEvent.tool_delta index more) = record d {
  tools = push_arguments index more d.tools;
}
note d (ProviderEvent.usage usage) = record d {
  input_tokens = usage.input_tokens;
  output_tokens = usage.output_tokens;
}
note d (ProviderEvent.finished reason (some usage)) = record d {
  input_tokens = usage.input_tokens;
  output_tokens = usage.output_tokens;
}
note d (ProviderEvent.finished reason none) = d

unfoldable pub note_all : Draft → List ProviderEvent → Draft
note_all d [] = d
note_all d (event ∷ rest) = note_all (note d event) rest

unfoldable pub tool_blocks : Tools → List Block
tool_blocks [] = []
tool_blocks ((k, tool) ∷ rest) = Block.tool_use tool.id tool.name tool.arguments ∷ tool_blocks rest

-- The content that the encoder makes of it.
unfoldable pub content : Option String → Tools → List Block
content (some t) tools = Block.text t ∷ tool_blocks tools
content none [] = Block.text "" ∷ []
content none (tool ∷ rest) = tool_blocks (tool ∷ rest)
