-- ===== src/Anthropic.antt =====
-- src/anthropic.rs: the Anthropic side of the proxy: requests in, event streams out, and the
-- estimate of a request's size in tokens.
pub mod Fields
pub mod Blocks
pub mod History
pub mod Normalize
pub mod Encoder
pub mod Tokens
