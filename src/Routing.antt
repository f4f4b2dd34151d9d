-- ===== src/Routing.antt =====
-- src/routing.rs: which provider a request goes to. The children hold the choice of a route, the
-- order of its targets, and the attempts.
pub mod Order
pub mod Resolve
pub mod Circuits
pub mod Candidates
pub mod Attempts
pub mod Tokens
