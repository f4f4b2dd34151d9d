-- ===== src/Lib.antt =====
-- A model of calude-proxy: a proxy that takes requests of the Anthropic Messages protocol, sends them
-- to providers of the Chat Completions protocol, and translates the replies back.
--
-- How the parts interact. A request is checked in `src/server.rs` (API version, client key, permits,
-- body), brought into a neutral form by `src/anthropic.rs`, and given to the one route that matches
-- its model, in `src/routing.rs`. The route's targets are filtered and ordered there, and tried one
-- after the other; `src/provider.rs` adapts the request to each target, builds the body, and turns
-- the reply, whole or as a stream, into neutral blocks or events. `src/anthropic.rs` encodes the
-- events for the client.
--
-- Which file models what:
--   Base, Json          lists, texts and tests; serde_json values and their accessors
--   Error               src/error.rs; Error/Invalid is the class of functions with 400 errors alone,
--                       Error/Final that of functions whose errors are never retried
--   Domain              src/domain.rs
--   Config              src/config.rs: its types; Secrets is `SecretRef::resolve`, Validate is
--                       `AppConfig::validate`, and a module Configured in another part says what
--                       holds there of a configuration that has passed
--   Anthropic/Fields, Blocks, History, Normalize    `normalize` of src/anthropic.rs and its parsers
--   Anthropic/Tokens    `count_tokens` of src/anthropic.rs
--   Anthropic/Encoder   `StreamEncoder`; Encoder/Client is an independent client of the event stream
--                       and Encoder/Client/Message the message that a provider's events stand for
--   Provider            `Provider`; Circuit, Adapt, Messages, Body, Response, Sse and Status are
--                       the circuit breaker, `adapt_request`, `convert_messages`, `build_request`,
--                       `convert_response`, `parse_sse` and `classify_status`; Calls is `send`,
--                       `execute`, `stream` and `probe`; Emits is `try_stream!`
--   Routing             Resolve, Candidates, Order and Attempts are `resolve`, `candidates`,
--                       `weighted_priority_order`, and the loops of `execute` and `stream`; Circuits
--                       is the store of the providers' circuit states
--   Routing/Tokens      `count_tokens` of src/routing.rs and src/provider.rs, and a stream's estimate
--   Auth                src/auth.rs: the registry of clients and the limits of each
--   Server              src/server.rs: the checks of `messages_inner`, its permits and its stream;
--                       Stream/Recorded is the stream that src/routing.rs puts before it, Count is
--                       the handler `count_tokens`
--   Process             loading a configuration (src/config.rs), the reload of src/main.rs, `ready`;
--                       Construction is `Runtime::new`, `Router::new` and `Provider::new`
--   Dashboard           src/dashboard.rs: Tables is the database of migrations/, with a function for
--                       each kind of statement; Versions, Clients, Providers and Routes are the
--                       handlers of `/api`, Session the login, Setup what is done before serving
-- A module named Examples holds concrete inputs; the other children hold lemmas and theorems.
--
-- How the state is modelled. A mutex or an atomic becomes a value that is passed on: the circuit
-- states as a function from provider ids, a client's limiter and permits as a record. Instants are
-- numbers that the caller gives; where a theorem needs a clock that does not go back, it says so.
-- The events of a history stand newest first. An `f64` is kept exactly, as a multiple of 2^-1074. The
-- failure counter wraps at 2^32; indices and token counts are not bounded. All loops are structural
-- recursion, so no fuel is needed, but for `decimal`, whose fuel is the number that it prints.
-- A panic is `none`.
--
-- A table of the database is the list of its rows in the order of their entry, and a statement a
-- function on it that observes the UNIQUE, NOT NULL and foreign key constraints of migrations/; any
-- statement may fail, by a fault that the caller gives. A handler that runs several statements has a
-- function for each step, so that requests can interleave. An `i32` version is kept as the number
-- that is 2^31 larger; its successor wraps.
--
-- Parameters stand for what is not in the repository: SHA-256 and the constant-time comparison,
-- Argon2, the base64 decoder, the URL parser, the glob compiler and matcher, the random source, the
-- tokenizers, JSON and YAML printing and parsing of texts, the HTTP client, the names and values
-- that the `http` crate accepts for headers, and the environment and the files in which secrets
-- stand.
--
-- Not modelled: the sockets, axum's routing and layers, metrics and logs, the command line, listeners
-- and shutdown of src/main.rs, opening the database, `health_check`, and the pages of the dashboard
-- beyond which of them is answered.
pub mod Base
pub mod Error
pub mod Json
pub mod Domain
pub mod Config
pub mod Dashboard
pub mod Provider
pub mod Routing
pub mod Auth
pub mod Anthropic
pub mod Server
pub mod Process
