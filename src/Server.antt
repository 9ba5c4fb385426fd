-- ===== src/Server.antt =====
-- src/validator.c: the server, as a state and one function per part of `main`.
pub mod Fork
pub mod Formats
pub mod Waiting
pub mod State
pub mod Handlers
pub mod Cycle
pub mod Sessions
pub mod Invariant
pub mod Frame
pub mod Termination
pub mod Stopping
pub mod Names
pub mod Answers
pub mod Main
mod Examples
