-- ===== src/Automaton.antt =====
-- src/automaton.h: the alternating automaton of the worker process.
pub mod Graph
pub mod Spec
pub mod View
pub mod Loader
pub mod Printer
pub mod Sync
pub mod Async
mod Examples
