-- ===== src/Run.antt =====
-- src/run.c: the worker process that the server starts for a word.
pub mod Main
pub mod Correct
mod Examples
