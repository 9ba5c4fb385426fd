-- ===== src/Tester.antt =====
-- src/tester.c: the process that sends words to the server and prints the answers.
pub mod Loop
pub mod Stored
pub mod Invariant
pub mod Rounds
pub mod Pending
pub mod Replies
pub mod Main
mod Examples
