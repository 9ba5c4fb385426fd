-- ===== src/Pipe.antt =====
-- src/msg_pipe.h: message pipes, and the strings that name them. What the operating system does at
-- `pipe`, `close`, `read` and `write` is a parameter. The calls that register
-- descriptors with the garbage collector are left out.
pub mod Ops
pub mod Names
pub mod Owned
pub mod Requests
pub mod Transfer
pub mod Examples
