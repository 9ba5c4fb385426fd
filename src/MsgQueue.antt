-- ===== src/MsgQueue.antt =====
-- src/msg_queue.h: message queues, over the POSIX queues of the operating system, whose operations and
-- documented behaviour are an interface. The calls that register descriptors with the
-- garbage collector are left out.
pub mod Posix
pub mod Ops
pub mod Lifetime
mod Examples
