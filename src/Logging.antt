-- ===== src/Logging.antt =====
-- src/syslog.h: messages with a level, and the end of the process that fatal ones bring.
pub mod Ops
pub mod Laws
