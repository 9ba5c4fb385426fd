-- ===== src/Autovalidator.antt =====
-- src/autovalidator.c: the driver that starts the server and the testers on files.
pub mod Ops
pub mod Args
mod Examples
