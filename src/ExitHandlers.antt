-- ===== src/ExitHandlers.antt =====
-- src/onexit.h: the functions that run when a process ends. A handler is known by a name; one that
-- adds handlers while they run is not modelled.
pub mod Ops
pub mod Order
mod Examples
