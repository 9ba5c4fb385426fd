-- ===== src/HashMap.antt =====
-- src/hashmap.h: a hash map over array lists and doubly linked lists.
pub mod Ops
pub mod Iterator
pub mod Assoc
pub mod Laws
pub mod Deep
pub mod Places
pub mod Visit
pub mod Destroy
mod Examples
