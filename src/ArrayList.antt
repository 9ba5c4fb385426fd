-- ===== src/ArrayList.antt =====
-- src/array_lists.h and src/array_lists.c: an array that grows.
pub mod Ops
pub mod Iterators
pub mod Laws
pub mod Print
