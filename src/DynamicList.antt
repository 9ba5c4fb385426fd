-- ===== src/DynamicList.antt =====
-- src/dynamic_lists.h and src/dynamic_lists.c: doubly linked lists over an explicit heap.
pub mod Heap
pub mod Chain
pub mod Ops
pub mod Iterate
pub mod Splice
pub mod Copy
pub mod CopyInto
pub mod Push
pub mod PushFront
pub mod PopFront
pub mod Walk
pub mod Detach
pub mod Print
mod Examples
