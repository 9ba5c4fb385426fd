-- ===== src/Text.antt =====
-- src/getline.h: one line at a time, from a string and from a file. A string is the list of its
-- characters up to the null byte. Pointers that the callers never leave NULL are not modelled.
pub mod Gets
pub mod Getline
pub mod Scan
pub mod Decimal
mod Examples
