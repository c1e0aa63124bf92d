-- ===== src/Wire.antt =====
-- The bytes of the structures: words, the `ByteValued` interface, and how `repr(C)` lays out fields.
pub mod Bytes
pub mod ByteValued
pub mod Layout
pub mod Array
