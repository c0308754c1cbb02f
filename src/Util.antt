-- ===== src/Util.antt =====
-- libasignify/util.c, by groups of functions.
pub mod Errors
pub mod Hex
pub mod Digest
pub mod Disk
