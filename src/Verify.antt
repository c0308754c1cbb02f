-- ===== src/Verify.antt =====
-- libasignify/verify.c.
pub mod Check
pub mod Context
pub mod Digest
pub mod Files
pub mod Machine
