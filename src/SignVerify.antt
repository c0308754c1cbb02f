-- ===== src/SignVerify.antt =====
-- What the signing side writes (libasignify/sign.c), the verifying side reads back
-- (libasignify/verify.c).
pub mod Table
pub mod Entry
pub mod Lines
pub mod Hangs
pub mod Recorded
pub mod Accepts
