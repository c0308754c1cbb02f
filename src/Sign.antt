-- ===== src/Sign.antt =====
-- libasignify/sign.c.
pub mod Lines
pub mod Files
pub mod Context
