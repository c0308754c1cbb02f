-- ===== src/Keys.antt =====
-- Keys and signatures: libasignify/databuf.c, libasignify/generate.c, libasignify/pubkey.c and
-- libasignify/signature.c.
pub mod Fields
pub mod Public
pub mod Signature
pub mod Ssh
pub mod Line
pub mod Load
pub mod Write
