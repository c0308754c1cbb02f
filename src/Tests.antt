-- ===== src/Tests.antt =====
-- Runs at fixed inputs, and the theorems at inputs that meet their hypotheses.
mod Codecs
mod Parsing
mod Toys
mod Crypto
mod Keys
mod Context
mod Ssh
mod Signature
mod Public
mod Files
mod Loading
mod Verifying
mod Encrypting
mod Generating
mod Commands
mod Pipeline
