-- ===== src/Crypto.antt =====
-- The cryptography that the program links but does not define itself, as one parameter: keyed
-- BLAKE2b, and the derivation of keys that the sources build on it (libasignify/pbkdf2.c).
pub mod Pbkdf2
pub mod Xor
pub mod Base64
pub mod Box
pub mod Chacha
pub mod Ed25519
use asignify.Base.{ℕ, ◌≡◌, Bytes, IsBytes, length}

-- `blake2b(out, in, key, 64, inlen, keylen)` as a function of the key and the input.
pub record Blake2b : Type 0 where
  pub hash : Bytes → Bytes → Bytes
  pub length-hash : (key input : Bytes) → length (hash key input) ≡ 64
  pub hash-IsBytes : (key input : Bytes) → IsBytes (hash key input)
