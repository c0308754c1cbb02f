-- ===== src/Crypto/Ed25519.antt =====
-- The signatures of libasignify/tweetnacl.c, as a parameter over the hash functions.
use asignify.Base.{◌≡◌, Bool, true, ◌++◌, Bytes, IsBytes, length, take}
use asignify.Util.Digest.{Hashes}

-- SHA-512 of a text.
abbrev pub sha512_of : Hashes → Bytes → Bytes
sha512_of h s = h.sha512.final (h.sha512.update h.sha512.init s)

-- `sign sk m` is the first 64 bytes that `crypto_sign` stores, `verify sig hash pk` whether
-- `crypto_sign_ed25519_verify_detached` returns 0, and `public_of` the public half of a secret key.
pub record Ed25519 (h : Hashes) : Type 0 where
  pub sign : Bytes → Bytes → Bytes
  pub verify : Bytes → Bytes → Bytes → Bool
  pub public_of : Bytes → Bytes
  pub length-sign : (sk m : Bytes) → length (sign sk m) ≡ 64
  pub sign-IsBytes : (sk m : Bytes) → IsBytes (sign sk m)
  pub length-public_of : (sk : Bytes) → length (public_of sk) ≡ 32
  pub verify-sign :
      (sk m : Bytes)
      → verify (sign sk m) (sha512_of h (take 32 (sign sk m) ++ (public_of sk ++ m))) (public_of sk)
        ≡ true
