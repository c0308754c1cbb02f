-- ===== src/Crypto/Box.antt =====
-- `crypto_box` of libasignify/tweetnacl.c with the conversions of keys, as a parameter over the
-- signatures.
use asignify.Base.{◌≡◌, Option, some, ◌++◌, Bytes, IsBytes, length, zero_bytes}
use asignify.Util.Digest.{Hashes}
use asignify.Crypto.Ed25519.{Ed25519}

-- `box m nonce pk sk` is what `crypto_box` stores for a message with 32 zero bytes in front, and
-- `box_open` what `crypto_box_open` stores, or none if it returns -1; `sk_to_curve` and
-- `pk_to_curve` are the `crypto_sign_ed25519_*_to_curve25519`. The two keys of either side agree on
-- the same secret.
pub record Box {h : Hashes} (ed : Ed25519 h) : Type 0 where
  pub sk_to_curve : Bytes → Bytes
  pub pk_to_curve : Bytes → Bytes
  pub box : Bytes → Bytes → Bytes → Bytes → Bytes
  pub box_open : Bytes → Bytes → Bytes → Bytes → Option Bytes
  pub length-box : (m nonce pk sk : Bytes) → length (box m nonce pk sk) ≡ length m
  pub box-IsBytes : (m nonce pk sk : Bytes) → IsBytes m → IsBytes (box m nonce pk sk)
  pub box_open-box :
      (m nonce a b : Bytes)
      → box_open
          (box (zero_bytes 32 ++ m) nonce (pk_to_curve (ed.public_of b)) (sk_to_curve a))
          nonce
          (pk_to_curve (ed.public_of a))
          (sk_to_curve b)
        ≡ some (zero_bytes 32 ++ m)
