-- ===== src/Tests/Crypto.antt =====
-- Runs of the digest of a file, the derivation of a key and the encryption.
use asignify.Base.{◌≡◌, refl, arith, true, some, List, [], ◌∷◌, ◌++◌, Bytes, codes, length}
use asignify.Crypto.Xor.{xor_bytes}
use asignify.Crypto.Pbkdf2.{
  pkcs5_pbkdf2, derived, unwritten, pkcs5_pbkdf2_wraps, pkcs5_pbkdf2_unwritten,
}
use asignify.Util.Digest.{DigestType, digest_fd}
use asignify.Util.Digest.Chunks.{hash_of, concat, digest_fd-hash_of}
use asignify.Tests.Toys.{repeat, length-repeat, repeat-IsBytes, toy_blake, toy_hashes}

abbrev two_reads : List Bytes
two_reads = codes "ab" ∷ codes "c" ∷ []

digest_fd_run :
    digest_fd toy_hashes DigestType.sha256 (some (record { seeks = true; reads = two_reads }))
    ≡ some (repeat 32 38)
unfolding digest_fd
digest_fd_run = refl

digest_fd-hash_of_example :
    digest_fd toy_hashes DigestType.sha256 (some (record { seeks = true; reads = two_reads }))
    ≡ hash_of toy_hashes DigestType.sha256 (concat two_reads)
digest_fd-hash_of_example = digest_fd-hash_of toy_hashes DigestType.sha256 two_reads

pkcs5_pbkdf2_run : pkcs5_pbkdf2 toy_blake (codes "pw") (1 ∷ 2 ∷ []) 3 2 ≡ derived (repeat 3 76)
unfolding pkcs5_pbkdf2 xor_bytes
pkcs5_pbkdf2_run = refl

pkcs5_pbkdf2_wraps_example :
    (key : Bytes) × (pkcs5_pbkdf2 toy_blake (codes "pw" ++ repeat 256 b'x') (1 ∷ 2 ∷ []) 3 2
      ≡ derived key)
    × (pkcs5_pbkdf2 toy_blake (codes "pw") (1 ∷ 2 ∷ []) 3 2 ≡ derived key)
    × (length key ≡ 3)
pkcs5_pbkdf2_wraps_example =
    pkcs5_pbkdf2_wraps toy_blake (codes "pw") (repeat 256 b'x') (1 ∷ 2 ∷ []) 3 2 (omega arith)
      (length-repeat 256 b'x') (omega arith) (omega arith) (omega arith) (omega arith)

pkcs5_pbkdf2_unwritten_example :
    (key : Bytes → Bytes → Bytes) × (pkcs5_pbkdf2 toy_blake (repeat 65 b'x') (1 ∷ 2 ∷ []) 64 10001
      ≡ unwritten key)
    × (key (repeat 64 3) (repeat 64 4) ≡ repeat 64 3)
pkcs5_pbkdf2_unwritten_example =
    pkcs5_pbkdf2_unwritten toy_blake (repeat 65 b'x') (1 ∷ 2 ∷ []) 10001 (repeat 64 3) (repeat 64 4)
      (omega arith) (omega arith) (omega arith) (omega arith) (length-repeat 64 3)
      (repeat-IsBytes 64 3 (omega arith)) (repeat-IsBytes 64 4 (omega arith))
