-- ===== src/Util/Digest.antt =====
-- The kinds of digest (include/asignify.h), their lengths and names, and the digest of an open
-- file (libasignify/util.c). The hash functions themselves are vendored code, and a parameter.
pub mod Chunks
use asignify.Base.{ℕ, Bool, true, false, String, Option, none, some, List, [], ◌∷◌, ◌++◌, Bytes}
use asignify.Base.{IsBytes, ◌≡◌, codes, length, if◌then◌else◌}

pub data DigestType : Type 0 where
  sha256 sha512 blake2 size max : DigestType

abbrev pub digest_len : DigestType → ℕ
digest_len DigestType.sha512 = 64
digest_len DigestType.sha256 = 32
digest_len DigestType.blake2 = 64
digest_len _ = 0

unfoldable pub digest_name : DigestType → Bytes
digest_name DigestType.sha512 = codes "SHA512"
digest_name DigestType.sha256 = codes "SHA256"
digest_name DigestType.blake2 = codes "BLAKE2"
digest_name DigestType.size = codes "SIZE"
digest_name DigestType.max = []

-- A hash function with its incremental interface.
pub record HashAlgorithm : Type 1 where
  pub State : Type 0
  pub init : State
  pub update : State → Bytes → State
  pub final : State → Bytes
  pub final_len : ℕ
  pub update-append : (s : State) (a b : Bytes) → update s (a ++ b) ≡ update (update s a) b
  pub update-nil : (s : State) → update s [] ≡ s
  pub length-final : (s : State) → length (final s) ≡ final_len
  pub final-IsBytes : (s : State) → IsBytes (final s)

-- The three that the program links: SHA-512, SHA-256 and BLAKE2b at full output length.
pub record Hashes : Type 1 where
  pub sha512 : HashAlgorithm
  pub sha256 : HashAlgorithm
  pub blake2b : HashAlgorithm
  pub sha512_len : sha512.final_len ≡ 64
  pub sha256_len : sha256.final_len ≡ 32
  pub blake2b_len : blake2b.final_len ≡ 64

-- The `switch` of `asignify_digest_init`, `_update` and `_final`; none is the call of `abort`.
pub digest_algorithm : Hashes → DigestType → Option HashAlgorithm
digest_algorithm h DigestType.sha512 = some h.sha512
digest_algorithm h DigestType.sha256 = some h.sha256
digest_algorithm h DigestType.blake2 = some h.blake2b
digest_algorithm h _ = none

-- An open file: whether it can seek, and what the calls of `read` return until one returns no
-- more than 0.
pub record Descriptor : Type 0 where
  pub seeks : Bool
  pub reads : List Bytes

-- The `while` over the reads.
unfoldable pub digest_reads : (a : HashAlgorithm) → a.State → List Bytes → a.State
digest_reads a s [] = s
digest_reads a s (buf ∷ bufs) = digest_reads a (a.update s buf) bufs

-- `asignify_digest_final` after the `while` over the reads.
digest_seek : Option HashAlgorithm → Descriptor → Option Bytes
unfolding digest_reads
digest_seek none fd = none
digest_seek (some a) fd = if fd.seeks then some (a.final (digest_reads a a.init fd.reads)) else none

-- `asignify_digest_fd`; a null pointer is none, and so is the descriptor -1.
unfoldable pub digest_fd : Hashes → DigestType → Option Descriptor → Option Bytes
unfolding digest_algorithm digest_seek
digest_fd h type none = none
digest_fd h DigestType.size (some fd) = none
digest_fd h DigestType.max (some fd) = none
digest_fd h type (some fd) = digest_seek (digest_algorithm h type) fd
