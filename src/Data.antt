-- ===== src/Data.antt =====
-- The structures of libasignify/asignify_internal.h that several files share. A buffer with its
-- length is a list of bytes, and a null pointer is none.
use asignify.Base.{ℕ, Option, List, Bytes}
use asignify.Util.Digest.{DigestType}

-- `struct asignify_file_digest`, one node of the list `digests`.
pub record FileDigest : Type 0 where
  pub digest_type : DigestType
  pub digest : Bytes

-- `struct asignify_file`.
pub record File : Type 0 where
  pub fname : Bytes
  pub digests : List FileDigest
  pub size : ℕ

-- `struct asignify_public_data`: a public key, a signature or the header of an encrypted file.
pub record PublicData : Type 0 where
  pub data_bytes : Bytes
  pub id : Bytes
  pub aux : Option Bytes
  pub version : ℕ

-- `struct asignify_private_data`: a secret key that is ready for use. No identifier is none if the
-- two fields are left as `malloc` gave them, and the empty one if they are cleared.
pub record PrivateData : Type 0 where
  pub data_bytes : Bytes
  pub id : Option Bytes
  pub version : ℕ

-- `struct asignify_private_key`: a secret key as it stands in its file.
pub record PrivateKey : Type 0 where
  pub version : ℕ
  pub pbkdf_alg : Option Bytes
  pub rounds : ℕ
  pub salt : Option Bytes
  pub checksum : Option Bytes
  pub id : Option Bytes
  pub encrypted_blob : Option Bytes
