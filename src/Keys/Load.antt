-- ===== src/Keys/Load.antt =====
-- `asignify_private_data_load` of libasignify/databuf.c: a secret key out of its file.
pub mod Values
pub mod Unnamed
pub mod Checks
use asignify.Base.{
  ℕ, Bool, true, false, ◌&&◌, ◌||◌, Option, none, some, List, [], ◌∷◌, Bytes, codes,
}
use asignify.Base.{ltb, leb, ◌==◌, if◌then◌else◌, length, take, bytes_eq, starts_with, c_string}
use asignify.Util.Errors.{Error}
use asignify.Data.{PrivateData, PrivateKey}
use asignify.Crypto.{Blake2b}
use asignify.Crypto.Xor.{xor_bytes}
use asignify.Crypto.Pbkdf2.{pkcs5_pbkdf2, Derived, derived, refused, unwritten}
use asignify.Keys.Line.{parse_line}

abbrev pub pbkdf_minrounds : ℕ
pbkdf_minrounds = 10000

abbrev pub pbkdf_alg_name : Bytes
pbkdf_alg_name = codes "pbkdf2-blake2"

abbrev pub privkey_magic : Bytes
privkey_magic = codes "asignify-private-key"

-- The key, or a null pointer with what is stored to `*error` if anything is, or the use of a null
-- pointer or of bytes that were never written.
pub data Loaded : Type 0 where
  loaded : PrivateData → Loaded
  failed : Option Error → Loaded
  undefined : Loaded

-- A callback that is null is none; one that returns no more than 0 is some none, and one that
-- returns a length some of that many bytes.
abbrev pub PasswordCb : Type 0
PasswordCb = Option (Option Bytes)

abbrev pub has {ℓ} : {A : Type ℓ} → Option A → Bool
has none = false
has (some a) = true

-- `pbkdf_alg && strcmp(pbkdf_alg, PBKDF_ALG) == 0`
unfoldable pub names_pbkdf : Option Bytes → Bool
names_pbkdf none = false
names_pbkdf (some alg) = bytes_eq (c_string alg) pbkdf_alg_name

unfoldable pub is_sane : PrivateKey → Bool
unfolding names_pbkdf
is_sane k =
    if names_pbkdf k.pbkdf_alg
    then if leb pbkdf_minrounds k.rounds
      then if has k.salt
        then if k.version == 1 then has k.encrypted_blob && has k.checksum else false
        else false
      else false
    else if k.version == 1
    then has k.encrypted_blob
    else false

-- `asignify_pkey_to_private_data`, into a structure that `malloc` gave.
unfoldable pub pkey_to_private_data : PrivateKey → Bytes → PrivateData
pkey_to_private_data k blob = record {
  data_bytes = take 64 blob;
  id = elim k.id [ none ↦ none | some i ↦ some (take 8 i) ];
  version = k.version;
}

-- The buffer for the password holds 1024 bytes, and 10 are the canary.
unfoldable pub accepted_password : Option Bytes → Option Bytes
accepted_password none = none
accepted_password (some pw) = if length pw == 0 || ltb 1014 (length pw) then none else some pw

module _ (blake : Blake2b) where
  -- Behind the derivation: the blob is decrypted in place, and its hash compared.
  unfoldable pub check_decrypted : PrivateKey → Bytes → Loaded
  check_decrypted k blob = elim k.checksum [
    | none ↦ undefined
    | some sum ↦
        if bytes_eq (blake.hash [] blob) sum
        then loaded (pkey_to_private_data k blob)
        else failed (some Error.password)
  ]

  unfoldable pub decrypt_with : PrivateKey → Bytes → Derived → Loaded
  unfolding check_decrypted
  decrypt_with k blob refused = failed none
  decrypt_with k blob (unwritten key) = undefined
  decrypt_with k blob (derived xorkey) = check_decrypted k (xor_bytes blob xorkey)

  -- `salt` is read only once the number of rounds has been found to be good.
  unfoldable pub derive_with : PrivateKey → Bytes → Bytes → Option Bytes → Loaded
  unfolding decrypt_with
  derive_with k blob pw none = if k.rounds == 0 then failed none else undefined
  derive_with k blob pw (some salt) =
      decrypt_with k blob (pkcs5_pbkdf2 blake pw (take 16 salt) 64 k.rounds)

  unfoldable pub unpack_encrypted : PrivateKey → Bytes → Option Bytes → Loaded
  unfolding derive_with
  unpack_encrypted k blob none = failed none
  unpack_encrypted k blob (some pw) = derive_with k blob pw k.salt

  -- `asignify_private_data_unpack_key` of a key with the blob `blob`.
  unfoldable pub unpack_key : PrivateKey → Bytes → PasswordCb → Loaded
  unfolding unpack_encrypted accepted_password
  unpack_key k blob cb = elim k.pbkdf_alg [
    | none ↦ loaded (pkey_to_private_data k blob)
    | some alg ↦ elim cb [
      | none ↦ failed none
      | some r ↦ unpack_encrypted k blob (accepted_password r)
    ]
  ]

-- The structure that `memset` clears.
abbrev pub no_key : PrivateKey
no_key = record {
  version = 0;
  pbkdf_alg = none;
  rounds = 0;
  salt = none;
  checksum = none;
  id = none;
  encrypted_blob = none;
}

-- The lines behind the first.
unfoldable pub parse_lines : List Bytes → PrivateKey → Option PrivateKey
parse_lines [] k = some k
parse_lines (l ∷ ls) k = elim (parse_line l k) [ none ↦ none | some k' ↦ parse_lines ls k' ]

-- The loop over the lines: the first is the magic.
unfoldable pub read_key : List Bytes → Option PrivateKey
unfolding parse_lines
read_key [] = some no_key
read_key (l ∷ ls) = if starts_with privkey_magic l then parse_lines ls no_key else none

unfoldable pub unpack_sane : Blake2b → PrivateKey → PasswordCb → Loaded
unfolding unpack_key
unpack_sane blake k cb =
    if is_sane k
    then elim k.encrypted_blob [ none ↦ undefined | some blob ↦ unpack_key blake k blob cb ]
    else failed none

-- The lines are those that `getline` returns.
unfoldable pub private_data_load : Blake2b → List Bytes → PasswordCb → Loaded
unfolding read_key unpack_sane
private_data_load blake lines cb = elim (read_key lines) [
  | none ↦ failed none
  | some k ↦ unpack_sane blake k cb
]
