-- ===== src/Generate.antt =====
-- The generation of key pairs: `asignify_generate`, `asignify_generate_pubkey` and
-- `asignify_privkey_from_ssh` of libasignify/generate.c.
pub mod Pairs
pub mod Outcomes
pub mod Ssh
use asignify.Base.{ℕ, Bool, true, false, ◌&&◌, ◌||◌, not, Option, none, some, List, []}
use asignify.Base.{Bytes, ltb, ◌==◌, if◌then◌else◌, take, drop}
use asignify.Util.Digest.{Hashes}
use asignify.Data.{PublicData, PrivateData, PrivateKey}
use asignify.Crypto.{Blake2b}
use asignify.Crypto.Base64.{Base64}
use asignify.Crypto.Ed25519.{Ed25519}
use asignify.Keys.Load.{
  Loaded, loaded, failed, PasswordCb, private_data_load, no_key, pbkdf_minrounds, has,
}
use asignify.Keys.Public.{pubkey_write}
use asignify.Keys.Ssh.Private.{ssh_privkey_load}
use asignify.Keys.Write.{
  Written, wrote, not_written, crashed, Encryption, encrypted, not_encrypted, encrypt_privkey,
  privkey_write,
}

-- What is returned, and what stands in the files for the secret and the public key; none is a file
-- that was not opened for writing, and `crash` the use of a null pointer or of what was never
-- written, or `abort`.
pub data Generated : Type 0 where
  generated : Bool → Option Bytes → Option Bytes → Generated
  crash : Generated

-- The random bytes: the identifier, the secret key of the pair, and the salt.
pub record Seed : Type 0 where
  pub id : Bytes
  pub sk : Bytes
  pub salt : Bytes

with_private : Bytes → Written → Generated
with_private public (wrote text) = generated true (some text) (some public)
with_private public not_written = generated false (some []) (some public)
with_private public crashed = crash

-- The public key is written first, and the secret key only if that succeeds.
write_pair : PrivateKey → Written → Generated
unfolding with_private
write_pair k (wrote public) = with_private public (privkey_write k)
write_pair k not_written = generated false (some []) (some [])
write_pair k crashed = crash

-- A key that could not be encrypted is not written, and the result is still the one that `ret` was
-- set to at first.
write_encrypted : Base64 → PublicData → Encryption → Generated
unfolding write_pair
write_encrypted b64 pubk (encrypted k) = write_pair k (pubkey_write b64 pubk)
write_encrypted b64 pubk not_encrypted = generated true (some []) (some [])
write_encrypted b64 pubk Encryption.undefined = crash

module _ {h : Hashes} (ed : Ed25519 h) (blake : Blake2b) (b64 : Base64) where
  abbrev pub new_privk : Seed → PrivateKey
  new_privk s = record no_key { version = 1; id = some s.id; encrypted_blob = some s.sk }

  abbrev pub new_pubk : Seed → PublicData
  new_pubk s = record { data_bytes = ed.public_of s.sk; id = s.id; aux = none; version = 1 }

  unfoldable pub generate_v1 : Seed → ℕ → PasswordCb → Generated
  unfolding write_encrypted write_pair
  generate_v1 s rounds none = write_pair (new_privk s) (pubkey_write b64 (new_pubk s))
  generate_v1 s rounds (some r) =
      if ltb rounds pbkdf_minrounds
      then generated false (some []) (some [])
      else write_encrypted b64 (new_pubk s)
          (encrypt_privkey blake (new_privk s) s.sk rounds s.salt r)

  -- `priv_opens` and `pub_opens` are whether the files can be opened for writing; both calls are
  -- made.
  unfoldable pub generate : Seed → ℕ → ℕ → PasswordCb → Bool → Bool → Generated
  unfolding generate_v1
  generate s version rounds cb priv_opens pub_opens =
      if version == 1
      then if priv_opens && pub_opens
        then generate_v1 s rounds cb
        else generated false (if priv_opens then some [] else none)
            (if pub_opens then some [] else none)
      else generated false none none

-- What is returned, and the file for the key that is written.
pub data Made : Type 0 where
  made : Bool → Option Bytes → Made
  crash : Made

made_of : Written → Made
made_of (wrote text) = made true (some text)
made_of not_written = made false (some [])
made_of crashed = Made.crash

-- Eight bytes are copied from the identifier, whatever it is.
pubkey_of : Base64 → PrivateData → Option Bytes → Made
unfolding made_of
pubkey_of b64 privd none = Made.crash
pubkey_of b64 privd (some i) = made_of (
    pubkey_write b64 (record {
      data_bytes = take 32 (drop 32 privd.data_bytes);
      id = take 8 i;
      aux = none;
      version = 1;
    }))

unfoldable pub generate_pubkey_internal : Base64 → PrivateData → Made
unfolding pubkey_of
generate_pubkey_internal b64 privd = pubkey_of b64 privd privd.id

with_loaded : Base64 → Loaded → Made
unfolding generate_pubkey_internal
with_loaded b64 (loaded privd) = generate_pubkey_internal b64 privd
with_loaded b64 (failed e) = made false (some [])
with_loaded b64 Loaded.undefined = Made.crash

-- The lines of the secret key, or none if its file cannot be opened; the file for the public key is
-- opened, and emptied, in any case.
unfoldable pub generate_pubkey : Blake2b → Base64 → Option (List Bytes) → Bool → PasswordCb → Made
unfolding with_loaded
generate_pubkey blake b64 none opens cb = made false (if opens then some [] else none)
generate_pubkey blake b64 (some lines) opens cb =
    if opens then with_loaded b64 (private_data_load blake lines cb) else made false none

ssh_encrypted : Encryption → Made
unfolding made_of
ssh_encrypted (encrypted k) = made_of (privkey_write k)
ssh_encrypted not_encrypted = made false (some [])
ssh_encrypted Encryption.undefined = Made.crash

ssh_written : Blake2b → PrivateData → ℕ → Bytes → PasswordCb → Made
unfolding ssh_encrypted made_of
ssh_written blake privd rounds salt none =
    made_of (privkey_write (record no_key { version = 1; encrypted_blob = some privd.data_bytes }))
ssh_written blake privd rounds salt (some r) = ssh_encrypted (
    encrypt_privkey blake (record no_key { version = 1; encrypted_blob = some privd.data_bytes })
      privd.data_bytes rounds salt r)

ssh_opened : Blake2b → ℕ → Bytes → Bool → PasswordCb → Loaded → Made
unfolding ssh_written
ssh_opened blake rounds salt opens cb (loaded privd) =
    if opens then ssh_written blake privd rounds salt cb else made false none
ssh_opened blake rounds salt opens cb (failed e) = made false none
ssh_opened blake rounds salt opens cb Loaded.undefined = Made.crash

-- The lines of the key of OpenSSH, or none if its file cannot be opened, and what the memory behind
-- its text holds.
unfoldable pub privkey_from_ssh :
    Blake2b → Base64 → Bytes → Option (List Bytes) → ℕ → ℕ → Bytes → Bool → PasswordCb → Made
unfolding ssh_opened
privkey_from_ssh blake b64 beyond none version rounds salt opens cb = made false none
privkey_from_ssh blake b64 beyond (some lines) version rounds salt opens cb =
    if version == 1
    then ssh_opened blake rounds salt opens cb (ssh_privkey_load b64 beyond lines)
    else made false none
