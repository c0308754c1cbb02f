-- ===== src/Encrypt.antt =====
-- The encrypt context of libasignify/encrypt.c: its state, and the loading of the two keys.
pub mod Crypt
pub mod Decrypt
pub mod Cipher
pub mod Written
pub mod RoundTrip
pub mod Plain
pub mod Safety
use asignify.Base.{ℕ, Bool, true, false, not, ◌&&◌, Option, none, some, List, codes}
use asignify.Base.{Bytes, ◌==◌, length, bytes_eq}
use asignify.Util.Errors.{Error}
use asignify.Data.{PublicData, PrivateData}
use asignify.Crypto.{Blake2b}
use asignify.Crypto.Base64.{Base64}
use asignify.Keys.Load.{Loaded, loaded, failed, PasswordCb, private_data_load}
use asignify.Keys.Public.Load.{Junk, pubkey_load}

pub record EncryptCtx : Type 0 where
  pub privk : Option PrivateData
  pub pubk : Option PublicData
  pub error : Option Error

unfoldable pub encrypt_init : EncryptCtx
encrypt_init = record { privk = none; pubk = none; error = none }

-- None is the use of what was never written. An error that was not set is the one of the format.
with_privkey : EncryptCtx → Loaded → Option (Bool × EncryptCtx)
with_privkey ctx (loaded p) = some (true, record ctx { privk = some p })
with_privkey ctx (failed none) =
    some (false, record ctx { privk = none; error = some Error.format })
with_privkey ctx (failed (some e)) = some (false, record ctx { privk = none; error = some e })
with_privkey ctx Loaded.undefined = none

unfoldable pub encrypt_load_privkey :
    Blake2b → EncryptCtx → Option (List Bytes) → PasswordCb → Option (Bool × EncryptCtx)
unfolding with_privkey
encrypt_load_privkey blake ctx none cb = some (false, record ctx { error = some Error.file })
encrypt_load_privkey blake ctx (some lines) cb = with_privkey ctx (private_data_load blake lines cb)

with_pubkey : EncryptCtx → Option (Option PublicData) → Option (Bool × EncryptCtx)
with_pubkey ctx none = none
with_pubkey ctx (some none) = some (false, record ctx { pubk = none; error = some Error.format })
with_pubkey ctx (some (some pk)) = some (true, record ctx { pubk = some pk })

-- None is an `abort`.
unfoldable pub encrypt_load_pubkey :
    Base64 → Junk → EncryptCtx → Option (List Bytes) → Option (Bool × EncryptCtx)
unfolding with_pubkey
encrypt_load_pubkey b64 junk ctx none = some (false, record ctx { error = some Error.file })
encrypt_load_pubkey b64 junk ctx (some lines) = with_pubkey ctx (pubkey_load b64 junk lines)

abbrev pub encrypted_magic : Bytes
encrypted_magic = codes "asignify-encrypted:"

abbrev pub encrypted_signature_magic : Bytes
encrypted_signature_magic = codes "chacha20-blake2"

abbrev pub chacha_rounds_safe : ℕ
chacha_rounds_safe = 20

abbrev pub chacha_rounds_fast : ℕ
chacha_rounds_fast = 8

-- The number of bytes of the nonce, 32 zero bytes, the initial vector and the key.
abbrev pub encrypted_payload_len : ℕ
encrypted_payload_len = 96

-- Whether the two keys belong together.
unfoldable pub same_keypair : Bytes → PublicData → Bool
same_keypair i pk = length pk.id == length i && not (length i == 0) && bytes_eq pk.id i

-- True with what stands in the file, or false with the error that is set; `crash` is the use of what
-- was never written.
pub data Crypted : Type 0 where
  crypted : Bytes → Crypted
  gave_up : Error → Crypted
  crash : Crypted
