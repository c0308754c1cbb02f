-- ===== src/Keys/Write.antt =====
-- `asignify_privkey_write` and `asignify_encrypt_privkey` of libasignify/generate.c.
pub mod Fields
pub mod Members
pub mod RoundTrip
pub mod Kdf
pub mod Encrypted
use asignify.Base.{
  ℕ, ◌+◌, ◌*◌, Bool, true, false, Option, none, some, List, [], ◌∷◌, ◌++◌, Bytes, codes,
}
use asignify.Base.{◌==◌, if◌then◌else◌, take, c_string}
use asignify.Libc.Decimal.{decimal}
use asignify.Util.Hex.{bin2hex}
use asignify.Data.{PrivateKey}
use asignify.Crypto.{Blake2b}
use asignify.Crypto.Xor.{xor_bytes}
use asignify.Crypto.Pbkdf2.{pkcs5_pbkdf2, Derived, derived, refused, unwritten}
use asignify.Keys.Load.{privkey_magic, pbkdf_alg_name, accepted_password}

-- `fprintf(f, "%s: %s\n", name, value)`
abbrev pub value_line : Bytes → Bytes → Bytes
value_line name value = name ++ (codes ": " ++ (value ++ codes "\n"))

-- The text that is written, or the return of false, or the use of a null pointer.
pub data Written : Type 0 where
  wrote : Bytes → Written
  not_written crashed : Written

infixl 5 ◌>>=◌
abbrev ◌>>=◌ : Option Bytes → (Bytes → Written) → Written
none >>= f = crashed
some b >>= f = f b

-- `HEX_OUT_PRIVK`; none is a null member, or the `abort` of `bin2hex`.
unfoldable pub hex_out : Bytes → ℕ → Option Bytes → Option Bytes
hex_out name size none = none
hex_out name size (some field) = elim (bin2hex (size * 2 + 1) (take size field)) [
  | none ↦ none
  | some hex ↦ some (value_line name (c_string hex))
]

-- The member `id` is left out if it is null.
id_out : Option Bytes → Option Bytes
id_out none = some []
id_out (some i) = hex_out (codes "id") 8 (some i)

-- The fields of an encrypted key.
unfoldable pub kdf_out : PrivateKey → Option Bytes → Option Bytes
kdf_out k none = some []
kdf_out k (some alg) = elim (hex_out (codes "salt") 16 k.salt) [
  | none ↦ none
  | some salt ↦ elim (hex_out (codes "checksum") 64 k.checksum) [
    | none ↦ none
    | some sum ↦ some (
        value_line (codes "kdf") (c_string alg)
        ++ (value_line (codes "rounds") (decimal k.rounds) ++ (salt ++ sum)))
  ]
]

write_fields : PrivateKey → Written
unfolding hex_out id_out kdf_out
write_fields k = do
  blob ← hex_out (codes "data") 64 k.encrypted_blob
  id ← id_out k.id
  kdf ← kdf_out k k.pbkdf_alg
  wrote (
      privkey_magic
      ++ (codes "\n"
          ++ (value_line (codes "version") (decimal k.version) ++ (blob ++ (id ++ kdf)))))

unfoldable pub privkey_write : PrivateKey → Written
unfolding write_fields
privkey_write k = if k.version == 1 then write_fields k else not_written

-- The key with its blob encrypted, the return of false, or the use of bytes that were never
-- written.
pub data Encryption : Type 0 where
  encrypted : PrivateKey → Encryption
  not_encrypted undefined : Encryption

unfoldable pub encrypt_with : PrivateKey → Bytes → Derived → Encryption
encrypt_with k blob refused = not_encrypted
encrypt_with k blob (unwritten key) = undefined
encrypt_with k blob (derived xorkey) =
    encrypted (record k { encrypted_blob = some (xor_bytes blob xorkey) })

unfoldable pub encrypt_derive : Blake2b → PrivateKey → Bytes → Bytes → ℕ → Option Bytes → Encryption
unfolding encrypt_with
encrypt_derive blake k blob salt rounds none = not_encrypted
encrypt_derive blake k blob salt rounds (some pw) =
    encrypt_with k blob (pkcs5_pbkdf2 blake pw salt 64 rounds)

-- `salt` is the random bytes, and `blob` those at `encrypted_blob`.
unfoldable pub encrypt_privkey :
    Blake2b → PrivateKey → Bytes → ℕ → Bytes → Option Bytes → Encryption
unfolding encrypt_derive
encrypt_privkey blake k blob rounds salt r =
    encrypt_derive blake
      (record k {
        checksum = some (blake.hash [] blob);
        salt = some salt;
        rounds = rounds;
        pbkdf_alg = some pbkdf_alg_name;
      })
      blob salt rounds (accepted_password r)
