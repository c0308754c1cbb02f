-- ===== src/Keys/Write/Kdf.antt =====
-- The fields of an encrypted key in its file, and its decryption once they are read.
use asignify.Base.{ℕ, ◌^◌, ◌≤◌, ◌<◌, ◌≡◌, refl, ◌∙◌, arith}
use asignify.Base.{false, Option, some, [], ◌++◌}
use asignify.Base.{◌≢◌, inl, inr, Bool-cases, bytes_eq_iff}
use asignify.Base.{Bytes, IsBytes, codes, length, take_all, bytes_eq, bytes_eq_refl, c_string}
use asignify.Libc.Decimal.{decimal}
use asignify.Libc.Lines.{getlines}
use asignify.Util.Errors.{Error}
use asignify.Util.Hex.{hex_digits}
use asignify.Data.{PrivateKey}
use asignify.Crypto.{Blake2b}
use asignify.Crypto.Xor.{xor_bytes}
use asignify.Crypto.Pbkdf2.{pkcs5_pbkdf2, derived}
use asignify.Keys.Fields.{stored_string}
use asignify.Keys.Load.{
  pbkdf_alg_name, parse_lines, private_data_load, loaded, failed, names_pbkdf, accepted_password,
  unpack_key, unpack_encrypted, derive_with, decrypt_with, check_decrypted, pkey_to_private_data,
}
use asignify.Keys.Write.{value_line, kdf_out}
use asignify.Keys.Write.Fields.{parse_lines-Stores, parse_lines-last, hex_out-value_line}
use asignify.Keys.Write.Members.{kdf_line, rounds_line, salt_line, checksum_line}
use asignify.Keys.Write.RoundTrip.{IsId, header, read_key-header, load_of_key}

-- The lines of the derivation.
pub kdf_text : ℕ → Bytes → Bytes → Bytes
kdf_text n salt sum =
    value_line (codes "kdf") pbkdf_alg_name
    ++ (value_line (codes "rounds") (decimal n)
        ++ (value_line (codes "salt") (hex_digits salt)
            ++ value_line (codes "checksum") (hex_digits sum)))

-- The salt, the rounds and the checksum are of the sizes that the writer expects.
pub record IsKdf (n : ℕ) (salt sum : Bytes) : Type 0 where
  pub rounds_fit : n < 2 ^ 32
  pub salt_bytes : IsBytes salt
  pub salt_len : length salt ≡ 16
  pub sum_bytes : IsBytes sum
  pub sum_len : length sum ≡ 64

pub kdf_out_lem :
    (k : PrivateKey) (salt sum : Bytes)
    → k.salt ≡ some salt
    → k.checksum ≡ some sum
    → IsKdf k.rounds salt sum
    → kdf_out k (some pbkdf_alg_name) ≡ some (kdf_text k.rounds salt sum)
unfolding kdf_out kdf_text c_string
kdf_out_lem k salt sum s c w =
    rw
      (
        s,
        kdf_out,
        hex_out-value_line (codes "salt") salt 16 w.salt_bytes w.salt_len (omega arith),
        c,
        hex_out-value_line (codes "checksum") sum 64 w.sum_bytes w.sum_len (omega arith),
      )
      refl

parse_lines-kdf_text :
    (n : ℕ) (salt sum : Bytes) (k : PrivateKey)
    → IsKdf n salt sum
    → parse_lines (getlines (kdf_text n salt sum)) k
      ≡ some (record k {
        pbkdf_alg = some (stored_string pbkdf_alg_name);
        rounds = n;
        salt = some salt;
        checksum = some sum;
      })
unfolding kdf_text
parse_lines-kdf_text n salt sum k w =
    parse_lines-Stores _ (kdf_line k)
    ∙ parse_lines-Stores _ (rounds_line _ n w.rounds_fit)
    ∙ parse_lines-Stores _ (salt_line _ salt w.salt_bytes w.salt_len)
    ∙ parse_lines-last (checksum_line _ sum w.sum_bytes w.sum_len)

-- The key as it is read.
abbrev pub stored_key : Bytes → Option Bytes → ℕ → Bytes → Bytes → PrivateKey
stored_key blob i n salt sum = record {
  version = 1;
  pbkdf_alg = some (stored_string pbkdf_alg_name);
  rounds = n;
  salt = some salt;
  checksum = some sum;
  id = i;
  encrypted_blob = some blob;
}

pub load_of_text :
    (blake : Blake2b) (blob : Bytes) (i : Option Bytes) (n : ℕ) (salt sum pw : Bytes)
    → IsBytes blob
    → length blob ≡ 64
    → IsId i
    → IsKdf n salt sum
    → private_data_load blake (getlines (header blob i (kdf_text n salt sum))) (some (some pw))
      ≡ unpack_key blake (stored_key blob i n salt sum) blob (some (some pw))
load_of_text blake blob i n salt sum pw h e w kdf =
    load_of_key blake _ (stored_key blob i n salt sum) blob (some (some pw))
      (read_key-header blob i _ h e w ∙ parse_lines-kdf_text n salt sum _ kdf) refl refl
      (unfold names_pbkdf stored_string bytes_eq c_string in refl)

-- A password that is accepted, and that `blake2b` takes as its key.
abbrev pub IsPassword : Bytes → Type 0
IsPassword pw = (0 < length pw) × (length pw ≤ 64)

pub accepted_password_lem : (pw : Bytes) → IsPassword pw → accepted_password (some pw) ≡ some pw
unfolding accepted_password
accepted_password_lem pw h = ground arith

-- With the key of the derivation that the password gives, the blob is decrypted and compared.
pub unpack_key-check_decrypted :
    (blake : Blake2b) (blob : Bytes) (i : Option Bytes) (n : ℕ) (salt sum pw xorkey : Bytes)
    → IsPassword pw
    → length salt ≡ 16
    → pkcs5_pbkdf2 blake pw salt 64 n ≡ derived xorkey
    → unpack_key blake (stored_key blob i n salt sum) blob (some (some pw))
      ≡ check_decrypted blake (stored_key blob i n salt sum) (xor_bytes blob xorkey)
unfolding unpack_key unpack_encrypted derive_with decrypt_with
unpack_key-check_decrypted blake blob i n salt sum pw xorkey ok l e =
    rw
      (
        accepted_password_lem pw ok,
        unpack_key,
        unpack_encrypted,
        derive_with,
        take_all 16 salt l,
        e,
        decrypt_with,
      )
      refl

pub check_decrypted-loaded :
    (blake : Blake2b) (k : PrivateKey) (b : Bytes)
    → k.checksum ≡ some (blake.hash [] b)
    → check_decrypted blake k b ≡ loaded (pkey_to_private_data k b)
unfolding check_decrypted pkey_to_private_data
check_decrypted-loaded blake k b e = rw (e, check_decrypted, bytes_eq_refl (blake.hash [] b)) refl

pub check_decrypted-failed :
    (blake : Blake2b) (k : PrivateKey) (b sum : Bytes)
    → k.checksum ≡ some sum
    → bytes_eq (blake.hash [] b) sum ≡ false
    → check_decrypted blake k b ≡ failed (some Error.password)
unfolding check_decrypted
check_decrypted-failed blake k b sum e d = rw (e, check_decrypted, d) refl

pub bytes_differ : {a b : Bytes} → a ≢ b → bytes_eq a b ≡ false
bytes_differ {a} {b} h = elim (Bool-cases (bytes_eq a b)) [
  | inl t ↦ absurd (h ((bytes_eq_iff a b).0 t))
  | inr f ↦ f
]
