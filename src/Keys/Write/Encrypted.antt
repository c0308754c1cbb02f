-- ===== src/Keys/Write/Encrypted.antt =====
-- A key that is encrypted with a password and written is read back with that password.
use asignify.Base.{ℕ, ◌^◌, ◌<◌, ◌≡◌, refl, ap, ◌∙◌, arith}
use asignify.Base.{some, []}
use asignify.Base.{◌≢◌}
use asignify.Base.{Bytes, IsBytes, length}
use asignify.Libc.Lines.{getlines}
use asignify.Util.Errors.{Error}
use asignify.Data.{PrivateKey}
use asignify.Crypto.{Blake2b}
use asignify.Crypto.Xor.{xor_bytes, length-xor_bytes, xor_bytes-IsBytes, xor_bytes_twice}
use asignify.Crypto.Pbkdf2.{pkcs5_pbkdf2, derived, pkcs5_pbkdf2-IsBytes}
use asignify.Keys.Load.{pbkdf_alg_name, private_data_load, loaded, failed}
use asignify.Keys.Write.{
  privkey_write, wrote, encrypted, encrypt_privkey, encrypt_derive, encrypt_with,
}
use asignify.Keys.Write.RoundTrip.{
  IsWritable, header, write_fields-header, pkey_to_private_data_lem,
}
use asignify.Keys.Write.Kdf.{
  kdf_text, IsKdf, kdf_out_lem, stored_key, load_of_text, IsPassword, accepted_password_lem,
  unpack_key-check_decrypted, check_decrypted-loaded, check_decrypted-failed, bytes_differ,
}

-- What encrypting the key makes of it, and the text of that.
record Sealed (blake : Blake2b) (k : PrivateKey) (b salt pw : Bytes) (n : ℕ) : Type 0 where
  xorkey : Bytes
  derives : pkcs5_pbkdf2 blake pw salt 64 n ≡ derived xorkey
  key_bytes : IsBytes xorkey
  sealed : PrivateKey
  encrypts : encrypt_privkey blake k b n salt (some pw) ≡ encrypted sealed
  writes :
      privkey_write sealed
      ≡ wrote (header (xor_bytes b xorkey) k.id (kdf_text n salt (blake.hash [] b)))

-- The rounds, the salt and the password that a key can be encrypted with.
pub record IsSetting (n : ℕ) (salt pw : Bytes) : Type 0 where
  pub some_rounds : 0 < n
  pub rounds_fit : n < 2 ^ 32
  pub salt_bytes : IsBytes salt
  pub salt_len : length salt ≡ 16
  pub password : IsPassword pw

hash-IsKdf :
    (blake : Blake2b) (b : Bytes) (n : ℕ) (salt pw : Bytes)
    → IsSetting n salt pw
    → IsKdf n salt (blake.hash [] b)
hash-IsKdf blake b n salt pw s = record {
  rounds_fit = s.rounds_fit;
  salt_bytes = s.salt_bytes;
  salt_len = s.salt_len;
  sum_bytes = blake.hash-IsBytes [] b;
  sum_len = blake.length-hash [] b;
}

encrypt_privkey-Sealed :
    (blake : Blake2b) (k : PrivateKey) (b : Bytes) (n : ℕ) (salt pw : Bytes)
    → IsWritable k b
    → IsSetting n salt pw
    → Sealed blake k b salt pw n
unfolding encrypt_privkey encrypt_derive encrypt_with
encrypt_privkey-Sealed blake k b n salt pw w s =
    let (xorkey, derives, key_len, key_bytes) =
      pkcs5_pbkdf2-IsBytes blake pw salt 64 n s.password.1 s.some_rounds (omega arith)
        (omega (arith, s.salt_len)) (omega (arith, s.salt_len)) in
    let sealed : PrivateKey = record k {
      checksum = some (blake.hash [] b);
      salt = some salt;
      rounds = n;
      pbkdf_alg = some pbkdf_alg_name;
      encrypted_blob = some (xor_bytes b xorkey);
    } in
    record {
      xorkey = xorkey;
      derives = derives;
      key_bytes = key_bytes;
      sealed = sealed;
      encrypts =
          rw (accepted_password_lem pw s.password, encrypt_derive, derives, encrypt_with) refl;
      writes =
          write_fields-header sealed (xor_bytes b xorkey) _
            (record {
              version_is = w.version_is;
              blob_is = refl;
              blob_bytes = xor_bytes-IsBytes b xorkey w.blob_bytes key_bytes;
              blob_len = length-xor_bytes b xorkey ∙ w.blob_len;
              id_is = w.id_is;
            })
            (kdf_out_lem sealed salt (blake.hash [] b) refl refl (hash-IsKdf blake b n salt pw s));
    }

-- A secret key of version 1, with 64 bytes of data and an identifier of 8 bytes or none, that is
-- encrypted with a password of 1 to 64 bytes, a salt of 16 bytes and from 1 to 2^32 - 1 rounds,
-- and printed, is loaded again with that password: the file is accepted, and gives back the data
-- and the identifier.
pub private_data_load-encrypt_privkey :
    (blake : Blake2b) (k : PrivateKey) (b : Bytes) (n : ℕ) (salt pw : Bytes)
    → IsWritable k b
    → IsSetting n salt pw
    → (sealed : PrivateKey) × (text : Bytes) × (encrypt_privkey blake k b n salt (some pw)
        ≡ encrypted sealed)
      × (privkey_write sealed ≡ wrote text)
      × (private_data_load blake (getlines text) (some (some pw))
          ≡ loaded (record { data_bytes = b; id = k.id; version = 1 }))
private_data_load-encrypt_privkey blake k b n salt pw w s =
    let e = encrypt_privkey-Sealed blake k b n salt pw w s in
    let blob = xor_bytes b e.xorkey in
    let sum = blake.hash [] b in
    let stored = stored_key blob k.id n salt sum in
    (
      e.sealed,
      header blob k.id (kdf_text n salt sum),
      e.encrypts,
      e.writes,
      load_of_text blake blob k.id n salt sum pw
            (xor_bytes-IsBytes b e.xorkey w.blob_bytes e.key_bytes)
            (length-xor_bytes b e.xorkey ∙ w.blob_len) w.id_is (hash-IsKdf blake b n salt pw s)
          ∙ unpack_key-check_decrypted blake blob k.id n salt sum pw e.xorkey s.password s.salt_len
              e.derives
          ∙ rw (xor_bytes_twice b e.xorkey w.blob_bytes e.key_bytes) (
              check_decrypted-loaded blake stored b refl
              ∙ ap loaded (pkey_to_private_data_lem stored b w.id_is w.blob_len)),
    )

-- If a secret key is encrypted and printed as before, and another password of 1 to 64 bytes
-- decrypts it to bytes with another hash than that of its data, then the file is refused with the
-- error for a wrong password.
pub private_data_load-encrypt_privkey_wrong :
    (blake : Blake2b) (k : PrivateKey) (b : Bytes) (n : ℕ) (salt pw wrong : Bytes)
    → IsWritable k b
    → IsSetting n salt pw
    → IsPassword wrong
    → (xorkey other : Bytes) → pkcs5_pbkdf2 blake pw salt 64 n ≡ derived xorkey
    → pkcs5_pbkdf2 blake wrong salt 64 n ≡ derived other
    → blake.hash [] (xor_bytes (xor_bytes b xorkey) other) ≢ blake.hash [] b
    → (sealed : PrivateKey) × (text : Bytes) × (encrypt_privkey blake k b n salt (some pw)
        ≡ encrypted sealed)
      × (privkey_write sealed ≡ wrote text)
      × (private_data_load blake (getlines text) (some (some wrong)) ≡ failed (some Error.password))
private_data_load-encrypt_privkey_wrong blake k b n salt pw wrong w s ok xorkey other d d' differs =
    let e = encrypt_privkey-Sealed blake k b n salt pw w s in
    let sum = blake.hash [] b in
    let same : e.xorkey ≡ xorkey = cc (e.derives, d) in
    let key_bytes = rw same at e.key_bytes in
    let blob = xor_bytes b xorkey in
    (
      e.sealed,
      header blob k.id (kdf_text n salt sum),
      e.encrypts,
      rw same at e.writes,
      load_of_text blake blob k.id n salt sum wrong
            (xor_bytes-IsBytes b xorkey w.blob_bytes key_bytes)
            (length-xor_bytes b xorkey ∙ w.blob_len) w.id_is (hash-IsKdf blake b n salt pw s)
          ∙ unpack_key-check_decrypted blake blob k.id n salt sum wrong other ok s.salt_len d'
          ∙ check_decrypted-failed blake (stored_key blob k.id n salt sum) (xor_bytes blob other)
              sum refl (bytes_differ differs),
    )
