-- ===== src/Generate/Ssh.antt =====
-- A secret key that is made out of one of OpenSSH is loaded.
use asignify.Base.{ℕ, ◌≡◌, ◌≢◌, refl, true, false, none, some, List, [], ◌∷◌, ◌++◌}
use asignify.Base.{Bytes, IsBytes, All, length, starts_with}
use asignify.Libc.Lines.{getlines}
use asignify.Util.Digest.Chunks.{concat}
use asignify.Data.{PrivateKey}
use asignify.Crypto.{Blake2b}
use asignify.Crypto.Base64.{Base64}
use asignify.Keys.Load.{loaded, private_data_load, no_key}
use asignify.Keys.Ssh.Private.{ssh_privkey_start, ssh_privkey_end}
use asignify.Keys.Ssh.Private.RoundTrip.{SshKey, IsSshKey, openssh_key, ssh_privkey_load_openssh}
use asignify.Keys.Write.RoundTrip.{IsWritable, no_id}
use asignify.Keys.Write.Encrypted.{IsSetting, private_data_load-encrypt_privkey}
use asignify.Generate.{made, made_of, ssh_encrypted, ssh_written, ssh_opened, privkey_from_ssh}

-- The lines of a file of OpenSSH with the lines `text` of base64.
abbrev pub ssh_file : Bytes → Bytes → List Bytes → List Bytes → List Bytes
ssh_file start end text more =
    (ssh_privkey_start ++ start) ∷ (text ++ (ssh_privkey_end ++ end) ∷ more)

module _ (blake : Blake2b) (b64 : Base64) (beyond start end : Bytes) (text more : List Bytes)
    (k : SshKey) (w : IsSshKey k) (b : IsBytes k.sk) (t : text ≢ [])
    (h : All (λ l. starts_with ssh_privkey_end l ≡ false) text)
    (d : b64.pton (length (concat text)) (concat text ++ beyond) ≡ some (openssh_key k)) where
  abbrev ssh_privk : PrivateKey
  ssh_privk = record no_key { version = 1; encrypted_blob = some k.sk }

  ssh_privk-IsWritable : IsWritable ssh_privk k.sk
  ssh_privk-IsWritable = record {
    version_is = refl;
    blob_is = refl;
    blob_bytes = b;
    blob_len = w.sk_len;
    id_is = no_id;
  }

  -- A secret key of OpenSSH without a password, whose text is not empty and is decoded, is made a secret key of this
  -- program with a password of 1 to 64 bytes and at least one round, and what is written is loaded
  -- with that password as the same secret key, of version 1, with the two fields of the identifier
  -- as `malloc` gave them.
  pub private_data_load-privkey_from_ssh :
      (rounds : ℕ) (salt pw : Bytes)
      → IsSetting rounds salt pw
      → (file : Bytes) × (privkey_from_ssh blake b64 beyond
            (some (ssh_file start end text more))
            1
            rounds
            salt
            true
            (some (some pw))
          ≡ made true (some file))
        × (private_data_load blake (getlines file) (some (some pw))
            ≡ loaded (record { data_bytes = k.sk; id = none; version = 1 }))
  unfolding privkey_from_ssh ssh_opened ssh_written ssh_encrypted made_of
  private_data_load-privkey_from_ssh rounds salt pw setting =
      let (sealed, file, encrypts, writes, loads) =
        private_data_load-encrypt_privkey blake ssh_privk k.sk rounds salt pw ssh_privk-IsWritable
          setting in
      (
        file,
        rw
            (
              ssh_privkey_load_openssh b64 beyond start end text more k w t h d,
              privkey_from_ssh,
              ssh_opened,
              encrypts,
              ssh_written,
              ssh_encrypted,
              writes,
              made_of,
            )
            refl,
        loads,
      )
