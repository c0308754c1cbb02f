-- ===== src/Generate/Pairs.antt =====
-- A pair of keys that is generated is loaded again, and the public key is made again out of the
-- file of the secret key.
use asignify.Base.{
  ℕ, zero, suc, ◌≤◌, ◌≡◌, refl, arith, true, false, none, some, List, [], ◌∷◌, append-nil,
}
use asignify.Base.{Bytes, IsBytes, All, All-take, ltb, length, take, drop, take_all}
use asignify.Libc.Lines.{getlines}
use asignify.Util.Digest.{Hashes}
use asignify.Crypto.{Blake2b}
use asignify.Crypto.Base64.{Base64}
use asignify.Crypto.Ed25519.{Ed25519}
use asignify.Keys.Load.{loaded, PasswordCb, private_data_load, pbkdf_minrounds}
use asignify.Keys.Public.{pubkey_write}
use asignify.Keys.Public.Load.{Junk, pubkey_load}
use asignify.Keys.Public.Load.Formats.{pubkey_load-pubkey_write}
use asignify.Keys.Public.RoundTrip.{IsPublic}
use asignify.Keys.Signature.{public_key}
use asignify.Keys.Write.{wrote}
use asignify.Keys.Write.RoundTrip.{IsWritable, some_id, private_data_load-privkey_write}
use asignify.Keys.Write.Encrypted.{IsSetting, private_data_load-encrypt_privkey}
use asignify.Generate.{
  Seed, generated, with_private, write_pair, write_encrypted, new_privk, new_pubk, generate_v1,
  generate, made, made_of, pubkey_of, generate_pubkey_internal, with_loaded, generate_pubkey,
}

All-drop {ℓ κ} : {A : Type ℓ} (P : A → Type κ) (n : ℕ) (xs : List A) → All P xs → All P (drop n xs)
All-drop P zero xs h = h
All-drop P (suc n) [] h = tt
All-drop P (suc n) (x ∷ xs) h = All-drop P n xs h.1

-- The random bytes have their sizes, and the second half of the secret key is the public key.
pub record IsSeed {h : Hashes} (ed : Ed25519 h) (s : Seed) : Type 0 where
  pub id_len : length s.id ≡ 8
  pub id_bytes : IsBytes s.id
  pub sk_len : length s.sk ≡ 64
  pub sk_bytes : IsBytes s.sk
  pub pair : take 32 (drop 32 s.sk) ≡ ed.public_of s.sk

module _ {h : Hashes} (ed : Ed25519 h) (blake : Blake2b) (b64 : Base64) (junk : Junk) (s : Seed)
    (w : IsSeed ed s) where
  new_privk-IsWritable : IsWritable (new_privk ed blake b64 s) s.sk
  new_privk-IsWritable = record {
    version_is = refl;
    blob_is = refl;
    blob_bytes = w.sk_bytes;
    blob_len = w.sk_len;
    id_is = some_id w.id_bytes w.id_len;
  }

  new_pubk-IsPublic : IsPublic (new_pubk ed blake b64 s)
  new_pubk-IsPublic = record {
    version_is = refl;
    no_aux = refl;
    id_bytes = w.id_bytes;
    data_bytes_are = rw w.pair at (All-take _ 32 (drop 32 s.sk) (All-drop _ 32 s.sk w.sk_bytes));
  }

  -- The file of the public key.
  record PublicFile (text : Bytes) : Type 0 where
    writes : pubkey_write b64 (public_key ed s.sk s.id) ≡ wrote text
    loads : pubkey_load b64 junk (getlines text) ≡ some (some (public_key ed s.sk s.id))

  public_file : (text : Bytes) × PublicFile text
  public_file =
      let (text, writes, loads) =
        pubkey_load-pubkey_write b64 junk (public_key ed s.sk s.id) [] new_pubk-IsPublic w.id_len
          (ed.length-public_of s.sk) in
      (text, record { writes = writes; loads = rw (append-nil text) at loads })

  generate_pubkey-loaded :
      (text public : Bytes) (cb : PasswordCb)
      → private_data_load blake (getlines text) cb
        ≡ loaded (record { data_bytes = s.sk; id = some s.id; version = 1 })
      → pubkey_write b64 (public_key ed s.sk s.id) ≡ wrote public
      → generate_pubkey blake b64 (some (getlines text)) true cb ≡ made true (some public)
  unfolding generate_pubkey with_loaded generate_pubkey_internal pubkey_of made_of
  generate_pubkey-loaded text public cb l e =
      rw (l, generate_pubkey, with_loaded, w.pair, take_all 8 s.id w.id_len, e, made_of) refl

  -- With a callback that gives a password of 1 to 64 bytes, at least 10000 and at most 2^32 - 1
  -- rounds, and random bytes of their sizes, a pair of keys is generated: both files are written; the
  -- one for the secret key is loaded with the password as the secret key and the identifier of the
  -- seed, the other as its public key; and the public key is made again, byte for byte, out of the
  -- file of the secret key with that password.
  pub generate-password :
      (rounds : ℕ) (pw : Bytes)
      → pbkdf_minrounds ≤ rounds
      → IsSetting rounds s.salt pw
      → (text : Bytes) × (public : Bytes) × (generate ed blake b64 s 1 rounds
            (some (some pw))
            true
            true
          ≡ generated true (some text) (some public))
        × (private_data_load blake (getlines text) (some (some pw))
            ≡ loaded (record { data_bytes = s.sk; id = some s.id; version = 1 }))
        × (pubkey_load b64 junk (getlines public) ≡ some (some (public_key ed s.sk s.id)))
        × (generate_pubkey blake b64 (some (getlines text)) true (some (some pw))
            ≡ made true (some public))
  unfolding generate generate_v1 write_encrypted write_pair with_private
  generate-password rounds pw m setting =
      let (public, p) = public_file in
      let (sealed, text, encrypts, writes, loads) =
        private_data_load-encrypt_privkey blake (new_privk ed blake b64 s) s.sk rounds s.salt pw
          new_privk-IsWritable setting in
      let enough : ltb rounds pbkdf_minrounds ≡ false = ground arith in
      (
        text,
        public,
        rw
            (
              enough, generate, generate_v1, encrypts, write_encrypted, p.writes, write_pair,
              writes, with_private,
            )
            refl,
        loads,
        p.loads,
        generate_pubkey-loaded text public (some (some pw)) loads p.writes,
      )

  -- Without a callback, whatever the number of rounds is, a pair of keys is generated from random
  -- bytes of their sizes, and its files are loaded and made again in the same way.
  pub generate_plain :
      (rounds : ℕ) (cb : PasswordCb)
      → (text : Bytes) × (public : Bytes) × (generate ed blake b64 s 1 rounds none true true
          ≡ generated true (some text) (some public))
        × (private_data_load blake (getlines text) cb
            ≡ loaded (record { data_bytes = s.sk; id = some s.id; version = 1 }))
        × (pubkey_load b64 junk (getlines public) ≡ some (some (public_key ed s.sk s.id)))
        × (generate_pubkey blake b64 (some (getlines text)) true cb ≡ made true (some public))
  unfolding generate generate_v1 write_pair with_private
  generate_plain rounds cb =
      let (public, p) = public_file in
      let (text, writes, loads) =
        private_data_load-privkey_write blake (new_privk ed blake b64 s) s.sk cb
          new_privk-IsWritable refl in
      (
        text,
        public,
        rw (p.writes, generate, generate_v1, write_pair, writes, with_private) refl,
        loads,
        p.loads,
        generate_pubkey-loaded text public cb loads p.writes,
      )
