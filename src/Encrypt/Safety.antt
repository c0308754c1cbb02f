-- ===== src/Encrypt/Safety.antt =====
-- What is known of a file that was decrypted.
use asignify.Base.{
  ℕ, ◌≡◌, refl, ◌∙◌, inl, inr, Bool, Bool-cases, true, false, Option, none, some, List, [], ◌++◌,
}
use asignify.Base.{Bytes, ◌==◌, length, take, drop}
use asignify.Util.Digest.{Hashes}
use asignify.Util.Digest.Chunks.{concat, digest_reads-concat}
use asignify.Data.{PublicData, PrivateData}
use asignify.Crypto.Base64.{Base64}
use asignify.Crypto.Ed25519.{Ed25519}
use asignify.Crypto.Box.{Box}
use asignify.Crypto.Chacha.{Chacha}
use asignify.Keys.Public.{public_data_load}
use asignify.Encrypt.{EncryptCtx, encrypted_magic, encrypted_signature_magic, same_keypair, crypted}
use asignify.Encrypt.Decrypt.{
  EncryptedFile, rounds_of_version, wrong_key, decrypt_loop, encrypted_hash, signed_part, written,
  decrypt_session, decrypt_signed, decrypt_sig, decrypt_rounds, decrypt_aux, decrypt_header,
  decrypt_line, decrypt_open, decrypt_keys, decrypt_loaded, decrypt_file,
}
use asignify.Encrypt.Plain.{decrypt_loop-stream}

written-some : (o : Option Bytes) {out : Bytes} → written o ≡ crypted out → o ≡ some out
unfolding written
written-some none e = cc
written-some (some s) e = cc

module _ {h : Hashes} (ed : Ed25519 h) (box : Box ed) (c : Chacha) (b64 : Base64) where
  -- The session that the box holds, and the text that the stream makes of what is read again.
  pub record Deciphered (privk : PrivateData) (pubk enc : PublicData) (rounds : ℕ)
      (reads : List Bytes) (out : Bytes) : Type 0 where
    pub session : Bytes
    pub unsealed :
        box.box_open
          (drop 24 enc.data_bytes)
          (take 24 enc.data_bytes)
          (box.pk_to_curve pubk.data_bytes)
          (box.sk_to_curve privk.data_bytes)
        ≡ some session
    pub text_is :
        out
        ≡ c.stream
            (take 32 (drop 8 (drop 32 session)))
            (take 8 (drop 32 session))
            rounds
            (concat reads)

  -- What stands behind a text that was written: the header, the signature of the sender over the
  -- sealed session and all that was read, and the session.
  pub record Authentic (privk : PrivateData) (i : Bytes) (pubk : PublicData) (f : EncryptedFile)
      (out : Bytes) : Type 0 where
    pub line : Bytes
    pub enc : PublicData
    pub sig : Bytes
    pub rounds : ℕ
    pub regular : f.is_reg ≡ true
    pub first : f.first_line ≡ some line
    pub loads : public_data_load b64 line encrypted_magic 1 120 (length i) 96 ≡ some enc
    pub version_is : rounds_of_version enc.version ≡ some rounds
    pub for_this_key : wrong_key i enc ≡ false
    pub verifies :
        ed.verify sig
          (encrypted_hash h sig pubk (
            encrypted_signature_magic
            ++ h.blake2b.final (
                h.blake2b.update
                  (h.blake2b.update h.blake2b.init enc.data_bytes)
                  (concat f.reads))))
          pubk.data_bytes
        ≡ true
    pub deciphered : Deciphered privk pubk enc rounds f.reads_again out

  session-Deciphered :
      (privk : PrivateData) (pubk enc : PublicData) (fits : ℕ → Bool) (rounds : ℕ)
      (reads : List Bytes) {out : Bytes}
      → decrypt_session ed box c b64 fits rounds reads (
          box.box_open
            (drop 24 enc.data_bytes)
            (take 24 enc.data_bytes)
            (box.pk_to_curve pubk.data_bytes)
            (box.sk_to_curve privk.data_bytes))
        ≡ crypted out
      → Deciphered privk pubk enc rounds reads out
  unfolding decrypt_session
  session-Deciphered privk pubk enc fits rounds reads {out} e = go _ refl
    where
      go :
          (o : Option Bytes)
          → box.box_open
              (drop 24 enc.data_bytes)
              (take 24 enc.data_bytes)
              (box.pk_to_curve pubk.data_bytes)
              (box.sk_to_curve privk.data_bytes)
            ≡ o
          → Deciphered privk pubk enc rounds reads out
      go none k = let f = rw (k, decrypt_session) at e in cc
      go (some session) k =
          let key = take 32 (drop 8 (drop 32 session)) in
          let iv = take 8 (drop 32 session) in
          let st = c.init key iv rounds in
          let made =
            written-some (decrypt_loop c fits 0 st [] reads) (rw (k, decrypt_session) at e) in
          record {
            session = session;
            unsealed = k;
            text_is =
                decrypt_loop-stream c fits 0 st [] reads made
                ∙ c.outputs-stream key iv rounds reads;
          }

  module _ (privk : PrivateData) (i : Bytes) (pubk : PublicData) (fits : ℕ → Bool)
      (f : EncryptedFile) (out : Bytes) where
    -- The part of it that is known behind the check of the header.
    record Checked (enc : PublicData) (rounds : ℕ) : Type 0 where
      sig_is : Bytes
      accepted :
          ed.verify sig_is
            (encrypted_hash h sig_is pubk (signed_part h enc.data_bytes f.reads))
            pubk.data_bytes
          ≡ true
      opens_to : Deciphered privk pubk enc rounds f.reads_again out

    signed-Checked :
        (enc : PublicData) (rounds : ℕ) (sig : Bytes)
        → decrypt_signed ed box c b64 privk pubk enc fits rounds f sig ≡ crypted out
        → Checked enc rounds
    unfolding decrypt_signed
    signed-Checked enc rounds sig e =
        elim (Bool-cases (
          ed.verify sig (encrypted_hash h sig pubk (signed_part h enc.data_bytes f.reads))
            pubk.data_bytes)) [
              | inr bad ↦ let no = rw (bad, decrypt_signed) at e in cc
              | inl good ↦ elim (Bool-cases f.seeks) [
                | inr stuck ↦ let no = rw (good, decrypt_signed, stuck) at e in cc
                | inl back ↦ record {
                  sig_is = sig;
                  accepted = good;
                  opens_to =
                      session-Deciphered privk pubk enc fits rounds f.reads_again
                        (rw (good, decrypt_signed, back) at e);
                }
              ]
            ]

    sig-Checked :
        (enc : PublicData) (rounds : ℕ) (o : Option Bytes)
        → decrypt_sig ed box c b64 privk pubk enc fits rounds f o ≡ crypted out
        → Checked enc rounds
    unfolding decrypt_sig
    sig-Checked enc rounds none e = cc
    sig-Checked enc rounds (some sig) e = elim (Bool-cases (length sig == 64)) [
      | inl whole ↦ signed-Checked enc rounds sig (rw (whole, decrypt_sig) at e)
      | inr short ↦ let no = rw (short, decrypt_sig) at e in cc
    ]

    rounds-Checked :
        (enc : PublicData) (aux : Bytes) (o : Option ℕ)
        → decrypt_rounds ed box c b64 privk i pubk enc aux fits f o ≡ crypted out
        → (rounds : ℕ) × (o ≡ some rounds) × (wrong_key i enc ≡ false) × Checked enc rounds
    unfolding decrypt_rounds
    rounds-Checked enc aux none e = cc
    rounds-Checked enc aux (some rounds) e = elim (Bool-cases (wrong_key i enc)) [
      | inl other ↦ let no = rw (other, decrypt_rounds) at e in cc
      | inr same ↦ (
        rounds,
        refl,
        same,
        sig-Checked enc rounds (b64.pton 64 aux) (rw (same, decrypt_rounds) at e),
      )
    ]

    header-Checked :
        (o : Option PublicData)
        → decrypt_header ed box c b64 privk i pubk fits f o ≡ crypted out
        → (enc : PublicData) × (rounds : ℕ) × (o ≡ some enc)
          × (rounds_of_version enc.version ≡ some rounds)
          × (wrong_key i enc ≡ false)
          × Checked enc rounds
    unfolding decrypt_header decrypt_aux
    header-Checked none e = cc
    header-Checked (some enc) e = go enc.aux refl
      where
        go :
            (o : Option Bytes)
            → enc.aux ≡ o
            → (enc' : PublicData) × (rounds : ℕ) × (some enc ≡ some enc')
              × (rounds_of_version enc'.version ≡ some rounds)
              × (wrong_key i enc' ≡ false)
              × Checked enc' rounds
        go none k = let no = rw (k, decrypt_header, decrypt_aux) at e in cc
        go (some aux) k =
            let (rounds, version, key, checked) =
              rounds-Checked enc aux (rounds_of_version enc.version)
                (rw (k, decrypt_header, decrypt_aux) at e) in
            (enc, rounds, refl, version, key, checked)

    line-Authentic :
        (o : Option Bytes)
        → f.is_reg ≡ true
        → f.first_line ≡ o
        → decrypt_line ed box c b64 privk i pubk fits f o ≡ crypted out
        → Authentic privk i pubk f out
    unfolding decrypt_line signed_part
    line-Authentic none r k e = cc
    line-Authentic (some line) r k e =
        let (enc, rounds, loads, version, key, checked) =
          header-Checked (public_data_load b64 line encrypted_magic 1 120 (length i) 96) e in
        record {
          line = line;
          enc = enc;
          sig = checked.sig_is;
          rounds = rounds;
          regular = r;
          first = k;
          loads = loads;
          version_is = version;
          for_this_key = key;
          verifies =
              rw
                (digest_reads-concat h.blake2b (h.blake2b.update h.blake2b.init enc.data_bytes)
                  f.reads)
                at checked.accepted;
          deciphered = checked.opens_to;
        }

  open-Authentic :
      (privk : PrivateData) (i : Bytes) (pubk : PublicData) (fits : ℕ → Bool) (opens : Bool)
      (f : Option EncryptedFile) {out : Bytes}
      → decrypt_open ed box c b64 privk i pubk fits opens f ≡ crypted out
      → (file : EncryptedFile) × (f ≡ some file) × Authentic privk i pubk file out
  unfolding decrypt_open
  open-Authentic privk i pubk fits opens none e = cc
  open-Authentic privk i pubk fits false (some f) e = cc
  open-Authentic privk i pubk fits true (some f) {out} e = elim (Bool-cases f.is_reg) [
    | inl reg ↦ (
      f,
      refl,
      line-Authentic privk i pubk fits f out f.first_line reg refl (rw (reg, decrypt_open) at e),
    )
    | inr irregular ↦ let no = rw (irregular, decrypt_open) at e in cc
  ]

  keys-Authentic :
      (privk : PrivateData) (o : Option Bytes) (pubk : PublicData) (fits : ℕ → Bool) (opens : Bool)
      (f : Option EncryptedFile) {out : Bytes}
      → decrypt_keys ed box c b64 privk o pubk fits opens f ≡ crypted out
      → (i : Bytes) × (file : EncryptedFile) × (o ≡ some i)
        × (f ≡ some file)
        × (same_keypair i pubk ≡ false)
        × Authentic privk i pubk file out
  unfolding decrypt_keys
  keys-Authentic privk none pubk fits opens f e = cc
  keys-Authentic privk (some i) pubk fits opens f e = elim (Bool-cases (same_keypair i pubk)) [
    | inl same ↦ let no = rw (same, decrypt_keys) at e in cc
    | inr other ↦
        let (file, is_file, authentic) =
          open-Authentic privk i pubk fits opens f (rw (other, decrypt_keys) at e) in
        (i, file, refl, is_file, other, authentic)
  ]

  loaded-Authentic :
      (k : Option PrivateData) (p : Option PublicData) (fits : ℕ → Bool) (opens : Bool)
      (f : Option EncryptedFile) (out : Bytes)
      → decrypt_loaded ed box c b64 k p fits opens f ≡ crypted out
      → (privk : PrivateData) × (pubk : PublicData) × (i : Bytes) × (file : EncryptedFile) × (k
          ≡ some privk)
        × (p ≡ some pubk)
        × (privk.id ≡ some i)
        × (f ≡ some file)
        × (same_keypair i pubk ≡ false)
        × Authentic privk i pubk file out
  unfolding decrypt_loaded
  loaded-Authentic (some privk) (some pubk) fits opens f out e =
      let (i, file, id_is, is_file, other, authentic) =
        keys-Authentic privk privk.id pubk fits opens f e in
      (privk, pubk, i, file, refl, refl, id_is, is_file, other, authentic)
  loaded-Authentic (some privk) none fits opens f out e = cc
  loaded-Authentic none (some pubk) fits opens f out e = cc
  loaded-Authentic none none fits opens f out e = cc

  -- If a file is decrypted, then the context had both keys, of different pairs, and the file could be
  -- opened and is regular; its first line is a header with a known version, for the identifier of
  -- the secret key if that has one; the public key accepts a signature of the sealed session and of
  -- all that the first pass reads behind the line; the session can be opened with the two keys; and
  -- the text is the stream of its key over what the second pass reads.
  pub decrypt_file-Authentic :
      (ctx : EncryptCtx) (fits : ℕ → Bool) (opens : Bool) (f : Option EncryptedFile) (out : Bytes)
      → decrypt_file ed box c b64 ctx fits opens f ≡ crypted out
      → (privk : PrivateData) × (pubk : PublicData) × (i : Bytes) × (file : EncryptedFile)
        × (ctx.privk ≡ some privk)
        × (ctx.pubk ≡ some pubk)
        × (privk.id ≡ some i)
        × (f ≡ some file)
        × (same_keypair i pubk ≡ false)
        × Authentic privk i pubk file out
  unfolding decrypt_file
  decrypt_file-Authentic ctx fits opens f out e =
      loaded-Authentic ctx.privk ctx.pubk fits opens f out e
