-- ===== src/Encrypt/RoundTrip.antt =====
-- What is encrypted for a key is decrypted with it.
use asignify.Base.{
  ℕ, ◌+◌, ◌≡◌, ◌≢◌, refl, sym, ap, ◌∙◌, arith, Bool, true, false, Option, none, some, List, [], ◌∷◌,
  ◌++◌, append-nil,
}
use asignify.Base.{Bytes, IsBytes, zero_bytes, length, take, take_all, bytes_eq_iff, bytes_eq_refl}
use asignify.Libc.Lines.{getlines, concat-getlines}
use asignify.Util.Errors.{Error}
use asignify.Util.Digest.{Hashes}
use asignify.Util.Digest.Chunks.{concat, digest_reads-concat}
use asignify.Data.{PublicData, PrivateData}
use asignify.Crypto.Base64.{Base64, at_nul}
use asignify.Crypto.Ed25519.{Ed25519, sha512_of}
use asignify.Crypto.Box.{Box}
use asignify.Crypto.Chacha.{Chacha}
use asignify.Keys.Signature.{public_key}
use asignify.Encrypt.{same_keypair, crypted}
use asignify.Encrypt.Crypt.{
  Streams, Random, rounds_of_type, crypt_open, crypt_keys, crypt_loaded, crypt_file,
}
use asignify.Encrypt.Decrypt.{
  EncryptedFile, rounds_of_version, wrong_key, encrypted_hash, signed_part, written,
  decrypt_session, decrypt_signed, decrypt_sig, decrypt_rounds, decrypt_aux, decrypt_header,
  decrypt_line, decrypt_open, decrypt_keys, decrypt_loaded, decrypt_file,
}
use asignify.Encrypt.Cipher.{decrypt_loop-outputs}
use asignify.Encrypt.Written.{
  sender, sealed, rounds, body, signed_text, sig, encrypted, drop-append_front, take-append_front,
  crypt_opened-encrypted, getlines-encrypted, public_data_load-encrypted,
}

-- How the calls of `fread` cut what they read.
pub record Reading : Type 0 where
  pub cut : Bytes → List Bytes
  pub concat-cut : (s : Bytes) → concat (cut s) ≡ s

abbrev pub head_of : List Bytes → Option Bytes
head_of [] = none
head_of (l ∷ ls) = some l

abbrev pub tail_of : List Bytes → List Bytes
tail_of [] = []
tail_of (l ∷ ls) = ls

-- A regular file with this text, which does not change between the two passes.
abbrev pub on_disk : Reading → Reading → Bytes → EncryptedFile
on_disk once again text = record {
  is_reg = true;
  first_line = head_of (getlines text);
  reads = once.cut (concat (tail_of (getlines text)));
  seeks = true;
  reads_again = again.cut (concat (tail_of (getlines text)));
}

encrypted_hash-sha512_of :
    (h : Hashes) (sig text : Bytes) (pubk : PublicData)
    → encrypted_hash h sig pubk text
      ≡ sha512_of h (take 32 sig ++ (take 32 pubk.data_bytes ++ text))
unfolding encrypted_hash
encrypted_hash-sha512_of h sig text pubk = ap h.sha512.final (
    sym (h.sha512.update-append _ (take 32 pubk.data_bytes) text)
    ∙ sym (h.sha512.update-append h.sha512.init (take 32 sig) (take 32 pubk.data_bytes ++ text)))

same_keypair-other : (i : Bytes) (pk : PublicData) → i ≢ pk.id → same_keypair i pk ≡ false
unfolding same_keypair
same_keypair-other i pk n = ground (arith, bytes_eq_iff pk.id i)

wrong_key-same : (enc : PublicData) → wrong_key enc.id enc ≡ false
unfolding wrong_key
wrong_key-same enc = ground (arith, bytes_eq_refl enc.id)

take_front : (n : ℕ) (s t : Bytes) → length s ≡ n → take n (s ++ t) ≡ s
take_front n s t e = rw e at (take-append_front s t)

module _ {h : Hashes} (ed : Ed25519 h) (box : Box ed) (c : Chacha) (b64 : Base64)
    (a b ia ib : Bytes) (r : Random) (safe : Bool) where
  abbrev receiver : PrivateData
  receiver = record { data_bytes = b; id = some ib; version = 1 }

  -- The header that was read.
  abbrev header : Bytes → PublicData
  header plain = record {
    data_bytes = sealed ed box c b64 a b ia ib r safe;
    id = ib;
    aux = some (b64.ntop (sig ed box c b64 a b ia ib r safe plain));
    version = 100 + rounds ed box c b64 a b ia ib r safe;
  }

  version_rounds :
      rounds_of_version (100 + rounds_of_type ed box c b64 safe)
      ≡ some (rounds_of_type ed box c b64 safe)
  unfolding rounds_of_version
  version_rounds = ground arith

  verify-encrypted :
      (plain : Bytes) (reads : List Bytes)
      → concat reads ≡ body ed box c b64 a b ia ib r safe plain
      → ed.verify
          (sig ed box c b64 a b ia ib r safe plain)
          (encrypted_hash h
            (sig ed box c b64 a b ia ib r safe plain)
            (public_key ed a ia)
            (signed_part h (sealed ed box c b64 a b ia ib r safe) reads))
          (ed.public_of a)
        ≡ true
  unfolding signed_part
  verify-encrypted plain reads e =
      let start = h.blake2b.update h.blake2b.init (sealed ed box c b64 a b ia ib r safe) in
      let text =
        signed_text ed box c b64 a b ia ib r safe (body ed box c b64 a b ia ib r safe plain) in
      let s = sig ed box c b64 a b ia ib r safe plain in
      let pk_whole : take 32 (ed.public_of a) ≡ ed.public_of a =
        take_all 32 (ed.public_of a) (ed.length-public_of a) in
      rw
        (
          digest_reads-concat h.blake2b start reads,
          e,
          encrypted_hash-sha512_of h s text (public_key ed a ia),
          pk_whole,
        )
        (ed.verify-sign a text)

  decrypt_session-encrypted :
      (fits : ℕ → Bool) (plain : Bytes) (reads : List Bytes)
      → ((n : ℕ) → fits n ≡ true)
      → length r.iv ≡ 8
      → length r.key ≡ 32
      → concat reads ≡ body ed box c b64 a b ia ib r safe plain
      → decrypt_session ed box c b64 fits
          (rounds ed box c b64 a b ia ib r safe)
          reads
          (some (zero_bytes 32 ++ (r.iv ++ r.key)))
        ≡ crypted plain
  unfolding decrypt_session written
  decrypt_session-encrypted fits plain reads f li lk e =
      let n = rounds ed box c b64 a b ia ib r safe in
      rw
        (
          take_front 8 r.iv r.key li,
          drop-append_front 8 r.iv r.key li,
          take_all 32 r.key lk,
          decrypt_loop-outputs c fits f 0 (c.init r.key r.iv n) [] reads,
          written,
          c.outputs-stream r.key r.iv n reads,
          e,
          c.stream_twice r.key r.iv n plain,
        )
        refl

  decrypt_line-encrypted :
      (fits : ℕ → Bool) (plain : Bytes) (f : EncryptedFile)
      → ((n : ℕ) → fits n ≡ true)
      → length r.nonce ≡ 24
      → length r.iv ≡ 8
      → length r.key ≡ 32
      → length ib ≡ 8
      → f.seeks ≡ true
      → concat f.reads ≡ body ed box c b64 a b ia ib r safe plain
      → concat f.reads_again ≡ body ed box c b64 a b ia ib r safe plain
      → decrypt_header ed box c b64 receiver ib (public_key ed a ia) fits f (some (header plain))
        ≡ crypted plain
  unfolding decrypt_header decrypt_aux decrypt_rounds decrypt_sig decrypt_signed
  decrypt_line-encrypted fits plain f all_fit ln li lk l s e e2 =
      let m = zero_bytes 32 ++ (r.iv ++ r.key) in
      let sealed_part = box.box m r.nonce (box.pk_to_curve (ed.public_of b)) (box.sk_to_curve a) in
      let text = sig ed box c b64 a b ia ib r safe plain in
      rw
        (
          version_rounds,
          decrypt_header,
          decrypt_aux,
          wrong_key-same (header plain),
          decrypt_rounds,
          decoded,
          decrypt_sig,
          ed.length-sign a (
              signed_text ed box c b64 a b ia ib r safe (body ed box c b64 a b ia ib r safe plain)),
          verify-encrypted plain f.reads e,
          decrypt_signed,
          s,
          drop-append_front 24 r.nonce sealed_part ln,
          take_front 24 r.nonce sealed_part ln,
          box.box_open-box (r.iv ++ r.key) r.nonce a b,
        )
        (decrypt_session-encrypted fits plain f.reads_again all_fit li lk e2)
    where
      decoded :
          b64.pton 64 (b64.ntop (sig ed box c b64 a b ia ib r safe plain))
          ≡ some (sig ed box c b64 a b ia ib r safe plain)
      decoded =
          let text = sig ed box c b64 a b ia ib r safe plain in
          let signed =
            signed_text ed box c b64 a b ia ib r safe (body ed box c b64 a b ia ib r safe plain) in
          rw (append-nil (b64.ntop text)) at (
            b64.pton-ntop 64 text [] (ed.sign-IsBytes a signed)
              (rw (ed.length-sign a signed) (omega arith)) at_nul)

  -- A file that is encrypted with the secret key of a sender for the public key of a receiver, where
  -- the two have different identifiers, the one of the receiver of 8 bytes, is decrypted to the same
  -- text with the secret key of the receiver and the public key of the sender, in both of the modes
  -- and however the reads cut the two files, if every call of the C library succeeds and the random
  -- bytes have their lengths.
  pub decrypt_file-crypt_file :
      (io : Streams) (fits : ℕ → Bool) (once again : Reading) (err err2 : Option Error)
      → ((n : ℕ) → io.fits n ≡ true)
      → io.seeks ≡ true
      → ((n : ℕ) → fits n ≡ true)
      → length r.nonce ≡ 24
      → length r.iv ≡ 8
      → length r.key ≡ 32
      → IsBytes r.nonce
      → IsBytes r.iv
      → IsBytes r.key
      → length ib ≡ 8
      → IsBytes ib
      → ia ≢ ib
      → (file : Bytes) × (crypt_file ed box c b64
            (record {
              privk = some (sender ed box c b64 a b ia ib r safe);
              pubk = some (public_key ed b ib);
              error = err;
            })
            1
            r
            safe
            (some io)
            (some (record { is_reg = true }))
          ≡ crypted file)
        × (decrypt_file ed box c b64
              (record {
                privk = some (record { data_bytes = b; id = some ib; version = 1 });
                pubk = some (public_key ed a ia);
                error = err2;
              })
              fits
              true
              (some (on_disk once again file))
            ≡ crypted (concat io.reads))
  unfolding crypt_file crypt_loaded crypt_keys crypt_open decrypt_file decrypt_loaded decrypt_keys
      decrypt_open decrypt_line
  decrypt_file-crypt_file io fits once again err err2 fo se fi ln li lk bn bi bk l bb other =
      let plain = concat io.reads in
      let file = encrypted ed box c b64 a b ia ib r safe plain in
      let lines = getlines-encrypted ed box c b64 a b ia ib r safe ln li lk l bb bn bi bk plain in
      let rest = concat (tail_of (getlines file)) in
      let whole : rest ≡ body ed box c b64 a b ia ib r safe plain =
        ap (λ ls. concat (tail_of ls)) lines
        ∙ concat-getlines (body ed box c b64 a b ia ib r safe plain) in
      (
        file,
        rw
            (
              same_keypair-other ia (public_key ed b ib) other,
              crypt_file,
              crypt_loaded,
              crypt_keys,
              crypt_open,
            )
            (crypt_opened-encrypted ed box c b64 a b ia ib r safe ln li lk l io fo se),
        rw
            (
              same_keypair-other ib (public_key ed a ia) (λ e. other (sym e)),
              decrypt_file,
              decrypt_loaded,
              decrypt_keys,
              decrypt_open,
              lines,
              l,
              public_data_load-encrypted ed box c b64 a b ia ib r safe ln li lk l bb bn bi bk plain,
              decrypt_line,
            )
            (decrypt_line-encrypted fits plain (on_disk once again file) fi ln li lk l refl
              (once.concat-cut rest ∙ whole) (again.concat-cut rest ∙ whole)),
      )
