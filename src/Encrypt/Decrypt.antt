-- ===== src/Encrypt/Decrypt.antt =====
-- `asignify_encrypt_decrypt_file` of libasignify/encrypt.c.
use asignify.Base.{ℕ, ◌+◌, Bool, not, ◌&&◌, Option, none, some, List, [], ◌∷◌, ◌++◌}
use asignify.Base.{Bytes, ◌==◌, if◌then◌else◌, length, take, drop, bytes_eq}
use asignify.Util.Errors.{Error}
use asignify.Util.Digest.{Hashes, digest_reads}
use asignify.Data.{PublicData, PrivateData}
use asignify.Crypto.Base64.{Base64}
use asignify.Crypto.Ed25519.{Ed25519}
use asignify.Crypto.Box.{Box}
use asignify.Crypto.Chacha.{Chacha}
use asignify.Keys.Public.{public_data_load}
use asignify.Encrypt.{
  EncryptCtx, encrypted_magic, encrypted_signature_magic, chacha_rounds_safe, chacha_rounds_fast,
  encrypted_payload_len, same_keypair, Crypted, crypted, gave_up, crash,
}

-- The file that is opened for reading: what `fstat` says of it, what `getline` returns, what the
-- calls of `fread` return behind that line, whether `fseek` succeeds, and what the calls of `fread`
-- return after it.
pub record EncryptedFile : Type 0 where
  pub is_reg : Bool
  pub first_line : Option Bytes
  pub reads : List Bytes
  pub seeks : Bool
  pub reads_again : List Bytes

-- The rounds that the version of the header stands for.
unfoldable pub rounds_of_version : ℕ → Option ℕ
rounds_of_version version =
    if version == 1
    then some chacha_rounds_safe
    else if version == 120
    then some chacha_rounds_safe
    else if version == 108
    then some chacha_rounds_fast
    else none

-- The secret key has an identifier, and the header has another one.
unfoldable pub wrong_key : Bytes → PublicData → Bool
wrong_key i enc = not (length i == 0) && not (length i == length enc.id && bytes_eq i enc.id)

module _ (c : Chacha) (fits : ℕ → Bool) where
  unfoldable pub decrypt_final : ℕ → c.State → Bytes → Option Bytes
  decrypt_final n st out =
      let last = c.final st in
      if length last == 0 then some out else if fits n then some (out ++ last) else none

  -- What is written behind `out`; none if a call of `fwrite` fails.
  unfoldable pub decrypt_loop : ℕ → c.State → Bytes → List Bytes → Option Bytes
  unfolding decrypt_final
  decrypt_loop n st out [] = decrypt_final n st out
  decrypt_loop n st out (buf ∷ bufs) =
      let (o, after) = c.update st buf in
      let rest = decrypt_loop (n + 1) after (out ++ o) bufs in if fits n then rest else none

-- The hash that the signature is checked against.
unfoldable pub encrypted_hash : Hashes → Bytes → PublicData → Bytes → Bytes
encrypted_hash h sig pubk text =
    let first = h.sha512.update h.sha512.init (take 32 sig) in
    let second = h.sha512.update first (take 32 pubk.data_bytes) in
    h.sha512.final (h.sha512.update second text)

-- The magic, and the hash of the sealed session and of what stands behind the line.
unfoldable pub signed_part : Hashes → Bytes → List Bytes → Bytes
unfolding digest_reads
signed_part h session reads =
    let start = h.blake2b.update h.blake2b.init session in
    encrypted_signature_magic ++ h.blake2b.final (digest_reads h.blake2b start reads)

unfoldable pub written : Option Bytes → Crypted
written none = gave_up Error.file
written (some out) = crypted out

module _ {h : Hashes} (ed : Ed25519 h) (box : Box ed) (c : Chacha) (b64 : Base64) where
  -- Behind `crypto_box_open`.
  unfoldable pub decrypt_session : (ℕ → Bool) → ℕ → List Bytes → Option Bytes → Crypted
  unfolding decrypt_loop written
  decrypt_session fits rounds reads none = gave_up Error.verify
  decrypt_session fits rounds reads (some opened) =
      let p = drop 32 opened in
      written (decrypt_loop c fits 0 (c.init (take 32 (drop 8 p)) (take 8 p) rounds) [] reads)

  unfoldable pub decrypt_signed :
      PrivateData → PublicData → PublicData → (ℕ → Bool) → ℕ → EncryptedFile → Bytes → Crypted
  unfolding decrypt_session encrypted_hash signed_part
  decrypt_signed privk pubk enc fits rounds f sig =
      if ed.verify sig (encrypted_hash h sig pubk (signed_part h enc.data_bytes f.reads))
        pubk.data_bytes
      then if f.seeks
        then decrypt_session fits rounds f.reads_again (
            box.box_open (drop 24 enc.data_bytes) (take 24 enc.data_bytes)
              (box.pk_to_curve pubk.data_bytes) (box.sk_to_curve privk.data_bytes))
        else gave_up Error.file
      else gave_up Error.verify

  unfoldable pub decrypt_sig :
      PrivateData
      → PublicData
      → PublicData
      → (ℕ → Bool)
      → ℕ
      → EncryptedFile
      → Option Bytes
      → Crypted
  unfolding decrypt_signed
  decrypt_sig privk pubk enc fits rounds f none = gave_up Error.format
  decrypt_sig privk pubk enc fits rounds f (some sig) =
      if length sig == 64
      then decrypt_signed privk pubk enc fits rounds f sig
      else gave_up Error.format

  unfoldable pub decrypt_rounds :
      PrivateData
      → Bytes
      → PublicData
      → PublicData
      → Bytes
      → (ℕ → Bool)
      → EncryptedFile
      → Option ℕ
      → Crypted
  unfolding decrypt_sig wrong_key
  decrypt_rounds privk i pubk enc aux fits f none = gave_up Error.format
  decrypt_rounds privk i pubk enc aux fits f (some rounds) =
      if wrong_key i enc
      then gave_up Error.wrong_key
      else decrypt_sig privk pubk enc fits rounds f (b64.pton 64 aux)

  unfoldable pub decrypt_aux :
      PrivateData
      → Bytes
      → PublicData
      → PublicData
      → (ℕ → Bool)
      → EncryptedFile
      → Option Bytes
      → Crypted
  unfolding decrypt_rounds rounds_of_version
  decrypt_aux privk i pubk enc fits f none = gave_up Error.format
  decrypt_aux privk i pubk enc fits f (some aux) =
      decrypt_rounds privk i pubk enc aux fits f (rounds_of_version enc.version)

  unfoldable pub decrypt_header :
      PrivateData → Bytes → PublicData → (ℕ → Bool) → EncryptedFile → Option PublicData → Crypted
  unfolding decrypt_aux
  decrypt_header privk i pubk fits f none = gave_up Error.format
  decrypt_header privk i pubk fits f (some enc) = decrypt_aux privk i pubk enc fits f enc.aux

  unfoldable pub decrypt_line :
      PrivateData → Bytes → PublicData → (ℕ → Bool) → EncryptedFile → Option Bytes → Crypted
  unfolding decrypt_header
  decrypt_line privk i pubk fits f none = gave_up Error.file
  decrypt_line privk i pubk fits f (some line) =
      decrypt_header privk i pubk fits f
        (public_data_load b64 line encrypted_magic 1 120 (length i) encrypted_payload_len)

  -- The output is opened, and emptied, before anything is read.
  unfoldable pub decrypt_open :
      PrivateData → Bytes → PublicData → (ℕ → Bool) → Bool → Option EncryptedFile → Crypted
  unfolding decrypt_line
  decrypt_open privk i pubk fits opens none = gave_up Error.file
  decrypt_open privk i pubk fits opens (some f) =
      if opens
      then if f.is_reg then decrypt_line privk i pubk fits f f.first_line else gave_up Error.file
      else gave_up Error.file

  unfoldable pub decrypt_keys :
      PrivateData → Option Bytes → PublicData → (ℕ → Bool) → Bool → Option EncryptedFile → Crypted
  unfolding decrypt_open same_keypair
  decrypt_keys privk none pubk fits opens f = crash
  decrypt_keys privk (some i) pubk fits opens f =
      if same_keypair i pubk
      then gave_up Error.wrong_keypair
      else decrypt_open privk i pubk fits opens f

  unfoldable pub decrypt_loaded :
      Option PrivateData → Option PublicData → (ℕ → Bool) → Bool → Option EncryptedFile → Crypted
  unfolding decrypt_keys
  decrypt_loaded (some privk) (some pubk) fits opens f =
      decrypt_keys privk privk.id pubk fits opens f
  decrypt_loaded _ _ fits opens f = gave_up Error.misuse

  -- `opens` is whether the output can be opened for writing, and `fits n` whether the n-th call of
  -- `fwrite` writes all that it is given.
  unfoldable pub decrypt_file : EncryptCtx → (ℕ → Bool) → Bool → Option EncryptedFile → Crypted
  unfolding decrypt_loaded
  decrypt_file ctx fits opens f = decrypt_loaded ctx.privk ctx.pubk fits opens f
