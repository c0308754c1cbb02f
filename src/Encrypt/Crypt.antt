-- ===== src/Encrypt/Crypt.antt =====
-- `asignify_encrypt_crypt_file` of libasignify/encrypt.c.
use asignify.Base.{ℕ, ◌+◌, ◌*◌, ◌/◌, Bool, true, false, Option, none, some, List, [], ◌∷◌, ◌++◌}
use asignify.Base.{Bytes, codes, zero_bytes, leb, ◌==◌, if◌then◌else◌, length, take, drop}
use asignify.Libc.Decimal.{decimal}
use asignify.Util.Errors.{Error}
use asignify.Util.Digest.{HashAlgorithm, Hashes}
use asignify.Data.{PublicData, PrivateData}
use asignify.Crypto.Base64.{Base64}
use asignify.Crypto.Ed25519.{Ed25519}
use asignify.Crypto.Box.{Box}
use asignify.Crypto.Chacha.{Chacha}
use asignify.Encrypt.{
  EncryptCtx, encrypted_magic, encrypted_signature_magic, chacha_rounds_safe, chacha_rounds_fast,
  encrypted_payload_len, same_keypair, Crypted, crypted, gave_up, crash,
}

-- What the calls of `fread` return, whether the n-th call of `fwrite` writes all that it is given,
-- and whether the `fseek` back to the signature succeeds.
pub record Streams : Type 0 where
  pub reads : List Bytes
  pub fits : ℕ → Bool
  pub seeks : Bool

-- The file that is opened for writing; `fstat` succeeds, and says what it is.
pub record OutFile : Type 0 where
  pub is_reg : Bool

-- What `randombytes` gives: the nonce, the initial vector and the key.
pub record Random : Type 0 where
  pub nonce : Bytes
  pub iv : Bytes
  pub key : Bytes

-- `b64_ntop` into the buffer of twice the payload; none if it is too short, and its old contents
-- are printed.
unfoldable pub payload_text : Base64 → Bytes → Option Bytes
payload_text b64 b =
    if leb ((length b + 2) / 3 * 4 + 1) (encrypted_payload_len * 2) then some (b64.ntop b) else none

module _ (c : Chacha) (a : HashAlgorithm) (fits : ℕ → Bool) where
  -- Behind the loop: what the cipher still holds is written, unless there is nothing.
  unfoldable pub crypt_final : ℕ → c.State → a.State → Bytes → Option (Bytes × a.State)
  crypt_final n st sh out =
      let last = c.final st in
      if length last == 0
      then some (out, sh)
      else if fits n
      then some (out ++ last, a.update sh last)
      else none

  -- What is written behind `out`, and the hash of it; none if a call of `fwrite` fails.
  unfoldable pub crypt_loop : ℕ → c.State → a.State → Bytes → List Bytes → Option (Bytes × a.State)
  unfolding crypt_final
  crypt_loop n st sh out [] = crypt_final n st sh out
  crypt_loop n st sh out (buf ∷ bufs) =
      let (o, after) = c.update st buf in
      let rest = crypt_loop (n + 1) after (a.update sh o) (out ++ o) bufs in
      if fits n then rest else none

-- `fseek` to `pos`, and `fprintf` of a text over what stands there.
abbrev pub overwrite : ℕ → Bytes → Bytes → Bytes
overwrite pos text file = take pos file ++ (text ++ drop (pos + length text) file)

module _ {h : Hashes} (ed : Ed25519 h) (box : Box ed) (c : Chacha) (b64 : Base64) where
  -- The signature of the magic and the hash is written over the one of zeros.
  unfoldable pub put_signature :
      PrivateData → ℕ → Bytes → Bool → Option (Bytes × h.blake2b.State) → Crypted
  put_signature privk sig_pos front seeks none = gave_up Error.file
  put_signature privk sig_pos front false (some (body, sh)) = gave_up Error.file
  put_signature privk sig_pos front true (some (body, sh)) =
      let sig = ed.sign privk.data_bytes (encrypted_signature_magic ++ h.blake2b.final sh) in
      elim (payload_text b64 sig) [
        | none ↦ crash
        | some text ↦ crypted (overwrite sig_pos text (front ++ body))
      ]

  -- The two fields and the signature of zeros, each behind what is printed already.
  unfoldable pub crypt_header : ℕ → Option Bytes → Option Bytes → Option Bytes → Option (ℕ × Bytes)
  crypt_header version (some id) (some session) (some fake) =
      let front =
        encrypted_magic
        ++ (decimal version ++ (codes ":" ++ (id ++ (codes ":" ++ (session ++ codes ":"))))) in
      some (length front, front ++ (fake ++ codes "\n"))
  crypt_header version _ _ _ = none

  unfoldable pub crypt_body : PrivateData → Streams → c.State → Bytes → Option (ℕ × Bytes) → Crypted
  unfolding put_signature crypt_loop
  crypt_body privk io st session none = crash
  crypt_body privk io st session (some (sig_pos, front)) =
      put_signature privk sig_pos front io.seeks
        (crypt_loop c h.blake2b io.fits 0 st (h.blake2b.update h.blake2b.init session) [] io.reads)

  abbrev pub rounds_of_type : Bool → ℕ
  rounds_of_type safe = if safe then chacha_rounds_safe else chacha_rounds_fast

  -- The nonce, and the sealed initial vector and key behind it.
  abbrev pub sealed_session : PrivateData → PublicData → Random → Bytes
  sealed_session privk pubk r =
      r.nonce
      ++ box.box (zero_bytes 32 ++ (r.iv ++ r.key)) r.nonce (box.pk_to_curve pubk.data_bytes)
          (box.sk_to_curve privk.data_bytes)

  unfoldable pub crypt_opened : PrivateData → PublicData → Random → Bool → Streams → Crypted
  unfolding crypt_body crypt_header
  crypt_opened privk pubk r safe io =
      let rounds = rounds_of_type safe in
      let st = c.init r.key r.iv rounds in
      let session = sealed_session privk pubk r in
      let header =
        crypt_header (1 * 100 + rounds) (payload_text b64 pubk.id) (payload_text b64 session)
          (payload_text b64 (zero_bytes 64)) in
      crypt_body privk io st session header

  -- The input is opened first, and the output must be a regular file.
  unfoldable pub crypt_open :
      PrivateData → PublicData → Random → Bool → Option Streams → Option OutFile → Crypted
  unfolding crypt_opened
  crypt_open privk pubk r safe none out = gave_up Error.file
  crypt_open privk pubk r safe (some io) none = gave_up Error.file
  crypt_open privk pubk r safe (some io) (some out) =
      if out.is_reg then crypt_opened privk pubk r safe io else gave_up Error.file

  -- The identifier of the secret key is none if it was never written.
  unfoldable pub crypt_keys :
      PrivateData
      → Option Bytes
      → PublicData
      → Random
      → Bool
      → Option Streams
      → Option OutFile
      → Crypted
  unfolding crypt_open same_keypair
  crypt_keys privk none pubk r safe io out = crash
  crypt_keys privk (some i) pubk r safe io out =
      if same_keypair i pubk
      then gave_up Error.wrong_keypair
      else crypt_open privk pubk r safe io out

  unfoldable pub crypt_loaded :
      ℕ
      → Option PrivateData
      → Option PublicData
      → Random
      → Bool
      → Option Streams
      → Option OutFile
      → Crypted
  unfolding crypt_keys
  crypt_loaded version (some privk) (some pubk) r safe io out =
      if version == 1 then crypt_keys privk privk.id pubk r safe io out else gave_up Error.misuse
  crypt_loaded version _ _ r safe io out = gave_up Error.misuse

  -- `safe` is whether the type is `ASIGNIFY_ENCRYPT_SAFE`.
  unfoldable pub crypt_file :
      EncryptCtx → ℕ → Random → Bool → Option Streams → Option OutFile → Crypted
  unfolding crypt_loaded
  crypt_file ctx version r safe io out = crypt_loaded version ctx.privk ctx.pubk r safe io out
