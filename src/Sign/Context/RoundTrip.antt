-- ===== src/Sign/Context/RoundTrip.antt =====
-- What `asignify_sign_write_signature` writes is a signature that the public key accepts.
use asignify.Base.{◌<◌, ◌≡◌, refl, true, some, List, ◌∷◌, ◌++◌, Bytes, IsBytes, length}
use asignify.Util.Digest.{Hashes}
use asignify.Data.{File, PublicData}
use asignify.Crypto.Base64.{Base64}
use asignify.Crypto.Ed25519.{Ed25519}
use asignify.Keys.Public.{public_data_load, sig_magic, signature_write}
use asignify.Keys.Public.RoundTrip.{IsPublic, public_data_load-signature_write}
use asignify.Keys.Signature.{
  check_signature, public_key, signature_of, uint_bytes, check_signature-private_data_sign,
}
use asignify.Keys.Write.{wrote}
use asignify.Sign.Lines.{ok, file_lines}
use asignify.Sign.Context.{
  SignCtx, write_signature, finished, with_files, sign_lines, write_out, written, zeros,
}

length-zeros : length (zeros 64) ≡ 64
unfolding zeros
length-zeros = refl

-- The file is what `asignify_signature_write` writes for the signature of the lines.
pub write_signature-signature_write :
    {h : Hashes} (ed : Ed25519 h) (b64 : Base64) (ctx : SignCtx) (sk i text : Bytes) (f : File)
    (fs : List File) {file : Bytes}
    → ctx.privk ≡ some (record { data_bytes = sk; id = some i; version = 1 })
    → ctx.files ≡ f ∷ fs
    → file_lines (f ∷ fs) ≡ ok text
    → signature_write b64 (signature_of ed sk i text) text ≡ wrote file
    → write_signature ed b64 true ctx ≡ finished file
unfolding write_signature with_files sign_lines write_out written
write_signature-signature_write ed b64 ctx sk i text f fs {file} k files t w =
    let (signs, checks) = check_signature-private_data_sign ed sk i (zeros 64) text length-zeros in
    rw (k, write_signature, files, with_files, t, sign_lines, signs, write_out, w, written) refl

-- If a context has a key of version 1 with an identifier of 8 bytes, and files whose lines can be
-- printed and are not empty, then what is written to a file that can be opened is a line and the
-- lines of the files behind it, the line is read back as a signature, and the public key accepts it
-- as that of the lines.
pub check_signature-write_signature :
    {h : Hashes} (ed : Ed25519 h) (b64 : Base64) (ctx : SignCtx) (sk i text : Bytes) (f : File)
    (fs : List File)
    → ctx.privk ≡ some (record { data_bytes = sk; id = some i; version = 1 })
    → ctx.files ≡ f ∷ fs
    → IsBytes i
    → length i ≡ 8
    → file_lines (f ∷ fs) ≡ ok text
    → 0 < length text
    → (line : Bytes) × (sig : PublicData) × (write_signature ed b64 true ctx
        ≡ finished (line ++ text))
      × (public_data_load b64 line sig_magic 1 1 8 64 ≡ some sig)
      × (check_signature ed (public_key ed sk i) sig text ≡ true)
unfolding write_signature with_files sign_lines write_out written
check_signature-write_signature ed b64 ctx sk i text f fs k files b l t some_text =
    let sig = signature_of ed sk i text in
    let (signs, checks) = check_signature-private_data_sign ed sk i (zeros 64) text length-zeros in
    let is_public : IsPublic sig = record {
      version_is = refl;
      no_aux = refl;
      id_bytes = b;
      data_bytes_are = ed.sign-IsBytes sk (uint_bytes 1 ++ text);
    } in
    let (line, writes, reads) =
      public_data_load-signature_write b64 sig text is_public l
        (ed.length-sign sk (uint_bytes 1 ++ text)) some_text in
    (
      line,
      sig,
      rw (k, write_signature, files, with_files, t, sign_lines, signs, write_out, writes, written)
          refl,
      reads,
      checks,
    )
