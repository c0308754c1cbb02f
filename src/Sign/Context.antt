-- ===== src/Sign/Context.antt =====
-- The sign context of libasignify/sign.c: `asignify_sign_load_privkey` and
-- `asignify_sign_write_signature`.
pub mod RoundTrip
use asignify.Base.{
  ℕ, Bool, true, false, ◌==◌, if◌then◌else◌, Option, none, some, List, [], ◌∷◌, ◌++◌, Bytes, length,
}
use asignify.Util.Errors.{Error}
use asignify.Util.Digest.{Hashes}
use asignify.Data.{File, PublicData, PrivateData}
use asignify.Crypto.{Blake2b}
use asignify.Crypto.Base64.{Base64}
use asignify.Crypto.Ed25519.{Ed25519}
use asignify.Keys.Load.{Loaded, loaded, failed, PasswordCb, private_data_load}
use asignify.Keys.Public.{signature_write}
use asignify.Keys.Signature.{Signed, signed, no_signature, uint_bytes, private_data_sign}
use asignify.Keys.Write.{Written, wrote, not_written, crashed}
use asignify.Sign.Lines.{Result, ok, err, LineError, file_lines}

-- The key, and the error that was set last.
pub record SignCtx : Type 0 where
  pub privk : Option PrivateData
  pub files : List File
  pub error : Option Error

-- The context, and whether true is returned; none is the use of what was never written.
pub data Outcome : Type 0 where
  returns : Bool → SignCtx → Outcome
  undefined : Outcome

unfoldable pub with_key : SignCtx → Loaded → Outcome
with_key ctx (loaded p) = returns true (record ctx { privk = some p })
with_key ctx (failed none) = returns false (record ctx { privk = none; error = some Error.format })
with_key ctx (failed (some e)) = returns false (record ctx { privk = none; error = some e })
with_key ctx Loaded.undefined = undefined

-- The lines of the file, or none if it cannot be opened.
unfoldable pub load_privkey : Blake2b → SignCtx → Option (List Bytes) → PasswordCb → Outcome
unfolding with_key
load_privkey blake ctx none cb = returns false (record ctx { error = some Error.file })
load_privkey blake ctx (some lines) cb = with_key ctx (private_data_load blake lines cb)

-- What is returned with what is written to the file: the text, or false with the error that is set
-- if any is; `crash` is the use of a null pointer or of what was never written, and `abort`.
pub data Finished : Type 0 where
  finished : Bytes → Finished
  gave_up : Option Error → Finished
  crash : Finished

written : Written → Finished
written (wrote text) = finished text
written not_written = gave_up none
written crashed = crash

-- A file that cannot be opened is closed all the same.
write_out : Base64 → Bool → Bytes → Signed → Finished
unfolding written
write_out b64 opens text (signed sig) =
    if opens then written (signature_write b64 sig text) else crash
write_out b64 opens text no_signature = gave_up (some Error.misuse)
write_out b64 opens text Signed.undefined = crash

zeros : ℕ → Bytes
zeros ℕ.zero = []
zeros (ℕ.suc n) = 0 ∷ zeros n

-- `sig_pad` in front of the lines.
sign_lines : {h : Hashes} → Ed25519 h → Base64 → Bool → PrivateData → Result Bytes → Finished
unfolding write_out zeros
sign_lines ed b64 opens privk (err LineError.too_long) = gave_up (some Error.size)
sign_lines ed b64 opens privk (err _) = crash
sign_lines ed b64 opens privk (ok text) =
    write_out b64 opens text
      (private_data_sign ed privk (zeros 64 ++ (uint_bytes privk.version ++ text)))

with_files : {h : Hashes} → Ed25519 h → Base64 → Bool → PrivateData → List File → Finished
unfolding sign_lines
with_files ed b64 opens privk [] = gave_up (some Error.misuse)
with_files ed b64 opens privk (f ∷ fs) = sign_lines ed b64 opens privk (file_lines (f ∷ fs))

-- `opens` is whether the file can be opened for writing.
unfoldable pub write_signature : {h : Hashes} → Ed25519 h → Base64 → Bool → SignCtx → Finished
unfolding with_files
write_signature ed b64 opens ctx = elim ctx.privk [
  | none ↦ gave_up (some Error.misuse)
  | some privk ↦ with_files ed b64 opens privk ctx.files
]
