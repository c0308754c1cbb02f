-- ===== src/Cli/Encrypt.antt =====
-- The commands `encrypt` and `decrypt` of src/encrypt.c.
use asignify.Base.{ℕ, Bool, true, false, Option, none, some, List, [], ◌∷◌}
use asignify.Base.{Bytes, codes, ◌==◌, if◌then◌else◌, bytes_eq}
use asignify.Util.Digest.{Hashes}
use asignify.Crypto.{Blake2b}
use asignify.Keys.Public.Load.{Junk}
use asignify.Crypto.Base64.{Base64}
use asignify.Crypto.Ed25519.{Ed25519}
use asignify.Crypto.Box.{Box}
use asignify.Crypto.Chacha.{Chacha}
use asignify.Encrypt.{
  EncryptCtx, encrypt_init, encrypt_load_privkey, encrypt_load_pubkey, Crypted, crypted, gave_up,
}
use asignify.Encrypt.Crypt.{Streams, OutFile, Random, crypt_file}
use asignify.Encrypt.Decrypt.{EncryptedFile, decrypt_file}
use asignify.Cli.{Ret, usage, failed, done, Opt}

-- The files that the command meets, the random bytes, and the password that is typed, or none if it
-- cannot be read.
pub record EncryptWorld : Type 0 where
  pub key_lines : Bytes → Option (List Bytes)
  pub plain_file : Bytes → Option Streams
  pub out_file : Bytes → Option OutFile
  pub encrypted_file : Bytes → Option EncryptedFile
  pub fits : ℕ → Bool
  pub random : Random
  pub password : Option Bytes
  pub junk : Junk

-- What is returned, and the file that is left; a file is removed after a failure.
pub data EncryptOutput : Type 0 where
  output : Ret → Option Bytes → EncryptOutput
  crash : EncryptOutput

pub record EncryptOpts : Type 0 where
  pub decrypt : Bool
  pub safe : Bool

-- The `while` over `getopt_long`; none is a wrong option.
unfoldable pub encrypt_opts : List Opt → EncryptOpts → Option EncryptOpts
encrypt_opts [] s = some s
encrypt_opts (o ∷ opts) s =
    let t : EncryptOpts =
      if o.ch == b'd' then record s { decrypt = true } else record s { safe = false } in
    let rest = encrypt_opts opts t in
    if o.ch == b'd' then rest else if o.ch == b'f' then rest else none

output_of : Crypted → EncryptOutput
output_of (crypted text) = output done (some text)
output_of (gave_up e) = output failed none
output_of Crypted.crash = crash

opens_of : Option OutFile → Bool
opens_of none = false
opens_of (some f) = true

module _ {h : Hashes} (ed : Ed25519 h) (box : Box ed) (c : Chacha) (blake : Blake2b) (b64 : Base64)
    (w : EncryptWorld) where
  run_crypt : EncryptOpts → EncryptCtx → Bytes → Bytes → EncryptOutput
  unfolding output_of opens_of
  run_crypt s ctx infile outfile =
      if s.decrypt
      then output_of (
          decrypt_file ed box c b64 ctx w.fits (opens_of (w.out_file outfile))
            (w.encrypted_file infile))
      else output_of
          (crypt_file ed box c b64 ctx 1 w.random s.safe (w.plain_file infile) (w.out_file outfile))

  with_public : EncryptOpts → Option (Bool × EncryptCtx) → Bytes → Bytes → EncryptOutput
  unfolding run_crypt
  with_public s none infile outfile = crash
  with_public s (some (true, ctx)) infile outfile = run_crypt s ctx infile outfile
  with_public s (some (false, ctx)) infile outfile = output failed none

  with_secret : EncryptOpts → Option (Bool × EncryptCtx) → Bytes → Bytes → Bytes → EncryptOutput
  unfolding with_public
  with_secret s none pubkeyfile infile outfile = crash
  with_secret s (some (true, ctx)) pubkeyfile infile outfile =
      with_public s (encrypt_load_pubkey b64 w.junk ctx (w.key_lines pubkeyfile)) infile outfile
  with_secret s (some (false, ctx)) pubkeyfile infile outfile = output failed none

  -- Arguments behind the fourth are not looked at.
  encrypt_args : Option EncryptOpts → List Bytes → EncryptOutput
  unfolding with_secret
  encrypt_args none args = output usage none
  encrypt_args (some s) (seckeyfile ∷ pubkeyfile ∷ infile ∷ outfile ∷ more) =
      with_secret s
        (encrypt_load_privkey blake encrypt_init (w.key_lines seckeyfile) (some w.password))
        pubkeyfile infile outfile
  encrypt_args (some s) _ = output usage none

  -- The name of the command, the options, and the arguments behind them.
  unfoldable pub cli_encrypt : Bytes → List Opt → List Bytes → EncryptOutput
  unfolding encrypt_args encrypt_opts
  cli_encrypt cmd opts args =
      let s : EncryptOpts = record { decrypt = bytes_eq cmd (codes "decrypt"); safe = true } in
      encrypt_args (encrypt_opts opts s) args
