-- ===== src/Cli/Check.antt =====
-- The commands `verify` and `check` of src/verify.c.
use asignify.Base.{Bool, true, false, Option, none, some, List, [], ◌∷◌}
use asignify.Base.{Bytes, if◌then◌else◌}
use asignify.Util.Digest.{Hashes}
use asignify.Util.Disk.{Disk}
use asignify.Keys.Public.Load.{Junk}
use asignify.Crypto.Base64.{Base64}
use asignify.Crypto.Ed25519.{Ed25519}
use asignify.Verify.Context.{
  VerifyCtx, verify_init, SigFile, verify_load_pubkey, verify_load_signature, verify_one,
}
use asignify.Cli.{Ret, usage, failed, done}

-- What the files that the command names hold: the lines of a public key and a signature, if they
-- can be opened, and the disk with the files to check. `junk` is what fresh memory holds.
pub record World : Type 0 where
  pub pubkeys : Bytes → Option (List Bytes)
  pub signatures : Bytes → Option SigFile
  pub disk : Disk
  pub junk : Junk

-- The `for` over the names of the files: one that is refused does not end it.
unfoldable pub check_files : Hashes → Disk → VerifyCtx → Ret → List Bytes → Ret
check_files h disk ctx ret [] = ret
check_files h disk ctx ret (name ∷ names) =
    let (good, after) = verify_one h ctx disk name in
    check_files h disk after (if good then ret else failed) names

module _ {h : Hashes} (ed : Ed25519 h) (b64 : Base64) (w : World) where
  unfoldable pub with_signature : (VerifyCtx → Ret) → Option (Bool × VerifyCtx) → Option Ret
  with_signature next none = none
  with_signature next (some (true, ctx)) = some (next ctx)
  with_signature next (some (false, ctx)) = some failed

  unfoldable pub with_pubkey :
      (VerifyCtx → Ret) → Option SigFile → Option (Bool × VerifyCtx) → Option Ret
  unfolding with_signature
  with_pubkey next sig none = none
  with_pubkey next sig (some (true, ctx)) =
      with_signature next (verify_load_signature ed b64 ctx sig)
  with_pubkey next sig (some (false, ctx)) = some failed

  -- The part that the two commands share: the key, and then the signature, are loaded.
  unfoldable pub loaded_then : (VerifyCtx → Ret) → Bytes → Bytes → Option Ret
  unfolding with_pubkey
  loaded_then next pubkeyfile sigfile =
      with_pubkey next (w.signatures sigfile)
        (verify_load_pubkey b64 w.junk verify_init (w.pubkeys pubkeyfile))

  -- None is a command that does not end, or that is ended by `abort`.
  unfoldable pub cli_verify : List Bytes → Option Ret
  unfolding loaded_then
  cli_verify (cmd ∷ pubkeyfile ∷ sigfile ∷ []) = loaded_then (λ ctx. done) pubkeyfile sigfile
  cli_verify _ = some usage

  unfoldable pub cli_check : List Bytes → Option Ret
  unfolding loaded_then check_files
  cli_check (cmd ∷ pubkeyfile ∷ sigfile ∷ name ∷ names) =
      loaded_then (λ ctx. check_files h w.disk ctx done (name ∷ names)) pubkeyfile sigfile
  cli_check _ = some usage
