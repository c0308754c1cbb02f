-- ===== src/Cli/Sign.antt =====
-- The command `sign` of src/sign.c.

use asignify.Base.{ℕ, ◌+◌, Bool, true, false, Option, none, some, List, [], ◌∷◌}
use asignify.Base.{Bytes, ◌==◌, if◌then◌else◌}
use asignify.Util.Digest.{DigestType, Hashes}
use asignify.Util.Disk.{Disk}
use asignify.Crypto.{Blake2b}
use asignify.Crypto.Base64.{Base64}
use asignify.Crypto.Ed25519.{Ed25519}
use asignify.Verify.Digest.{digest_from_str}
use asignify.Verify.Machine.{is_max}
use asignify.Sign.Files.{Added, added, not_added, add_file}
use asignify.Sign.Context.{
  SignCtx, returns, Outcome, load_privkey, Finished, finished, gave_up, write_signature,
}
use asignify.Cli.{Ret, usage, failed, done, Opt}

-- The files that the command meets, and the password that is typed, or none if it cannot be read.
pub record SignWorld : Type 0 where
  pub key_lines : Bytes → Option (List Bytes)
  pub disk : Disk
  pub opens : Bytes → Bool
  pub password : Option Bytes

-- What is returned, and the file of the signature; none is a file that is not opened.
pub data SignOutput : Type 0 where
  output : Ret → Option Bytes → SignOutput
  crash : SignOutput

-- The kinds of digest, the last one first.
pub record SignOpts : Type 0 where
  pub no_size : Bool
  pub dt_list : List DigestType

sign_digest : DigestType → SignOpts → Option SignOpts
sign_digest dt s = if is_max dt then none else some (record s { dt_list = dt ∷ s.dt_list })

sign_opt : Opt → SignOpts → Option SignOpts
unfolding sign_digest
sign_opt o s =
    if o.ch == b'n'
    then some (record s { no_size = true })
    else if o.ch == b'd'
    then sign_digest (digest_from_str o.optarg) s
    else none

-- The `while` over `getopt_long`; none is a wrong option.
unfoldable pub sign_opts : List Opt → SignOpts → Option SignOpts
unfolding sign_opt
sign_opts [] s = some s
sign_opts (o ∷ opts) s = elim (sign_opt o s) [ none ↦ none | some t ↦ sign_opts opts t ]

unfoldable pub default_digest : List DigestType → List DigestType
default_digest [] = DigestType.blake2 ∷ []
default_digest (dt ∷ dts) = dt ∷ dts

-- The context, what is returned so far, and how many digests were added.
pub record Adding : Type 0 where
  pub ctx : SignCtx
  pub ret : Ret
  pub count : ℕ

after_add : Adding → Bool → Added → Adding
after_add a counts (added files) = record a {
  ctx = record a.ctx { files = files };
  count = if counts then a.count + 1 else a.count;
}
after_add a counts (not_added e) = record a { ctx = record a.ctx { error = some e }; ret = failed }

unfoldable pub add_one : Hashes → Disk → Bool → Adding → Bytes → DigestType → Adding
unfolding after_add
add_one h disk counts a name dt = after_add a counts (add_file h disk a.ctx.files name dt)

-- The `while` over the kinds of digest: one that fails does not end it.
unfoldable pub add_digests : Hashes → Disk → Adding → Bytes → List DigestType → Adding
unfolding add_one
add_digests h disk a name [] = a
add_digests h disk a name (dt ∷ dts) = add_digests h disk (add_one h disk true a name dt) name dts

-- The `for` over the files.
unfoldable pub add_all : Hashes → Disk → Bool → List DigestType → Adding → List Bytes → Adding
unfolding add_digests add_one
add_all h disk no_size dts a [] = a
add_all h disk no_size dts a (name ∷ names) =
    let b = add_digests h disk a name dts in
    add_all h disk no_size dts (if no_size then b else add_one h disk false b name DigestType.size)
      names

unfoldable pub with_finished : Ret → Finished → SignOutput
with_finished ret (finished text) = output ret (some text)
with_finished ret (gave_up e) = output failed none
with_finished ret Finished.crash = crash

module _ {h : Hashes} (ed : Ed25519 h) (blake : Blake2b) (b64 : Base64) (w : SignWorld) where
  unfoldable pub write_added : Bytes → Adding → SignOutput
  unfolding with_finished
  write_added sigfile a =
      if a.count == 0
      then output failed none
      else with_finished a.ret (write_signature ed b64 (w.opens sigfile) a.ctx)

  unfoldable pub sign_loaded : SignOpts → Bytes → List Bytes → Outcome → SignOutput
  unfolding write_added add_all default_digest
  sign_loaded s sigfile names (returns true ctx) = write_added sigfile (
      add_all h w.disk s.no_size (default_digest s.dt_list)
        (record { ctx = ctx; ret = done; count = 0 }) names)
  sign_loaded s sigfile names (returns false ctx) = output failed none
  sign_loaded s sigfile names Outcome.undefined = crash

  unfoldable pub sign_args : Option SignOpts → List Bytes → SignOutput
  unfolding sign_loaded
  sign_args none args = output usage none
  sign_args (some s) (seckeyfile ∷ sigfile ∷ names) = sign_loaded s sigfile names (
      load_privkey blake (record { privk = none; files = []; error = none })
        (w.key_lines seckeyfile) (some w.password))
  sign_args (some s) _ = output usage none

  -- The options, and the arguments behind them.
  unfoldable pub cli_sign : List Opt → List Bytes → SignOutput
  unfolding sign_args sign_opts
  cli_sign opts args = sign_args (sign_opts opts (record { no_size = false; dt_list = [] })) args
