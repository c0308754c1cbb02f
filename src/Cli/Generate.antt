-- ===== src/Cli/Generate.antt =====
-- The command `generate` of src/generate.c.
pub mod Rounds
use asignify.Base.{
  ℕ, ◌-◌, ◌%◌, ◌^◌, Bool, true, false, not, ◌&&◌, Option, none, some, List, [], ◌∷◌, ◌++◌,
}
use asignify.Base.{Bytes, codes, ltb, leb, ◌==◌, if◌then◌else◌, length, take, bytes_eq}
use asignify.Libc.Decimal.{strtoul}
use asignify.Util.Digest.{Hashes}
use asignify.Crypto.{Blake2b}
use asignify.Crypto.Base64.{Base64}
use asignify.Crypto.Ed25519.{Ed25519}
use asignify.Keys.Fields.{ulong_max}
use asignify.Keys.Load.{PasswordCb, pbkdf_minrounds, has}
use asignify.Sign.Lines.{path_max}
use asignify.Generate.{
  Seed, Generated, generated, generate, Made, made, generate_pubkey, privkey_from_ssh,
}
use asignify.Cli.{Ret, usage, failed, done, Opt}

-- The files and the memory that the command meets, the random bytes, and the two passwords that are
-- typed, each none if it cannot be read.
pub record GenerateWorld : Type 0 where
  pub key_lines : Bytes → Option (List Bytes)
  pub opens : Bytes → Bool
  pub beyond : Bytes
  pub seed : Seed
  pub password : Option Bytes
  pub repeated : Option Bytes

-- What is returned, and what stands in the files for the secret and the public key; none is a file
-- that the command did not open for writing.
pub data Output : Type 0 where
  output : Ret → Option Bytes → Option Bytes → Output
  crash : Output

-- The function reads up to `len` bytes, and is the callback with 1014 bytes of room; none is -1.
unfoldable pub read_password_verify : ℕ → Option Bytes → Option Bytes → Option Bytes
read_password_verify len (some password) (some repeated) =
    if length password == length repeated && leb (length password) len
    then if bytes_eq password repeated then some password else none
    else none
read_password_verify len _ _ = none

-- `rounds` is an `int`, here as the 32 bits of it.
pub record GenerateOpts : Type 0 where
  pub rounds : ℕ
  pub pubkey_only : Bool
  pub ssh_key : Option Bytes

abbrev pub default_opts : GenerateOpts
default_opts = record { rounds = 100000; pubkey_only = false; ssh_key = none }

-- `rounds > 0`
unfoldable pub is_positive : ℕ → Bool
is_positive rounds = not (rounds == 0) && ltb rounds (2 ^ 31)

-- The number of `-r`, cut to an `int`.
unfoldable pub rounds_of : Bytes → ℕ
rounds_of text = let n = strtoul ulong_max text in n.value % 2 ^ 32

generate_opt : Opt → GenerateOpts → Option GenerateOpts
unfolding rounds_of
generate_opt o s =
    if o.ch == b'n'
    then some (record s { rounds = 0 })
    else if o.ch == b'p'
    then some (record s { pubkey_only = true })
    else if o.ch == b'r'
    then some (record s { rounds = rounds_of o.optarg })
    else if o.ch == b's'
    then some (record s { ssh_key = some o.optarg })
    else none

-- The `while` over `getopt_long`; none is a wrong option.
unfoldable pub generate_opts : List Opt → GenerateOpts → Option GenerateOpts
unfolding generate_opt
generate_opts [] s = some s
generate_opts (o ∷ opts) s = elim (generate_opt o s) [ none ↦ none | some t ↦ generate_opts opts t ]

ret_of : Bool → Ret
ret_of true = done
ret_of false = failed

output_pair : Generated → Output
unfolding ret_of
output_pair (generated b priv public) = output (ret_of b) priv public
output_pair Generated.crash = crash

output_public : Made → Output
unfolding ret_of
output_public (made b public) = output (ret_of b) none public
output_public Made.crash = crash

output_secret : Made → Output
unfolding ret_of
output_secret (made b priv) = output (ret_of b) priv none
output_secret Made.crash = crash

module _ {h : Hashes} (ed : Ed25519 h) (blake : Blake2b) (b64 : Base64) (w : GenerateWorld) where
  -- The callback, or a null pointer.
  callback : Bool → PasswordCb
  unfolding read_password_verify
  callback asks = if asks then some (read_password_verify 1014 w.password w.repeated) else none

  abbrev passed_rounds : ℕ → ℕ
  passed_rounds rounds = if is_positive rounds then rounds else 0

  generate_with : GenerateOpts → Bytes → Bytes → Output
  unfolding output_pair output_public output_secret callback is_positive
  generate_with s seckeyfile pubkeyfile =
      let asks = callback (is_positive s.rounds) in
      if s.pubkey_only
      then output_public
          (generate_pubkey blake b64 (w.key_lines seckeyfile) (w.opens pubkeyfile) (callback true))
      else elim s.ssh_key [
        | none ↦ output_pair (
            generate ed blake b64 w.seed 1 (passed_rounds s.rounds) asks (w.opens seckeyfile)
              (w.opens pubkeyfile))
        | some sshkeyfile ↦ output_secret (
            privkey_from_ssh blake b64 w.beyond (w.key_lines sshkeyfile) 1 (passed_rounds s.rounds)
              w.seed.salt (w.opens seckeyfile) asks)
      ]

  -- The default name is cut to the size of its buffer.
  generate_args : GenerateOpts → List Bytes → Output
  unfolding generate_with
  generate_args s (seckeyfile ∷ []) =
      generate_with s seckeyfile (take (path_max - 1) (seckeyfile ++ codes ".pub"))
  generate_args s (seckeyfile ∷ pubkeyfile ∷ []) = generate_with s seckeyfile pubkeyfile
  generate_args s _ = output usage none none

  generate_parsed : Option GenerateOpts → List Bytes → Output
  unfolding generate_args
  generate_parsed none args = output usage none none
  generate_parsed (some s) args =
      if s.pubkey_only && has s.ssh_key then output failed none none else generate_args s args

  -- The options, and the arguments behind them.
  unfoldable pub cli_generate : List Opt → List Bytes → Output
  unfolding generate_parsed generate_opts
  cli_generate opts args = generate_parsed (generate_opts opts default_opts) args
