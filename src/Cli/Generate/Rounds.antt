-- ===== src/Cli/Generate/Rounds.antt =====
-- A number of rounds that is cut to nothing.
use asignify.Base.{◌≡◌, refl, true, false, none, some, [], ◌∷◌, Bytes}
use asignify.Libc.Lines.{getlines}
use asignify.Util.Digest.{Hashes}
use asignify.Crypto.{Blake2b}
use asignify.Crypto.Base64.{Base64}
use asignify.Crypto.Ed25519.{Ed25519}
use asignify.Keys.Load.{loaded, private_data_load}
use asignify.Keys.Public.Load.{Junk, pubkey_load}
use asignify.Keys.Signature.{public_key}
use asignify.Generate.Pairs.{IsSeed, generate_plain}
use asignify.Cli.{done}
use asignify.Cli.Generate.{
  GenerateWorld, output, rounds_of, is_positive, generate_opt, generate_opts, output_pair, ret_of,
  callback, generate_with, generate_args, generate_parsed, cli_generate,
}

-- If the number behind `-r`, cut to an `int`, is not positive, then the command asks for no password,
-- succeeds, and writes a secret key that is loaded without a password, with its public key.
pub cli_generate_unencrypted :
    {h : Hashes} (ed : Ed25519 h) (blake : Blake2b) (b64 : Base64) (junk : Junk) (w : GenerateWorld)
    (number seckeyfile pubkeyfile : Bytes)
    → IsSeed ed w.seed
    → is_positive (rounds_of number) ≡ false
    → w.opens seckeyfile ≡ true
    → w.opens pubkeyfile ≡ true
    → (text : Bytes) × (public : Bytes) × (cli_generate ed blake b64 w
          (record { ch = b'r'; optarg = number } ∷ [])
          (seckeyfile ∷ pubkeyfile ∷ [])
        ≡ output done (some text) (some public))
      × (private_data_load blake (getlines text) none
          ≡ loaded (record { data_bytes = w.seed.sk; id = some w.seed.id; version = 1 }))
      × (pubkey_load b64 junk (getlines public) ≡ some (some (public_key ed w.seed.sk w.seed.id)))
unfolding cli_generate generate_parsed generate_opts generate_opt generate_args generate_with
    callback output_pair ret_of
cli_generate_unencrypted ed blake b64 junk w number seckeyfile pubkeyfile s p o1 o2 =
    let (text, public, makes, loads, key, again) =
      generate_plain ed blake b64 junk w.seed s 0 none in
    (
      text,
      public,
      rw
          (
            p, cli_generate, generate_parsed, generate_args, generate_with, o1, o2, callback, makes,
            output_pair, ret_of,
          )
          refl,
      loads,
      key,
    )
