-- ===== src/Tests/Commands.antt =====
-- Runs of the command line.
use asignify.Base.{
  ◌≡◌, refl, true, false, none, some, List, [], ◌∷◌, Bytes, codes, bytes_eq, if◌then◌else◌,
}
use asignify.Libc.{isdigit, isspace, strcasecmp_eq}
use asignify.Libc.Decimal.{strtoul}
use asignify.Libc.Lines.{getlines}
use asignify.Keys.Load.{loaded, private_data_load}
use asignify.Keys.Public.Load.{no_junk, pubkey_load}
use asignify.Keys.Signature.{public_key}
use asignify.Cli.{usage, failed, done}
use asignify.Cli.Check.{World, check_files, with_signature, with_pubkey, loaded_then, cli_check}
use asignify.Cli.Checked.{CheckedBy, cli_check-CheckedBy}
use asignify.Cli.Generate.{GenerateWorld, output, rounds_of, is_positive, cli_generate}
use asignify.Cli.Generate.Rounds.{cli_generate_unencrypted}
use asignify.Cli.Main.{command_of, success, failure, help_status, status_of, main}
use asignify.Tests.Toys.{toy_blake}
use asignify.Tests.Public.{toy_base64}
use asignify.Tests.Signature.{toy_ed}
use asignify.Tests.Files.{disk}
use asignify.Tests.Verifying.{key_file, sig_file, with_key_run, verified_run, verify_one_run}
use asignify.Tests.Generating.{seed, seed-IsSeed}

abbrev world : World
world = record {
  pubkeys = λ name. if bytes_eq name (codes "key.pub") then some (getlines key_file) else none;
  signatures = λ name. some sig_file;
  disk = disk;
  junk = no_junk;
}

abbrev arguments : List Bytes
arguments = codes "check" ∷ codes "key.pub" ∷ codes "sums" ∷ codes "b" ∷ []

check_run : cli_check toy_ed toy_base64 world arguments ≡ some done
unfolding cli_check loaded_then with_pubkey with_signature check_files bytes_eq
check_run = rw (with_key_run, verified_run, verify_one_run) refl

cli_check-CheckedBy_example : CheckedBy toy_ed toy_base64 world (codes "key.pub") (codes "b" ∷ [])
cli_check-CheckedBy_example =
    cli_check-CheckedBy toy_ed toy_base64 world (codes "check") (codes "key.pub") (codes "sums")
      (codes "b") [] check_run

-- Without a file to check the command is used wrongly.
check_usage : cli_check toy_ed toy_base64 world (codes "check" ∷ codes "key.pub" ∷ []) ≡ some usage
unfolding cli_check
check_usage = refl

abbrev generate_world : GenerateWorld
generate_world = record {
  key_lines = λ name. none;
  opens = λ name. true;
  beyond = [];
  seed = seed;
  password = some (codes "a");
  repeated = some (codes "a");
}

-- 2 ^ 32 rounds are none.
no_rounds : is_positive (rounds_of (codes "4294967296")) ≡ false
unfolding is_positive rounds_of strtoul isdigit isspace
no_rounds = refl

cli_generate_unencrypted_example :
    (text : Bytes) × (public : Bytes) × (cli_generate toy_ed toy_blake toy_base64 generate_world
        (record { ch = b'r'; optarg = codes "4294967296" } ∷ [])
        (codes "k" ∷ codes "k.pub" ∷ [])
      ≡ output done (some text) (some public))
    × (private_data_load toy_blake (getlines text) none
        ≡ loaded (record { data_bytes = seed.sk; id = some seed.id; version = 1 }))
    × (pubkey_load toy_base64 no_junk (getlines public)
        ≡ some (some (public_key toy_ed seed.sk seed.id)))
cli_generate_unencrypted_example =
    cli_generate_unencrypted toy_ed toy_blake toy_base64 no_junk generate_world (codes "4294967296")
      (codes "k") (codes "k.pub") seed-IsSeed no_rounds refl refl

-- The name of a command is compared without case, and its result is the status.
upper_case : main [] (λ c args. some failed) (codes "CHECK" ∷ []) ≡ some failure
unfolding main command_of strcasecmp_eq status_of
upper_case = refl

help_run : main (b'q' ∷ []) (λ c args. none) (codes "help" ∷ codes "sign" ∷ []) ≡ some success
unfolding main command_of strcasecmp_eq help_status
help_run = refl
