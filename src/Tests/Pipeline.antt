-- ===== src/Tests/Pipeline.antt =====
-- A run of the command `sign`, and of `check` behind it.
use asignify.Base.{
  ◌≡◌, refl, arith, true, false, some, List, [], ◌∷◌, ◌++◌, Bytes, All, codes, bytes_eq, c_string,
  starts_with,
}
use asignify.Libc.{isgraph, isspace, isdigit, isxdigit}
use asignify.Libc.Decimal.{decimal, strtoul}
use asignify.Libc.Lines.{getlines}
use asignify.Util.Digest.{DigestType, digest_fd, digest_name}
use asignify.Util.Disk.{xopen}
use asignify.Util.Hex.{bin2hex, hex2bin}
use asignify.Data.{File}
use asignify.Keys.Fields.{find_field, strncmp, parse_value, set_bytes, set_uint, stored_string}
use asignify.Keys.Line.{parse_line, run, step, step_in, close_name, close_value}
use asignify.Keys.Load.{
  read_key, parse_lines, is_sane, names_pbkdf, unpack_sane, unpack_key, pkey_to_private_data,
  private_data_load, loaded,
}
use asignify.Keys.Public.{public_data_load, strchr, line_rest}
use asignify.Keys.Public.Load.{no_junk, pubkey_load}
use asignify.Keys.Signature.{public_key}
use asignify.Sign.Files.{added, add_files, add_file}
use asignify.Sign.Lines.{ok, file_lines, file_line, digest_line, print_line}
use asignify.Verify.Digest.{digest_from_str}
use asignify.Verify.Machine.Reach.{IsName}
use asignify.Cli.{done, Opt}
use asignify.Cli.Check.{cli_check}
use asignify.Cli.Sign.{SignWorld, SignOpts, output, sign_opts, default_digest, cli_sign}
use asignify.Cli.Added.{name_calls, calls_of}
use asignify.Cli.SignCheck.{cli_check-cli_sign}
use asignify.Tests.Toys.{repeat, length-repeat, repeat-IsBytes, toy_hashes, toy_blake}
use asignify.Tests.Public.{toy_base64}
use asignify.Tests.Signature.{toy_ed}
use asignify.Tests.Files.{disk, disk-IsDisk}
use asignify.Tests.Verifying.{key_file}

abbrev seckey_lines : List Bytes
seckey_lines =
    codes "asignify-private-key\n"
    ∷ codes "version: 1\n"
    ∷ (codes "data: " ++ (repeat 128 b'0' ++ codes "\n"))
    ∷ codes "id: 0505050505050505\n"
    ∷ []

seckey_run :
    private_data_load toy_blake seckey_lines (some (some (codes "a")))
    ≡ loaded (record { data_bytes = repeat 64 0; id = some (repeat 8 5); version = 1 })
unfolding private_data_load unpack_sane unpack_key is_sane names_pbkdf pkey_to_private_data read_key
    starts_with parse_lines parse_line run step step_in close_name close_value find_field strncmp
    parse_value set_bytes set_uint stored_string isspace isgraph isdigit isxdigit hex2bin strtoul
seckey_run = refl

pubkey_run :
    pubkey_load toy_base64 no_junk (getlines key_file)
    ≡ some (some (public_key toy_ed (repeat 64 0) (repeat 8 5)))
unfolding pubkey_load getlines public_data_load strtoul isdigit isspace hex2bin strchr line_rest
    starts_with
pubkey_run = refl

abbrev sign_world : SignWorld
sign_world = record {
  key_lines = λ name. some seckey_lines;
  disk = disk;
  opens = λ name. true;
  password = some (codes "a");
}

abbrev options : List Opt
options = record { ch = b'd'; optarg = codes "sha256" } ∷ []

abbrev parsed : SignOpts
parsed = record { no_size = false; dt_list = DigestType.sha256 ∷ [] }

options_run : sign_opts options (record { no_size = false; dt_list = [] }) ≡ some parsed
unfolding sign_opts digest_from_str bytes_eq
options_run = refl

abbrev signed_files : List File
signed_files =
    record {
      fname = codes "b";
      digests = record { digest_type = DigestType.sha256; digest = repeat 32 38 } ∷ [];
      size = 0;
    }
    ∷ record { fname = codes "b"; digests = []; size = 3 }
    ∷ []

adds_run :
    add_files toy_hashes disk [] (calls_of false (DigestType.sha256 ∷ []) (codes "b" ∷ []))
    ≡ added signed_files
unfolding add_files add_file xopen digest_fd calls_of name_calls
adds_run = refl

abbrev lines_text : Bytes
lines_text =
    codes "SHA256 (b) = 2626262626262626262626262626262626262626262626262626262626262626\n"
    ++ codes "SIZE (b) = 3\n"

lines_run : file_lines signed_files ≡ ok lines_text
unfolding file_lines file_line digest_line print_line bin2hex decimal digest_name c_string
lines_run = refl

b-IsName : All IsName (codes "b" ∷ [])
unfolding isgraph
b-IsName = (((refl, tt), λ e. cc), tt)

cli_check-cli_sign_example :
    (file : Bytes) × (cli_sign toy_ed toy_blake toy_base64 sign_world options
        (codes "key" ∷ codes "sums" ∷ codes "b" ∷ [])
      ≡ output done (some file))
    × (cli_check toy_ed toy_base64
          (record {
            pubkeys = λ name. some (getlines key_file);
            signatures =
                λ n. some (record { text = file; stat_ok = true; is_reg = true; st_size = 300 });
            disk = disk;
            junk = no_junk;
          })
          (codes "check" ∷ codes "key.pub" ∷ codes "sums" ∷ codes "b" ∷ [])
        ≡ some done)
unfolding default_digest
cli_check-cli_sign_example =
    cli_check-cli_sign toy_ed toy_blake toy_base64 sign_world options parsed DigestType.sha256 []
      (codes "check") (codes "key") (codes "sums") (codes "key.pub") (codes "b") lines_text []
      seckey_lines (getlines key_file) (repeat 64 0) (repeat 8 5)
      (record {
        fname = codes "b";
        digests = record { digest_type = DigestType.sha256; digest = repeat 32 38 } ∷ [];
        size = 0;
      })
      (record { fname = codes "b"; digests = []; size = 3 } ∷ []) (λ name. some (getlines key_file))
      no_junk 300 disk-IsDisk options_run refl b-IsName refl seckey_run
      (repeat-IsBytes 8 5 (omega arith)) (length-repeat 8 5) adds_run lines_run (omega arith) refl
      refl pubkey_run (omega arith)
