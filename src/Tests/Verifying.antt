-- ===== src/Tests/Verifying.antt =====
-- A run of the verify context from the loading of the key to the check of a file.
use asignify.Base.{
  ◌≡◌, refl, arith, true, false, none, some, [], ◌∷◌, ◌++◌, Bytes, All, codes, bytes_eq,
  starts_with,
}
use asignify.Libc.{isgraph, isdigit, isspace, isxdigit}
use asignify.Libc.Decimal.{strtoul}
use asignify.Libc.Lines.{getlines}
use asignify.Util.Errors.{Error}
use asignify.Util.Digest.{DigestType}
use asignify.Util.Disk.{xopen}
use asignify.Util.Hex.{hex_digits, hex2bin}
use asignify.Keys.Public.{public_data_load, strchr, line_rest, pubkey_magic, sig_magic}
use asignify.Keys.Public.Load.{no_junk, pubkey_load, signature_load}
use asignify.Keys.Signature.{check_signature, signed_hash, public_key, signature_of}
use asignify.Sign.Context.{SignCtx, write_signature, finished}
use asignify.Verify.Digest.{digest_from_str, parse_digest}
use asignify.Verify.Files.{get_file, put_file, set_file}
use asignify.Verify.Machine.{run, step, initial, parse_files, enter_file}
use asignify.Verify.Check.{verify_file}
use asignify.Verify.Context.{
  VerifyCtx, verify_init, SigFile, verify_load_pubkey, verify_load_signature, verify_one, Reached,
  at_init, by_call, loads_pubkey, loads_signature,
}
use asignify.Verify.Context.Invariant.{Inv, Reached-Inv, Vouched, verify_one-Vouched}
use asignify.Verify.Context.Signing.{verify_one-write_signature}
use asignify.Tests.Toys.{repeat, length-repeat, repeat-IsBytes, toy_hashes}
use asignify.Tests.Public.{toy_base64}
use asignify.Tests.Signature.{toy_ed}
use asignify.Tests.Files.{
  disk, disk-IsDisk, calls, files_added, text, names_good, add_files_run, file_lines_run,
}

abbrev pub key_file : Bytes
key_file =
    pubkey_magic
    ++ codes "1:0505050505050505:0909090909090909090909090909090909090909090909090909090909090909\n"

abbrev pub with_key : VerifyCtx
with_key = record { pk_chain = public_key toy_ed [] (repeat 8 5) ∷ []; files = none; error = none }

pub with_key_run :
    verify_load_pubkey toy_base64 no_junk verify_init (some (getlines key_file))
    ≡ some (true, with_key)
unfolding verify_load_pubkey verify_init pubkey_load getlines public_data_load strtoul isdigit
    isspace hex2bin strchr line_rest starts_with
with_key_run = refl

abbrev pub signed_text : Bytes
signed_text = codes "SIZE (b) = 3\n"

abbrev pub sig_file : SigFile
sig_file = record {
  text =
      sig_magic
      ++ (codes "1:0505050505050505:"
          ++ (hex_digits (signature_of toy_ed [] (repeat 8 5) signed_text).data_bytes
              ++ (codes "\n" ++ signed_text)));
  stat_ok = true;
  is_reg = true;
  st_size = 166;
}

abbrev pub verified : VerifyCtx
verified = record {
  pk_chain = public_key toy_ed [] (repeat 8 5) ∷ [];
  files = some (record { fname = codes "b"; digests = []; size = 3 } ∷ []);
  error = none;
}

pub verified_run :
    verify_load_signature toy_ed toy_base64 with_key (some sig_file) ≡ some (true, verified)
unfolding verify_load_signature signature_load getlines public_data_load strtoul isdigit isspace
    hex2bin strchr line_rest starts_with hex_digits check_signature signed_hash parse_files run step
    initial digest_from_str parse_digest bytes_eq isgraph isxdigit get_file put_file set_file
    enter_file
verified_run = refl

verified-Reached : Reached toy_ed toy_base64 verified
verified-Reached =
    by_call (by_call at_init (loads_pubkey no_junk (some (getlines key_file)) with_key_run))
      (loads_signature (some sig_file) verified_run)

Reached-Inv_example : Inv toy_ed verified
Reached-Inv_example = Reached-Inv toy_ed toy_base64 verified-Reached

pub verify_one_run : verify_one toy_hashes verified disk (codes "b") ≡ (true, verified)
unfolding verify_one verify_file get_file bytes_eq xopen
verify_one_run = refl

verify_one-Vouched_example : Vouched toy_ed verified disk (codes "b")
verify_one-Vouched_example =
    verify_one-Vouched toy_ed toy_base64 verified verified disk (codes "b") verified-Reached
      verify_one_run

-- A signature of another text is refused, and the error is set.
other_text :
    verify_load_signature toy_ed toy_base64 with_key
      (some (record sig_file { text = sig_file.text ++ codes "SIZE (c) = 4\n" }))
    ≡ some (false, record with_key { error = some Error.verify })
unfolding verify_load_signature signature_load getlines public_data_load strtoul isdigit isspace
    hex2bin strchr line_rest starts_with hex_digits check_signature signed_hash bytes_eq
other_text = refl

abbrev signer : SignCtx
signer = record {
  privk = some (record { data_bytes = []; id = some (repeat 8 5); version = 1 });
  files = files_added;
  error = none;
}

verify_one-write_signature_example :
    (file : Bytes) × (after : VerifyCtx) × (write_signature toy_ed toy_base64 true signer
      ≡ finished file)
    × (verify_load_signature toy_ed toy_base64 with_key
          (some (record { text = file; stat_ok = true; is_reg = true; st_size = 300 }))
        ≡ some (true, after))
    × All (λ c. verify_one toy_hashes after disk c.0 ≡ (true, after)) calls
verify_one-write_signature_example =
    verify_one-write_signature toy_ed toy_base64 disk calls signer [] (repeat 8 5) text
      (record {
        fname = codes "a";
        digests = record { digest_type = DigestType.sha256; digest = repeat 32 38 } ∷ [];
        size = 0;
      })
      (record { fname = codes "b"; digests = []; size = 3 } ∷ []) none none 300 disk-IsDisk
      names_good add_files_run file_lines_run (omega arith) refl refl
      (repeat-IsBytes 8 5 (omega arith)) (length-repeat 8 5) (omega arith)
