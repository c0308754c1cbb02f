-- ===== src/Tests/Keys.antt =====
-- Runs of the reader and the writer of secret keys.
use asignify.Base.{
  ℕ, ◌≡◌, ◌≢◌, refl, arith, none, some, List, [], ◌∷◌, ◌++◌, Bytes, codes, ◌&&◌, ◌==◌,
}
use asignify.Base.{starts_with}
use asignify.Libc.{isspace, isgraph, isdigit, isxdigit}
use asignify.Libc.Decimal.{strtoul}
use asignify.Util.Hex.{hex2bin}
use asignify.Libc.Lines.{getlines}
use asignify.Util.Errors.{Error}
use asignify.Data.{PrivateKey}
use asignify.Crypto.Xor.{xor_bytes}
use asignify.Crypto.Pbkdf2.{pkcs5_pbkdf2, derived}
use asignify.Keys.Fields.{
  find_field, strncmp, parse_value, set_bytes, set_uint, stored_string, parser_fields,
}
use asignify.Keys.Fields.Search.{first_match, find_field-first_match}
use asignify.Keys.Line.{parse_line, run, initial, step, step_in, close_name, close_value}
use asignify.Keys.Line.Termination.{parse_line_total}
use asignify.Keys.Load.{
  no_key, read_key, parse_lines, is_sane, has, private_data_load, loaded, failed,
}
use asignify.Keys.Load.Checks.{is_sane-read_key}
use asignify.Keys.Write.{privkey_write, wrote, encrypted, encrypt_privkey}
use asignify.Keys.Write.RoundTrip.{IsWritable, some_id, private_data_load-privkey_write}
use asignify.Keys.Write.Encrypted.{
  IsSetting, private_data_load-encrypt_privkey, private_data_load-encrypt_privkey_wrong,
}
use asignify.Tests.Toys.{repeat, length-repeat, repeat-IsBytes, toy_blake}

abbrev blob : Bytes
blob = repeat 64 0

abbrev plain_key : PrivateKey
plain_key = record no_key { version = 1; encrypted_blob = some blob; id = some (repeat 8 5) }

plain_key-IsWritable : IsWritable plain_key blob
plain_key-IsWritable = record {
  version_is = refl;
  blob_is = refl;
  blob_bytes = repeat-IsBytes 64 0 (omega arith);
  blob_len = length-repeat 64 0;
  id_is = some_id (repeat-IsBytes 8 5 (omega arith)) (length-repeat 8 5);
}

one_round-IsSetting : IsSetting 1 (repeat 16 0) (codes "a")
one_round-IsSetting = record {
  some_rounds = omega arith;
  rounds_fit = omega arith;
  salt_bytes = repeat-IsBytes 16 0 (omega arith);
  salt_len = length-repeat 16 0;
  password = (omega arith, omega arith);
}

private_data_load-privkey_write_example :
    (text : Bytes) × (privkey_write plain_key ≡ wrote text)
    × (private_data_load toy_blake (getlines text) none
        ≡ loaded (record { data_bytes = blob; id = some (repeat 8 5); version = 1 }))
private_data_load-privkey_write_example =
    private_data_load-privkey_write toy_blake plain_key blob none plain_key-IsWritable refl

private_data_load-encrypt_privkey_example :
    (sealed : PrivateKey) × (text : Bytes) × (encrypt_privkey toy_blake plain_key blob 1
        (repeat 16 0)
        (some (codes "a"))
      ≡ encrypted sealed)
    × (privkey_write sealed ≡ wrote text)
    × (private_data_load toy_blake (getlines text) (some (some (codes "a")))
        ≡ loaded (record { data_bytes = blob; id = some (repeat 8 5); version = 1 }))
private_data_load-encrypt_privkey_example =
    private_data_load-encrypt_privkey toy_blake plain_key blob 1 (repeat 16 0) (codes "a")
      plain_key-IsWritable one_round-IsSetting

right_key : pkcs5_pbkdf2 toy_blake (codes "a") (repeat 16 0) 64 1 ≡ derived (repeat 64 98)
unfolding pkcs5_pbkdf2
right_key = refl

wrong_key : pkcs5_pbkdf2 toy_blake (codes "b") (repeat 16 0) 64 1 ≡ derived (repeat 64 99)
unfolding pkcs5_pbkdf2
wrong_key = refl

hashes_differ :
    toy_blake.hash [] (xor_bytes (xor_bytes blob (repeat 64 98)) (repeat 64 99))
    ≢ toy_blake.hash [] blob
unfolding xor_bytes
hashes_differ e = cc

private_data_load-encrypt_privkey_wrong_example :
    (sealed : PrivateKey) × (text : Bytes) × (encrypt_privkey toy_blake plain_key blob 1
        (repeat 16 0)
        (some (codes "a"))
      ≡ encrypted sealed)
    × (privkey_write sealed ≡ wrote text)
    × (private_data_load toy_blake (getlines text) (some (some (codes "b")))
        ≡ failed (some Error.password))
private_data_load-encrypt_privkey_wrong_example =
    private_data_load-encrypt_privkey_wrong toy_blake plain_key blob 1 (repeat 16 0) (codes "a")
      (codes "b") plain_key-IsWritable one_round-IsSetting (omega arith, omega arith) (repeat 64 98)
      (repeat 64 99) right_key wrong_key hashes_differ

find_field-first_match_example :
    find_field (codes "salt") ≡ first_match (codes "salt") parser_fields
find_field-first_match_example = find_field-first_match b's' (codes "alt")

parse_line_total_example :
    (fuel : ℕ) × (run fuel (initial (codes "id: zz") no_key)
      ≡ some (parse_line (codes "id: zz") no_key))
parse_line_total_example = parse_line_total (codes "id: zz") no_key

-- A key of one round, without a salt and a checksum.
abbrev weak_lines : List Bytes
weak_lines =
    codes "asignify-private-key\n"
    ∷ codes "version: 1\n"
    ∷ (codes "data: " ++ (repeat 128 b'0' ++ codes "\n"))
    ∷ codes "kdf: pbkdf2-blake2\n"
    ∷ codes "rounds: 1\n"
    ∷ []

abbrev weak_key : PrivateKey
weak_key = record no_key {
  version = 1;
  encrypted_blob = some blob;
  pbkdf_alg = some (0 ∷ codes "bkdf2-blake2");
  rounds = 1;
}

read_key_run : read_key weak_lines ≡ some weak_key
unfolding read_key starts_with parse_lines parse_line run step step_in close_name close_value
    find_field strncmp parse_value set_bytes set_uint stored_string isspace isgraph isdigit isxdigit
    hex2bin strtoul
read_key_run = refl

is_sane-read_key_example : is_sane weak_key ≡ (weak_key.version == 1 && has weak_key.encrypted_blob)
is_sane-read_key_example = is_sane-read_key weak_lines weak_key read_key_run
