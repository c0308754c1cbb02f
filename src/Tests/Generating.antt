-- ===== src/Tests/Generating.antt =====
-- Runs of the generation of keys.
use asignify.Base.{
  ◌≡◌, refl, arith, true, false, none, some, List, [], ◌∷◌, ◌++◌, Bytes, All, codes, length,
  starts_with,
}
use asignify.Libc.Lines.{getlines}
use asignify.Util.Hex.{hex_digits, hex2bin}
use asignify.Util.Digest.Chunks.{concat}
use asignify.Keys.Load.{loaded, private_data_load}
use asignify.Keys.Public.Load.{no_junk, pubkey_load}
use asignify.Keys.Signature.{public_key}
use asignify.Keys.Ssh.Private.{ssh_privkey_load, ssh_privkey_end}
use asignify.Keys.Ssh.Private.RoundTrip.{SshKey, IsSshKey, openssh_key, ssh_privkey_load_openssh}
use asignify.Keys.Write.Encrypted.{IsSetting}
use asignify.Generate.{Seed, generated, generate, made, generate_pubkey, privkey_from_ssh}
use asignify.Generate.Pairs.{IsSeed, generate-password}
use asignify.Generate.Ssh.{ssh_file, private_data_load-privkey_from_ssh}
use asignify.Tests.Toys.{repeat, length-repeat, repeat-IsBytes, toy_blake}
use asignify.Tests.Public.{toy_base64}
use asignify.Tests.Signature.{toy_ed}

abbrev pub seed : Seed
seed = record { id = repeat 8 5; sk = repeat 64 9; salt = repeat 16 0 }

pub seed-IsSeed : IsSeed toy_ed seed
seed-IsSeed = record {
  id_len = length-repeat 8 5;
  id_bytes = repeat-IsBytes 8 5 (omega arith);
  sk_len = length-repeat 64 9;
  sk_bytes = repeat-IsBytes 64 9 (omega arith);
  pair = refl;
}

setting : IsSetting 10000 (repeat 16 0) (codes "a")
setting = record {
  some_rounds = omega arith;
  rounds_fit = omega arith;
  salt_bytes = repeat-IsBytes 16 0 (omega arith);
  salt_len = length-repeat 16 0;
  password = (omega arith, omega arith);
}

generate-password_example :
    (text : Bytes) × (public : Bytes) × (generate toy_ed toy_blake toy_base64 seed 1 10000
        (some (some (codes "a")))
        true
        true
      ≡ generated true (some text) (some public))
    × (private_data_load toy_blake (getlines text) (some (some (codes "a")))
        ≡ loaded (record { data_bytes = repeat 64 9; id = some (repeat 8 5); version = 1 }))
    × (pubkey_load toy_base64 no_junk (getlines public)
        ≡ some (some (public_key toy_ed (repeat 64 9) (repeat 8 5))))
    × (generate_pubkey toy_blake toy_base64 (some (getlines text)) true (some (some (codes "a")))
        ≡ made true (some public))
generate-password_example =
    generate-password toy_ed toy_blake toy_base64 no_junk seed seed-IsSeed 10000 (codes "a")
      (omega arith) setting

abbrev ssh_key : SshKey
ssh_key = record {
  pk = repeat 32 9;
  sk = repeat 64 9;
  options = repeat 12 0;
  numbers = repeat 12 1;
  comment = codes "me";
}

ssh_key-IsSshKey : IsSshKey ssh_key
ssh_key-IsSshKey = record {
  pk_len = length-repeat 32 9;
  sk_len = length-repeat 64 9;
  options_len = length-repeat 12 0;
  numbers_len = length-repeat 12 1;
}

abbrev ssh_text : List Bytes
ssh_text = (hex_digits (openssh_key ssh_key) ++ codes "\n") ∷ []

ssh_text_decoded :
    toy_base64.pton (length (concat ssh_text)) (concat ssh_text ++ []) ≡ some (openssh_key ssh_key)
unfolding hex_digits hex2bin
ssh_text_decoded = refl

ssh_text_inside : All (λ l. starts_with ssh_privkey_end l ≡ false) ssh_text
unfolding starts_with hex_digits
ssh_text_inside = (refl, tt)

ssh_privkey_load_openssh_example :
    ssh_privkey_load toy_base64 [] (ssh_file (codes "\n") (codes "\n") ssh_text [])
    ≡ loaded (record { data_bytes = repeat 64 9; id = some []; version = 1 })
ssh_privkey_load_openssh_example =
    ssh_privkey_load_openssh toy_base64 [] (codes "\n") (codes "\n") ssh_text [] ssh_key
      ssh_key-IsSshKey (λ e. cc) ssh_text_inside ssh_text_decoded

private_data_load-privkey_from_ssh_example :
    (file : Bytes) × (privkey_from_ssh toy_blake toy_base64 []
        (some (ssh_file (codes "\n") (codes "\n") ssh_text []))
        1
        10000
        (repeat 16 0)
        true
        (some (some (codes "a")))
      ≡ made true (some file))
    × (private_data_load toy_blake (getlines file) (some (some (codes "a")))
        ≡ loaded (record { data_bytes = repeat 64 9; id = none; version = 1 }))
private_data_load-privkey_from_ssh_example =
    private_data_load-privkey_from_ssh toy_blake toy_base64 [] (codes "\n") (codes "\n") ssh_text []
      ssh_key ssh_key-IsSshKey (repeat-IsBytes 64 9 (omega arith)) (λ e. cc) ssh_text_inside
      ssh_text_decoded 10000 (repeat 16 0) (codes "a") setting
