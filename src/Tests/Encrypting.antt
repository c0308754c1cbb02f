-- ===== src/Tests/Encrypting.antt =====
-- A run of the encryption and the decryption of a file.
use asignify.Base.{
  ℕ, ◌≡◌, ◌≢◌, refl, sym, ap, ap₂, ◌∙◌, append-nil, if◌then◌else◌, ◌==◌, arith, true, false, none,
  some, List, [], ◌∷◌, ◌++◌, Bytes, codes, bytes_eq, starts_with,
}
use asignify.Libc.{isdigit, isspace}
use asignify.Libc.Decimal.{strtoul}
use asignify.Util.Errors.{Error}
use asignify.Util.Digest.{digest_reads}
use asignify.Util.Digest.Chunks.{concat}
use asignify.Util.Hex.{hex_digits, hex2bin}
use asignify.Data.{PublicData, PrivateData}
use asignify.Crypto.Box.{Box}
use asignify.Crypto.Chacha.{Chacha, outputs}
use asignify.Keys.Public.{public_data_load, strchr, line_rest}
use asignify.Keys.Signature.{public_key}
use asignify.Encrypt.{EncryptCtx, same_keypair, crypted, gave_up}
use asignify.Encrypt.Crypt.{Streams, Random, crypt_file}
use asignify.Encrypt.Decrypt.{
  EncryptedFile, decrypt_file, decrypt_loop, rounds_of_version, wrong_key, encrypted_hash,
  signed_part,
}
use asignify.Encrypt.RoundTrip.{Reading, on_disk, decrypt_file-crypt_file}
use asignify.Encrypt.Safety.{Authentic, decrypt_file-Authentic}
use asignify.Tests.Toys.{repeat, length-repeat, repeat-IsBytes, toy_hashes}
use asignify.Tests.Public.{toy_base64}
use asignify.Tests.Signature.{toy_ed}

-- A box that is open.
abbrev pub toy_box : Box toy_ed
toy_box = record {
  sk_to_curve = λ s. s;
  pk_to_curve = λ p. p;
  box = λ m nonce pk sk. m;
  box_open = λ m nonce pk sk. some m;
  length-box = λ m nonce pk sk. refl;
  box-IsBytes = λ m nonce pk sk h. h;
  box_open-box = λ m nonce a b. refl;
}

-- The stream exchanges two bytes.
abbrev pub swap_byte : ℕ → ℕ
swap_byte x = if x == b'a' then b'b' else if x == b'b' then b'a' else x

abbrev pub swap : Bytes → Bytes
swap [] = []
swap (x ∷ m) = swap_byte x ∷ swap m

pub swap_byte_twice : (x : ℕ) → swap_byte (swap_byte x) ≡ x
swap_byte_twice x = ground arith

pub swap_twice : (m : Bytes) → swap (swap m) ≡ m
swap_twice [] = refl
swap_twice (x ∷ m) = ap₂ (λ y n. y ∷ n) (swap_byte_twice x) (swap_twice m)

pub swap-append : (m n : Bytes) → swap (m ++ n) ≡ swap m ++ swap n
swap-append [] n = refl
swap-append (x ∷ m) n = ap (◌∷◌ (swap_byte x)) (swap-append m n)

-- A call of `update` gives what the one before it was given, and `final` the last.
abbrev pub delayed : Bytes → Bytes → Bytes × Bytes
delayed held m = (swap held, m)

pub outputs-delayed :
    (held : Bytes) (ms : List Bytes) → outputs delayed swap held ms ≡ swap (held ++ concat ms)
outputs-delayed held [] = ap swap (sym (append-nil held))
outputs-delayed held (m ∷ ms) =
    ap (λ s. swap held ++ s) (outputs-delayed m ms) ∙ sym (swap-append held (m ++ concat ms))

abbrev pub toy_chacha : Chacha
toy_chacha = record {
  State = Bytes;
  init = λ key iv rounds. [];
  update = delayed;
  final = swap;
  stream = λ key iv rounds m. swap m;
  outputs-stream = λ key iv rounds ms. outputs-delayed [] ms;
  stream_twice = λ key iv rounds m. swap_twice m;
}

abbrev random : Random
random = record { nonce = repeat 24 1; iv = repeat 8 2; key = repeat 32 3 }

abbrev io : Streams
io = record { reads = codes "ab\n" ∷ codes "ac" ∷ []; fits = λ n. true; seeks = true }

-- The whole in one piece, and byte by byte.
abbrev pub one_piece : Bytes → List Bytes
one_piece s = s ∷ []

abbrev pub pieces : Bytes → List Bytes
pieces [] = []
pieces (x ∷ s) = (x ∷ []) ∷ pieces s

concat-pieces : (s : Bytes) → concat (pieces s) ≡ s
concat-pieces [] = refl
concat-pieces (x ∷ s) = ap (◌∷◌ x) (concat-pieces s)

at_once : Reading
at_once = record { cut = one_piece; concat-cut = append-nil }

bytewise : Reading
bytewise = record { cut = pieces; concat-cut = concat-pieces }

abbrev sends : EncryptCtx
sends = record {
  privk = some (record { data_bytes = []; id = some (repeat 8 5); version = 1 });
  pubk = some (public_key toy_ed [] (repeat 8 6));
  error = none;
}

abbrev receives : EncryptCtx
receives = record {
  privk = some (record { data_bytes = []; id = some (repeat 8 6); version = 1 });
  pubk = some (public_key toy_ed [] (repeat 8 5));
  error = none;
}

other_ids : repeat 8 5 ≢ repeat 8 6
other_ids e = cc

decrypt_file-crypt_file_example :
    (file : Bytes) × (crypt_file toy_ed toy_box toy_chacha toy_base64 sends 1 random true
        (some io)
        (some (record { is_reg = true }))
      ≡ crypted file)
    × (decrypt_file toy_ed toy_box toy_chacha toy_base64 receives
          (λ n. true)
          true
          (some (on_disk at_once bytewise file))
        ≡ crypted (codes "ab\nac"))
decrypt_file-crypt_file_example =
    decrypt_file-crypt_file toy_ed toy_box toy_chacha toy_base64 [] [] (repeat 8 5) (repeat 8 6)
      random true io (λ n. true) at_once bytewise none none (λ n. refl) refl (λ n. refl)
      (length-repeat 24 1) (length-repeat 8 2) (length-repeat 32 3)
      (repeat-IsBytes 24 1 (omega arith)) (repeat-IsBytes 8 2 (omega arith))
      (repeat-IsBytes 32 3 (omega arith)) (length-repeat 8 6) (repeat-IsBytes 8 6 (omega arith))
      other_ids

-- The same pair of keys is refused, with the input and the output untouched.
crypt_file_same_pair :
    crypt_file toy_ed toy_box toy_chacha toy_base64
      (record sends { pubk = some (public_key toy_ed [] (repeat 8 5)) })
      1
      random
      true
      none
      none
    ≡ gave_up Error.wrong_keypair
unfolding crypt_file bytes_eq
crypt_file_same_pair = refl

abbrev stored : EncryptedFile
stored = record {
  is_reg = true;
  first_line = some (
      codes "asignify-encrypted:108:0606060606060606:"
      ++ (hex_digits session ++ (codes ":" ++ (hex_digits (toy_ed.sign [] signed) ++ codes "\n"))));
  reads = codes "ba\nb" ∷ codes "c" ∷ [];
  seeks = true;
  reads_again = codes "ba\nbc" ∷ [];
}
  where
    session : Bytes
    session = repeat 24 1 ++ (repeat 32 0 ++ (repeat 8 2 ++ repeat 32 3))

    signed : Bytes
    signed = signed_part toy_hashes session (codes "ba\nbc" ∷ [])

stored_run :
    decrypt_file toy_ed toy_box toy_chacha toy_base64 receives (λ n. true) true (some stored)
    ≡ crypted (codes "ab\nac")
unfolding decrypt_file public_data_load strtoul isdigit isspace hex2bin strchr line_rest starts_with
    hex_digits rounds_of_version wrong_key bytes_eq encrypted_hash signed_part decrypt_loop
    digest_reads
stored_run = refl

decrypt_file-Authentic_example :
    (privk : PrivateData) × (pubk : PublicData) × (i : Bytes) × (file : EncryptedFile)
    × (receives.privk ≡ some privk)
    × (receives.pubk ≡ some pubk)
    × (privk.id ≡ some i)
    × (some stored ≡ some file)
    × (same_keypair i pubk ≡ false)
    × Authentic toy_ed toy_box toy_chacha toy_base64 privk i pubk file (codes "ab\nac")
decrypt_file-Authentic_example =
    decrypt_file-Authentic toy_ed toy_box toy_chacha toy_base64 receives (λ n. true) true
      (some stored) (codes "ab\nac") stored_run

-- What the second pass reads is what is decrypted, though it was not verified.
other_second_pass :
    decrypt_file toy_ed toy_box toy_chacha toy_base64 receives
      (λ n. true)
      true
      (some (record stored { reads_again = codes "bad" ∷ [] }))
    ≡ crypted (codes "abd")
unfolding decrypt_file public_data_load strtoul isdigit isspace hex2bin strchr line_rest starts_with
    hex_digits rounds_of_version wrong_key bytes_eq encrypted_hash signed_part decrypt_loop
    digest_reads
other_second_pass = refl

-- What the first pass reads is verified.
other_first_pass :
    decrypt_file toy_ed toy_box toy_chacha toy_base64 receives
      (λ n. true)
      true
      (some (record stored { reads = codes "bad" ∷ [] }))
    ≡ gave_up Error.verify
unfolding decrypt_file public_data_load strtoul isdigit isspace hex2bin strchr line_rest starts_with
    hex_digits rounds_of_version wrong_key bytes_eq encrypted_hash signed_part decrypt_loop
    digest_reads
other_first_pass = refl
