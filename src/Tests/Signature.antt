-- ===== src/Tests/Signature.antt =====
-- Runs of the signing and the checking of a text.
use asignify.Base.{
  arith, ◌<◌, All-append, All-take, ◌≡◌, refl, true, false, none, some, [], ◌++◌, codes, length,
  take, drop, bytes_eq, bytes_eq_refl,
}
use asignify.Data.{PublicData}
use asignify.Crypto.Ed25519.{Ed25519, sha512_of}
use asignify.Keys.Signature.{
  uint_bytes, private_data_sign, signed, check_signature, public_key, signature_of,
  check_signature-private_data_sign, check_signature_same_id,
}
use asignify.Tests.Toys.{repeat, length-repeat, repeat-IsBytes, toy_hashes}

-- A signature whose second half is a part of the hash that it is checked against.
abbrev pub toy_ed : Ed25519 toy_hashes
toy_ed = record {
  sign = λ sk m. repeat 32 1 ++ take 32 (sha512_of toy_hashes (repeat 32 1 ++ (repeat 32 9 ++ m)));
  verify = λ sig hash pk. bytes_eq (drop 32 sig) (take 32 hash);
  public_of = λ sk. repeat 32 9;
  length-sign = λ sk m. refl;
  sign-IsBytes = λ sk m.
      All-append (λ b. b < 256) (repeat 32 1)
        (take 32 (sha512_of toy_hashes (repeat 32 1 ++ (repeat 32 9 ++ m))))
        (repeat-IsBytes 32 1 (omega arith))
        (All-take (λ b. b < 256) 32 (sha512_of toy_hashes (repeat 32 1 ++ (repeat 32 9 ++ m)))
          (toy_hashes.sha512.final-IsBytes
            (toy_hashes.sha512.update toy_hashes.sha512.init (repeat 32 1 ++ (repeat 32 9 ++ m)))));
  length-public_of = λ sk. refl;
  verify-sign =
      λ sk m. bytes_eq_refl (take 32 (sha512_of toy_hashes (repeat 32 1 ++ (repeat 32 9 ++ m))));
}

abbrev toy_sig : PublicData
toy_sig = record {
  data_bytes = toy_ed.sign [] (uint_bytes 1 ++ codes "text");
  id = repeat 8 5;
  aux = none;
  version = 1;
}

check_signature-private_data_sign_example :
    (private_data_sign toy_ed
        (record { data_bytes = []; id = some (repeat 8 5); version = 1 })
        (repeat 64 0 ++ (uint_bytes 1 ++ codes "text"))
      ≡ signed (signature_of toy_ed [] (repeat 8 5) (codes "text")))
    × (check_signature toy_ed
          (public_key toy_ed [] (repeat 8 5))
          (signature_of toy_ed [] (repeat 8 5) (codes "text"))
          (codes "text")
        ≡ true)
check_signature-private_data_sign_example =
    check_signature-private_data_sign toy_ed [] (repeat 8 5) (repeat 64 0) (codes "text")
      (length-repeat 64 0)

check_signature_run :
    check_signature toy_ed (public_key toy_ed [] (repeat 8 5)) toy_sig (codes "text") ≡ true
unfolding check_signature bytes_eq
check_signature_run = refl

check_signature_other_text :
    check_signature toy_ed (public_key toy_ed [] (repeat 8 5)) toy_sig (codes "tent") ≡ false
unfolding check_signature bytes_eq
check_signature_other_text = refl

check_signature_same_id_example :
    (1 ≡ toy_sig.version)
    × (repeat 8 5 ≡ toy_sig.id)
    × (length (repeat 32 9) ≡ 32)
    × (length toy_sig.data_bytes ≡ 64)
check_signature_same_id_example =
    check_signature_same_id toy_ed (public_key toy_ed [] (repeat 8 5)) toy_sig (codes "text")
      check_signature_run
