-- ===== src/Tests/Toys.antt =====
-- Functions that stand for the hash functions in the runs: they sum the bytes up.
use asignify.Base.{
  ℕ, zero, suc, ◌+◌, ◌%◌, ◌<◌, ◌≡◌, refl, arith, [], ◌∷◌, ◌++◌, Bytes, IsBytes, length,
}
use asignify.Crypto.{Blake2b}
use asignify.Util.Digest.{HashAlgorithm, Hashes}

abbrev pub repeat : ℕ → ℕ → Bytes
repeat zero x = []
repeat (suc n) x = x ∷ repeat n x

pub length-repeat : (n x : ℕ) → length (repeat n x) ≡ n
length-repeat zero x = refl
length-repeat (suc n) x = omega (arith, length-repeat n x)

pub repeat-IsBytes : (n x : ℕ) → x < 256 → IsBytes (repeat n x)
repeat-IsBytes zero x h = tt
repeat-IsBytes (suc n) x h = (h, repeat-IsBytes n x h)

abbrev pub sum_of : ℕ → Bytes → ℕ
sum_of s [] = s
sum_of s (x ∷ xs) = sum_of (s + x) xs

pub sum_of-append : (s : ℕ) (a b : Bytes) → sum_of s (a ++ b) ≡ sum_of (sum_of s a) b
sum_of-append s [] b = refl
sum_of-append s (x ∷ a) b = sum_of-append (s + x) a b

abbrev pub toy_blake : Blake2b
toy_blake = record {
  hash = λ key input. repeat 64 (sum_of (sum_of 0 key) input % 256);
  length-hash = λ key input. length-repeat 64 (sum_of (sum_of 0 key) input % 256);
  hash-IsBytes = λ key input. repeat-IsBytes 64 (sum_of (sum_of 0 key) input % 256) (omega arith);
}

abbrev toy_algorithm : ℕ → HashAlgorithm
toy_algorithm n = record {
  State = ℕ;
  init = 0;
  update = sum_of;
  final = λ s. repeat n (s % 256);
  final_len = n;
  update-append = sum_of-append;
  update-nil = λ s. refl;
  length-final = λ s. length-repeat n (s % 256);
  final-IsBytes = λ s. repeat-IsBytes n (s % 256) (omega arith);
}

abbrev pub toy_hashes : Hashes
toy_hashes = record {
  sha512 = toy_algorithm 64;
  sha256 = toy_algorithm 32;
  blake2b = toy_algorithm 64;
  sha512_len = refl;
  sha256_len = refl;
  blake2b_len = refl;
}
