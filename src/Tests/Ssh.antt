-- ===== src/Tests/Ssh.antt =====
-- Runs of the reader of the strings in an OpenSSH key.
use asignify.Base.{ℕ, ◌*◌, bit_or, ◌≡◌, refl, arith, some, [], ◌∷◌, ◌++◌, codes, length}
use asignify.Keys.Ssh.{
  ssh_read_string, ssh_read_string_splits, ssh_read_string_short, ssh_read_string_long,
}
use asignify.Tests.Toys.{repeat}

ssh_read_string_short_run :
    ssh_read_string (0 ∷ 0 ∷ 0 ∷ 4 ∷ codes "nonemore") ≡ some (codes "none", codes "more")
ssh_read_string_short_run = ssh_read_string_short (codes "none") (codes "more") (omega arith)

ssh_read_string_splits_example :
    (a : ℕ) × (b : ℕ) × (c : ℕ) × (d : ℕ) × (0 ∷ 0 ∷ 0 ∷ 4 ∷ codes "nonemore"
      ≡ a ∷ b ∷ c ∷ d ∷ (codes "none" ++ codes "more"))
    × (length (codes "none") ≡ bit_or (bit_or (bit_or (8 * a) (4 * b)) (2 * c)) d)
ssh_read_string_splits_example =
    ssh_read_string_splits (0 ∷ 0 ∷ 0 ∷ 4 ∷ codes "nonemore") (codes "none") (codes "more")
      ssh_read_string_short_run

ssh_read_string_long_example :
    ssh_read_string (0 ∷ 0 ∷ 1 ∷ 0 ∷ (7 ∷ 7 ∷ repeat 254 7 ++ codes "more"))
    ≡ some (7 ∷ 7 ∷ [], repeat 254 7 ++ codes "more")
ssh_read_string_long_example = ssh_read_string_long 7 7 (repeat 254 7) (codes "more") refl
