-- ===== src/Keys/Ssh.antt =====
-- `asignify_ssh_read_string` of libasignify/databuf.c.
pub mod Private
use asignify.Base.{
  ℕ, zero, suc, ◌*◌, ◌<◌, ◌≤◌, ◌≡◌, refl, ap, ◌∙◌, arith, bit_or, true, Bool-cases, inl, inr,
  Option, none, some, [], ◌∷◌, ◌++◌,
}
use asignify.Base.{
  ◌^◌, Bytes, ltb, ◌==◌, ==_iff, if◌then◌else◌, length, length-append, take, drop, holds_below,
  from_table,
}

-- `p[0] << 3 | p[1] << 2 | p[2] << 1 | p[3]`
unfoldable pub token_len : ℕ → ℕ → ℕ → ℕ → ℕ
token_len a b c d = bit_or (bit_or (bit_or (a * 2 ^ 3) (b * 2 ^ 2)) (c * 2)) d

-- The string at the start of the bytes that remain, and those behind it; none is a null pointer.
unfoldable pub ssh_read_string : Bytes → Option (Bytes × Bytes)
unfolding token_len
ssh_read_string (a ∷ b ∷ c ∷ d ∷ s) =
    if ltb (length s) (token_len a b c d)
    then none
    else some (take (token_len a b c d) s, drop (token_len a b c d) s)
ssh_read_string _ = none

take-drop : (n : ℕ) (s : Bytes) → s ≡ take n s ++ drop n s
take-drop zero s = refl
take-drop (suc n) [] = refl
take-drop (suc n) (x ∷ s) = ap (◌∷◌ x) (take-drop n s)

length-take_fits : (n : ℕ) (s : Bytes) → n ≤ length s → length (take n s) ≡ n
length-take_fits zero s h = refl
length-take_fits (suc n) [] h = absurd (omega arith)
length-take_fits (suc n) (x ∷ s) h = omega (arith, length-take_fits n s (omega arith))

-- A string that is read stands in the buffer behind four bytes, and is as long as they say, with the
-- first shifted by 3, the second by 2 and the third by 1; what is left is the rest of the buffer. So
-- nothing is read behind the end.
pub ssh_read_string_splits :
    (buf tok rest : Bytes)
    → ssh_read_string buf ≡ some (tok, rest)
    → (a : ℕ) × (b : ℕ) × (c : ℕ) × (d : ℕ) × (buf ≡ a ∷ b ∷ c ∷ d ∷ (tok ++ rest))
      × (length tok ≡ bit_or (bit_or (bit_or (8 * a) (4 * b)) (2 * c)) d)
unfolding ssh_read_string
ssh_read_string_splits (a ∷ b ∷ c ∷ d ∷ s) tok rest e =
    elim (Bool-cases (ltb (length s) (token_len a b c d))) [
      | inl short ↦ let bad = rw (short, ssh_read_string) at e in cc
      | inr fits ↦
          let read = rw (fits, ssh_read_string) at e in
          let first : take (token_len a b c d) s ≡ tok = cc in
          let second : drop (token_len a b c d) s ≡ rest = cc in
          let len : length (take (token_len a b c d) s) ≡ token_len a b c d =
            length-take_fits (token_len a b c d) s (ground arith) in
          let shifts : (a * 2 ^ 3 ≡ 8 * a) × (b * 2 ^ 2 ≡ 4 * b) × (c * 2 ≡ 2 * c) =
            (omega arith, omega arith, omega arith) in
          (
            a,
            b,
            c,
            d,
            rw (← first, ← second) (ap (λ t. a ∷ b ∷ c ∷ d ∷ t) (take-drop (token_len a b c d) s)),
            (rw first at len) ∙ (unfold token_len in rw (shifts.0, shifts.1, shifts.2) refl),
          )
    ]
ssh_read_string_splits _ tok rest e = cc

or_zero_table : holds_below 256 (λ d. token_len 0 0 0 d == d) ≡ true
unfolding holds_below token_len
or_zero_table = refl

take-length : (s rest : Bytes) → take (length s) (s ++ rest) ≡ s
take-length [] rest = refl
take-length (x ∷ s) rest = ap (◌∷◌ x) (take-length s rest)

drop-length : (s rest : Bytes) → drop (length s) (s ++ rest) ≡ rest
drop-length [] rest = refl
drop-length (x ∷ s) rest = drop-length s rest

-- A string of less than 256 bytes behind its length in four bytes, the highest first, is read, and
-- what follows it is left.
pub ssh_read_string_short :
    (s rest : Bytes)
    → length s < 256
    → ssh_read_string (0 ∷ 0 ∷ 0 ∷ length s ∷ (s ++ rest)) ≡ some (s, rest)
unfolding ssh_read_string
ssh_read_string_short s rest h =
    let n =
      (==_iff (token_len 0 0 0 (length s)) (length s)).0
        (from_table 256 (λ d. token_len 0 0 0 d == d) (length s) or_zero_table h) in
    rw (n, ssh_read_string, take-length s rest, drop-length s rest)
      (ground (arith, length-append s rest))

-- A string of 256 bytes, with the byte 1 in the third place of its length, is read as its first two
-- bytes.
pub ssh_read_string_long :
    (x y : ℕ) (s rest : Bytes)
    → length (x ∷ y ∷ s) ≡ 256
    → ssh_read_string (0 ∷ 0 ∷ 1 ∷ 0 ∷ (x ∷ y ∷ s ++ rest)) ≡ some (x ∷ y ∷ [], s ++ rest)
unfolding ssh_read_string token_len
ssh_read_string_long x y s rest e = ground (arith)
