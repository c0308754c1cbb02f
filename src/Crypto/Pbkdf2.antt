-- ===== src/Crypto/Pbkdf2.antt =====
-- `pkcs5_pbkdf2` of libasignify/pbkdf2.c.
use asignify.Base.{ℕ, zero, suc, ◌+◌, ◌-◌, ◌/◌, ◌%◌, ◌^◌, ◌≤◌, ◌<◌, ◌≡◌, refl, ap, ◌∙◌, arith}
use asignify.Base.{true, false, append-nil, ◌||◌, [], ◌∷◌, ◌++◌, Bytes, IsBytes, All-append}
use asignify.Base.{
  ltb, ◌==◌, if◌then◌else◌, length, length-append, take, length-take_le, All-take, Bool-cases, inl,
  inr,
}
use asignify.Util.Hex.{size_max}
use asignify.Crypto.{Blake2b}
use asignify.Crypto.Xor.{xor_bytes, length-xor_bytes, xor_bytes-IsBytes, xor_bytes_twice}

-- The counter behind the salt, with its highest byte first.
abbrev be32 : ℕ → Bytes
be32 count =
    (count / 2 ^ 24) % 256 ∷ (count / 2 ^ 16) % 256 ∷ (count / 2 ^ 8) % 256 ∷ count % 256 ∷ []

module _ (blake : Blake2b) (pass salt : Bytes) where
  -- The loop over the rounds: `n` are left, `d1` is the last hash, `obuf` the sum so far.
  rounds_loop : ℕ → Bytes → Bytes → Bytes
  rounds_loop zero d1 obuf = obuf
  rounds_loop (suc n) d1 obuf = let d2 = blake.hash pass d1 in rounds_loop n d2 (xor_bytes obuf d2)

  -- One block of output.
  derive_block : ℕ → ℕ → Bytes
  unfolding rounds_loop
  derive_block rounds count =
      let d1 = blake.hash pass (salt ++ be32 (count % 2 ^ 32)) in rounds_loop (rounds - 1) d1 d1

  -- The loop over the blocks. At least one byte is written in each round, so as many rounds as
  -- bytes are enough.
  blocks_loop : ℕ → ℕ → ℕ → ℕ → Bytes
  unfolding derive_block
  blocks_loop zero rounds count key_len = []
  blocks_loop (suc fuel) rounds count key_len =
      let block = derive_block rounds count in
      let rest = blocks_loop fuel rounds (count + 1) (key_len - 64) in
      if key_len == 0
      then []
      else if ltb key_len 64
      then take key_len block ++ rest
      else block ++ rest

-- The key of `key_len` bytes, the return of -1, or a return of 0 with a key that is made of bytes that
-- were never written: a function of what the buffers `d1` and `d2` hold when they are declared.
pub data Derived : Type 0 where
  derived : Bytes → Derived
  refused : Derived
  unwritten : (Bytes → Bytes → Bytes) → Derived

-- The two loops when no call of `blake2b` writes: `d1` is what `d2` held from the second round on.
unfoldable pub stale_rounds : ℕ → Bytes → Bytes → Bytes
stale_rounds zero d2 obuf = obuf
stale_rounds (suc n) d2 obuf = stale_rounds n d2 (xor_bytes obuf d2)

unfoldable pub stale_blocks : ℕ → ℕ → ℕ → Bytes → Bytes → Bytes
unfolding stale_rounds
stale_blocks zero rounds key_len d1 d2 = []
stale_blocks (suc fuel) rounds key_len d1 d2 =
    let block = stale_rounds (rounds - 1) d2 d1 in
    let rest = stale_blocks fuel rounds (key_len - 64) (if ltb 1 rounds then d2 else d1) d2 in
    if key_len == 0
    then []
    else if ltb key_len 64
    then take key_len block ++ rest
    else block ++ rest

-- `blake2b` has the length of its key in a byte, and fails on a key of more than 64 bytes without
-- writing `out`; its result is not looked at here.
unfoldable pub blake2b_key : Bytes → Bytes
blake2b_key pass = take (length pass % 256) pass

unfoldable pub pkcs5_pbkdf2 : Blake2b → Bytes → Bytes → ℕ → ℕ → Derived
unfolding blocks_loop blake2b_key stale_blocks
pkcs5_pbkdf2 blake pass salt key_len rounds =
    let key = blocks_loop blake (blake2b_key pass) salt key_len rounds 1 key_len in
    if ltb rounds 1 || key_len == 0
    then refused
    else if length salt == 0 || ltb (size_max - 4) (length salt)
    then refused
    else if ltb 64 (length (blake2b_key pass))
    then unwritten (stale_blocks key_len rounds key_len)
    else derived key

module _ (blake : Blake2b) (pass salt : Bytes) where
  rounds_loop-bytes :
      (n : ℕ) (d1 obuf : Bytes)
      → length obuf ≡ 64
      → IsBytes d1
      → IsBytes obuf
      → (length (rounds_loop blake pass salt n d1 obuf) ≡ 64)
        × IsBytes (rounds_loop blake pass salt n d1 obuf)
  unfolding rounds_loop
  rounds_loop-bytes zero d1 obuf e h k = (e, k)
  rounds_loop-bytes (suc n) d1 obuf e h k =
      let d2 = blake.hash pass d1 in
      rounds_loop-bytes n d2 (xor_bytes obuf d2) (length-xor_bytes obuf d2 ∙ e)
        (blake.hash-IsBytes pass d1) (xor_bytes-IsBytes obuf d2 k (blake.hash-IsBytes pass d1))

  derive_block-IsBytes :
      (rounds count : ℕ)
      → (length (derive_block blake pass salt rounds count) ≡ 64)
        × IsBytes (derive_block blake pass salt rounds count)
  unfolding derive_block
  derive_block-IsBytes rounds count =
      let input = salt ++ be32 (count % 2 ^ 32) in
      rounds_loop-bytes (rounds - 1) (blake.hash pass input) (blake.hash pass input)
        (blake.length-hash pass input) (blake.hash-IsBytes pass input)
        (blake.hash-IsBytes pass input)

  -- What one round of the loop writes.
  first_block : ℕ → ℕ → ℕ → Bytes
  first_block rounds count key_len =
      let block = derive_block blake pass salt rounds count in
      if ltb key_len 64 then take key_len block else block

  first_block-IsBytes :
      (rounds count key_len : ℕ)
      → (length (first_block rounds count key_len) + (key_len - 64) ≡ key_len)
        × IsBytes (first_block rounds count key_len)
  unfolding first_block
  first_block-IsBytes rounds count key_len =
      let block = derive_block blake pass salt rounds count in
      let (len, bytes) = derive_block-IsBytes rounds count in
      elim (Bool-cases (ltb key_len 64)) [
        | inl short ↦
            rw short (ground (arith, length-take_le key_len block), All-take _ key_len block bytes)
        | inr long ↦ rw long (ground arith, bytes)
      ]

  blocks_loop-suc :
      (fuel rounds count key_len : ℕ)
      → (key_len == 0) ≡ false
      → blocks_loop blake pass salt (suc fuel) rounds count key_len
        ≡ first_block rounds count key_len
          ++ blocks_loop blake pass salt fuel rounds (count + 1) (key_len - 64)
  unfolding blocks_loop first_block
  blocks_loop-suc fuel rounds count key_len more = ground arith

  blocks_loop-IsBytes :
      (fuel rounds count key_len : ℕ)
      → key_len ≤ fuel
      → (length (blocks_loop blake pass salt fuel rounds count key_len) ≡ key_len)
        × IsBytes (blocks_loop blake pass salt fuel rounds count key_len)
  unfolding blocks_loop
  blocks_loop-IsBytes zero rounds count key_len h = (omega arith, tt)
  blocks_loop-IsBytes (suc fuel) rounds count key_len h =
      let block = first_block rounds count key_len in
      let (block_len, block_bytes) = first_block-IsBytes rounds count key_len in
      let rest = blocks_loop blake pass salt fuel rounds (count + 1) (key_len - 64) in
      let (rest_len, rest_bytes) =
        blocks_loop-IsBytes fuel rounds (count + 1) (key_len - 64) (omega arith) in
      elim (Bool-cases (key_len == 0)) [
        | inl done ↦ rw (done, blocks_loop) (ground arith, tt)
        | inr more ↦ rw (blocks_loop-suc fuel rounds count key_len more) (
          omega (arith, length-append block rest, block_len, rest_len),
          All-append _ block rest block_bytes rest_bytes,
        )
      ]

blake2b_key-short : (pass : Bytes) → length pass ≤ 64 → length (blake2b_key pass) ≤ 64
unfolding blake2b_key
blake2b_key-short pass h = omega (arith, length-take_le (length pass % 256) pass (omega arith))

-- With a password of at most 64 bytes, at least one round, a salt and a length that is not zero,
-- the derivation succeeds, and gives as many bytes as were asked for.
pub pkcs5_pbkdf2-IsBytes :
    (blake : Blake2b) (pass salt : Bytes) (key_len rounds : ℕ)
    → length pass ≤ 64
    → 0 < rounds
    → 0 < key_len
    → 0 < length salt
    → length salt ≤ size_max - 4
    → (key : Bytes) × (pkcs5_pbkdf2 blake pass salt key_len rounds ≡ derived key)
      × (length key ≡ key_len)
      × IsBytes key
unfolding pkcs5_pbkdf2
pkcs5_pbkdf2-IsBytes blake pass salt key_len rounds p r k s m =
    let (len, bytes) =
      blocks_loop-IsBytes blake (blake2b_key pass) salt key_len rounds 1 key_len (omega arith) in
    let short = blake2b_key-short pass p in
    (blocks_loop blake (blake2b_key pass) salt key_len rounds 1 key_len, ground arith, len, bytes)

take-append_wrap : (n : ℕ) (a b : Bytes) → n ≤ length a → take n (a ++ b) ≡ take n a
take-append_wrap zero a b h = refl
take-append_wrap (suc n) [] b h = absurd (omega arith)
take-append_wrap (suc n) (c ∷ a) b h = ap (◌∷◌ c) (take-append_wrap n a b (omega arith))

-- The length of the password is cut to a byte: a password of at most 64 bytes and the same with any
-- 256 bytes behind it derive the same key, of the length that is asked for, whatever the salt and the
-- rounds are that are not refused.
pub pkcs5_pbkdf2_wraps :
    (blake : Blake2b) (pass more salt : Bytes) (key_len rounds : ℕ)
    → length pass ≤ 64
    → length more ≡ 256
    → 0 < rounds
    → 0 < key_len
    → 0 < length salt
    → length salt ≤ size_max - 4
    → (key : Bytes) × (pkcs5_pbkdf2 blake (pass ++ more) salt key_len rounds ≡ derived key)
      × (pkcs5_pbkdf2 blake pass salt key_len rounds ≡ derived key)
      × (length key ≡ key_len)
unfolding pkcs5_pbkdf2
pkcs5_pbkdf2_wraps blake pass more salt key_len rounds p e r k s m =
    let (key, derives, len, bytes) =
      pkcs5_pbkdf2-IsBytes blake pass salt key_len rounds p r k s m in
    let same_len : length (pass ++ more) % 256 ≡ length pass % 256 =
      omega (arith, length-append pass more) in
    let same : blake2b_key (pass ++ more) ≡ blake2b_key pass =
      (unfold blake2b_key in
        rw same_len (take-append_wrap (length pass % 256) pass more (omega arith))) in
    (key, rw (pkcs5_pbkdf2, same) derives, derives, len)

stale_rounds-even :
    (n : ℕ) (d2 obuf : Bytes)
    → IsBytes d2
    → IsBytes obuf
    → stale_rounds n d2 obuf ≡ (if n % 2 == 0 then obuf else xor_bytes obuf d2)
unfolding stale_rounds
stale_rounds-even zero d2 obuf d o = refl
stale_rounds-even (suc zero) d2 obuf d o = refl
stale_rounds-even (suc (suc n)) d2 obuf d o =
    let same : (suc (suc n) % 2 == 0) ≡ (n % 2 == 0) = ap (λ k. k == 0) (omega arith) in
    rw (xor_bytes_twice obuf d2 o d, same) (stale_rounds-even n d2 obuf d o)

long_key : (pass : Bytes) → 64 < length pass % 256 → ltb 64 (length (blake2b_key pass)) ≡ true
unfolding blake2b_key
long_key pass l = ground (arith, length-take_le (length pass % 256) pass (omega arith))

-- A password whose length modulo 256 is more than 64 is no key for `blake2b`, and neither it nor the
-- salt has a part in the key: with any arguments that are not refused, the 64 bytes of it are what the
-- buffer `d1` holds when it is declared, for an even number of rounds xored with what `d2` holds.
pub pkcs5_pbkdf2_unwritten :
    (blake : Blake2b) (pass salt : Bytes) (rounds : ℕ) (d1 d2 : Bytes)
    → 64 < length pass % 256
    → 0 < rounds
    → 0 < length salt
    → length salt ≤ size_max - 4
    → length d1 ≡ 64
    → IsBytes d1
    → IsBytes d2
    → (key : Bytes → Bytes → Bytes) × (pkcs5_pbkdf2 blake pass salt 64 rounds ≡ unwritten key)
      × (key d1 d2 ≡ (if rounds % 2 == 1 then d1 else xor_bytes d1 d2))
unfolding pkcs5_pbkdf2
pkcs5_pbkdf2_unwritten blake pass salt rounds d1 d2 l r s m e a b =
    (stale_blocks 64 rounds 64, ground (arith, long_key pass l), one_block)
  where
    one_block : stale_blocks 64 rounds 64 d1 d2 ≡ (if rounds % 2 == 1 then d1 else xor_bytes d1 d2)
    one_block =
        let parity : ((rounds - 1) % 2 == 0) ≡ (rounds % 2 == 1) = ground arith in
        unfold stale_blocks in
        append-nil (stale_rounds (rounds - 1) d2 d1)
        ∙ stale_rounds-even (rounds - 1) d2 d1 b a
        ∙ ap (λ t. if t then d1 else xor_bytes d1 d2) parity
