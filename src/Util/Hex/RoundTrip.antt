-- ===== src/Util/Hex/RoundTrip.antt =====
-- `hex2bin` reads back what `bin2hex` writes.
use asignify.Base.{ℕ, ◌+◌, ◌*◌, ◌/◌, ◌%◌, ◌^◌, ◌≤◌, ◌<◌, bit_and, bit_or}
use asignify.Base.{◌≡◌, refl, ◌∙◌, arith, holds_below, from_table}
use asignify.Base.{true, false, ◌&&◌, Option, none, some, [], ◌∷◌, ◌++◌, append_assoc, append-nil}
use asignify.Libc.{isxdigit}
use asignify.Base.{All, Bytes, IsBytes, ◌==◌, length, length-append}
use asignify.Util.Hex.{hex_value, hex_digit, hex_digits, Scan, finish, scan_hex, hex2bin}

-- Both digits of a byte are read as its halves, which together make the byte.
halves_table :
    holds_below 256 (λ b.
      elim (hex_value (hex_digit (b / 2 ^ 4))) [ none ↦ false | some v ↦ v == b / 16 ]
      && elim (hex_value (hex_digit (bit_and b 0xf))) [ none ↦ false | some v ↦ v == b % 16 ]
      && bit_or (b / 16 * 16 % 256) (b % 16) % 256 == b)
    ≡ true
unfolding holds_below hex_value hex_digit
halves_table = refl

some_of_test :
    (o : Option ℕ) (w : ℕ) → elim o [ none ↦ false | some v ↦ v == w ] ≡ true → o ≡ some w
some_of_test o w h = ground arith

halves :
    (b : ℕ)
    → b < 256
    → (hex_value (hex_digit (b / 2 ^ 4)) ≡ some (b / 16))
      × (hex_value (hex_digit (bit_and b 0xf)) ≡ some (b % 16))
      × (bit_or (b / 16 * 16 % 256) (b % 16) % 256 ≡ b)
halves b h =
    let t = from_table 256 _ b halves_table h in
    (
      some_of_test _ (b / 16) (ground (arith, t)),
      some_of_test _ (b % 16) (ground (arith, t)),
      ground (arith, t),
    )

-- The scan stops in front of `rest`: at the end, or at a byte that is no digit.
pub data StopsHex : Bytes → Type 0 where
  at_end : StopsHex []
  at_other : {c : ℕ} {s : Bytes} → hex_value c ≡ none → StopsHex (c ∷ s)

scan_hex_stops :
    (m : ℕ) {rest : Bytes} (s : Scan) → StopsHex rest → scan_hex m rest s ≡ finish false s
unfolding scan_hex
scan_hex_stops m s at_end = refl
scan_hex_stops m s (at_other h) = rw (h, scan_hex)

scan_hex_byte :
    (m b : ℕ) (hex : Bytes) (s : Scan)
    → b < 256
    → s.half ≡ false
    → length s.bin < m
    → scan_hex m (hex_digit (b / 2 ^ 4) ∷ hex_digit (bit_and b 0xf) ∷ hex) s
      ≡ scan_hex m hex (record {
        bin = s.bin ++ b ∷ [];
        half = false;
        acc = b / 16 * 16 % 256;
        hex_pos = s.hex_pos + 1 + 1;
      })
unfolding scan_hex
scan_hex_byte m b hex s small even room = let t = halves b small in ground (arith, t)

scan_hex-hex_digits :
    (m : ℕ) (bin : Bytes) {rest : Bytes} (s : Scan)
    → IsBytes bin
    → s.half ≡ false
    → length s.bin + length bin ≤ m
    → StopsHex rest
    → scan_hex m (hex_digits bin ++ rest) s
      ≡ record { erange = false; bin = s.bin ++ bin; hex_end = s.hex_pos + 2 * length bin }
unfolding hex_digits
scan_hex-hex_digits m [] s small even room stop =
    scan_hex_stops m s stop ∙ unfold finish in ground (arith, append-nil s.bin)
scan_hex-hex_digits m (b ∷ bin) s small even room stop =
    scan_hex_byte m b _ s small.0 even (omega arith)
    ∙ scan_hex-hex_digits m bin _ small.1 refl (omega (arith, length-append s.bin (b ∷ []))) stop
    ∙ ground (arith, append_assoc s.bin (b ∷ []) bin)

-- Reading the digits that were printed of a byte string gives the bytes back, with no error and
-- the scan behind the last digit, whatever follows them that is no digit, if they fit the
-- destination.
pub hex2bin-hex_digits :
    (bin_maxlen : ℕ) (bin rest : Bytes)
    → IsBytes bin
    → length bin ≤ bin_maxlen
    → StopsHex rest
    → hex2bin bin_maxlen (hex_digits bin ++ rest)
      ≡ record { erange = false; bin = bin; hex_end = 2 * length bin }
unfolding hex2bin
hex2bin-hex_digits m bin rest small room stop =
    scan_hex-hex_digits m bin _ small refl (omega arith) stop ∙ ground arith

digits_table :
    holds_below 256 (λ b. isxdigit (hex_digit (b / 2 ^ 4)) && isxdigit (hex_digit (bit_and b 0xf)))
    ≡ true
unfolding holds_below hex_digit isxdigit
digits_table = refl

-- What is printed are hexadecimal digits.
pub hex_digits-isxdigit :
    (bin : Bytes) → IsBytes bin → All (λ c. isxdigit c ≡ true) (hex_digits bin)
unfolding hex_digits
hex_digits-isxdigit [] h = tt
hex_digits-isxdigit (b ∷ bin) h =
    let t = from_table 256 _ b digits_table h.0 in
    (ground (arith, t), (ground (arith, t), hex_digits-isxdigit bin h.1))

-- Nothing follows the digits, and the destination is just long enough.
pub hex2bin_own :
    (n : ℕ) (b : Bytes)
    → IsBytes b
    → length b ≡ n
    → hex2bin n (hex_digits b) ≡ record { erange = false; bin = b; hex_end = 2 * length b }
hex2bin_own n b h e = rw append-nil at (hex2bin-hex_digits n b [] h (omega arith) at_end)
