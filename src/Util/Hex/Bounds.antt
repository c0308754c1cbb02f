-- ===== src/Util/Hex/Bounds.antt =====
-- What `hex2bin` and `bin2hex` store, and how far they read.
use asignify.Base.{ℕ, ◌+◌, ◌*◌, ◌/◌, ◌%◌, ◌≤◌, ◌<◌, bit_or}
use mathlib.Core.Path.{subst}
use asignify.Base.{◌≡◌, refl, sym, arith, inl, inr, Bool-cases, Option-cases}
use asignify.Base.{true, false, none, some, [], ◌∷◌, ◌++◌}
use asignify.Base.{Bytes, IsBytes, All-append, ltb, leb, if◌then◌else◌, length, length-append}
use asignify.Util.Hex.{hex_value, hex_digits, Scan, HexResult, push_digit, finish}
use asignify.Util.Hex.{scan_hex, hex2bin, bin2hex, size_max}

-- `hex_pos` is twice the bytes stored, and one more between the digits of a byte.
record IsScan (bin_maxlen : ℕ) (read : ℕ) (s : Scan) : Type 0 where
  room : length s.bin ≤ bin_maxlen
  even : s.half ≡ false → s.hex_pos ≡ 2 * length s.bin
  odd : s.half ≡ true → (s.hex_pos ≡ 2 * length s.bin + 1) × (length s.bin < bin_maxlen)
  pos : s.hex_pos ≡ read
  bytes : IsBytes s.bin

-- How many digits the text starts with.
unfoldable pub leading_digits : Bytes → ℕ
leading_digits [] = 0
leading_digits (c ∷ hex) = elim (hex_value c) [ none ↦ 0 | some v ↦ leading_digits hex + 1 ]

pub leading_digits_le : (hex : Bytes) → leading_digits hex ≤ length hex
unfolding leading_digits
leading_digits_le [] = omega arith
leading_digits_le (c ∷ hex) = elim (Option-cases (hex_value c)) [
  | inl stop ↦ rw (stop, leading_digits) (omega arith)
  | inr (v, digit) ↦ rw (digit, leading_digits) (omega (arith, leading_digits_le hex))
]

-- What is made of a text that starts with `digits` digits.
pub record IsHexResult (bin_maxlen digits : ℕ) (r : HexResult) : Type 0 where
  pub fails : r.erange ≡ ltb (2 * bin_maxlen) digits
  pub stored : length r.bin ≡ (if ltb (2 * bin_maxlen) digits then bin_maxlen else digits / 2)
  pub even : r.hex_end ≡ 2 * length r.bin
  pub bytes : IsBytes r.bin

push_digit-IsScan :
    (m read v : ℕ) (s : Scan)
    → IsScan m read s
    → length s.bin < m
    → IsScan m (read + 1) (push_digit s v)
unfolding push_digit
push_digit-IsScan m read v s i room = elim (Bool-cases s.half) [
  | inl h ↦ rw h (record {
    room = omega (arith, length-append s.bin ((bit_or s.acc v % 256) ∷ []));
    even = λ _. omega (arith, length-append s.bin ((bit_or s.acc v % 256) ∷ []), i.odd h);
    odd = λ e. cc;
    pos = omega (arith, i.pos);
    bytes = All-append _ s.bin _ i.bytes (omega arith, tt);
  })
  | inr h ↦ rw h (record {
    room = i.room;
    even = λ e. cc;
    odd = λ _. (omega (arith, i.even h), room);
    pos = omega (arith, i.pos);
    bytes = i.bytes;
  })
]

-- The scan stops at the end or at what is no digit.
finish-stopped : (m read : ℕ) (s : Scan) → IsScan m read s → IsHexResult m read (finish false s)
unfolding finish
finish-stopped m read s i = elim (Bool-cases s.half) [
  | inl h ↦
      let (pos, room) = i.odd h in
      let fits : ltb (2 * m) read ≡ false = ground (arith, i.pos) in
      rw h (record {
        fails = sym fits;
        stored = rw fits (omega (arith, i.pos));
        even = omega (arith, i.pos);
        bytes = i.bytes;
      })
  | inr h ↦
      let pos = i.even h in
      let fits : ltb (2 * m) read ≡ false = ground (arith, i.pos, i.room) in
      rw h (record {
        fails = sym fits;
        stored = rw fits (omega (arith, i.pos));
        even = omega (arith, i.pos);
        bytes = i.bytes;
      })
]

-- There is a digit, and no room for it.
finish-full :
    (m read digits : ℕ) (s : Scan)
    → IsScan m read s
    → m ≤ length s.bin
    → read < digits
    → IsHexResult m digits (finish true s)
unfolding finish
finish-full m read digits s i full more = elim (Bool-cases s.half) [
  | inl h ↦ absurd (omega (arith, i.odd h))
  | inr h ↦
      let pos = i.even h in
      let over : ltb (2 * m) digits ≡ true = ground (arith, i.pos, i.room) in
      rw h (record {
        fails = sym over;
        stored = rw over (omega (arith, i.room));
        even = omega (arith, i.pos);
        bytes = i.bytes;
      })
]

scan_hex-IsHexResult :
    (m read : ℕ) (hex : Bytes) (s : Scan)
    → IsScan m read s
    → IsHexResult m (read + leading_digits hex) (scan_hex m hex s)
unfolding scan_hex leading_digits
scan_hex-IsHexResult m read [] s i =
    subst (λ n. IsHexResult m n (finish false s)) (omega arith) (finish-stopped m read s i)
scan_hex-IsHexResult m read (c ∷ hex) s i = elim (Option-cases (hex_value c)) [
  | inl stop ↦
      rw (stop, scan_hex, leading_digits)
        (subst (λ n. IsHexResult m n (finish false s)) (omega arith) (finish-stopped m read s i))
  | inr (v, digit) ↦
      rw (digit, scan_hex, leading_digits)
        (elim (Bool-cases (leb m (length s.bin))) [
          | inl full ↦ rw full (
              finish-full m read (read + (leading_digits hex + 1)) s i (ground arith) (omega arith))
          | inr room ↦ rw room (
              subst (λ n. IsHexResult m n (scan_hex m hex (push_digit s v))) (omega arith)
                (scan_hex-IsHexResult m (read + 1) hex (push_digit s v)
                  (push_digit-IsScan m read v s i (ground arith))))
        ])
]

-- Whatever the text, `hex2bin` reports an error exactly when the text starts with more digits than
-- there is room for, stores a byte for each two of these digits as long as there is room, and reports as
-- its end the place behind the digits of the last whole byte.
pub hex2bin-IsHexResult :
    (bin_maxlen : ℕ) (hex : Bytes)
    → IsHexResult bin_maxlen (leading_digits hex) (hex2bin bin_maxlen hex)
unfolding hex2bin
hex2bin-IsHexResult m hex =
    subst (λ n. IsHexResult m n (scan_hex m hex start)) (omega arith)
      (scan_hex-IsHexResult m 0 hex start
        (record { room = omega arith; even = λ _. refl; odd = λ e. cc; pos = refl; bytes = tt }))
  where
    start : Scan
    start = record { bin = []; half = false; acc = 0; hex_pos = 0 }

pub length-hex_digits : (bin : Bytes) → length (hex_digits bin) ≡ 2 * length bin
unfolding hex_digits
length-hex_digits [] = refl
length-hex_digits (b ∷ bin) = omega (arith, length-hex_digits bin)

-- The guard of `bin2hex` lets a buffer of just two characters a byte pass, and with such a
-- buffer the NUL is stored behind its end: one byte more is written than there is room for.
pub bin2hex_overflow :
    (bin : Bytes)
    → length bin < size_max / 2
    → (text : Bytes) × (bin2hex (2 * length bin) bin ≡ some text)
      × (length text ≡ 2 * length bin + 1)
unfolding bin2hex
bin2hex_overflow bin h = (
  hex_digits bin ++ 0 ∷ [],
  ground arith,
  omega (arith, length-append (hex_digits bin) (0 ∷ []), length-hex_digits bin),
)
