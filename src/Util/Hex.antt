-- ===== src/Util/Hex.antt =====
-- `hex2bin` and `bin2hex` of libasignify/util.c. The destination is the list of the bytes
-- written so far, so `bin_pos` is its length.
pub mod RoundTrip
pub mod Bounds
use asignify.Base.{ℕ, zero, suc, ◌+◌, ◌-◌, ◌*◌, ◌/◌, ◌%◌, ◌^◌, bit_and, bit_or, bit_xor}
use asignify.Base.{Bool, true, false, not, ◌&&◌, ◌||◌, Option, none, some, List, [], ◌∷◌, ◌++◌}
use asignify.Base.{Bytes, ltb, leb, ◌==◌, if◌then◌else◌, length}

-- The value of a hexadecimal digit, or none for the `break`.
unfoldable pub hex_value : ℕ → Option ℕ
hex_value c =
    let num = bit_xor c 48 % 256 in
    let letter = bit_and c 0xffffffdf % 256 in
    if ltb num 10
    then some num
    else if ltb 64 letter && ltb letter 71
    then some ((letter + 256 - 55) % 256)
    else none

-- The variables of the loop; `half` is `state != 0`.
pub record Scan : Type 0 where
  pub bin : Bytes
  pub half : Bool
  pub acc : ℕ
  pub hex_pos : ℕ

-- `erange` is `ret == -1`; `hex_end` is where the scan stopped, and `*bin_len` is `length bin`.
pub record HexResult : Type 0 where
  pub erange : Bool
  pub bin : Bytes
  pub hex_end : ℕ

pub push_digit : Scan → ℕ → Scan
push_digit s v =
    if s.half
    then record {
      bin = s.bin ++ (bit_or s.acc v % 256) ∷ [];
      half = false;
      acc = s.acc;
      hex_pos = s.hex_pos + 1;
    }
    else record s { half = true; acc = v * 16 % 256; hex_pos = s.hex_pos + 1 }

pub finish : Bool → Scan → HexResult
finish erange s = record {
  erange = erange;
  bin = s.bin;
  hex_end = if s.half then s.hex_pos - 1 else s.hex_pos;
}

-- The `while` over the characters that are left.
unfoldable pub scan_hex : ℕ → Bytes → Scan → HexResult
unfolding push_digit finish
scan_hex bin_maxlen [] s = finish false s
scan_hex bin_maxlen (c ∷ hex) s = elim (hex_value c) [
  | none ↦ finish false s
  | some v ↦
      if leb bin_maxlen (length s.bin)
      then finish true s
      else scan_hex bin_maxlen hex (push_digit s v)
]

unfoldable pub hex2bin : ℕ → Bytes → HexResult
unfolding scan_hex hex_value
hex2bin bin_maxlen hex =
    scan_hex bin_maxlen hex (record { bin = []; half = false; acc = 0; hex_pos = 0 })

-- `87 + c + (((c - 10) >> 31) & -39)`: the shift of a negative number is -1.
unfoldable pub hex_digit : ℕ → ℕ
hex_digit n = (87 + n - (if ltb n 10 then 39 else 0)) % 256

unfoldable pub hex_digits : Bytes → Bytes
unfolding hex_digit
hex_digits [] = []
hex_digits (b ∷ bin) = hex_digit (b / 2 ^ 4) ∷ hex_digit (bit_and b 0xf) ∷ hex_digits bin

abbrev pub size_max : ℕ
size_max = 0xffffffffffffffff

-- The bytes stored, the NUL included; none is the call of `abort`.
unfoldable pub bin2hex : ℕ → Bytes → Option Bytes
unfolding hex_digits
bin2hex hex_maxlen bin =
    if leb (size_max / 2) (length bin) || ltb hex_maxlen (length bin * 2)
    then none
    else some (hex_digits bin ++ 0 ∷ [])
