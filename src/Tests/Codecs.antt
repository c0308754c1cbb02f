-- ===== src/Tests/Codecs.antt =====
-- libasignify/util.c at fixed inputs.
use asignify.Base.{◌+◌, ◌*◌, ◌≡◌, refl, arith, true, false, some, [], ◌∷◌, ◌++◌}
use asignify.Base.{Bytes, codes, length}
use asignify.Util.Hex.{hex_value, hex2bin, hex_digits, bin2hex}
use asignify.Util.Hex.Bounds.{IsHexResult, leading_digits, hex2bin-IsHexResult, bin2hex_overflow}
use asignify.Util.Hex.RoundTrip.{hex2bin-hex_digits, at_end}

abbrev two_bytes : Bytes
two_bytes = 0xab ∷ 0x07 ∷ []

hex_digits_run : hex_digits two_bytes ≡ codes "ab07"
unfolding hex_digits
hex_digits_run = refl

-- Upper case is read too; an odd digit is left, and given back as unread.
hex2bin_run : hex2bin 2 (codes "aB07f") ≡ record { erange = true; bin = two_bytes; hex_end = 4 }
unfolding hex2bin
hex2bin_run = refl

hex2bin_odd : hex2bin 9 (codes "aB0z") ≡ record { erange = false; bin = 0xab ∷ []; hex_end = 2 }
unfolding hex2bin
hex2bin_odd = refl

hex2bin-hex_digits_example :
    hex2bin 2 (hex_digits two_bytes ++ [])
    ≡ record { erange = false; bin = two_bytes; hex_end = 2 * length two_bytes }
hex2bin-hex_digits_example = hex2bin-hex_digits 2 two_bytes [] (omega arith) (omega arith) at_end

hex2bin-IsHexResult_example : IsHexResult 9 3 (hex2bin 9 (codes "aB0z"))
unfolding leading_digits hex_value
hex2bin-IsHexResult_example = hex2bin-IsHexResult 9 (codes "aB0z")

bin2hex_overflow_example :
    (text : Bytes) × (bin2hex (2 * length two_bytes) two_bytes ≡ some text)
    × (length text ≡ 2 * length two_bytes + 1)
bin2hex_overflow_example = bin2hex_overflow two_bytes (omega arith)
