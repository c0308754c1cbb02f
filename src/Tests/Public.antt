-- ===== src/Tests/Public.antt =====
-- Runs of the reader and the writers of public lines, with hexadecimal digits for base64.
use asignify.Base.{
  false, ◌*◌, length, ℕ, ◌≡◌, refl, arith, true, not, ◌&&◌, none, some, [], ◌∷◌, Bytes, All, ◌==◌,
}
use asignify.Libc.{isgraph, isxdigit}
use asignify.Util.Hex.{hex_digits, hex2bin, hex_value}
use asignify.Util.Hex.RoundTrip.{
  StopsHex, at_end, at_other, hex2bin-hex_digits, hex_digits-isxdigit,
}
use asignify.Data.{PublicData}
use asignify.Crypto.Base64.{Base64, EndsBare, at_nul, at_line_end, EndsText, at_colon, at_newline}
use asignify.Keys.Public.RoundTrip.{IsPublic}
use asignify.Tests.Toys.{repeat, repeat-IsBytes}

pub stops : {rest : Bytes} → EndsText rest → StopsHex rest
unfolding hex_value
stops at_colon = at_other refl
stops at_newline = at_other refl

pub text_of_digits :
    (s : Bytes)
    → All (λ c. isxdigit c ≡ true) s
    → All (λ c. (isgraph c && not (c == b':')) ≡ true) s
unfolding isxdigit isgraph
text_of_digits [] h = tt
text_of_digits (c ∷ s) h = (ground (arith, h.0), text_of_digits s h.1)

pub stops_bare : {rest : Bytes} → EndsBare rest → StopsHex rest
unfolding hex_value
stops_bare at_nul = at_end
stops_bare at_line_end = at_other refl

pub stops_space : {s : Bytes} → StopsHex (b' ' ∷ s)
unfolding hex_value
stops_space = at_other refl

pub digits_no_dash : (s : Bytes) → All (λ c. isxdigit c ≡ true) s → All (λ c. (c == b'-') ≡ false) s
unfolding isxdigit
digits_no_dash [] h = tt
digits_no_dash (c ∷ s) h = (ground (arith, h.0), digits_no_dash s h.1)

pub length-hex_digits : (b : Bytes) → length (hex_digits b) ≡ 2 * length b
unfolding hex_digits
length-hex_digits [] = refl
length-hex_digits (x ∷ b) = omega (arith, length-hex_digits b)

abbrev pub toy_base64 : Base64
toy_base64 = record {
  ntop = hex_digits;
  pton_stop = λ n s. some (hex2bin n s).bin;
  pton_space = λ n s. some (hex2bin n s).bin;
  pton = λ n s. some (hex2bin n s).bin;
  ntop_text = λ b h. text_of_digits (hex_digits b) (hex_digits-isxdigit b h);
  ntop_no_dash = λ b h. digits_no_dash (hex_digits b) (hex_digits-isxdigit b h);
  ntop_same_length = λ a b e. omega (arith, length-hex_digits a, length-hex_digits b);
  pton_stop-ntop = λ n b rest h l e. rw (hex2bin-hex_digits n b rest h l (stops e)) refl;
  pton_space-ntop = λ n b rest h l. rw (hex2bin-hex_digits n b (b' ' ∷ rest) h l stops_space) refl;
  pton-ntop = λ n b rest h l e. rw (hex2bin-hex_digits n b rest h l (stops_bare e)) refl;
}

abbrev pub toy_public : ℕ → PublicData
toy_public n = record { data_bytes = repeat n 7; id = repeat 8 5; aux = none; version = 1 }

pub toy_public-IsPublic : (n : ℕ) → IsPublic (toy_public n)
toy_public-IsPublic n = record {
  version_is = refl;
  no_aux = refl;
  id_bytes = repeat-IsBytes 8 5 (omega arith);
  data_bytes_are = repeat-IsBytes n 7 (omega arith);
}
