-- ===== src/Keys/Write/Fields.antt =====
-- Each line of a key file that is written is read back into its member.
use asignify.Base.{ℕ, ◌+◌, ◌*◌, ◌/◌, ◌^◌, ◌<◌, ◌≡◌, refl, arith}
use asignify.Base.{Bool, true, false, not, ◌&&◌, some, [], ◌∷◌, ◌++◌, append_assoc, append-nil}
use asignify.Base.{Bytes, IsBytes, All, All-append, ◌==◌, length, take_all, c_string_nul}
use asignify.Libc.{isspace, isgraph, isdigit, isxdigit}
use asignify.Libc.Decimal.{
  decimal, decimal-IsDigits, strtoul-decimal, length-decimal_pos, digit_span_stop,
}
use asignify.Libc.Lines.{getlines, IsLine, getlines-line}
use asignify.Util.Hex.{bin2hex, hex_digits}
use asignify.Util.Hex.Bounds.{length-hex_digits}
use asignify.Util.Hex.RoundTrip.{hex_digits-isxdigit, hex2bin_own}
use asignify.Data.{PrivateKey}
use asignify.Keys.Fields.{
  FieldType, Field, find_field, parse_value, ulong_max, set_bytes, set_uint, stored_string,
}
use asignify.Keys.Line.{parse_line}
use asignify.Keys.Line.Parts.{name_char, plain_char, parse_line-value}
use asignify.Keys.Load.{parse_lines}
use asignify.Keys.Write.{value_line, hex_out}

-- A line of a field stores `k'` into `k`.
pub record Stores (k : PrivateKey) (line : Bytes) (k' : PrivateKey) : Type 0 where
  pub text : Bytes
  pub line_is : line ≡ text ++ b'\n' ∷ []
  pub whole : IsLine text
  pub stored : parse_line line k ≡ some k'

-- Lines are read one after the other.
pub parse_lines-Stores :
    {k k' : PrivateKey} {line : Bytes} (rest : Bytes)
    → Stores k line k'
    → parse_lines (getlines (line ++ rest)) k ≡ parse_lines (getlines rest) k'
unfolding parse_lines
parse_lines-Stores {k} rest s =
    rw (s.line_is, append_assoc, getlines-line s.text rest s.whole)
      (rw (← s.line_is) (rw (s.stored, parse_lines)))

halved : (b : Bytes) → length (hex_digits b) / 2 ≡ length b
halved b = omega (arith, length-hex_digits b)

-- Bytes printed as digits, for a member of that many bytes.
parse_value_hex :
    (f : Field) (b : Bytes) (k : PrivateKey)
    → f.field_type ≡ FieldType.hex
    → IsBytes b
    → length b ≡ f.required_len
    → parse_value (hex_digits b) (b'\n' ∷ []) f k ≡ some (set_bytes f.member b k)
unfolding parse_value
parse_value_hex f b k t h e =
    rw (t, parse_value, halved b) (rw (hex2bin_own (length b) b h refl) (ground (arith, e)))

pub parse_lines-last :
    {k k' : PrivateKey} {line : Bytes} → Stores k line k' → parse_lines (getlines line) k ≡ some k'
unfolding parse_lines getlines
parse_lines-last s = rw append-nil at (parse_lines-Stores [] s)

-- A byte of a value that may stand anywhere in it.
abbrev solid_char : FieldType → ℕ → Bool
solid_char t c = plain_char t c && not (isspace c)

plain_of_solid :
    (t : FieldType) (s : Bytes)
    → All (λ c. solid_char t c ≡ true) s
    → All (λ c. plain_char t c ≡ true) s
plain_of_solid t [] h = tt
plain_of_solid t (c ∷ s) h = (ground (arith, h.0), plain_of_solid t s h.1)

plain-IsLine : (t : FieldType) (s : Bytes) → All (λ c. plain_char t c ≡ true) s → IsLine s
plain-IsLine t [] h = tt
plain-IsLine t (c ∷ s) h = (ground (arith, h.0), plain-IsLine t s h.1)

name-IsLine : (s : Bytes) → All (λ c. name_char c ≡ true) s → IsLine s
unfolding isgraph
name-IsLine [] h = tt
name-IsLine (c ∷ s) h = (ground (arith, h.0), name-IsLine s h.1)

-- The name and the value of a line that stores `k'`.
Stores-value_line :
    (name val : Bytes) (f : Field) (k k' : PrivateKey)
    → 0 < length name
    → 0 < length val
    → All (λ c. name_char c ≡ true) name
    → find_field name ≡ some f
    → All (λ c. solid_char f.field_type c ≡ true) val
    → parse_value val (b'\n' ∷ []) f k ≡ some k'
    → Stores k (value_line name val) k'
Stores-value_line [] val f k k' n l graph found solid stored = absurd (omega (arith, n))
Stores-value_line (c ∷ name) [] f k k' n l graph found solid stored = absurd (omega (arith, l))
Stores-value_line (c ∷ name) (v ∷ val) f k k' n l graph found solid stored =
    let plain = plain_of_solid f.field_type (v ∷ val) solid in
    record {
      text = c ∷ (name ++ b':' ∷ b' ' ∷ v ∷ val);
      line_is = rw append_assoc refl;
      whole =
          All-append (λ c. (c == b'\n') ≡ false) (c ∷ name) (b':' ∷ b' ' ∷ v ∷ val)
            (name-IsLine (c ∷ name) graph)
            (refl, (refl, plain-IsLine f.field_type (v ∷ val) plain));
      stored =
          parse_line-value c name v val f k k' graph found (ground (arith, solid.0)) plain stored;
    }

xdigit_solid :
    (s : Bytes) → All (λ c. isxdigit c ≡ true) s → All (λ c. solid_char FieldType.hex c ≡ true) s
unfolding isxdigit isspace
xdigit_solid [] h = tt
xdigit_solid (c ∷ s) h = (ground (arith, h.0), xdigit_solid s h.1)

digit_solid :
    (s : Bytes) → All (λ c. isdigit c ≡ true) s → All (λ c. solid_char FieldType.uint c ≡ true) s
unfolding isdigit isspace
digit_solid [] h = tt
digit_solid (c ∷ s) h = (ground (arith, h.0), digit_solid s h.1)

name_solid :
    (s : Bytes)
    → All (λ c. name_char c ≡ true) s
    → All (λ c. solid_char FieldType.string c ≡ true) s
unfolding isgraph isspace
name_solid [] h = tt
name_solid (c ∷ s) h = (ground (arith, h.0), name_solid s h.1)

-- A hexadecimal member of its own length.
pub Stores-hex :
    (name b : Bytes) (f : Field) (k : PrivateKey)
    → 0 < length name
    → All (λ c. name_char c ≡ true) name
    → find_field name ≡ some f
    → f.field_type ≡ FieldType.hex
    → 0 < f.required_len
    → IsBytes b
    → length b ≡ f.required_len
    → Stores k (value_line name (hex_digits b)) (set_bytes f.member b k)
Stores-hex name b f k n graph found t pos h e =
    Stores-value_line name (hex_digits b) f k _ n (omega (arith, length-hex_digits b)) graph found
      (rw t (xdigit_solid (hex_digits b) (hex_digits-isxdigit b h))) (parse_value_hex f b k t h e)

parse_value_uint :
    (f : Field) (n : ℕ) (k : PrivateKey)
    → f.field_type ≡ FieldType.uint
    → n < 2 ^ 32
    → parse_value (decimal n) (b'\n' ∷ []) f k ≡ some (set_uint f.member n k)
unfolding parse_value isdigit
parse_value_uint f n k t small =
    rw
      (
        t,
        parse_value,
        strtoul-decimal ulong_max n (b'\n' ∷ []) (omega arith) (digit_span_stop b'\n' [] refl),
      )
      (ground arith)

-- A number that fits an `unsigned int`.
pub Stores-uint :
    (name : Bytes) (n : ℕ) (f : Field) (k : PrivateKey)
    → 0 < length name
    → All (λ c. name_char c ≡ true) name
    → find_field name ≡ some f
    → f.field_type ≡ FieldType.uint
    → n < 2 ^ 32
    → Stores k (value_line name (decimal n)) (set_uint f.member n k)
Stores-uint name n f k some_name graph found t small =
    Stores-value_line name (decimal n) f k _ some_name (length-decimal_pos n) graph found
      (rw t (digit_solid (decimal n) (decimal-IsDigits n))) (parse_value_uint f n k t small)

-- A string.
pub Stores-string :
    (name val : Bytes) (f : Field) (k : PrivateKey)
    → 0 < length name
    → 0 < length val
    → All (λ c. name_char c ≡ true) name
    → find_field name ≡ some f
    → f.field_type ≡ FieldType.string
    → All (λ c. name_char c ≡ true) val
    → Stores k (value_line name val) (set_bytes f.member (stored_string val) k)
Stores-string name val f k n l graph found t plain =
    Stores-value_line name val f k _ n l graph found (rw t (name_solid val plain))
      (unfold parse_value in rw (t, parse_value))

digits_above : (s : Bytes) → All (λ c. isxdigit c ≡ true) s → All (λ c. 0 < c) s
unfolding isxdigit
digits_above [] h = tt
digits_above (c ∷ s) h = (ground (arith, h.0), digits_above s h.1)

bin2hex_own :
    (b : Bytes) (size : ℕ)
    → length b ≡ size
    → size < 1000
    → bin2hex (size * 2 + 1) b ≡ some (hex_digits b ++ 0 ∷ [])
unfolding bin2hex
bin2hex_own b size e small = ground arith

-- The line of a hexadecimal member of its own length.
pub hex_out-value_line :
    (name b : Bytes) (size : ℕ)
    → IsBytes b
    → length b ≡ size
    → size < 1000
    → hex_out name size (some b) ≡ some (value_line name (hex_digits b))
unfolding hex_out
hex_out-value_line name b size h e small =
    rw (take_all size b e, hex_out, bin2hex_own b size e small)
      (rw (c_string_nul (hex_digits b) [] (digits_above _ (hex_digits-isxdigit b h))) refl)
