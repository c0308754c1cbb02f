-- ===== src/Keys/Fields.antt =====
-- The table `parser_fields` of libasignify/databuf.c, its search, and the storing of a value.
pub mod Search
use Prim.Native.Nat.{compare, Ordering}
use asignify.Base.{
  ℕ, zero, suc, ◌+◌, ◌-◌, ◌/◌, ◌%◌, ◌^◌, Bool, true, false, not, Option, none, some,
}
use asignify.Base.{List, [], ◌∷◌, ◌++◌, Bytes, codes, ltb, ◌==◌, if◌then◌else◌, length, drop}
use asignify.Libc.Decimal.{Number, strtoul}
use asignify.Util.Hex.{HexResult, hex2bin}
use asignify.Data.{PrivateKey}

pub data FieldType : Type 0 where
  string uint hex : FieldType

-- The member at `struct_offset`.
pub data Member : Type 0 where
  checksum encrypted_blob id pbkdf_alg rounds salt version : Member

pub record Field : Type 0 where
  pub field_name : Bytes
  pub field_type : FieldType
  pub member : Member
  pub required_len : ℕ

abbrev pub field : Bytes → FieldType → Member → ℕ → Field
field n t k l = record { field_name = n; field_type = t; member = k; required_len = l }

abbrev pub parser_fields : List Field
parser_fields =
    field (codes "checksum") hex checksum 64
    ∷ field (codes "data") hex encrypted_blob 64
    ∷ field (codes "id") hex id 8
    ∷ field (codes "kdf") string pbkdf_alg 0
    ∷ field (codes "rounds") uint rounds 0
    ∷ field (codes "salt") hex salt 16
    ∷ field (codes "version") uint version 0
    ∷ []

-- `strncmp(a, b, n)` where `a` has `n` bytes and `b` ends in a NUL.
unfoldable pub strncmp : Bytes → Bytes → Ordering
strncmp [] b = Ordering.eq
strncmp (x ∷ a) [] = compare x 0
strncmp (x ∷ a) (y ∷ b) = elim (compare x y) [
  | Ordering.eq ↦ if x == 0 then Ordering.eq else strncmp a b
  | other ↦ other
]

-- `bsearch` of the C library, between the indices `lo` and `hi`; each round halves the range, so
-- three rounds are enough for seven fields.
nth_field : List Field → ℕ → Option Field
nth_field [] i = none
nth_field (f ∷ fs) zero = some f
nth_field (f ∷ fs) (suc i) = nth_field fs i

bsearch : ℕ → ℕ → ℕ → Bytes → Option Field
bsearch zero lo hi key = none
bsearch (suc fuel) lo hi key = elim (nth_field parser_fields ((lo + hi) / 2)) [
  | none ↦ none
  | some f ↦ elim (strncmp key f.field_name) [
    | Ordering.eq ↦ some f
    | Ordering.lt ↦
        let below = bsearch fuel lo ((lo + hi) / 2) key in
        if ltb lo ((lo + hi) / 2) then below else none
    | Ordering.gt ↦
        let above = bsearch fuel ((lo + hi) / 2 + 1) hi key in
        if ltb ((lo + hi) / 2 + 1) hi then above else none
  ]
]

unfoldable pub find_field : Bytes → Option Field
unfolding bsearch nth_field
find_field = bsearch 3 0 7

abbrev pub ulong_max : ℕ
ulong_max = 0xffffffffffffffff

-- A write to a member of the kind `HEX`, `UINT` or `STRING`.
unfoldable pub set_bytes : Member → Bytes → PrivateKey → PrivateKey
set_bytes checksum b k = record k { checksum = some b }
set_bytes encrypted_blob b k = record k { encrypted_blob = some b }
set_bytes id b k = record k { id = some b }
set_bytes pbkdf_alg b k = record k { pbkdf_alg = some b }
set_bytes salt b k = record k { salt = some b }
set_bytes _ b k = k

unfoldable pub set_uint : Member → ℕ → PrivateKey → PrivateKey
set_uint rounds n k = record k { rounds = n }
set_uint version n k = record k { version = n }
set_uint _ n k = k

-- The bytes that are copied, the first of them overwritten by `**dests = '\0'`.
unfoldable pub stored_string : Bytes → Bytes
stored_string val = 0 ∷ drop 1 val

store_hex : Member → HexResult → PrivateKey → Option PrivateKey
store_hex f r k = if r.erange then none else some (set_bytes f r.bin k)

-- The value is cut to an `unsigned int`.
store_uint : Member → Number → PrivateKey → Option PrivateKey
store_uint f n k = if n.range then none else some (set_uint f (n.value % 2 ^ 32) k)

-- `asignify_private_data_parse_value` on the bytes `val`, `rest` behind them; none is false.
store_value : FieldType → Bytes → Bytes → Field → PrivateKey → Option PrivateKey
unfolding set_bytes set_uint stored_string store_hex store_uint
store_value string val rest f k = some (set_bytes f.member (stored_string val) k)
store_value hex val rest f k =
    if not (length val / 2 == f.required_len)
    then none
    else store_hex f.member (hex2bin (length val / 2) val) k
store_value uint val rest f k = store_uint f.member (strtoul ulong_max (val ++ rest)) k

unfoldable pub parse_value : Bytes → Bytes → Field → PrivateKey → Option PrivateKey
unfolding store_value
parse_value val rest f k = store_value f.field_type val rest f k
