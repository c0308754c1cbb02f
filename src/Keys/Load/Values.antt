-- ===== src/Keys/Load/Values.antt =====
-- No value of a key file, stored by `asignify_private_data_parse_value`, makes the name of the
-- derivation the one that is known.
use asignify.Base.{ℕ, ◌≡◌, refl, sym, ◌∙◌, arith}
use asignify.Base.{
  Bool, true, false, not, Option, none, some, List, [], ◌∷◌, Bytes, ◌==◌, if◌then◌else◌, length,
}
use asignify.Base.{bytes_eq, c_string, All, ◌++◌, ◌/◌, ◌%◌, ◌^◌}
use asignify.Libc.Decimal.{strtoul}
use asignify.Util.Hex.{hex2bin}
use asignify.Data.{PrivateKey}
use asignify.Keys.Fields.{
  FieldType, Member, Field, find_field, parse_value, stored_string, set_bytes, set_uint,
}
use asignify.Keys.Fields.{field, parser_fields, ulong_max}
use asignify.Keys.Fields.Search.{first_match, find_field-first_match}
use asignify.Keys.Load.{names_pbkdf}

-- The name of the derivation, if any, is not that of the only one that is known.
abbrev pub Unnamed : PrivateKey → Type 0
Unnamed k = names_pbkdf k.pbkdf_alg ≡ false

abbrev pub Keeps : Option PrivateKey → Type 0
Keeps none = Unit
Keeps (some k) = Unnamed k

is_kdf : Member → Bool
is_kdf Member.pbkdf_alg = true
is_kdf _ = false

-- Only a field of the kind `STRING` writes the name of the derivation.
pub is_separate : Field → Bool
unfolding is_kdf
is_separate f = elim f.field_type [
  | FieldType.string ↦ true
  | FieldType.uint ↦ not (is_kdf f.member)
  | FieldType.hex ↦ not (is_kdf f.member)
]

set_bytes-Unnamed_string :
    (m : Member) (b : Bytes) (k : PrivateKey)
    → Unnamed k
    → Unnamed (set_bytes m (stored_string b) k)
unfolding set_bytes names_pbkdf stored_string bytes_eq c_string
set_bytes-Unnamed_string Member.pbkdf_alg b k u = refl
set_bytes-Unnamed_string _ b k u = u

set_bytes-Unnamed :
    (m : Member) (b : Bytes) (k : PrivateKey)
    → is_kdf m ≡ false
    → Unnamed k
    → Unnamed (set_bytes m b k)
unfolding is_kdf set_bytes
set_bytes-Unnamed Member.pbkdf_alg b k s u = cc
set_bytes-Unnamed _ b k s u = u

set_uint-Unnamed : (m : Member) (n : ℕ) (k : PrivateKey) → Unnamed k → Unnamed (set_uint m n k)
unfolding set_uint
set_uint-Unnamed Member.rounds n k u = u
set_uint-Unnamed Member.version n k u = u
set_uint-Unnamed _ n k u = u

unless-Keeps : (b : Bool) (r : Option PrivateKey) → Keeps r → Keeps (if b then none else r)
unless-Keeps true r h = tt
unless-Keeps false r h = h

module _ (val rest : Bytes) (k : PrivateKey) (u : Unnamed k) where
  field-Keeps :
      (n : Bytes) (t : FieldType) (m : Member) (l : ℕ)
      → is_separate (field n t m l) ≡ true
      → Keeps (parse_value val rest (field n t m l) k)
  unfolding parse_value is_separate
  field-Keeps n FieldType.string m l s = set_bytes-Unnamed_string m val k u
  field-Keeps n FieldType.uint m l s =
      let number = strtoul ulong_max (val ++ rest) in
      unless-Keeps number.range (some (set_uint m (number.value % 2 ^ 32) k))
        (set_uint-Unnamed m (number.value % 2 ^ 32) k u)
  field-Keeps n FieldType.hex m l s =
      let r = hex2bin (length val / 2) val in
      unless-Keeps (not (length val / 2 == l))
        (if r.erange then none else some (set_bytes m r.bin k))
        (unless-Keeps r.erange (some (set_bytes m r.bin k))
          (set_bytes-Unnamed m r.bin k (ground (arith, s)) u))

  pub parse_value-Keeps : (f : Field) → is_separate f ≡ true → Keeps (parse_value val rest f k)
  parse_value-Keeps f = field-Keeps f.field_name f.field_type f.member f.required_len

first_match-is_separate :
    (key : Bytes) (fs : List Field)
    → All (λ f. is_separate f ≡ true) fs
    → (f : Field) → first_match key fs ≡ some f
    → is_separate f ≡ true
first_match-is_separate key [] h g e = cc
first_match-is_separate key (f ∷ fs) h g e =
    ground (arith, h.0, first_match-is_separate key fs h.1 g)

pub find_field-is_separate :
    (c : ℕ) (name : Bytes) (f : Field) → find_field (c ∷ name) ≡ some f → is_separate f ≡ true
find_field-is_separate c name f e =
    first_match-is_separate (c ∷ name) parser_fields (unfold is_separate is_kdf in ground arith) f
      (sym (find_field-first_match c name) ∙ e)
