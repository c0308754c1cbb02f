-- ===== src/Keys/Fields/Search.antt =====
-- The binary search finds the field that a linear search finds.
use Prim.Native.Nat.{Ordering}
use asignify.Base.{ℕ, ◌≡◌, arith, Option, none, some, List, [], ◌∷◌, Bytes}
use asignify.Keys.Fields.{Field, parser_fields, strncmp, find_field}

-- The first field that the comparison takes for equal.
abbrev pub first_match : Bytes → List Field → Option Field
first_match key [] = none
first_match key (f ∷ fs) = elim (strncmp key f.field_name) [
  | Ordering.eq ↦ some f
  | _ ↦ first_match key fs
]

-- On every name that is not empty the search finds what a search from the front finds: the table
-- is sorted as the comparison wants it, though that looks at the length of the name only.
pub find_field-first_match :
    (c : ℕ) (name : Bytes) → find_field (c ∷ name) ≡ first_match (c ∷ name) parser_fields
unfolding find_field strncmp
find_field-first_match c name = ground arith
