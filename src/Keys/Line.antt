-- ===== src/Keys/Line.antt =====
-- `asignify_private_data_parse_line` of libasignify/databuf.c. The pointers `c` and `p` are the
-- bytes from `c` to `p` and those from `p` to `end`.
pub mod Termination
pub mod Parts
use asignify.Base.{ℕ, zero, suc, ◌+◌, ◌*◌, length, Bool, true, false, not, Option, none, some}
use asignify.Base.{List, [], ◌∷◌, ◌++◌, Bytes, ◌==◌, if◌then◌else◌}
use asignify.Libc.{isspace, isgraph, isdigit, isxdigit}
use asignify.Data.{PrivateKey}
use asignify.Keys.Fields.{FieldType, Field, find_field, parse_value}

pub data State : Type 0 where
  name semicolon value spaces error : State

pub record Parser : Type 0 where
  pub state : State
  pub next_state : State
  pub tok : Bytes
  pub rest : Bytes
  pub parser : Option Field
  pub privk : PrivateKey

pub data Pass : Type 0 where
  goes : Parser → Pass
  returns : Option PrivateKey → Pass

abbrev pub advance : Parser → ℕ → Bytes → Parser
advance p x rest = record p { tok = p.tok ++ x ∷ []; rest = rest }

abbrev pub goto : State → Parser → Pass
goto s p = goes (record p { state = s })

-- At the colon behind a name.
unfoldable pub close_name : Parser → Bytes → Pass
close_name p [] = goto error p
close_name p tok = elim (find_field tok) [
  | none ↦ goto error (record p { parser = none })
  | some f ↦ goto semicolon (record p { parser = some f })
]

step_name : Parser → ℕ → Bytes → Pass
step_name p x rest =
    if x == b':'
    then close_name p p.tok
    else if not (isgraph x)
    then goto error p
    else goes (advance p x rest)

-- At the newline behind a value: `parser = NULL` comes last.
unfoldable pub close_value : Parser → Field → Pass
close_value p f = elim (parse_value p.tok p.rest f p.privk) [
  | none ↦ goto error (record p { parser = none })
  | some k ↦ goes (record p { state = spaces; next_state = name; parser = none; privk = k })
]

-- The bytes that a value of the type may hold.
abbrev pub value_char : FieldType → ℕ → Bool
value_char FieldType.uint x = isdigit x
value_char FieldType.hex x = isxdigit x
value_char FieldType.string x = true

step_value : Option Field → Parser → ℕ → Bytes → Pass
step_value none p x rest = goto error p
step_value (some f) p x rest =
    if x == b'\n'
    then close_value p f
    else if not (value_char f.field_type x)
    then goto error p
    else goes (advance p x rest)

unfoldable pub step_in : State → Parser → ℕ → Bytes → Pass
unfolding step_name step_value
step_in name p x rest = step_name p x rest
step_in semicolon p x rest =
    if x == b':'
    then goes (record p { state = spaces; next_state = value; tok = p.tok ++ x ∷ []; rest = rest })
    else goto error p
step_in value p x rest = step_value p.parser p x rest
step_in spaces p x rest =
    if isspace x then goes (advance p x rest) else goto p.next_state (record p { tok = [] })
step_in error p x rest = returns none

-- `return (state == PARSE_SPACES)` behind the loop.
abbrev pub at_end : State → PrivateKey → Option PrivateKey
at_end spaces k = some k
at_end _ k = none

unfoldable pub step : Parser → Pass
unfolding step_in
step p = elim p.rest [ [] ↦ returns (at_end p.state p.privk) | x ∷ rest ↦ step_in p.state p x rest ]

-- At most so many passes: the outer none if the loop still runs, the inner one for false.
unfoldable pub run : ℕ → Parser → Option (Option PrivateKey)
run zero p = none
run (suc fuel) p = elim (step p) [ goes q ↦ run fuel q | returns r ↦ some r ]

abbrev pub initial : Bytes → PrivateKey → Parser
initial buf k = record {
  state = name;
  next_state = name;
  tok = [];
  rest = buf;
  parser = none;
  privk = k;
}

-- The line `buf`; every line ends within the bound (see Termination.antt).
unfoldable pub parse_line : Bytes → PrivateKey → Option PrivateKey
parse_line buf k = elim (run (5 * length buf + 4) (initial buf k)) [ none ↦ none | some r ↦ r ]
