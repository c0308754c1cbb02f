-- ===== src/Verify/Machine.antt =====
-- `asignify_verify_parse_files` of libasignify/verify.c. The pointers `c` and `p` into the text
-- are the bytes from `c` to `p` and the bytes from `p` to the NUL at `end`, that one included; `p`
-- is beyond `end` when none is left. A pointer to the current file is its key in the table.
pub mod Reach
pub mod Termination
pub mod Line
use asignify.Base.{
  ℕ, zero, suc, ◌+◌, ◌*◌, length, Bool, true, false, not, ◌&&◌, ◌||◌, Option, none, some,
}
use asignify.Base.{List, [], ◌∷◌, ◌++◌, Bytes, ◌==◌, if◌then◌else◌}
use asignify.Libc.{isspace, isgraph, isxdigit}
use asignify.Util.Digest.{DigestType}
use asignify.Data.{File}
use asignify.Verify.Digest.{digest_from_str, parse_digest}
use asignify.Verify.Files.{FileTable, get_file, put_file, set_file}

pub data State : Type 0 where
  start alg obrace file eqsign hash spaces error finish : State

pub record Parser : Type 0 where
  pub state : State
  pub next_state : State
  pub tok : Bytes
  pub rest : Bytes
  pub dig_type : DigestType
  pub cur_file : Option Bytes
  pub files : FileTable

-- What one pass of the `while` does: it goes on, or the function returns, and sets the context's
-- error if it returns false out of `PARSE_ERROR`.
pub data Pass : Type 0 where
  goes : Parser → Pass
  returns : Bool → Bool → FileTable → Pass

-- `p ++` past the byte `x`.
abbrev pub advance : Parser → ℕ → Bytes → Parser
advance p x rest = record p { tok = p.tok ++ x ∷ []; rest = rest }

abbrev pub goto : State → Parser → Pass
goto s p = goes (record p { state = s })

abbrev pub fail : Parser → Pass
fail p = goto error p

abbrev pub skip_to : State → Parser → Pass
skip_to s p = goes (record p { state = spaces; next_state = s })

abbrev pub is_max : DigestType → Bool
is_max DigestType.max = true
is_max _ = false

step_start : Parser → ℕ → Pass
step_start p x =
    let q = record p { cur_file = none } in
    if x == 0
    then goto finish q
    else if isspace x
    then skip_to start q
    else goto alg (record q { tok = [] })

-- At the space behind an algorithm's name.
pub close_alg : Parser → DigestType → Pass
close_alg p type =
    let q = record p { dig_type = type } in if is_max type then fail q else skip_to obrace q

step_alg : Parser → ℕ → Bytes → Pass
unfolding close_alg
step_alg p x rest =
    if isgraph x
    then goes (advance p x rest)
    else if x == b' '
    then close_alg p (digest_from_str p.tok)
    else fail p

unfoldable pub new_file : Bytes → File
new_file name = record { fname = name; digests = []; size = 0 }

-- The file of this name, made if it is not in the table yet.
unfoldable pub enter_file : Bytes → FileTable → FileTable
unfolding new_file
enter_file name files = elim (get_file name files) [
  | some f ↦ files
  | none ↦ put_file (new_file name) files
]

-- At the `)` behind a name.
pub close_name : Parser → Bytes → Pass
unfolding enter_file
close_name p rest = elim p.tok [
  | [] ↦ fail p
  | c ∷ name ↦ skip_to eqsign (record p {
    tok = [];
    rest = rest;
    cur_file = some (c ∷ name);
    files = enter_file (c ∷ name) p.files;
  })
]

step_file : Parser → ℕ → Bytes → Pass
unfolding close_name
step_file p x rest =
    if isgraph x && not (x == b')')
    then goes (advance p x rest)
    else if x == b')'
    then close_name p rest
    else goes p

pub current_file : Option Bytes → FileTable → Option File
current_file none files = none
current_file (some name) files = get_file name files

-- At the end of a line.
pub close_digest : Parser → Pass
unfolding current_file
close_digest p = elim (parse_digest p.tok p.rest p.dig_type (current_file p.cur_file p.files)) [
  | none ↦ fail p
  | some f ↦ goto start (record p { files = set_file f p.files })
]

step_hash : Parser → ℕ → Bytes → Pass
unfolding close_digest
step_hash p x rest =
    if isxdigit x
    then goes (advance p x rest)
    else if x == b'\n' || x == 0
    then close_digest p
    else goes p

step_spaces : Parser → ℕ → Bytes → Pass
step_spaces p x rest =
    if not (x == 0) && isspace x
    then goes (advance p x rest)
    else goto p.next_state (record p { tok = [] })

-- The `switch`, at the byte `x` and what follows it.
unfoldable pub step_in : State → Parser → ℕ → Bytes → Pass
unfolding step_start step_alg step_file step_hash step_spaces
step_in start p x rest = step_start p x
step_in alg p x rest = step_alg p x rest
step_in obrace p x rest =
    if x == b'(' then goto file (record p { tok = []; rest = rest }) else fail p
step_in file p x rest = step_file p x rest
step_in eqsign p x rest =
    if x == b'=' then skip_to hash (record p { tok = []; rest = rest }) else fail p
step_in hash p x rest = step_hash p x rest
step_in spaces p x rest = step_spaces p x rest
step_in finish p x rest = returns true false p.files
step_in error p x rest = returns false true p.files

-- One pass of the `while`; with no byte left the loop is over.
unfoldable pub step : Parser → Pass
unfolding step_in
step p = elim p.rest [ [] ↦ returns false false p.files | x ∷ rest ↦ step_in p.state p x rest ]

-- What the function returns, whether it sets the context's error, and the table.
pub record Parsed : Type 0 where
  pub accepted : Bool
  pub bad_format : Bool
  pub files : FileTable

-- At most so many passes; none if the loop still runs.
unfoldable pub run : ℕ → Parser → Option Parsed
run zero p = none
run (suc fuel) p = elim (step p) [
  | goes q ↦ run fuel q
  | returns a e files ↦ some (record { accepted = a; bad_format = e; files = files })
]

-- The parser at the start of `text`, with the NUL that stands behind it.
unfoldable pub initial : FileTable → Bytes → Parser
initial files text = record {
  state = start;
  next_state = start;
  tok = [];
  rest = text ++ 0 ∷ [];
  dig_type = DigestType.max;
  cur_file = none;
  files = files;
}

-- The function on `text`, with a bound on the passes that every run which ends keeps to (see
-- Termination.antt): none means that the loop runs for ever.
unfoldable pub parse_files : FileTable → Bytes → Option Parsed
parse_files files text = run (5 * length text + 9) (initial files text)
