-- ===== src/Keys/Line/Parts.antt =====
-- A line `name: value` as the writer of key files makes it stores its value.
use asignify.Base.{ℕ, suc, ◌≡◌, refl, arith}
use asignify.Base.{
  Bool, true, false, not, ◌&&◌, Option, none, some, [], ◌∷◌, ◌++◌, append-nil, append_assoc,
}
use asignify.Base.{Bytes, All, ◌==◌}
use asignify.Libc.{isspace, isgraph}
use asignify.Data.{PrivateKey}
use asignify.Keys.Fields.{FieldType, Field, find_field, parse_value}
use asignify.Keys.Line.{State, name, semicolon, value, spaces, Parser, goes, value_char}
use asignify.Keys.Line.{close_name, close_value, step, run, parse_line}
use asignify.Keys.Line.Termination.{parse_line_complete}

-- The loop ends from `p` with the result `r`.
record Ends (p : Parser) (r : Option PrivateKey) : Type 0 where
  fuel : ℕ
  ends : run fuel p ≡ some r

Ends-pass : {p q : Parser} {r : Option PrivateKey} → step p ≡ goes q → Ends q r → Ends p r
unfolding run
Ends-pass s e = record { fuel = suc e.fuel; ends = rw (s, run) e.ends }

abbrev parser : State → State → Bytes → Bytes → Option Field → PrivateKey → Parser
parser s n tok rest f k = record {
  state = s;
  next_state = n;
  tok = tok;
  rest = rest;
  parser = f;
  privk = k;
}

-- The bytes of a name, and of a value of the type.
abbrev pub name_char : ℕ → Bool
name_char c = isgraph c && not (c == b':')

abbrev pub plain_char : FieldType → ℕ → Bool
plain_char t c = value_char t c && not (c == b'\n')

module _ (n : State) (k : PrivateKey) {r : Option PrivateKey} where
  name-Ends :
      (f : Option Field) (tok text rest : Bytes)
      → All (λ c. name_char c ≡ true) text
      → Ends (parser name n (tok ++ text) rest f k) r
      → Ends (parser name n tok (text ++ rest) f k) r
  name-Ends f tok [] rest h e = rw append-nil at e
  name-Ends f tok (c ∷ text) rest h e =
      Ends-pass (took f tok c (text ++ rest) h.0)
        (name-Ends f (tok ++ c ∷ []) text rest h.1 (rw append_assoc e))
    where
      took :
          (f : Option Field) (tok : Bytes) (c : ℕ) (rest : Bytes)
          → name_char c ≡ true
          → step (parser name n tok (c ∷ rest) f k) ≡ goes (parser name n (tok ++ c ∷ []) rest f k)
      took f tok c rest h = unfold step in ground arith

  value-Ends :
      (f : Field) (tok text rest : Bytes)
      → All (λ c. plain_char f.field_type c ≡ true) text
      → Ends (parser value n (tok ++ text) rest (some f) k) r
      → Ends (parser value n tok (text ++ rest) (some f) k) r
  value-Ends f tok [] rest h e = rw append-nil at e
  value-Ends f tok (c ∷ text) rest h e =
      Ends-pass (took f tok c (text ++ rest) h.0)
        (value-Ends f (tok ++ c ∷ []) text rest h.1 (rw append_assoc e))
    where
      took :
          (f : Field) (tok : Bytes) (c : ℕ) (rest : Bytes)
          → plain_char f.field_type c ≡ true
          → step (parser value n tok (c ∷ rest) (some f) k)
            ≡ goes (parser value n (tok ++ c ∷ []) rest (some f) k)
      took f tok c rest h = unfold step in ground arith

  colon-Ends :
      (f : Field) (c : ℕ) (tok rest : Bytes) (v : ℕ)
      → find_field (c ∷ tok) ≡ some f
      → isspace v ≡ false
      → Ends (parser value value [] (v ∷ rest) (some f) k) r
      → Ends (parser name n (c ∷ tok) (b':' ∷ b' ' ∷ v ∷ rest) none k) r
  colon-Ends f c tok rest v e blank later =
      Ends-pass first (Ends-pass second (Ends-pass third (Ends-pass fourth later)))
    where
      first :
          step (parser name n (c ∷ tok) (b':' ∷ b' ' ∷ v ∷ rest) none k)
          ≡ goes (parser semicolon n (c ∷ tok) (b':' ∷ b' ' ∷ v ∷ rest) (some f) k)
      first = unfold step close_name in rw (e, close_name)

      second :
          step (parser semicolon n (c ∷ tok) (b':' ∷ b' ' ∷ v ∷ rest) (some f) k)
          ≡ goes (parser spaces value (c ∷ tok ++ b':' ∷ []) (b' ' ∷ v ∷ rest) (some f) k)
      second = unfold step in refl

      third :
          step (parser spaces value (c ∷ tok ++ b':' ∷ []) (b' ' ∷ v ∷ rest) (some f) k)
          ≡ goes (parser spaces value (c ∷ tok ++ b':' ∷ [] ++ b' ' ∷ []) (v ∷ rest) (some f) k)
      third = unfold step isspace in refl

      fourth :
          step (parser spaces value (c ∷ tok ++ b':' ∷ [] ++ b' ' ∷ []) (v ∷ rest) (some f) k)
          ≡ goes (parser value value [] (v ∷ rest) (some f) k)
      fourth = unfold step in rw blank

newline-Ends :
    (n : State) (tok : Bytes) (f : Field) (k k' : PrivateKey)
    → parse_value tok (b'\n' ∷ []) f k ≡ some k'
    → Ends (parser value n tok (b'\n' ∷ []) (some f) k) (some k')
newline-Ends n tok f k k' e = Ends-pass first (Ends-pass second (record { fuel = 1; ends = last }))
  where
    first :
        step (parser value n tok (b'\n' ∷ []) (some f) k)
        ≡ goes (parser spaces name tok (b'\n' ∷ []) none k')
    first = unfold step close_value in rw (e, close_value)

    second :
        step (parser spaces name tok (b'\n' ∷ []) none k')
        ≡ goes (parser spaces name (tok ++ b'\n' ∷ []) [] none k')
    second = unfold step isspace in refl

    last : run 1 (parser spaces name (tok ++ b'\n' ∷ []) [] none k') ≡ some (some k')
    last = unfold run step in refl

-- On a line `name: value`, with a graphic name that the table has and a value of the bytes that
-- its type may hold and no space in front, `parse_line` leaves in the key what `parse_value`
-- stores of the value, if it stores it.
pub parse_line-value :
    (c : ℕ) (text : Bytes) (v : ℕ) (val : Bytes) (f : Field) (k k' : PrivateKey)
    → All (λ c. name_char c ≡ true) (c ∷ text)
    → find_field (c ∷ text) ≡ some f
    → isspace v ≡ false
    → All (λ c. plain_char f.field_type c ≡ true) (v ∷ val)
    → parse_value (v ∷ val) (b'\n' ∷ []) f k ≡ some k'
    → parse_line (c ∷ (text ++ b':' ∷ b' ' ∷ v ∷ (val ++ b'\n' ∷ []))) k ≡ some k'
parse_line-value c text v val f k k' graph found blank plain stored =
    let e = name-Ends name k none [] (c ∷ text) (b':' ∷ b' ' ∷ v ∷ (val ++ b'\n' ∷ [])) graph (
      colon-Ends name k f c text _ v found blank (
        value-Ends value k f [] (v ∷ val) (b'\n' ∷ []) plain
          (newline-Ends value (v ∷ val) f k k' stored))) in
    parse_line_complete e.fuel _ k e.ends
