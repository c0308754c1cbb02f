-- ===== src/Keys/Load/Unnamed.antt =====
-- A line of a key file, read by `asignify_private_data_parse_line`, never makes the name of the
-- derivation the one that is known.
use asignify.Base.{ℕ, zero, suc, ◌≡◌, refl}
use asignify.Base.{true, not, Option, none, some, [], ◌∷◌, Bytes, ◌==◌}
use asignify.Libc.{isgraph, isspace}
use asignify.Base.{Bool-cases, inl, inr}
use asignify.Data.{PrivateKey}
use asignify.Keys.Fields.{Field, find_field, parse_value}
use asignify.Keys.Line.{
  State, Parser, Pass, goes, returns, close_name, close_value, step_in, step, run, initial,
  parse_line, at_end, value_char,
}
use asignify.Keys.Line.Termination.{parse_line_total}
use asignify.Keys.Load.Values.{
  Unnamed, Keeps, is_separate, find_field-is_separate, parse_value-Keeps,
}

-- The field that is found is one of the table, in every pass.
abbrev Sound : Option Field → Type 0
Sound none = Unit
Sound (some f) = is_separate f ≡ true

record IsKept (p : Parser) : Type 0 where
  kept : Unnamed p.privk
  sound : Sound p.parser

abbrev KeptPass : Pass → Type 0
KeptPass (goes q) = IsKept q
KeptPass (returns r) = Keeps r

abbrev at : State → State → Bytes → Bytes → Option Field → PrivateKey → Parser
at s n tok rest f k = record {
  state = s;
  next_state = n;
  tok = tok;
  rest = rest;
  parser = f;
  privk = k;
}

module _ (n : State) (rest : Bytes) (k : PrivateKey) (u : Unnamed k) where
  close_name-Kept :
      (tok t : Bytes) (f : Option Field)
      → Sound f
      → KeptPass (close_name (at State.name n tok rest f k) t)
  unfolding close_name
  close_name-Kept tok [] f h = record { kept = u; sound = h }
  close_name-Kept tok (c ∷ t) f h = go (find_field (c ∷ t)) refl
    where
      go :
          (r : Option Field)
          → find_field (c ∷ t) ≡ r
          → KeptPass (close_name (at State.name n tok rest f k) (c ∷ t))
      go none e = rw (e, close_name) (record { kept = u; sound = tt })
      go (some g) e =
          rw (e, close_name) (record { kept = u; sound = find_field-is_separate c t g e })

  close_value-Kept :
      (tok : Bytes) (f : Field)
      → is_separate f ≡ true
      → KeptPass (close_value (at State.value n tok rest (some f) k) f)
  unfolding close_value
  close_value-Kept tok f h = go (parse_value tok rest f k) refl (parse_value-Keeps tok rest k u f h)
    where
      go :
          (r : Option PrivateKey)
          → parse_value tok rest f k ≡ r
          → Keeps r
          → KeptPass (close_value (at State.value n tok rest (some f) k) f)
      go none e v = rw (e, close_value) (record { kept = u; sound = tt })
      go (some k') e v = rw (e, close_value) (record { kept = v; sound = tt })

step_in-Kept :
    (s n : State) (tok : Bytes) (x : ℕ) (rest : Bytes) (f : Option Field) (k : PrivateKey)
    → Unnamed k
    → Sound f
    → KeptPass (step_in s (at s n tok (x ∷ rest) f k) x rest)
unfolding step_in
step_in-Kept State.name n tok x rest f k u h = elim (Bool-cases (x == b':')) [
  | inl colon ↦ rw (colon, step_in) (close_name-Kept n (x ∷ rest) k u tok tok f h)
  | inr other ↦ elim (Bool-cases (not (isgraph x))) [
    | inl bad ↦ rw (other, step_in, bad) (record { kept = u; sound = h })
    | inr good ↦ rw (other, step_in, good) (record { kept = u; sound = h })
  ]
]
step_in-Kept State.semicolon n tok x rest f k u h = elim (Bool-cases (x == b':')) [
  | inl colon ↦ rw (colon, step_in) (record { kept = u; sound = h })
  | inr other ↦ rw (other, step_in) (record { kept = u; sound = h })
]
step_in-Kept State.value n tok x rest none k u h = record { kept = u; sound = tt }
step_in-Kept State.value n tok x rest (some f) k u h = elim (Bool-cases (x == b'\n')) [
  | inl newline ↦ rw (newline, step_in) (close_value-Kept n (x ∷ rest) k u tok f h)
  | inr other ↦ elim (Bool-cases (not (value_char f.field_type x))) [
    | inl bad ↦ rw (other, step_in, bad) (record { kept = u; sound = h })
    | inr good ↦ rw (other, step_in, good) (record { kept = u; sound = h })
  ]
]
step_in-Kept State.spaces n tok x rest f k u h = elim (Bool-cases (isspace x)) [
  | inl space ↦ rw (space, step_in) (record { kept = u; sound = h })
  | inr other ↦ rw (other, step_in) (record { kept = u; sound = h })
]
step_in-Kept State.error n tok x rest f k u h = tt

at_end-Keeps : (s : State) (k : PrivateKey) → Unnamed k → Keeps (at_end s k)
at_end-Keeps State.spaces k u = u
at_end-Keeps _ k u = tt

step-Kept :
    (s n : State) (tok rest : Bytes) (f : Option Field) (k : PrivateKey)
    → Unnamed k
    → Sound f
    → KeptPass (step (at s n tok rest f k))
unfolding step
step-Kept s n tok [] f k u h = at_end-Keeps s k u
step-Kept s n tok (x ∷ rest) f k u h = step_in-Kept s n tok x rest f k u h

run-Keeps :
    (fuel : ℕ) (p : Parser) (r : Option PrivateKey) → IsKept p → run fuel p ≡ some r → Keeps r
unfolding run
run-Keeps zero p r h e = cc
run-Keeps (suc fuel) p r h e =
    go (step p) refl (step-Kept p.state p.next_state p.tok p.rest p.parser p.privk h.kept h.sound)
      (λ q i d. run-Keeps fuel q r i d)
  where
    go :
        (m : Pass)
        → step p ≡ m
        → KeptPass m
        → ((q : Parser) → IsKept q → run fuel q ≡ some r → Keeps r)
        → Keeps r
    go (goes q) t i later = later q i (rw (t, run) at e)
    go (returns r') t i later = let same : r' ≡ r = (let d = rw (t, run) at e in cc) in rw same at i

pub parse_line-Keeps : (buf : Bytes) (k : PrivateKey) → Unnamed k → Keeps (parse_line buf k)
parse_line-Keeps buf k u =
    let (fuel, ends) = parse_line_total buf k in
    run-Keeps fuel (initial buf k) (parse_line buf k) (record { kept = u; sound = tt }) ends
