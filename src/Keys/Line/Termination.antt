-- ===== src/Keys/Line/Termination.antt =====
-- Every line of a key file is parsed in a number of passes linear in its length.
use asignify.Base.{ℕ, zero, suc, ◌+◌, ◌*◌, ◌≤◌, ◌<◌, ◌≡◌, refl, arith, inl, inr, Bool-cases}
use asignify.Base.{Bool, true, false, Option, none, some, [], ◌∷◌}
use asignify.Base.{Bytes, ◌==◌, if◌then◌else◌, length}
use asignify.Libc.{isspace}
use asignify.Data.{PrivateKey}
use asignify.Keys.Fields.{Field}
use asignify.Keys.Line.{State, name, semicolon, value, spaces, error, Parser, Pass, goes, returns}
use asignify.Keys.Line.{close_name, close_value, step_in, step, run, initial, parse_line}

abbrev rank : State → Bytes → ℕ
rank name (x ∷ rest) = if x == b':' then 2 else 1
rank semicolon (x ∷ rest) = 1
rank value (x ∷ rest) = 1
rank _ _ = 0

abbrev spaces_rank : State → State → Bytes → ℕ
spaces_rank spaces n [] = 0
spaces_rank spaces n (x ∷ rest) = if isspace x then 0 else 1 + rank n (x ∷ rest)
spaces_rank s n rest = rank s rest

abbrev weight : Parser → ℕ
weight p = 5 * length p.rest + spaces_rank p.state p.next_state p.rest

abbrev ready : State → Bool
ready spaces = false
ready _ = true

abbrev Progress : Parser → Pass → Type 0
Progress p (returns _) = Unit
Progress p (goes q) = (weight q < weight p) × (ready q.next_state ≡ true)

rank-le : (s : State) (rest : Bytes) → rank s rest ≤ 2
rank-le name [] = omega arith
rank-le name (x ∷ rest) = ground arith
rank-le _ [] = omega arith
rank-le _ (x ∷ rest) = omega arith

spaces_rank-le : (s n : State) (rest : Bytes) → spaces_rank s n rest ≤ 3
spaces_rank-le spaces n [] = omega arith
spaces_rank-le spaces n (x ∷ rest) = ground (arith, rank-le n (x ∷ rest))
spaces_rank-le s n rest = omega (arith, rank-le s rest)

module _ (tok : Bytes) (privk : PrivateKey) where
  abbrev at : State → State → Option Field → Bytes → Parser
  at s n f rest = record {
    state = s;
    next_state = n;
    tok = tok;
    rest = rest;
    parser = f;
    privk = privk;
  }

  close_name-Progress :
      (n : State) (f : Option Field) (x : ℕ) (rest t : Bytes)
      → ready n ≡ true
      → (x == b':') ≡ true
      → Progress (at name n f (x ∷ rest)) (close_name (at name n f (x ∷ rest)) t)
  unfolding close_name
  close_name-Progress n f x rest [] h colon = ground arith
  close_name-Progress n f x rest (c ∷ t) h colon = ground arith

  step_name-Progress :
      (n : State) (f : Option Field) (x : ℕ) (rest : Bytes)
      → ready n ≡ true
      → (x == b':') ≡ false
      → Progress (at name n f (x ∷ rest)) (step_in name (at name n f (x ∷ rest)) x rest)
  unfolding step_in
  step_name-Progress n f x rest h other = ground (arith, spaces_rank-le name n rest)

  close_value-Progress :
      (n : State) (f : Field) (x : ℕ) (rest : Bytes)
      → ready n ≡ true
      → (x == b'\n') ≡ true
      → Progress (at value n (some f) (x ∷ rest)) (close_value (at value n (some f) (x ∷ rest)) f)
  unfolding close_value isspace
  close_value-Progress n f x rest h newline = ground arith

  step_value-Progress :
      (n : State) (f : Field) (x : ℕ) (rest : Bytes)
      → ready n ≡ true
      → (x == b'\n') ≡ false
      → Progress
          (at value n (some f) (x ∷ rest))
          (step_in value (at value n (some f) (x ∷ rest)) x rest)
  unfolding step_in
  step_value-Progress n f x rest h other = ground (arith, spaces_rank-le value n rest)

  step_in-Progress :
      (s n : State) (f : Option Field) (x : ℕ) (rest : Bytes)
      → ready n ≡ true
      → Progress (at s n f (x ∷ rest)) (step_in s (at s n f (x ∷ rest)) x rest)
  unfolding step_in isspace
  step_in-Progress name n f x rest h = elim (Bool-cases (x == b':')) [
    | inl colon ↦ rw (colon, step_in) (close_name-Progress n f x rest tok h colon)
    | inr other ↦ step_name-Progress n f x rest h other
  ]
  step_in-Progress semicolon n f x rest h = ground (arith, spaces_rank-le spaces value rest)
  step_in-Progress value n none x rest h = ground arith
  step_in-Progress value n (some f) x rest h = elim (Bool-cases (x == b'\n')) [
    | inl newline ↦ rw (newline, step_in) (close_value-Progress n f x rest h newline)
    | inr other ↦ step_value-Progress n f x rest h other
  ]
  step_in-Progress spaces name f x rest h = ground (arith, spaces_rank-le spaces name rest)
  step_in-Progress spaces spaces f x rest h = cc
  step_in-Progress spaces n f x rest h = ground (arith, spaces_rank-le spaces n rest)
  step_in-Progress error n f x rest h = tt

  at-Progress :
      (s n : State) (f : Option Field) (rest : Bytes)
      → ready n ≡ true
      → Progress (at s n f rest) (step (at s n f rest))
  unfolding step
  at-Progress s n f [] h = tt
  at-Progress s n f (x ∷ rest) h = step_in-Progress s n f x rest h

step-Progress : (p : Parser) → ready p.next_state ≡ true → Progress p (step p)
step-Progress p h = at-Progress p.tok p.privk p.state p.next_state p.parser p.rest h

run-ends :
    (fuel : ℕ) (p : Parser)
    → ready p.next_state ≡ true
    → weight p < fuel
    → (r : Option PrivateKey) × (run fuel p ≡ some r)
unfolding run
run-ends zero p h w = absurd (omega arith)
run-ends (suc fuel) p h w =
    go (step p) refl (step-Progress p h) (λ q less r. run-ends fuel q r (omega arith))
  where
    go :
        (m : Pass)
        → step p ≡ m
        → Progress p m
        → ((q : Parser)
            → weight q < weight p
            → ready q.next_state ≡ true
            → (r : Option PrivateKey) × (run fuel q ≡ some r))
        → (r : Option PrivateKey) × (run (suc fuel) p ≡ some r)
    go (returns r) e g ih = (r, rw (e, run) refl)
    go (goes q) e (less, r) ih = let (t, d) = ih q less r in (t, rw (e, run) d)

run_agrees :
    (f g : ℕ) (p : Parser) (r t : Option PrivateKey) → run f p ≡ some r → run g p ≡ some t → r ≡ t
unfolding run
run_agrees zero g p r t e d = cc
run_agrees (suc f) zero p r t e d = cc
run_agrees (suc f) (suc g) p r t e d = go (step p) refl (run_agrees f g)
  where
    go :
        (m : Pass)
        → step p ≡ m
        → ((q : Parser) (r t : Option PrivateKey) → run f q ≡ some r → run g q ≡ some t → r ≡ t)
        → r ≡ t
    go (returns k) s ih = let left = rw (s, run) at e in let right = rw (s, run) at d in cc
    go (goes q) s ih = ih q r t (rw (s, run) at e) (rw (s, run) at d)

-- The loop over a line of a key file ends on every line, and returns what `parse_line` returns.
pub parse_line_total :
    (buf : Bytes) (k : PrivateKey)
    → (fuel : ℕ) × (run fuel (initial buf k) ≡ some (parse_line buf k))
unfolding parse_line
parse_line_total buf k =
    let (r, ends) =
      run-ends (5 * length buf + 4) (initial buf k) refl (omega (arith, rank-le name buf)) in
    let value_is : parse_line buf k ≡ r = rw (ends, parse_line) in
    (5 * length buf + 4, rw value_is ends)

-- The bound of `parse_line` loses nothing: whatever any number of passes returns, it returns.
pub parse_line_complete :
    (fuel : ℕ) (buf : Bytes) (k : PrivateKey) {r : Option PrivateKey}
    → run fuel (initial buf k) ≡ some r
    → parse_line buf k ≡ r
parse_line_complete fuel buf k {r} e =
    let (bound, ends) = parse_line_total buf k in
    run_agrees bound fuel (initial buf k) (parse_line buf k) r ends e
