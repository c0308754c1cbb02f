-- ===== src/Verify/Machine/Termination.antt =====
-- The loop of `asignify_verify_parse_files` either ends within a number of passes that is linear
-- in the text, or comes to a pass that changes nothing.
use asignify.Base.{ℕ, zero, suc, ◌+◌, ◌*◌, ◌≤◌, ◌<◌, ◌≡◌, refl, sym, ap, ◌∙◌, arith, ◌⊎◌, inl, inr}
use asignify.Base.{Bool, true, false, not, ◌&&◌, Option, none, some, [], ◌∷◌, ◌++◌}
use asignify.Base.{Bytes, ◌==◌, if◌then◌else◌, length, length-append}
use asignify.Libc.{isspace, isgraph, isxdigit}
use asignify.Util.Digest.{DigestType}
use asignify.Verify.Machine.Reach.{Reaches, here, pass}
use asignify.Verify.Files.{FileTable}
use asignify.Verify.Machine.{State, start, alg, obrace, file, eqsign, hash, spaces, error, finish}
use asignify.Verify.Machine.{
  Parser, Pass, goes, returns, step_in, step, Parsed, run, initial, parse_files,
}

-- How many passes may come before the next byte is taken.
abbrev rank : State → Bytes → ℕ
rank start (x ∷ rest) = if x == 0 then 1 else if isspace x then 1 else 2
rank alg (x ∷ rest) = 1
rank obrace (x ∷ rest) = 1
rank file (x ∷ rest) = 1
rank eqsign (x ∷ rest) = 1
rank hash (x ∷ rest) = 2
rank _ _ = 0

abbrev spaces_rank : State → State → Bytes → ℕ
spaces_rank spaces next [] = 0
spaces_rank spaces next (x ∷ rest) =
    if not (x == 0) && isspace x then 0 else 1 + rank next (x ∷ rest)
spaces_rank s next rest = rank s rest

abbrev weight : Parser → ℕ
weight p = 5 * length p.rest + spaces_rank p.state p.next_state p.rest

-- `next_state` is never `PARSE_SPACES`.
abbrev ready : State → Bool
ready spaces = false
ready _ = true

abbrev Progress : Parser → Pass → Type 0
Progress p (returns _ _ _) = Unit
Progress p (goes q) = ((weight q < weight p) × (ready q.next_state ≡ true)) ⊎ (q ≡ p)

rank-le : (s : State) (rest : Bytes) → rank s rest ≤ 2
rank-le start [] = omega arith
rank-le start (x ∷ rest) = ground arith
rank-le _ [] = omega arith
rank-le _ (x ∷ rest) = omega arith

spaces_rank-le : (s next : State) (rest : Bytes) → spaces_rank s next rest ≤ 3
spaces_rank-le spaces next [] = omega arith
spaces_rank-le spaces next (x ∷ rest) = ground (arith, rank-le next (x ∷ rest))
spaces_rank-le s next rest = omega (arith, rank-le s rest)

module _ (tok : Bytes) (dig_type : DigestType) (cur_file : Option Bytes) (files : FileTable) where
  abbrev at : State → State → Bytes → Parser
  at s n rest = record {
    state = s;
    next_state = n;
    tok = tok;
    rest = rest;
    dig_type = dig_type;
    cur_file = cur_file;
    files = files;
  }

  step_in-Progress :
      (s n : State) (x : ℕ) (rest : Bytes)
      → ready n ≡ true
      → Progress (at s n (x ∷ rest)) (step_in s (at s n (x ∷ rest)) x rest)
  unfolding step_in isspace isgraph isxdigit
  step_in-Progress start n x rest h = ground arith
  step_in-Progress alg n x rest h = ground (arith, spaces_rank-le alg n rest)
  step_in-Progress obrace n x rest h = ground (arith, spaces_rank-le file n rest)
  step_in-Progress file n x rest h =
      ground (arith, spaces_rank-le file n rest, spaces_rank-le spaces eqsign rest)
  step_in-Progress eqsign n x rest h = ground (arith, spaces_rank-le spaces hash rest)
  step_in-Progress hash n x rest h = ground (arith, spaces_rank-le hash n rest)
  step_in-Progress spaces start x rest h = ground (arith, spaces_rank-le spaces start rest)
  step_in-Progress spaces spaces x rest h = cc
  step_in-Progress spaces n x rest h = ground (arith, spaces_rank-le spaces n rest)
  step_in-Progress finish n x rest h = tt
  step_in-Progress error n x rest h = tt

  at-Progress :
      (s n : State) (rest : Bytes) → ready n ≡ true → Progress (at s n rest) (step (at s n rest))
  unfolding step
  at-Progress s n [] h = tt
  at-Progress s n (x ∷ rest) h = step_in-Progress s n x rest h

step-Progress : (p : Parser) → ready p.next_state ≡ true → Progress p (step p)
step-Progress p h = at-Progress p.tok p.dig_type p.cur_file p.files p.state p.next_state p.rest h

-- A pass from a parser that is met changes nothing, so the loop never ends.
pub record RunsForever (p : Parser) : Type 0 where
  pub stuck : Parser
  pub met : Reaches p stuck
  pub idle : step stuck ≡ goes stuck

abbrev Ends : ℕ → Parser → Type 0
Ends fuel p = ((r : Parsed) × (run fuel p ≡ some r)) ⊎ RunsForever p

Ends-next : (fuel : ℕ) {p q : Parser} → step p ≡ goes q → Ends fuel q → Ends (suc fuel) p
unfolding run
Ends-next fuel e (inl (r, h)) = inl (r, rw (e, run) h)
Ends-next fuel e (inr s) = inr (record { stuck = s.stuck; met = pass e s.met; idle = s.idle })

run-Ends : (fuel : ℕ) (p : Parser) → ready p.next_state ≡ true → weight p < fuel → Ends fuel p
unfolding run
run-Ends zero p h w = absurd (omega arith)
run-Ends (suc fuel) p h w =
    go (step p) refl (step-Progress p h) (λ q less r. run-Ends fuel q r (omega arith))
  where
    go :
        (m : Pass)
        → step p ≡ m
        → Progress p m
        → ((q : Parser) → weight q < weight p → ready q.next_state ≡ true → Ends fuel q)
        → Ends (suc fuel) p
    go (returns a b f) e g ih =
        inl (record { accepted = a; bad_format = b; files = f }, rw (e, run) refl)
    go (goes q) e (inl (less, r)) ih = Ends-next fuel e (ih q less r)
    go (goes q) e (inr same) ih = inr (record { stuck = p; met = here; idle = e ∙ ap goes same })

run-idle : (fuel : ℕ) {p : Parser} → step p ≡ goes p → run fuel p ≡ none
unfolding run
run-idle zero e = refl
run-idle (suc fuel) e = rw (e, run) (run-idle fuel e)

pub run-Reaches : (fuel : ℕ) {p q : Parser} → Reaches p q → step q ≡ goes q → run fuel p ≡ none
unfolding run
run-Reaches fuel here e = run-idle fuel e
run-Reaches zero (pass s r) e = refl
run-Reaches (suc fuel) (pass s r) e = rw (s, run) (run-Reaches fuel r e)

run_agrees : (f g : ℕ) (p : Parser) (r t : Parsed) → run f p ≡ some r → run g p ≡ some t → r ≡ t
unfolding run
run_agrees zero g p r t e d = cc
run_agrees (suc f) zero p r t e d = cc
run_agrees (suc f) (suc g) p r t e d = go (step p) refl (run_agrees f g)
  where
    go :
        (m : Pass)
        → step p ≡ m
        → ((q : Parser) (r t : Parsed) → run f q ≡ some r → run g q ≡ some t → r ≡ t)
        → r ≡ t
    go (returns a b files) s ih = let left = rw (s, run) at e in let right = rw (s, run) at d in cc
    go (goes q) s ih = ih q r t (rw (s, run) at e) (rw (s, run) at d)

-- On every text the loop either ends within the bound of `parse_files`, or comes to a pass that
-- changes nothing, and then no number of passes is enough.
pub parse_files_decides :
    (files : FileTable) (text : Bytes)
    → ((r : Parsed) × (parse_files files text ≡ some r))
      ⊎ (RunsForever (initial files text) × ((fuel : ℕ) → run fuel (initial files text) ≡ none))
unfolding parse_files
parse_files_decides files text =
    elim (run-Ends (5 * length text + 9) (initial files text) first small) [
      | inl done ↦ inl done
      | inr s ↦ inr (s, λ fuel. run-Reaches fuel s.met s.idle)
    ]
  where
    first : ready (initial files text).next_state ≡ true
    first = unfold initial in refl

    small : weight (initial files text) < 5 * length text + 9
    small =
        unfold initial in
        omega (arith, length-append text (0 ∷ []), spaces_rank-le start start (text ++ 0 ∷ []))

-- The bound of `parse_files` loses nothing: whatever any number of passes returns, it returns.
pub parse_files_complete :
    (fuel : ℕ) (files : FileTable) (text : Bytes) {r : Parsed}
    → run fuel (initial files text) ≡ some r
    → parse_files files text ≡ some r
unfolding parse_files
parse_files_complete fuel files text {r} e = elim (parse_files_decides files text) [
  | inl (t, d) ↦ d ∙ ap some (agrees t d)
  | inr (s, never) ↦ let clash = sym (never fuel) ∙ e in cc
]
  where
    agrees : (t : Parsed) → parse_files files text ≡ some t → t ≡ r
    agrees t d = run_agrees (5 * length text + 9) fuel (initial files text) t r d e
